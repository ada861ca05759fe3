-- ===== src/Protocol/Tests.antt =====
-- The wire format at concrete commands, and the theorems on it at concrete inputs.
use rpmem.Base.{◌≡◌, refl, some, none, [], ◌∷◌, arith, slice, write}
use rpmem.Protocol.{zeroed, zeroed-IsCmd, be32, put_u32, put_u64, pack_unmap_req}
use rpmem.Protocol.Spec.{
  Request, Response, Kind, pack_request, pack_response, parse_request, unpack_response,
}
use rpmem.Protocol.RoundTrip.{parse-pack_request, unpack-pack_response}

-- The first 16 bytes of an unmap request for 4096 bytes at 0x7f00_0000_1000.
unmap_bytes :
    slice 0 16 (pack_unmap_req zeroed 4096 0x7f00_0000_1000)
    ≡ 0 ∷ 0 ∷ 0 ∷ 6 ∷ 0 ∷ 0 ∷ 16 ∷ 0 ∷ 0 ∷ 0 ∷ 127 ∷ 0 ∷ 0 ∷ 0 ∷ 16 ∷ 0 ∷ []
unfolding slice write be32 put_u32 put_u64 pack_unmap_req
unmap_bytes = refl

parse-pack_request_example :
    parse_request (pack_request (Request.unmapping 4096 0x7f00_0000_1000) zeroed)
    ≡ some (Request.unmapping 4096 0x7f00_0000_1000)
parse-pack_request_example =
    parse-pack_request (Request.unmapping 4096 0x7f00_0000_1000) zeroed zeroed-IsCmd (omega arith)

unpack-pack_response_example :
    unpack_response Kind.unmapping (pack_response (Response.mapping 77 0x7f00_0000_1000) zeroed)
    ≡ none
unpack-pack_response_example =
    unpack-pack_response Kind.unmapping (Response.mapping 77 0x7f00_0000_1000) zeroed zeroed-IsCmd
      (omega arith)
