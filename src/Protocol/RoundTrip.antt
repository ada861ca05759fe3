-- ===== src/Protocol/RoundTrip.antt =====
-- Requests and responses survive the wire, and no response is taken for one of another kind.
use rpmem.Base.{◌≡◌, refl, none, some, arith, slice, if◌then◌else◌}
use rpmem.Protocol.{
  Buf, IsCmd, zeroed, pack_open_req, pack_open_rsp, unpack_open_rsp, pack_close_req, pack_close_rsp,
  unpack_close_rsp, pack_map_req, pack_map_rsp, unpack_map_rsp, pack_unmap_req, pack_unmap_rsp,
  unpack_unmap_rsp, pack_commit_req, pack_commit_rsp, unpack_commit_rsp, opcode_only-opcode,
  short-opcode, short-word, long-opcode, long-word, long-addr, get_u32, be_value,
}
use rpmem.Protocol.Spec.{
  Request, Response, Kind, kind, same_kind, RequestFits, ResponseFits, pack_request, pack_response,
  parse_request, unpack_response,
}

-- A request that is packed into any command buffer, whatever it held before, is parsed back to the
-- same request, if its fields fit their widths.
pub parse-pack_request :
    (r : Request) (b : Buf) → IsCmd b → RequestFits r → parse_request (pack_request r b) ≡ some r
unfolding parse_request pack_request pack_open_req pack_close_req pack_map_req pack_unmap_req
    pack_commit_req
parse-pack_request Request.opening b h fits = rw (opcode_only-opcode b h)
parse-pack_request Request.closing b h fits = rw (opcode_only-opcode b h)
parse-pack_request (Request.mapping len) b h fits =
    ground (arith, short-opcode b h 4 len, short-word b h 4 len)
parse-pack_request (Request.unmapping len a) b h fits =
    ground (arith, long-opcode b h 6 len a, long-word b h 6 len a, long-addr b h 6 len a fits.1)
parse-pack_request (Request.committing len a) b h fits =
    ground (arith, long-opcode b h 8 len a, long-word b h 8 len a, long-addr b h 8 len a fits.1)

-- A response that is packed into any command buffer is accepted by the unpack function of its own
-- kind, which gives its fields back, and is refused by those of the four other kinds.
pub unpack-pack_response :
    (k : Kind) (r : Response) (b : Buf)
    → IsCmd b
    → ResponseFits r
    → unpack_response k (pack_response r b) ≡ (if same_kind k (kind r) then some r else none)
unfolding unpack_response pack_response pack_open_rsp unpack_open_rsp pack_close_rsp
    unpack_close_rsp pack_map_rsp unpack_map_rsp pack_unmap_rsp unpack_unmap_rsp pack_commit_rsp
    unpack_commit_rsp
unpack-pack_response k (Response.opening v) b h fits =
    ground (arith, short-opcode b h 1 v, short-word b h 1 v)
unpack-pack_response k (Response.closing v) b h fits =
    ground (arith, short-opcode b h 3 v, short-word b h 3 v)
unpack-pack_response k (Response.mapping v a) b h fits =
    ground (arith, long-opcode b h 5 v a, long-word b h 5 v a, long-addr b h 5 v a fits.1)
unpack-pack_response k (Response.unmapping v) b h fits =
    ground (arith, short-opcode b h 7 v, short-word b h 7 v)
unpack-pack_response k (Response.committing v) b h fits =
    ground (arith, short-opcode b h 9 v, short-word b h 9 v)

-- A buffer that was cleared and into which no response came is refused by every unpack function.
pub unpack_response-zeroed : (k : Kind) → unpack_response k zeroed ≡ none
unfolding unpack_response unpack_open_rsp unpack_close_rsp unpack_map_rsp unpack_unmap_rsp
    unpack_commit_rsp get_u32 be_value slice
unpack_response-zeroed Kind.opening = refl
unpack_response-zeroed Kind.closing = refl
unpack_response-zeroed Kind.mapping = refl
unpack_response-zeroed Kind.unmapping = refl
unpack_response-zeroed Kind.committing = refl
