-- ===== src/Protocol/Frame.antt =====
-- What packing leaves alone.
use rpmem.Base.{◌≡◌, inr, arith, slice}
use rpmem.Protocol.{
  Buf, IsCmd, pack_open_req, pack_open_rsp, pack_close_req, pack_close_rsp, pack_map_req,
  pack_map_rsp, pack_unmap_req, pack_unmap_rsp, pack_commit_req, pack_commit_rsp, put_u32-IsCmd,
  short-IsCmd, long-IsCmd, slice-put_u32, slice-short, slice-long,
}
use rpmem.Protocol.Spec.{Request, Response, pack_request, pack_response}

-- Packing a request keeps the buffer at 48 bytes below 256, and leaves its last 32 bytes alone.
pub pack_request_frame :
    (r : Request) (b : Buf)
    → IsCmd b
    → IsCmd (pack_request r b) × (slice 16 32 (pack_request r b) ≡ slice 16 32 b)
unfolding pack_request pack_open_req pack_close_req pack_map_req pack_unmap_req pack_commit_req
pack_request_frame Request.opening b h =
    (put_u32-IsCmd 0 0 b h, slice-put_u32 16 32 0 0 b (inr (omega arith)))
pack_request_frame Request.closing b h =
    (put_u32-IsCmd 0 2 b h, slice-put_u32 16 32 0 2 b (inr (omega arith)))
pack_request_frame (Request.mapping len) b h =
    (short-IsCmd b h 4 len, slice-short 4 len b 16 32 (omega arith))
pack_request_frame (Request.unmapping len a) b h =
    (long-IsCmd b h 6 len a, slice-long 6 len a b 16 32 (omega arith))
pack_request_frame (Request.committing len a) b h =
    (long-IsCmd b h 8 len a, slice-long 8 len a b 16 32 (omega arith))

-- Packing a response keeps the buffer at 48 bytes below 256, and leaves its last 32 bytes alone.
pub pack_response_frame :
    (r : Response) (b : Buf)
    → IsCmd b
    → IsCmd (pack_response r b) × (slice 16 32 (pack_response r b) ≡ slice 16 32 b)
unfolding pack_response pack_open_rsp pack_close_rsp pack_map_rsp pack_unmap_rsp pack_commit_rsp
pack_response_frame (Response.opening v) b h =
    (short-IsCmd b h 1 v, slice-short 1 v b 16 32 (omega arith))
pack_response_frame (Response.closing v) b h =
    (short-IsCmd b h 3 v, slice-short 3 v b 16 32 (omega arith))
pack_response_frame (Response.mapping v a) b h =
    (long-IsCmd b h 5 v a, slice-long 5 v a b 16 32 (omega arith))
pack_response_frame (Response.unmapping v) b h =
    (short-IsCmd b h 7 v, slice-short 7 v b 16 32 (omega arith))
pack_response_frame (Response.committing v) b h =
    (short-IsCmd b h 9 v, slice-short 9 v b 16 32 (omega arith))
