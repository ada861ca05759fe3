-- ===== src/Protocol/Spec.antt =====
-- The messages of the protocol as values, apart from their layout: what the ten structs of
-- rpmem_protocol.h carry. `parse_request` reads a request the way the handlers of rpmem_server.c
-- do, and `unpack_response` a response by the unpack functions of rpmem_protocol.c.
use rpmem.Base.{ℕ, ◌<◌, Bool, Option, none, some, ◌==◌, if◌then◌else◌}
use rpmem.Protocol.{
  Buf, Opcode, opcode_value, opcode_at, len_at, remote_addr_at, get_u32, get_u64, pack_open_req,
  pack_open_rsp, unpack_open_rsp, pack_close_req, pack_close_rsp, unpack_close_rsp, pack_map_req,
  pack_map_rsp, unpack_map_rsp, pack_unmap_req, pack_unmap_rsp, unpack_unmap_rsp, pack_commit_req,
  pack_commit_rsp, unpack_commit_rsp,
}

pub data Request : Type 0 where
  opening closing : Request
  mapping : ℕ → Request
  unmapping committing : ℕ → ℕ → Request

pub data Response : Type 0 where
  opening closing unmapping committing : ℕ → Response
  mapping : ℕ → ℕ → Response

pub data Kind : Type 0 where
  opening closing mapping unmapping committing : Kind

abbrev pub kind : Response → Kind
kind (Response.opening size) = Kind.opening
kind (Response.closing ret) = Kind.closing
kind (Response.mapping rkey remote_addr) = Kind.mapping
kind (Response.unmapping ret) = Kind.unmapping
kind (Response.committing ret) = Kind.committing

abbrev kind_number : Kind → ℕ
kind_number Kind.opening = 0
kind_number Kind.closing = 1
kind_number Kind.mapping = 2
kind_number Kind.unmapping = 3
kind_number Kind.committing = 4

abbrev pub same_kind : Kind → Kind → Bool
same_kind j k = kind_number j == kind_number k

abbrev IsU32 : ℕ → Type 0
IsU32 n = n < 4294967296

abbrev IsU64 : ℕ → Type 0
IsU64 n = n < 18446744073709551616

-- Every field fits its width.
abbrev pub RequestFits : Request → Type 0
RequestFits Request.opening = Unit
RequestFits Request.closing = Unit
RequestFits (Request.mapping len) = IsU32 len
RequestFits (Request.unmapping len remote_addr) = IsU32 len × IsU64 remote_addr
RequestFits (Request.committing len remote_addr) = IsU32 len × IsU64 remote_addr

abbrev pub ResponseFits : Response → Type 0
ResponseFits (Response.opening size) = IsU32 size
ResponseFits (Response.closing ret) = IsU32 ret
ResponseFits (Response.mapping rkey remote_addr) = IsU32 rkey × IsU64 remote_addr
ResponseFits (Response.unmapping ret) = IsU32 ret
ResponseFits (Response.committing ret) = IsU32 ret

unfoldable pub pack_request : Request → Buf → Buf
pack_request Request.opening b = pack_open_req b
pack_request Request.closing b = pack_close_req b
pack_request (Request.mapping len) b = pack_map_req b len
pack_request (Request.unmapping len remote_addr) b = pack_unmap_req b len remote_addr
pack_request (Request.committing len remote_addr) b = pack_commit_req b len remote_addr

unfoldable pub pack_response : Response → Buf → Buf
pack_response (Response.opening size) b = pack_open_rsp size b
pack_response (Response.closing ret) b = pack_close_rsp ret b
pack_response (Response.mapping rkey remote_addr) b = pack_map_rsp b rkey remote_addr
pack_response (Response.unmapping ret) b = pack_unmap_rsp b ret
pack_response (Response.committing ret) b = pack_commit_rsp b ret

-- The fields that the handler of an opcode reads.
unfoldable pub parse_request : Buf → Option Request
parse_request b =
    let op = get_u32 opcode_at b in
    let len = get_u32 len_at b in
    let remote_addr = get_u64 remote_addr_at b in
    if op == opcode_value Opcode.open_req
    then some Request.opening
    else if op == opcode_value Opcode.close_req
    then some Request.closing
    else if op == opcode_value Opcode.map_req
    then some (Request.mapping len)
    else if op == opcode_value Opcode.unmap_req
    then some (Request.unmapping len remote_addr)
    else if op == opcode_value Opcode.commit_req
    then some (Request.committing len remote_addr)
    else none

abbrev accepted : ℕ → Response → Option Response
accepted ret r = if ret == 0 then some r else none

-- What a caller of the unpack function of a kind learns: the fields, or that it failed.
unfoldable pub unpack_response : Kind → Buf → Option Response
unpack_response Kind.opening b =
    let (ret, size) = unpack_open_rsp b 0 in accepted ret (Response.opening size)
unpack_response Kind.closing b =
    let (ret, close_ret) = unpack_close_rsp b 0 in accepted ret (Response.closing close_ret)
unpack_response Kind.mapping b =
    let (ret, rkey, remote_addr) = unpack_map_rsp b 0 0 in
    accepted ret (Response.mapping rkey remote_addr)
unpack_response Kind.unmapping b =
    let (ret, unmap_ret) = unpack_unmap_rsp b 0 in accepted ret (Response.unmapping unmap_ret)
unpack_response Kind.committing b =
    let (ret, commit_ret) = unpack_commit_rsp b 0 in accepted ret (Response.committing commit_ret)
