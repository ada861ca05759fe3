-- ===== src/Protocol/Messages.antt =====
-- The opcodes and structs of rpmem_protocol.h, and the pack and unpack functions of
-- rpmem_protocol.c. All ten structs start with a 32-bit opcode; a 32-bit field follows at offset 4,
-- and `remote_addr`, where there is one, stands at offset 8.
use rpmem.Base.{ℕ, ◌==◌, if◌then◌else◌}
use rpmem.Protocol.Buffer.{Buf, put_u32, get_u32, put_u64, get_u64}

-- `enum rpmem_opcode`
pub data Opcode : Type 0 where
  open_req open_rsp close_req close_rsp map_req map_rsp : Opcode
  unmap_req unmap_rsp commit_req commit_rsp cmd_last : Opcode

abbrev pub opcode_value : Opcode → ℕ
opcode_value open_req = 0
opcode_value open_rsp = 1
opcode_value close_req = 2
opcode_value close_rsp = 3
opcode_value map_req = 4
opcode_value map_rsp = 5
opcode_value unmap_req = 6
opcode_value unmap_rsp = 7
opcode_value commit_req = 8
opcode_value commit_rsp = 9
opcode_value cmd_last = 10

-- -EINVAL
abbrev pub minus_einval : ℕ
minus_einval = 4294967274

-- Offsets of the fields in the request and response structs.
abbrev pub opcode_at : ℕ
opcode_at = 0

abbrev pub len_at : ℕ
len_at = 4

abbrev pub size_at : ℕ
size_at = 4

abbrev pub ret_at : ℕ
ret_at = 4

abbrev pub rkey_at : ℕ
rkey_at = 4

abbrev pub remote_addr_at : ℕ
remote_addr_at = 8

unfoldable pub pack_open_req : Buf → Buf
pack_open_req req = put_u32 opcode_at (opcode_value open_req) req

unfoldable pub pack_open_rsp : ℕ → Buf → Buf
pack_open_rsp size rsp = put_u32 size_at size (put_u32 opcode_at (opcode_value open_rsp) rsp)

-- An unpack function returns its result and the new value of what its pointers point to.
unfoldable pub unpack_open_rsp : Buf → ℕ → ℕ × ℕ
unpack_open_rsp rsp size =
    if get_u32 opcode_at rsp == opcode_value open_rsp
    then (0, get_u32 size_at rsp)
    else (minus_einval, size)

unfoldable pub pack_close_req : Buf → Buf
pack_close_req req = put_u32 opcode_at (opcode_value close_req) req

unfoldable pub pack_close_rsp : ℕ → Buf → Buf
pack_close_rsp ret rsp = put_u32 ret_at ret (put_u32 opcode_at (opcode_value close_rsp) rsp)

unfoldable pub unpack_close_rsp : Buf → ℕ → ℕ × ℕ
unpack_close_rsp rsp ret =
    if get_u32 opcode_at rsp == opcode_value close_rsp
    then (0, get_u32 ret_at rsp)
    else (minus_einval, ret)

unfoldable pub pack_map_req : Buf → ℕ → Buf
pack_map_req req len = put_u32 len_at len (put_u32 opcode_at (opcode_value map_req) req)

unfoldable pub pack_map_rsp : Buf → ℕ → ℕ → Buf
pack_map_rsp rsp rkey remote_addr =
    put_u64 remote_addr_at remote_addr
      (put_u32 rkey_at rkey (put_u32 opcode_at (opcode_value map_rsp) rsp))

unfoldable pub unpack_map_rsp : Buf → ℕ → ℕ → ℕ × ℕ × ℕ
unpack_map_rsp rsp rkey remote_addr =
    if get_u32 opcode_at rsp == opcode_value map_rsp
    then (0, get_u32 rkey_at rsp, get_u64 remote_addr_at rsp)
    else (minus_einval, rkey, remote_addr)

unfoldable pub pack_unmap_req : Buf → ℕ → ℕ → Buf
pack_unmap_req req len remote_addr =
    put_u64 remote_addr_at remote_addr
      (put_u32 len_at len (put_u32 opcode_at (opcode_value unmap_req) req))

unfoldable pub pack_unmap_rsp : Buf → ℕ → Buf
pack_unmap_rsp rsp ret = put_u32 ret_at ret (put_u32 opcode_at (opcode_value unmap_rsp) rsp)

unfoldable pub unpack_unmap_rsp : Buf → ℕ → ℕ × ℕ
unpack_unmap_rsp rsp ret =
    if get_u32 opcode_at rsp == opcode_value unmap_rsp
    then (0, get_u32 ret_at rsp)
    else (minus_einval, ret)

unfoldable pub pack_commit_req : Buf → ℕ → ℕ → Buf
pack_commit_req req len remote_addr =
    put_u64 remote_addr_at remote_addr
      (put_u32 len_at len (put_u32 opcode_at (opcode_value commit_req) req))

unfoldable pub pack_commit_rsp : Buf → ℕ → Buf
pack_commit_rsp rsp ret = put_u32 ret_at ret (put_u32 opcode_at (opcode_value commit_rsp) rsp)

unfoldable pub unpack_commit_rsp : Buf → ℕ → ℕ × ℕ
unpack_commit_rsp rsp ret =
    if get_u32 opcode_at rsp == opcode_value commit_rsp
    then (0, get_u32 ret_at rsp)
    else (minus_einval, ret)
