-- ===== src/Protocol/Carries.antt =====
-- What the unpack functions of a client return on bytes that carry a response.
use rpmem.Base.{ℕ, ◌≡◌, some, arith}
use rpmem.Protocol.{Buf, unpack_map_rsp, unpack_unmap_rsp, unpack_commit_rsp, unpack_open_rsp}
use rpmem.Protocol.Spec.{Response, kind, unpack_response}

-- The bytes are read as the response `r`.
abbrev pub Carries : Response → Buf → Type 0
Carries r b = unpack_response (kind r) b ≡ some r

pub unpack_commit_rsp-Carries :
    (ret unset : ℕ) (b : Buf)
    → Carries (Response.committing ret) b
    → unpack_commit_rsp b unset ≡ (0, ret)
unfolding unpack_response unpack_commit_rsp
unpack_commit_rsp-Carries ret unset b h = ground arith

pub unpack_unmap_rsp-Carries :
    (ret unset : ℕ) (b : Buf)
    → Carries (Response.unmapping ret) b
    → unpack_unmap_rsp b unset ≡ (0, ret)
unfolding unpack_response unpack_unmap_rsp
unpack_unmap_rsp-Carries ret unset b h = ground arith

pub unpack_map_rsp-Carries :
    (rkey addr k a : ℕ) (b : Buf)
    → Carries (Response.mapping rkey addr) b
    → unpack_map_rsp b k a ≡ (0, rkey, addr)
unfolding unpack_response unpack_map_rsp
unpack_map_rsp-Carries rkey addr k a b h = ground arith

pub unpack_open_rsp-Carries :
    (size unset : ℕ) (b : Buf)
    → Carries (Response.opening size) b
    → unpack_open_rsp b unset ≡ (0, size)
unfolding unpack_response unpack_open_rsp
unpack_open_rsp-Carries size unset b h = ground arith
