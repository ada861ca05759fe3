-- ===== src/Conn/Address.antt =====
-- `get_addr` of rpmem_common.c, which the server and the example programs call.
use rpmem.Base.{ℕ, Bool, true, false, ◌==◌, if◌then◌else◌, minus_one}
use rpmem.Machine.{Family, Call, Os, M, ◌>>=◌, ◌>>◌, pure, call, call_, in_memory}

abbrev pub is_known : Family → Bool
is_known Family.other_family = false
is_known _ = true

-- `get_addr`, but for the address that it copies.
unfoldable pub get_addr : {L : Type 0} → Os → M L ℕ
get_addr os = do
  ret ← call os Call.getaddrinfo
  family ← in_memory os.ai_family
  if ret == 0
      then call_ os Call.freeaddrinfo >> pure (if is_known family then ret else minus_one)
      else pure ret
