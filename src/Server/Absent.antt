-- ===== src/Server/Absent.antt =====
-- A resource that is with no unit and not in the pool.
use rpmem.Base.{ℕ, ◌+◌, ◌≡◌, ◌≢◌, some, List, arith}
use rpmem.Server.{ServerUnit, take_resource, return_resource}
use rpmem.Server.Keeps.{Property, PoolLaws}
use rpmem.Server.Pool.{first_fit}
use rpmem.Server.Accounts.{count, count-remove, holdings}

-- `a` is neither in the pool nor with the unit nor among what the other units hold.
abbrev pub IsAbsent : ℕ → List ℕ → Property
IsAbsent a others s r = count a (holdings r s.res_list) + count a others ≡ 0

module _ (a : ℕ) (others : List ℕ) where
  taken-IsAbsent :
      (u : ServerUnit) (len p : ℕ)
      → first_fit u.server.heap len u.server.res_list ≡ some p
      → IsAbsent a others u.server u.res
      → IsAbsent a others (take_resource p u).server p
  taken-IsAbsent u len p found h =
      ground (arith, count-remove u.server.heap len a p u.server.res_list found, h)

  returned-IsAbsent :
      (u : ServerUnit)
      → u.res ≢ 0
      → IsAbsent a others u.server u.res
      → IsAbsent a others (return_resource u.res u).server 0
  returned-IsAbsent u there h = ground (arith, h)

  pub IsAbsent-laws : PoolLaws (IsAbsent a others)
  IsAbsent-laws = record {
    stored = λ u p r same h. h;
    taken = taken-IsAbsent;
    returned = returned-IsAbsent;
  }
