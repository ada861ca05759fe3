-- ===== src/Server/Since.antt =====
-- What of the order of the server a unit leaves as it finds it, whatever it does.
use rpmem.Base.{ℕ, ◌≢◌, List}
use rpmem.Server.{Server, ServerUnit}
use rpmem.Server.Keeps.{PoolLaws}
use rpmem.Server.Accounts.{IsBalanced, IsExclusive, Balanced-laws, Exclusive-laws}
use rpmem.Server.Absent.{IsAbsent, IsAbsent-laws}
use rpmem.Server.Single.{IsSingle, Single-laws}

-- The server and the resource of a unit are in order where they were in order at `u`.
pub record Since (u : ServerUnit) (s : Server) (r : ℕ) : Type 0 where
  pub balanced : IsBalanced u.server → IsBalanced s
  pub exclusive : (others : List ℕ) → IsExclusive others u.server u.res → IsExclusive others s r
  pub single :
      (res size : ℕ) (others : List ℕ)
      → res ≢ 0
      → IsSingle res size others u.server u.res
      → IsSingle res size others s r
  pub absent : (a : ℕ) (others : List ℕ) → IsAbsent a others u.server u.res → IsAbsent a others s r

pub Since-refl : (u : ServerUnit) → Since u u.server u.res
Since-refl u = record {
  balanced = λ b. b;
  exclusive = λ others e. e;
  single = λ res size others there h. h;
  absent = λ a others h. h;
}

pub Since-laws : (u : ServerUnit) → PoolLaws (Since u)
Since-laws u = record {
  stored = λ v p r same h. record {
    balanced = λ b. Balanced-laws.stored v p r same (h.balanced b);
    exclusive = λ others e. (Exclusive-laws others).stored v p r same (h.exclusive others e);
    single = λ res size others there g.
        (Single-laws res size there others).stored v p r same (h.single res size others there g);
    absent = λ a others g. (IsAbsent-laws a others).stored v p r same (h.absent a others g);
  };
  taken = λ v len p found h. record {
    balanced = λ b. Balanced-laws.taken v len p found (h.balanced b);
    exclusive = λ others e. (Exclusive-laws others).taken v len p found (h.exclusive others e);
    single = λ res size others there g.
        (Single-laws res size there others).taken v len p found (h.single res size others there g);
    absent = λ a others g. (IsAbsent-laws a others).taken v len p found (h.absent a others g);
  };
  returned = λ v held h. record {
    balanced = λ b. Balanced-laws.returned v held (h.balanced b);
    exclusive = λ others e. (Exclusive-laws others).returned v held (h.exclusive others e);
    single = λ res size others there g.
        (Single-laws res size there others).returned v held (h.single res size others there g);
    absent = λ a others g. (IsAbsent-laws a others).returned v held (h.absent a others g);
  };
}
