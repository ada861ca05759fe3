-- ===== src/Server/Accounts.antt =====
-- The server's books, and who holds what: the two invariants of rpmem_server.c.
use rpmem.Base.{ℕ, ◌+◌, ◌≤◌, ◌≡◌, ◌≢◌, some, List, [], ◌∷◌, ◌==◌, arith, if◌then◌else◌, u32}
use rpmem.Machine.{Call, Os, After}
use rpmem.Server.{
  Resource, Heap, Server, ServerUnit, set_resource, take_resource, return_resource, remove,
  cq_round,
}
use rpmem.Server.Pool.{first_fit, pool_size, pool_size-remove, pool_size-update}
use rpmem.Server.Keeps.{Property, PoolLaws}
use rpmem.Server.EventsKeep.{cq_round_keeps}

-- `free_size` is the sum of the sizes in the pool, and with `in_use_size` it makes up `total_size`,
-- as ints of 32 bits add up.
pub record IsBalanced (s : Server) : Type 0 where
  pub free : s.free_size ≡ pool_size s.heap s.res_list
  pub total : u32 (s.free_size + s.in_use_size) ≡ s.total_size

abbrev pub Balanced : Property
Balanced s r = IsBalanced s

stored-IsBalanced :
    (u : ServerUnit) (p : ℕ) (r : Resource)
    → r.st_size ≡ (u.server.heap p).st_size
    → IsBalanced u.server
    → IsBalanced (set_resource p r u).server
stored-IsBalanced u p r same h =
    ground (arith, pool_size-update u.server.heap p r u.server.res_list same)

taken-IsBalanced :
    (u : ServerUnit) (len p : ℕ)
    → first_fit u.server.heap len u.server.res_list ≡ some p
    → IsBalanced u.server
    → IsBalanced (take_resource p u).server
taken-IsBalanced u len p found h =
    ground (arith, pool_size-remove u.server.heap len u.server.res_list p found)

returned-IsBalanced :
    (u : ServerUnit) → u.res ≢ 0 → IsBalanced u.server → IsBalanced (return_resource u.res u).server
unfolding pool_size
returned-IsBalanced u there h = ground arith

pub Balanced-laws : PoolLaws Balanced
Balanced-laws = record {
  stored = stored-IsBalanced;
  taken = taken-IsBalanced;
  returned = returned-IsBalanced;
}

-- Occurrences in a list of pointers.
abbrev pub count : ℕ → List ℕ → ℕ
count a [] = 0
count a (x ∷ xs) = (if x == a then 1 else 0) + count a xs

-- The pool together with the resource that a unit holds, if it holds one.
abbrev pub holdings : ℕ → List ℕ → List ℕ
holdings r pool = if r == 0 then pool else r ∷ pool

-- Beside what the other units hold, no resource is in two places: twice in the pool, in the pool
-- and with a unit, or with two units. NULL is in no pool.
pub record IsExclusive (others : List ℕ) (s : Server) (r : ℕ) : Type 0 where
  pub once : (a : ℕ) → count a (holdings r s.res_list) + count a others ≤ 1
  pub no_null : count 0 s.res_list ≡ 0

abbrev pub Exclusive : List ℕ → Property
Exclusive others s r = IsExclusive others s r

pub count-remove-le : (a p : ℕ) (ps : List ℕ) → count a (remove p ps) ≤ count a ps
unfolding remove
count-remove-le a p [] = omega arith
count-remove-le a p (q ∷ ps) = ground (arith, count-remove-le a p ps)

pub count-remove :
    (heap : Heap) (len a p : ℕ) (ps : List ℕ)
    → first_fit heap len ps ≡ some p
    → count a (p ∷ remove p ps) ≡ count a ps
unfolding remove first_fit
count-remove heap len a p [] h = cc
count-remove heap len a p (q ∷ ps) h = ground (arith, count-remove heap len a p ps)

module _ (others : List ℕ) where
  taken-IsExclusive :
      (u : ServerUnit) (len p : ℕ)
      → first_fit u.server.heap len u.server.res_list ≡ some p
      → IsExclusive others u.server u.res
      → IsExclusive others (take_resource p u).server p
  taken-IsExclusive u len p found h = record {
    once =
        λ a. ground (arith, count-remove u.server.heap len a p u.server.res_list found, h.once a);
    no_null = ground (arith, count-remove-le 0 p u.server.res_list, h.no_null);
  }

  returned-IsExclusive :
      (u : ServerUnit)
      → u.res ≢ 0
      → IsExclusive others u.server u.res
      → IsExclusive others (return_resource u.res u).server 0
  returned-IsExclusive u there h = record {
    once = λ a. ground (arith, h.once a);
    no_null = ground (arith, h.no_null);
  }

  pub Exclusive-laws : PoolLaws (Exclusive others)
  Exclusive-laws = record {
    stored = λ u p r same h. record { once = h.once; no_null = h.no_null };
    taken = taken-IsExclusive;
    returned = returned-IsExclusive;
  }

-- Whatever completions arrive and whatever the calls answer, a round of `cq_thread` that comes to
-- its end leaves the books in order: if before it `free_size` was the sum of the sizes in the pool
-- and `free_size + in_use_size` was `total_size`, both in 32 bits, this holds after it.
pub cq_round-IsBalanced :
    (os : Os) (u : ServerUnit) (cs : List Call)
    → IsBalanced u.server
    → After (λ _ u' _. IsBalanced u'.server) (cq_round os u cs)
cq_round-IsBalanced os u cs h = cq_round_keeps os Balanced Balanced-laws u cs h

-- A round of `cq_thread` that comes to its end hands no resource out twice: if before it every
-- resource was in at most one place, among the pool, this unit and the other units, and the pool
-- held no NULL, this holds after it.
pub cq_round-IsExclusive :
    (os : Os) (others : List ℕ) (u : ServerUnit) (cs : List Call)
    → IsExclusive others u.server u.res
    → After (λ _ u' _. IsExclusive others u'.server u'.res) (cq_round os u cs)
cq_round-IsExclusive os others u cs h =
    cq_round_keeps os (Exclusive others) (Exclusive-laws others) u cs h
