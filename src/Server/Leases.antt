-- ===== src/Server/Leases.antt =====
-- What the server promises about its resources: a resource is free, or leased to a unit. The order
-- of the pool is forgotten.
use mathlib.Core.Quot
use mathlib.Core.Quot.{Quot, Quot-set}
use rpmem.Base.{ℕ, ◌≡◌, ◌≢◌, refl, sym, arith, some, List, ◌∷◌}
use rpmem.Machine.{Call, Os, After, After-mono}
use rpmem.Server.{Server, ServerUnit, take_resource, return_resource, cq_round}
use rpmem.Server.Pool.{first_fit}
use rpmem.Server.Keeps.{Property, PoolLaws}
use rpmem.Server.EventsKeep.{cq_round_keeps}
use rpmem.Server.Accounts.{count, count-remove, count-remove-le}

-- Two lists hold the same resources, as often.
abbrev pub SamePool : List ℕ → List ℕ → Type 0
SamePool ps qs = (a : ℕ) → count a ps ≡ count a qs

abbrev pub Pool : Type 0
Pool = Quot SamePool

abbrev pub pool_of : List ℕ → Pool
pool_of = Quot.mk

unfoldable pub put : ℕ → Pool → Pool
put p =
    Quot.lift Quot-set (λ ps. pool_of (p ∷ ps)) (λ ps qs h. Quot.sound (λ a. omega (arith, h a)))

-- The resources that are free, and the one that a unit holds; 0 stands for none.
pub record Lease : Type 0 where
  pub free : Pool
  pub held : ℕ

-- A lease begins, whereby what the unit held is lost, or ends.
pub data Move (from to : Lease) : Type 0 where
  take : (p : ℕ) → p ≢ 0 → from.free ≡ put p to.free → to.held ≡ p → Move from to
  give : from.held ≢ 0 → to.free ≡ put from.held from.free → to.held ≡ 0 → Move from to

pub data Moves (from : Lease) : Lease → Type 0 where
  here : Moves from from
  next : {to last : Lease} → Moves from to → Move to last → Moves from last

abbrev pub lease_of : Server → ℕ → Lease
lease_of s r = record { free = pool_of s.res_list; held = r }

-- The server and a unit have come where the moves of a lease lead.
abbrev pub Follows : Lease → Property
Follows from s r = (count 0 s.res_list ≡ 0) × Moves from (lease_of s r)

module _ (from : Lease) where
  taken-Follows :
      (u : ServerUnit) (len p : ℕ)
      → first_fit u.server.heap len u.server.res_list ≡ some p
      → Follows from u.server u.res
      → Follows from (take_resource p u).server p
  unfolding put
  taken-Follows u len p found (no_null, moves) = (
    omega (arith, count-remove-le 0 p u.server.res_list, no_null),
    Moves.next moves (
        Move.take p
          (λ null.
            ground
              (arith, null, no_null, count-remove u.server.heap len 0 p u.server.res_list found))
          (Quot.sound (λ a. sym (count-remove u.server.heap len a p u.server.res_list found)))
          refl),
  )

  returned-Follows :
      (u : ServerUnit)
      → u.res ≢ 0
      → Follows from u.server u.res
      → Follows from (return_resource u.res u).server 0
  unfolding put
  returned-Follows u there (no_null, moves) =
      (ground (arith, no_null), Moves.next moves (Move.give there refl refl))

  Follows-laws : PoolLaws (Follows from)
  Follows-laws = record {
    stored = λ u p r same h. h;
    taken = taken-Follows;
    returned = returned-Follows;
  }

-- A round of `cq_thread` that comes to its end does to the resources what leases allow, whatever
-- completions arrive and whatever the calls answer: it begins leases with free resources and ends the
-- lease of its own unit, in some order, and touches nothing else of the pool, if there is no NULL in
-- the pool before it.
pub cq_round-Moves :
    (os : Os) (u : ServerUnit) (cs : List Call)
    → count 0 u.server.res_list ≡ 0
    → After
        (λ _ u' _. Moves (lease_of u.server u.res) (lease_of u'.server u'.res))
        (cq_round os u cs)
cq_round-Moves os u cs no_null =
    let from = lease_of u.server u.res in
    After-mono (λ _ u' _. Follows from u'.server u'.res) _ (cq_round os u cs) (λ _ u' cs' h. h.1)
      (cq_round_keeps os (Follows from) (Follows-laws from) u cs (no_null, Moves.here))
