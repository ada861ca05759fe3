-- ===== src/Server/Single.antt =====
-- A server with one resource, which is what `main` of rpmem_server.c starts: where the resource is,
-- and what the sizes are.
use rpmem.Base.{ℕ, ◌+◌, ◌≡◌, ◌≢◌, ◌⊎◌, inl, inr, refl, some, List, [], ◌∷◌, arith}
use rpmem.Server.{Heap, Server, ServerUnit, int_size, take_resource, return_resource, remove}
use rpmem.Server.Pool.{first_fit}
use rpmem.Server.Keeps.{PoolLaws}
use rpmem.Server.Accounts.{count, holdings}

-- The resource at `res` is free and all of the size is, or it is taken and all of the size is in use.
abbrev pub Books : ℕ → ℕ → Server → Type 0
Books res size s =
    ((s.res_list ≡ res ∷ []) × (s.free_size ≡ size) × (s.in_use_size ≡ 0))
    ⊎ ((s.res_list ≡ []) × (s.free_size ≡ 0) × (s.in_use_size ≡ size))

-- Beside what the other units hold, the one resource is in one place: in the pool or with the unit.
pub record IsSingle (res size : ℕ) (others : List ℕ) (s : Server) (r : ℕ) : Type 0 where
  pub sized : int_size (s.heap res) ≡ size
  pub total : s.total_size ≡ size
  pub place : count res (holdings r s.res_list) + count res others ≡ 1
  pub own : (r ≡ 0) ⊎ (r ≡ res)
  pub books : Books res size s

first_fit-one : (heap : Heap) (len q p : ℕ) → first_fit heap len (q ∷ []) ≡ some p → p ≡ q
unfolding first_fit
first_fit-one heap len q p h = ground arith

first_fit-nil : (heap : Heap) (len p : ℕ) → first_fit heap len [] ≢ some p
unfolding first_fit
first_fit-nil heap len p h = cc

count-one : (a : ℕ) → count a (a ∷ []) ≡ 1
count-one a = ground arith

remove-one : (a : ℕ) → remove a (a ∷ []) ≡ []
unfolding remove
remove-one a = ground arith

module _ (res size : ℕ) (there : res ≢ 0) (others : List ℕ) where
  -- What can be taken is the one resource.
  taken-Books :
      (u : ServerUnit) (len p : ℕ)
      → first_fit u.server.heap len u.server.res_list ≡ some p
      → Books res size u.server
      → (p ≡ res)
        × (u.server.res_list ≡ res ∷ [])
        × (u.server.free_size ≡ size)
        × (u.server.in_use_size ≡ 0)
  taken-Books u len p found books = elim books [
    | inl (pool, free, in_use) ↦
        (first_fit-one u.server.heap len res p (rw pool at found), pool, free, in_use)
    | inr (pool, _, _) ↦ absurd (first_fit-nil u.server.heap len p (rw pool at found))
  ]

  taken-IsSingle :
      (u : ServerUnit) (len p : ℕ)
      → first_fit u.server.heap len u.server.res_list ≡ some p
      → IsSingle res size others u.server u.res
      → IsSingle res size others (take_resource p u).server p
  taken-IsSingle u len p found h =
      let (same, pool, free, in_use) = taken-Books u len p found h.books in
      let left : remove p u.server.res_list ≡ [] = rw (same, pool) (remove-one res) in
      record {
        sized = h.sized;
        total = h.total;
        place = rw (left, same) (ground (arith, count-one res, h.place, pool));
        own = inr same;
        books = inr (
          left,
          rw (same, free, h.sized) (omega (arith, h.sized)),
          rw (same, in_use) (omega (arith, h.sized)),
        );
      }

  -- What a unit brings back is the one resource.
  returned-Books :
      (u : ServerUnit)
      → u.res ≢ 0
      → IsSingle res size others u.server u.res
      → (u.res ≡ res)
        × (u.server.res_list ≡ [])
        × (u.server.free_size ≡ 0)
        × (u.server.in_use_size ≡ size)
  returned-Books u held h = elim h.own [
    | inl nothing ↦ absurd (held nothing)
    | inr same ↦ elim h.books [
      | inl (pool, _, _) ↦ absurd (ground (arith, count-one res, h.place, pool, same))
      | inr (pool, free, in_use) ↦ (same, pool, free, in_use)
    ]
  ]

  returned-IsSingle :
      (u : ServerUnit)
      → u.res ≢ 0
      → IsSingle res size others u.server u.res
      → IsSingle res size others (return_resource u.res u).server 0
  returned-IsSingle u held h =
      let (same, pool, free, in_use) = returned-Books u held h in
      record {
        sized = h.sized;
        total = h.total;
        place = rw (pool, same) (ground (arith, count-one res, h.place, pool, same));
        own = inl refl;
        books = inl (
          rw (pool, same) refl,
          rw (same, free, h.sized) (omega (arith, h.sized)),
          rw (same, in_use, h.sized) (omega (arith, h.sized)),
        );
      }

  pub Single-laws : PoolLaws (IsSingle res size others)
  Single-laws = record {
    stored = λ u p r same h. record {
      sized = ground arith;
      total = h.total;
      place = h.place;
      own = h.own;
      books = h.books;
    };
    taken = taken-IsSingle;
    returned = returned-IsSingle;
  }
