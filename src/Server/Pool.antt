-- ===== src/Server/Pool.antt =====
-- The search of the pool: first fit, and what it does to the sum of the sizes.
use rpmem.Base.{
  ℕ, ◌<◌, ◌≡◌, refl, Bool, true, false, Option, none, some, List, [], ◌∷◌, ◌++◌, ap, arith, All,
  if◌then◌else◌, int_ltb, add32, sub32, Bool-cases, Option-cases, ◌⊎◌, ◌∙◌, inl, inr,
}
use rpmem.Machine.{Call, Os, Outcome, done}
use rpmem.Server.{Resource, Heap, ServerUnit, int_size, update, remove, take_resource, search_pool}

-- A resource fits a length that is smaller than its size.
abbrev pub fits : Heap → ℕ → ℕ → Bool
fits heap len p = int_ltb len (int_size (heap p))

unfoldable pub first_fit : Heap → ℕ → List ℕ → Option ℕ
first_fit heap len [] = none
first_fit heap len (p ∷ ps) = if fits heap len p then some p else first_fit heap len ps

-- What the loop leaves behind, by what it found.
abbrev pub searched : Option ℕ → ServerUnit → List Call → Outcome ServerUnit ℕ
searched none u cs = done 0 u cs
searched (some p) u cs = done p (take_resource p u) cs

-- The loop over the pool takes the first resource that fits and nothing else.
pub search_pool-first_fit :
    (os : Os) (len : ℕ) (ps : List ℕ) (u : ServerUnit) (cs : List Call)
    → search_pool os len ps u cs ≡ searched (first_fit u.server.heap len ps) u cs
unfolding search_pool first_fit
search_pool-first_fit os len [] u cs = refl
search_pool-first_fit os len (p ∷ ps) u cs = elim (Bool-cases (fits u.server.heap len p)) [
  | inl h ↦ rw h
  | inr h ↦ rw h (search_pool-first_fit os len ps u cs)
]

-- What was found fits, and all that stand in front of it do not.
pub first_fit-some :
    (heap : Heap) (len : ℕ) (ps : List ℕ) (p : ℕ)
    → first_fit heap len ps ≡ some p
    → (before after : List ℕ) × (ps ≡ before ++ p ∷ after)
      × (fits heap len p ≡ true)
      × All (λ q. fits heap len q ≡ false) before
unfolding first_fit
first_fit-some heap len [] p h = cc
first_fit-some heap len (q ∷ ps) p h = elim (Bool-cases (fits heap len q)) [
  | inl fit ↦ let same : q ≡ p = ground arith in ([], ps, ap (λ x. x ∷ ps) same, rw same at fit, tt)
  | inr misfit ↦
      let (before, after, split, fit, misfits) = first_fit-some heap len ps p (ground arith) in
      (q ∷ before, after, ap (λ l. q ∷ l) split, fit, (misfit, misfits))
]

pub first_fit-none :
    (heap : Heap) (len : ℕ) (ps : List ℕ)
    → first_fit heap len ps ≡ none
    → All (λ q. fits heap len q ≡ false) ps
unfolding first_fit
first_fit-none heap len [] h = tt
first_fit-none heap len (q ∷ ps) h = ground (arith, first_fit-none heap len ps)

-- The sum of the sizes, as the ints of the program add up.
unfoldable pub pool_size : Heap → List ℕ → ℕ
pool_size heap [] = 0
pool_size heap (p ∷ ps) = add32 (int_size (heap p)) (pool_size heap ps)

pool_size-lt : (heap : Heap) (ps : List ℕ) → pool_size heap ps < 4294967296
unfolding pool_size
pool_size-lt heap [] = omega arith
pool_size-lt heap (p ∷ ps) = omega arith

pub pool_size-remove :
    (heap : Heap) (len : ℕ) (ps : List ℕ) (p : ℕ)
    → first_fit heap len ps ≡ some p
    → pool_size heap (remove p ps) ≡ sub32 (pool_size heap ps) (int_size (heap p))
unfolding first_fit remove pool_size
pool_size-remove heap len [] p h = cc
pool_size-remove heap len (q ∷ ps) p h =
    ground (arith, pool_size-remove heap len ps p, pool_size-lt heap ps)

pub pool_size-update :
    (heap : Heap) (p : ℕ) (r : Resource) (ps : List ℕ)
    → r.st_size ≡ (heap p).st_size
    → pool_size (update heap p r) ps ≡ pool_size heap ps
unfolding pool_size
pool_size-update heap p r [] h = refl
pool_size-update heap p r (q ∷ ps) h = ground (arith, pool_size-update heap p r ps h)

-- The loop of `rpmem_handle_map` over a pool ends in one of two ways. Either some resource is larger
-- than `len`, as ints, and the first such is taken, all that stand in front of it being too small;
-- or none is, and then nothing changes and the result is NULL.
pub search_pool_takes_first :
    (os : Os) (len : ℕ) (ps : List ℕ) (u : ServerUnit) (cs : List Call)
    → ((p : ℕ) × (before after : List ℕ) × (ps ≡ before ++ p ∷ after)
        × (fits u.server.heap len p ≡ true)
        × All (λ q. fits u.server.heap len q ≡ false) before
        × (search_pool os len ps u cs ≡ done p (take_resource p u) cs))
      ⊎ (All (λ q. fits u.server.heap len q ≡ false) ps
          × (search_pool os len ps u cs ≡ done 0 u cs))
search_pool_takes_first os len ps u cs =
    let heap = u.server.heap in
    let runs = search_pool-first_fit os len ps u cs in
    elim (Option-cases (first_fit heap len ps)) [
      | inl nothing ↦
          inr (first_fit-none heap len ps nothing, runs ∙ ap (λ o. searched o u cs) nothing)
      | inr (p, found) ↦
          let (before, after, split, fit, misfits) = first_fit-some heap len ps p found in
          inl (p, before, after, split, fit, misfits, runs ∙ ap (λ o. searched o u cs) found)
    ]
