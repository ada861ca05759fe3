-- ===== src/Server/Threads/Safety.antt =====
-- What holds of the server in every interleaving of the sections of its handlers.
use mathlib.Core.Path.{subst}
use mathlib.Core.List.{map-append}
use rpmem.Base.{
  ◌<◌, All-any, All-mono, All-middle, All, ◌==◌, arith, inl, inr, Bool-cases, ℕ, ◌+◌, ◌≡◌, ◌≢◌, ◌≤◌,
  refl, sym, List, [], ◌∷◌, ◌++◌, map,
}
use rpmem.Machine.{Call, Os, M, done, Ensures-at}
use rpmem.Server.State.{Server, ServerUnit, int_size}
use rpmem.Server.Start.{start}
use rpmem.Server.Starting.{start_order, fresh-InOrder}
use rpmem.Server.Fleet.OneResource.{HoldsOne, FleetLaws, IsSound-laws, HoldsOne-laws}
use rpmem.Server.Accounts.{count}
use rpmem.Server.Fleet.{Member, Fleet, unit_of}
use rpmem.Server.Fleet.Invariant.{IsSound, all_held}
use rpmem.Server.Fleet.Safety.{alone-IsSound, only_there}
use rpmem.Server.Threads.{Cut, Worker, IsIdle, owners, member, Threads, seated, Turns}
use rpmem.Server.Threads.Quiet.{Kept}
use rpmem.Server.Threads.Invariant.{fleet_of, IsOrderly, IsSettled, Turns-IsOrderly, section-Kept}

-- The server at its start: `cm_thread` runs, and there is no unit yet.
abbrev pub quiet : Server → Threads
quiet s = record { server = s; workers = [] }

-- The three sizes are patterns of 32 bits.
pub record IsTyped (s : Server) : Type 0 where
  pub total : s.total_size < 4294967296
  pub free : s.free_size < 4294967296
  pub in_use : s.in_use_size < 4294967296

-- No one of the members holds `r`, as the lists of members and workers say it.
members-All :
    (P : Member → Type 0) (ws : List Worker) → All P (map member ws) → All (λ w. P (member w)) ws
members-All P [] h = tt
members-All P (w ∷ ws) (h, hs) = (h, members-All P ws hs)

-- The books are balanced, no resource is in two places, and no handler is under way.
pub record IsResting (t : Threads) : Type 0 where
  pub sound : IsSound (fleet_of t)
  pub idle : All IsIdle t.workers

idle-Settled : (s : Server) (w : Worker) → IsIdle w → IsSettled s w
idle-Settled s w ((a, left), free) = rw (free, left) (record { steps = tt })

idle-owners : (ws : List Worker) → All IsIdle ws → owners ws ≡ 0
idle-owners [] h = refl
idle-owners (w ∷ ws) ((left, free), hs) = ground (arith, free, idle-owners ws hs)

pub resting-IsOrderly :
    (F : Fleet → Type 0) (laws : FleetLaws F) (t : Threads)
    → F (fleet_of t)
    → All IsIdle t.workers
    → IsOrderly F laws t
resting-IsOrderly F laws t sound idle = record {
  sound = sound;
  quiet = All-mono IsIdle (IsSettled t.server) t.workers (idle-Settled t.server) idle;
  one = omega (arith, idle-owners t.workers idle);
}

module _ (os : Os) (res : ℕ) (s : Server) (cs : List Call) {s' : Server} {ds : List Call} where
  -- What holds from a resting server on holds after a successful start.
  pub started-IsResting : res ≢ 0 → start os res s cs ≡ done 0 s' ds → IsResting (quiet s')
  started-IsResting there started =
      let (pool, total, free, in_use) =
        (Ensures-at _ (start os res s cs) (start_order os res s cs) started) refl in
      record {
        sound = alone-IsSound s' (fresh-InOrder s' res there pool total free in_use);
        idle = tt;
      }

  -- However the sections of the handlers of all units are interleaved, with one another and with the
  -- rounds of `cm_thread`, after a successful start with a resource that is not at NULL, and whatever
  -- the calls answer: the resource is in exactly one place, in the pool or with one unit, and no unit
  -- holds anything else; and either it is in the pool, `free_size` is its size and `in_use_size` is 0,
  -- or the pool is empty, `free_size` is 0 and `in_use_size` is its size, while `total_size` and the
  -- size of the resource stay what they were.
  pub interleaved-HoldsOne :
      {t : Threads}
      → res ≢ 0
      → start os res s cs ≡ done 0 s' ds
      → Turns os (quiet s') t
      → HoldsOne res (int_size (s'.heap res)) (fleet_of t)
  interleaved-HoldsOne there started r =
      let size = int_size (s'.heap res) in
      let (pool, total, free, in_use) =
        (Ensures-at _ (start os res s cs) (start_order os res s cs) started) refl in
      let orderly : IsOrderly (HoldsOne res size) (HoldsOne-laws res size there) _ =
        Turns-IsOrderly (HoldsOne res size) (HoldsOne-laws res size there)
          (resting-IsOrderly (HoldsOne res size) (HoldsOne-laws res size there) (quiet s')
            (record {
              sized = refl;
              total = total;
              place = rw pool (ground arith);
              own = tt;
              books = inl (pool, free, in_use);
            })
            tt)
          r in
      orderly.sound

  -- However the sections are interleaved, after a successful start with a resource that is not at
  -- NULL, `total_size`, `free_size` and `in_use_size` are patterns of 32 bits, so that what an open
  -- request is answered with fits its field.
  pub interleaved-IsTyped :
      {t : Threads}
      → res ≢ 0
      → start os res s cs ≡ done 0 s' ds
      → Turns os (quiet s') t
      → IsTyped t.server
  interleaved-IsTyped {t} there started r =
      let one : HoldsOne res (int_size (s'.heap res)) (fleet_of t) =
        interleaved-HoldsOne there started r in
      elim one.books [
        | inl (_, free, in_use) ↦ record {
          total = omega (arith, one.total);
          free = omega (arith, free);
          in_use = omega (arith, in_use);
        }
        | inr (_, free, in_use) ↦ record {
          total = omega (arith, one.total);
          free = omega (arith, free);
          in_use = omega (arith, in_use);
        }
      ]

module _ (os : Os) (before after : List Worker) {s : Server} {t : Threads} (w : Worker) where
  rests-IsOrderly :
      IsResting t
      → Turns os t (seated before after s w)
      → IsOrderly IsSound IsSound-laws (seated before after s w)
  rests-IsOrderly rests r =
      Turns-IsOrderly IsSound IsSound-laws
        (resting-IsOrderly IsSound IsSound-laws t rests.sound rests.idle) r

  -- From any server with any number of resources whose books are balanced, where no resource is in two
  -- places and the pool holds no NULL, and whose units have no handler under way: a resource that a unit
  -- holds at any point of any interleaving of the sections is not in the pool, and no other unit holds
  -- it.
  pub sole_tenant :
      IsResting t
      → Turns os t (seated before after s w)
      → w.res ≢ 0
      → All (λ v. v.res ≢ w.res) (before ++ after) × (count w.res s.res_list ≡ 0)
  sole_tenant rests r held =
      let orderly : IsOrderly IsSound IsSound-laws (seated before after s w) =
        rests-IsOrderly rests r in
      let (others, pool) =
        only_there (map member before) (map member after) (member w) s.res_list held (
          subst (λ ms. count w.res s.res_list + count w.res (all_held ms) ≤ 1)
            (map-append member before (w ∷ after)) (orderly.sound.once w.res)) in
      (
        members-All (λ m. m.res ≢ w.res) (before ++ after)
            (subst (All (λ m. m.res ≢ w.res)) (sym (map-append member before after)) others),
        pool,
      )

  -- From any server with any number of resources whose books are balanced, where no resource is in two
  -- places and the pool holds no NULL, and whose units have no handler under way: a section of the
  -- handler of one unit, run to its end at any point of any interleaving, changes no resource that
  -- another unit holds.
  pub section-IsApart :
      (block : M ServerUnit ℕ) (rest : ℕ → Cut) (cs cs' : List Call) (a : ℕ) (u' : ServerUnit)
      → IsResting t
      → Turns os t (seated before after s w)
      → w.rest ≡ Cut.section block rest
      → block (unit_of s (member w)) cs ≡ done a u' cs'
      → All (λ v. v.res ≢ 0 → u'.server.heap v.res ≡ s.heap v.res) (before ++ after)
  section-IsApart block rest cs cs' a u' rests r left run =
      let orderly : IsOrderly IsSound IsSound-laws (seated before after s w) =
        rests-IsOrderly rests r in
      let kept : Kept (unit_of s (member w)) u' =
        (section-Kept s w block rest cs cs' a u' left run
          (All-middle (IsSettled s) before after w orderly.quiet)).0 in
      elim (Bool-cases (w.res == 0)) [
        | inl free ↦ All-any _ (before ++ after) (λ v held. kept.apart v.res (ground arith))
        | inr held ↦
            All-mono _ _ (before ++ after) (λ v other _. kept.apart v.res other)
              (sole_tenant rests r (ground arith)).0
      ]
