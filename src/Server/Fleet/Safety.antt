-- ===== src/Server/Fleet/Safety.antt =====
-- What holds of the server whatever its threads do, from its start on.
use rpmem.Base.{All, ℕ, ◌+◌, ◌≡◌, ◌≢◌, ◌≤◌, refl, ap, arith, List, [], ◌∷◌, ◌++◌}
use rpmem.Machine.{Call, Os, Object, done, Ensures-at}
use rpmem.Server.State.{Server}
use rpmem.Server.Start.{start}
use rpmem.Server.Starting.{InOrder, start_ends}
use rpmem.Server.Accounts.{count, holdings}
use rpmem.Server.Fleet.{Member, Fleet, Reach, here, next}
use rpmem.Server.Fleet.Invariant.{IsSound, Step-IsSound, all_held, count-all_held, count-holdings}

abbrev pub alone : Server → Fleet
alone s = record { server = s; members = [] }

pub alone-IsSound : (s : Server) → InOrder s → IsSound (alone s)
alone-IsSound s (books, places) = record {
  balanced = books;
  once = λ a. omega (arith, places.once a);
  no_null = places.no_null;
}

pub Reach-IsSound : {os : Os} {f g : Fleet} → IsSound f → Reach os f g → IsSound g
Reach-IsSound h here = h
Reach-IsSound h (next r step) = Step-IsSound step (Reach-IsSound h r)

count-holdings_self : (r : ℕ) → r ≢ 0 → count r (holdings r []) ≡ 1
count-holdings_self r held = ground arith

none_holds :
    (a : ℕ) (ms : List Member) → a ≢ 0 → count a (all_held ms) ≡ 0 → All (λ n. n.res ≢ a) ms
none_holds a [] there h = tt
none_holds a (m ∷ ms) there h =
    let parts = count-holdings a m.res (all_held ms) in
    (
      λ same.
          omega
            (arith, h, parts, ap (λ r. count a (holdings r [])) same, count-holdings_self a there),
      none_holds a ms there (omega (arith, h, parts)),
    )

pub only_there :
    (before after : List Member) (m : Member) (pool : List ℕ)
    → m.res ≢ 0
    → count m.res pool + count m.res (all_held (before ++ m ∷ after)) ≤ 1
    → All (λ n. n.res ≢ m.res) (before ++ after) × (count m.res pool ≡ 0)
only_there before after m pool held h =
    let whole = count-all_held m.res before after m in
    let self = count-holdings_self m.res held in
    (
      none_holds m.res (before ++ after) held (omega (arith, h, whole, self)),
      omega (arith, h, whole, self),
    )

module _ (os : Os) (res : ℕ) (s : Server) (cs : List Call) {s' : Server} {ds : List Call} where
  -- Whatever completions and connection requests come after a successful start with a resource that is
  -- not at NULL, in whatever order the threads take their turns, and whatever the calls answer: the
  -- books of the server are balanced, no resource is in two places among the pool and all units, and
  -- the pool holds no NULL.
  pub started-IsSound :
      {f : Fleet} → res ≢ 0 → start os res s cs ≡ done 0 s' ds → Reach os (alone s') f → IsSound f
  started-IsSound there started r =
      let order : InOrder s' =
        (Ensures-at _ (start os res s cs) (start_ends os Object.pd res s cs there) started).0
          refl in
      Reach-IsSound (alone-IsSound s' order) r

  -- A resource that a unit holds, after a successful start with a resource that is not at NULL and any
  -- turns of the threads, is not in the pool, and no other unit holds it.
  pub one_tenant :
      {f : Fleet} (before after : List Member) (m : Member)
      → res ≢ 0
      → start os res s cs ≡ done 0 s' ds
      → Reach os (alone s') f
      → f.members ≡ before ++ m ∷ after
      → m.res ≢ 0
      → All (λ n. n.res ≢ m.res) (before ++ after) × (count m.res f.server.res_list ≡ 0)
  one_tenant {f} before after m there started r e held =
      only_there before after m f.server.res_list held
        (rw e at ((started-IsSound there started r).once m.res))
