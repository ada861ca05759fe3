-- ===== src/Server/Fleet/OneResource.antt =====
-- The one resource of the server, among all units.
use rpmem.Base.{
  All-middle, All-replace, Bool, true, false, All, ℕ, ◌+◌, ◌≡◌, ◌≢◌, ◌⊎◌, inl, inr, refl, ◌==◌, ap,
  ◌∙◌, arith, List, ◌∷◌, ◌++◌, if◌then◌else◌, length, eq→true,
}
use rpmem.Server.State.{Server, ServerUnit, int_size}
use rpmem.Server.Accounts.{count}
use rpmem.Server.Single.{Books, IsSingle}
use rpmem.Server.Since.{Since}
use rpmem.Machine.{Call, Os, done}
use rpmem.Server.Start.{cm_round}
use rpmem.Server.Fleet.{Member, Fleet, unit_of, member_of, admitted, accepts}
use rpmem.Server.Fleet.Invariant.{
  all_held, count-all_held, count-holdings, SamePool, admitted-count, IsSound, kept-IsSound,
  Step-IsSound, After-at, cm_round-SamePool,
}

-- The resource at `res` is in exactly one place, in the pool or with a unit, no unit holds anything
-- else, and the sizes say which.
pub record HoldsOne (res size : ℕ) (f : Fleet) : Type 0 where
  pub sized : int_size (f.server.heap res) ≡ size
  pub total : f.server.total_size ≡ size
  pub place : count res f.server.res_list + count res (all_held f.members) ≡ 1
  pub own : All (λ m. (m.res ≡ 0) ⊎ (m.res ≡ res)) f.members
  pub books : Books res size f.server

module _ (res size : ℕ) (there : res ≢ 0) where
  -- A unit that keeps what is in order, among others that stay as they are.
  pub kept-HoldsOne :
      (s : Server) (before after : List Member) (m : Member) (u' : ServerUnit)
      → Since (unit_of s m) u'.server u'.res
      → HoldsOne res size (record { server = s; members = before ++ m ∷ after })
      → HoldsOne res size (record { server = u'.server; members = before ++ member_of u' ∷ after })
  kept-HoldsOne s before after m u' since h =
      let others = all_held (before ++ after) in
      let single : IsSingle res size others u'.server u'.res =
        since.single res size others there (record {
          sized = h.sized;
          total = h.total;
          place = omega (
            arith,
            h.place,
            count-all_held res before after m,
            count-holdings res m.res s.res_list,
          );
          own = All-middle _ before after m h.own;
          books = h.books;
        }) in
      record {
        sized = single.sized;
        total = single.total;
        place = omega (
          arith,
          single.place,
          count-all_held res before after (member_of u'),
          count-holdings res u'.res u'.server.res_list,
        );
        own = All-replace _ before after m (member_of u') single.own h.own;
        books = single.books;
      }

  grown :
      (known : Bool) (ms : List Member) (m : Member)
      → (m.res ≡ 0) ⊎ (m.res ≡ res)
      → All (λ m. (m.res ≡ 0) ⊎ (m.res ≡ res)) ms
      → All (λ m. (m.res ≡ 0) ⊎ (m.res ≡ res)) (if known then ms else m ∷ ms)
  grown true ms m h hs = hs
  grown false ms m h hs = (h, hs)

  -- A round of `cm_thread`.
  pub admitted-HoldsOne :
      (s : Server) (u : ServerUnit) (ms : List Member)
      → SamePool s u
      → HoldsOne res size (record { server = s; members = ms })
      → HoldsOne res size (record { server = u.server; members = admitted s u ms })
  admitted-HoldsOne s u ms same h = record {
    sized = ap (λ heap. int_size (heap res)) same.heap ∙ h.sized;
    total = same.total ∙ h.total;
    place = rw (same.pool, admitted-count s u ms res same) h.place;
    own = elim same.fresh [
      | inl unchanged ↦
          rw (eq→true (length u.server.conns_list) (length s.conns_list) (ap length unchanged))
            h.own
      | inr blank ↦
          grown (length u.server.conns_list == length s.conns_list) ms (member_of u) (inl blank)
            h.own
    ];
    books = rw (same.pool, same.free, same.in_use) h.books;
  }

-- What a unit that keeps the order keeps of the fleet, and a round of `cm_thread` too.
pub record FleetLaws (F : Fleet → Type 0) : Type 0 where
  pub kept :
      (s : Server) (before after : List Member) (m : Member) (u' : ServerUnit)
      → Since (unit_of s m) u'.server u'.res
      → F (record { server = s; members = before ++ m ∷ after })
      → F (record { server = u'.server; members = before ++ member_of u' ∷ after })
  pub grown :
      (os : Os) (s : Server) (blank : Member) (alive : Bool) (cs cs' : List Call) (u : ServerUnit)
      (ms : List Member)
      → cm_round os (unit_of s blank) cs ≡ done alive u cs'
      → F (record { server = s; members = ms })
      → F (record { server = u.server; members = admitted s u ms })

pub IsSound-laws : FleetLaws IsSound
IsSound-laws = record {
  kept = kept-IsSound;
  grown = λ os s blank alive cs cs' u ms run sound.
      Step-IsSound {os = os} {f = record { server = s; members = ms }}
        (accepts blank alive cs cs' u run refl) sound;
}

pub HoldsOne-laws : (res size : ℕ) → res ≢ 0 → FleetLaws (HoldsOne res size)
HoldsOne-laws res size there = record {
  kept = kept-HoldsOne res size there;
  grown = λ os s blank alive cs cs' u ms run one.
      admitted-HoldsOne res size there s u ms
        (After-at _ (cm_round os (unit_of s blank) cs) (cm_round-SamePool os (unit_of s blank) cs)
          run)
        one;
}
