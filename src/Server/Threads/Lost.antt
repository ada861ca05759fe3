-- ===== src/Server/Threads/Lost.antt =====
-- A resource that a second map request has written over does not come back.
use mathlib.Core.Path.{subst}
use mathlib.Core.List.{map-append}
use rpmem.Base.{
  ℕ, ◌+◌, ◌≡◌, ◌≢◌, ◌≤◌, some, List, [], ◌∷◌, ◌++◌, map, arith, sym, All-replace, refl,
}
use rpmem.Protocol.Spec.{Request, Response, RequestFits, ResponseFits}
use rpmem.Machine.{Call, Os, done, Ensures-at}
use rpmem.Server.{Server, ServerUnit, map_failed, rcv_completion}
use rpmem.Server.Start.{cm_round}
use rpmem.Server.Pool.{first_fit}
use rpmem.Server.Serve.{Received}
use rpmem.Server.Requests.{posted}
use rpmem.Server.Mapping.{mapped_at, registered_as}
use rpmem.Server.Accounts.{count, holdings}
use rpmem.Server.Since.{Since}
use rpmem.Server.Remapping.{Lost, remapping-Lost}
use rpmem.Server.Fleet.{Member, Fleet, unit_of, member_of}
use rpmem.Server.Fleet.Invariant.{
  all_held, count-all_held, count-holdings, admitted-count, After-at, cm_round-SamePool,
}
use rpmem.Server.Fleet.OneResource.{FleetLaws}
use rpmem.Server.Threads.{Cut, Worker, IsIdle, member, resumed, seated, Threads, Turns}
use rpmem.Server.Threads.Invariant.{fleet_of, Turns-IsOrderly}
use rpmem.Server.Threads.Safety.{IsResting, resting-IsOrderly}

-- `a` is in no place: not in the pool, and with no unit.
abbrev pub IsGone : ℕ → Fleet → Type 0
IsGone a f = count a f.server.res_list + count a (all_held f.members) ≡ 0

module _ (a : ℕ) where
  kept-IsGone :
      (s : Server) (before after : List Member) (m : Member) (u' : ServerUnit)
      → Since (unit_of s m) u'.server u'.res
      → IsGone a (record { server = s; members = before ++ m ∷ after })
      → IsGone a (record { server = u'.server; members = before ++ member_of u' ∷ after })
  kept-IsGone s before after m u' since h =
      let absent : count a (holdings u'.res u'.server.res_list)
            + count a (all_held (before ++ after))
          ≡ 0 =
        since.absent a (all_held (before ++ after))
          (omega (arith, h, count-all_held a before after m, count-holdings a m.res s.res_list)) in
      omega (
        arith,
        absent,
        count-all_held a before after (member_of u'),
        count-holdings a u'.res u'.server.res_list,
      )

  IsGone-laws : FleetLaws (IsGone a)
  IsGone-laws = record {
    kept = kept-IsGone;
    grown = λ os s blank alive cs cs' u ms run gone.
        let same =
          After-at _ (cm_round os (unit_of s blank) cs) (cm_round-SamePool os (unit_of s blank) cs)
            run in
        rw (same.pool, admitted-count s u ms a same) gone;
  }

  Lost-IsGone :
      (before after : List Member) (u' : ServerUnit)
      → Lost a (all_held (before ++ after)) u'
      → IsGone a (record { server = u'.server; members = before ++ member_of u' ∷ after })
  Lost-IsGone before after u' lost =
      let elsewhere : count a (holdings u'.res []) ≡ 0 = ground (arith, lost.replaced) in
      omega (
        arith,
        elsewhere,
        lost.not_free,
        lost.not_held,
        count-all_held a before after (member_of u'),
      )

module _ (os : Os) (before after : List Worker) (s : Server) (w : Worker) (cs : List Call)
    (len p : ℕ) where
  -- From any server with any number of resources whose books are balanced, where no resource is in two
  -- places and the pool holds no NULL, and whose units have no handler under way: a map request on a
  -- unit that holds a resource already, whose receive can be posted, for which `p` is the first
  -- resource of the pool that is larger than its length and is mapped and registered, with a key and
  -- an address that fit their fields, loses the resource that the unit held for ever. In every
  -- interleaving of sections and connection requests from there on, whatever the calls answer, it is
  -- neither in the pool nor with any unit.
  pub remapping-IsGone :
      {a : ℕ} {u' : ServerUnit} {cs' : List Call} {t : Threads}
      → let u = unit_of s (member w) in
        IsResting (seated before after s w)
        → w.res ≢ 0
        → Received (Request.mapping len) u
        → RequestFits (Request.mapping len)
        → os.reply cs (posted os u) ≡ 0
        → first_fit s.heap len s.res_list ≡ some p
        → p ≢ 0
        → mapped_at os u cs len p ≢ map_failed
        → registered_as os u cs len p ≢ 0
        → ResponseFits
            (Response.mapping (os.rkey_of (registered_as os u cs len p)) (mapped_at os u cs len p))
        → rcv_completion os u cs ≡ done a u' cs'
        → Turns os (seated before after u'.server (resumed u' (Cut.ends a))) t
        → IsGone w.res (fleet_of t)
  remapping-IsGone {a} {u'} {cs'} {t} rests held got fits ok found there mapped registered
        answer_fits served r =
      let u = unit_of s (member w) in
      let others = all_held (map member before ++ map member after) in
      let once =
        subst (λ ms. (b : ℕ) → count b s.res_list + count b (all_held ms) ≤ 1)
          (map-append member before (w ∷ after)) rests.sound.once in
      let lost : Lost w.res others u' =
        Ensures-at _ (rcv_completion os u cs)
          (remapping-Lost others os u cs len p held
            (record {
              once = λ b. omega (
                arith,
                once b,
                count-all_held b (map member before) (map member after) (member w),
                count-holdings b w.res s.res_list,
              );
              no_null = rests.sound.no_null;
            })
            got fits ok found there mapped registered answer_fits)
          served in
      (Turns-IsOrderly (IsGone w.res) (IsGone-laws w.res)
        (resting-IsOrderly (IsGone w.res) (IsGone-laws w.res)
          (seated before after u'.server (resumed u' (Cut.ends a)))
          (subst (λ ms. IsGone w.res (record { server = u'.server; members = ms }))
            (sym (map-append member before (resumed u' (Cut.ends a) ∷ after)))
            (Lost-IsGone w.res (map member before) (map member after) u' lost))
          (All-replace IsIdle before after w (resumed u' (Cut.ends a)) ((a, refl), refl)
            rests.idle))
        r).sound
