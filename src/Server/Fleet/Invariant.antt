-- ===== src/Server/Fleet/Invariant.antt =====
-- The invariant of the server with all its units, and that every turn keeps it.
use mathlib.Core.Path.{subst, ap₂}
use rpmem.Base.{
  ℕ, ◌+◌, ◌≡◌, ◌≤◌, ◌⊎◌, inl, inr, refl, sym, ap, ◌∙◌, arith, u32, List, [], ◌∷◌, ◌++◌, length,
  eq→true,
}
use rpmem.Machine.{Wc, Call, Os, Outcome, done, After}
use rpmem.Conn.{post_recv}
use rpmem.Server.State.{Server, ServerUnit}
use rpmem.Server.Events.{handle_wc}
use rpmem.Server.Connect.{connect_request_handler, conn_init, create_qp, reject}
use rpmem.Server.Start.{cm_round, server_cma_handler}
use rpmem.Server.Pool.{pool_size}
use rpmem.Server.EventsKeep.{handle_wc_keeps}
use rpmem.Server.Accounts.{IsBalanced, IsExclusive, count, holdings}
use rpmem.Server.Since.{Since, Since-refl, Since-laws}
use rpmem.Server.Fleet.{Member, Fleet, Step, serves, accepts, unit_of, member_of, admitted}

-- The resources that the units hold.
abbrev pub all_held : List Member → List ℕ
all_held [] = []
all_held (m ∷ ms) = holdings m.res (all_held ms)

-- The books are balanced, and no resource is in two places: twice in the pool, in the pool and with a
-- unit, or with two units.
pub record IsSound (f : Fleet) : Type 0 where
  pub balanced : IsBalanced f.server
  pub once : (a : ℕ) → count a f.server.res_list + count a (all_held f.members) ≤ 1
  pub no_null : count 0 f.server.res_list ≡ 0

pub count-holdings :
    (a r : ℕ) (ps : List ℕ) → count a (holdings r ps) ≡ count a (holdings r []) + count a ps
count-holdings a r ps = ground arith

pub count-append :
    (a : ℕ) (ms ns : List Member)
    → count a (all_held (ms ++ ns)) ≡ count a (all_held ms) + count a (all_held ns)
count-append a [] ns = omega arith
count-append a (m ∷ ms) ns = omega (
  arith,
  count-append a ms ns,
  count-holdings a m.res (all_held (ms ++ ns)),
  count-holdings a m.res (all_held ms),
)

pub count-all_held :
    (a : ℕ) (before after : List Member) (m : Member)
    → count a (all_held (before ++ m ∷ after))
      ≡ count a (holdings m.res []) + count a (all_held (before ++ after))
count-all_held a [] after m = count-holdings a m.res (all_held after)
count-all_held a (n ∷ before) after m = omega (
  arith,
  count-all_held a before after m,
  count-holdings a n.res (all_held (before ++ m ∷ after)),
  count-holdings a n.res (all_held (before ++ after)),
)

pub After-at :
    {L A : Type 0} (P : A → L → List Call → Type 0) (r : Outcome L A) {a : A} {l : L}
    {cs : List Call}
    → After P r
    → r ≡ done a l cs
    → P a l cs
After-at P r h e = subst (λ o. After P o) e h

-- A round of `cm_thread` changes nothing of the server but the list of connections, and a new unit
-- holds nothing.
pub record SamePool (s : Server) (u : ServerUnit) : Type 0 where
  pub heap : u.server.heap ≡ s.heap
  pub pool : u.server.res_list ≡ s.res_list
  pub total : u.server.total_size ≡ s.total_size
  pub in_use : u.server.in_use_size ≡ s.in_use_size
  pub free : u.server.free_size ≡ s.free_size
  pub fresh : (u.server.conns_list ≡ s.conns_list) ⊎ (u.res ≡ 0)

pub cm_round-SamePool :
    (os : Os) (u : ServerUnit) (cs : List Call)
    → After (λ _ u' _. SamePool u.server u') (cm_round os u cs)
unfolding cm_round server_cma_handler connect_request_handler conn_init create_qp reject post_recv
cm_round-SamePool os u cs = ground arith

-- A unit that keeps what is in order, among others that stay as they are.
pub kept-IsSound :
    (s : Server) (before after : List Member) (m : Member) (u' : ServerUnit)
    → Since (unit_of s m) u'.server u'.res
    → IsSound (record { server = s; members = before ++ m ∷ after })
    → IsSound (record { server = u'.server; members = before ++ member_of u' ∷ after })
kept-IsSound s before after m u' since h =
    let exclusive : IsExclusive (all_held (before ++ after)) u'.server u'.res =
      since.exclusive (all_held (before ++ after)) (record {
        once = λ a.
            omega
              (arith, h.once a, count-all_held a before after m, count-holdings a m.res s.res_list);
        no_null = h.no_null;
      }) in
    record {
      balanced = since.balanced h.balanced;
      once = λ a. omega (
        arith,
        exclusive.once a,
        count-all_held a before after (member_of u'),
        count-holdings a u'.res u'.server.res_list,
      );
      no_null = exclusive.no_null;
    }

handle_wc-Since :
    (os : Os) (wc : Wc) (u : ServerUnit) (cs : List Call)
    → After (λ _ u' _. Since u u'.server u'.res) (handle_wc os wc u cs)
handle_wc-Since os wc u cs = handle_wc_keeps os (Since u) (Since-laws u) wc u cs (Since-refl u)

same-IsBalanced : (s : Server) (u : ServerUnit) → SamePool s u → IsBalanced s → IsBalanced u.server
same-IsBalanced s u same h = record {
  free = same.free ∙ h.free ∙ ap₂ (λ heap ps. pool_size heap ps) (sym same.heap) (sym same.pool);
  total = ap₂ (λ a b. u32 (a + b)) same.free same.in_use ∙ h.total ∙ sym same.total;
}

pub admitted-count :
    (s : Server) (u : ServerUnit) (ms : List Member) (a : ℕ)
    → SamePool s u
    → count a (all_held (admitted s u ms)) ≡ count a (all_held ms)
admitted-count s u ms a same = elim same.fresh [
  | inl unchanged ↦
      rw (eq→true (length u.server.conns_list) (length s.conns_list) (ap length unchanged)) refl
  | inr blank ↦ ground (arith, blank)
]

-- Every turn of every thread keeps the invariant.
pub Step-IsSound : {os : Os} {f g : Fleet} → Step os f g → IsSound f → IsSound g
Step-IsSound {os} {f} (serves before after m wc cs cs' u' there run e) h = subst IsSound (sym e) (
    kept-IsSound f.server before after m u'
      (After-at _ (handle_wc os wc (unit_of f.server m) cs)
        (handle_wc-Since os wc (unit_of f.server m) cs) run)
      (subst (λ ms. IsSound (record { server = f.server; members = ms })) there h))
Step-IsSound {os} {f} (accepts blank alive cs cs' u' run e) h =
    let same : SamePool f.server u' =
      After-at _ (cm_round os (unit_of f.server blank) cs)
        (cm_round-SamePool os (unit_of f.server blank) cs) run in
    subst IsSound (sym e) (record {
      balanced = same-IsBalanced f.server u' same h.balanced;
      once = λ a. rw (same.pool, admitted-count f.server u' f.members a same) (h.once a);
      no_null = rw same.pool h.no_null;
    })
