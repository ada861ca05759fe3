-- ===== src/Server/Threads/Quiet/Sections.antt =====
-- Every section of the five handlers is quiet.
use mathlib.Core.Path.{subst}
use rpmem.Base.{
  minus_one, ◌∷◌, ℕ, ◌≡◌, ◌≢◌, refl, sym, ◌∙◌, inl, inr, Bool-cases, Option-cases, Option, none,
  some, suc, [], ◌⊎◌, ◌==◌, ◌&&◌, arith, List, if◌then◌else◌,
}
use rpmem.Protocol.{Buf, len_at, remote_addr_at, get_u32, get_u64}
use rpmem.Machine.{Wc, is_success, is_recv, Call, Os, done, gets, After, After-mono, After-if}
use rpmem.Server.State.{Server, ServerUnit, Heap, set_resource}
use rpmem.Server.Handlers.{map_refused, map_resource, repost, respond, unmap_response}
use rpmem.Server.Pool.{first_fit, fits}
use rpmem.Server.Keeps.{
  Ends, repost_keeps, respond_keeps, handle_close_keeps, handle_commit_keeps, map_refused_keeps,
  map_registered_keeps,
}
use rpmem.Server.Threads.{
  Cut, last, open_cut, map_cut, find_fit, search_locked, take_locked, map_rest, unmap_cut,
  unmap_private, unmap_end, return_locked, request_cut, wc_cut,
}
use rpmem.Server.Threads.Quiet.{
  Kept, View, view_of, Agrees, StepsKept, IsQuiet, IsQuietUnder, Still, unchanged, still-IsQuiet,
  reads-IsQuiet, last-IsQuiet, if-IsQuiet, still-After, stored-Kept, taken-Kept, returned-Kept,
}

-- What `find_fit` gives back.
abbrev pub place : Option ℕ → ℕ
place none = 0
place (some p) = suc p

pub find_fit-first_fit :
    (os : Os) (len : ℕ) (ps : List ℕ) (u : ServerUnit) (cs : List Call)
    → find_fit os len ps u cs ≡ done (place (first_fit u.server.heap len ps)) u cs
unfolding find_fit first_fit
find_fit-first_fit os len [] u cs = refl
find_fit-first_fit os len (p ∷ ps) u cs = elim (Bool-cases (fits u.server.heap len p)) [
  | inl h ↦ rw h refl
  | inr h ↦ rw h (find_fit-first_fit os len ps u cs)
]

first_fit-sizes :
    (heap heap' : Heap) (len : ℕ) (ps : List ℕ)
    → ((q : ℕ) → (heap q).st_size ≡ (heap' q).st_size)
    → first_fit heap len ps ≡ first_fit heap' len ps
unfolding first_fit
first_fit-sizes heap heap' len [] same = refl
first_fit-sizes heap heap' len (p ∷ ps) same =
    rw (same p, first_fit-sizes heap heap' len ps same) refl

module _ (os : Os) where
  repost-Still : (u : ServerUnit) (cs : List Call) → After (Ends (Still u)) (repost os u cs)
  repost-Still u cs = repost_keeps os (Still u) u cs (refl, refl)

  respond-Still :
      (pack : Buf → Buf) (ret : ℕ) (u : ServerUnit) (cs : List Call)
      → After (Ends (Still u)) (respond os pack ret u cs)
  respond-Still pack ret u cs = respond_keeps os (Still u) pack ret u cs (refl, refl)

  open_cut-IsQuiet : (r : ℕ) → IsQuiet (open_cut os) r
  unfolding open_cut
  open_cut-IsQuiet r =
      reads-IsQuiet r _ _
        (λ size. still-IsQuiet r _ _ repost-Still (λ err. last-IsQuiet r _ (respond-Still _ _)))

  map_rest-IsQuiet : (len p r : ℕ) → (p ≢ 0 → r ≡ p) → IsQuiet (last (map_rest os len p)) r
  unfolding map_rest map_resource
  map_rest-IsQuiet len p r own = record {
    steps = λ u cs e.
        After-if (λ a u' _. Kept u u' × (u'.server.res_list ≡ u.server.res_list) × Unit {0})
          (u.res == 0) (map_refused os) (map_resource os len p) u cs
          (still-After u u _ (unchanged u) refl (map_refused_keeps os (Still u) u cs (refl, refl)))
          (elim (Bool-cases (p == 0)) [
            | inl null ↦ rw null tt
            | inr there ↦ rw there (
                let v = set_resource p _ u in
                still-After u v _ (stored-Kept u p _ (e ∙ own (ground arith)) refl) refl
                  (map_registered_keeps os (Still v) _ _ _ _ v _ (refl, refl)))
          ]);
  }

  -- What the search has found stays the first that fits, while the lock is held.
  abbrev Finds : View → ℕ → ℕ → Type 0
  Finds v len found =
      (s : Server)
      → Agrees v s
      → (found ≡ 0) ⊎ ((p : ℕ) × (found ≡ suc p) × (first_fit s.heap len s.res_list ≡ some p))

  take_locked-IsQuiet :
      (v : View) (len found r : ℕ)
      → Finds v len found
      → IsQuietUnder v
          (Cut.section (take_locked os found) (λ p. Cut.release (last (map_rest os len p))))
          r
  unfolding take_locked
  take_locked-IsQuiet v len found r finds = record {
    steps = λ u cs e agrees. elim (finds u.server agrees) [
      | inl nothing ↦
          rw nothing
            (unchanged u, (map_rest-IsQuiet len 0 u.res (λ there. absurd (there refl))).steps)
      | inr (p, is, first) ↦
          rw is (taken-Kept u len p first, (map_rest-IsQuiet len p p (λ _. refl)).steps)
    ];
  }

  search_locked-Finds :
      (len : ℕ) (u : ServerUnit) (cs : List Call)
      → After
          (λ found u' _. (u' ≡ u) × Finds (view_of u.server) len found)
          (search_locked os len u cs)
  unfolding search_locked
  search_locked-Finds len u cs = rw (find_fit-first_fit os len u.server.res_list u cs) (
    refl,
    λ s agrees.
        rw (agrees.0, first_fit-sizes s.heap u.server.heap len u.server.res_list agrees.1)
          (elim (Option-cases (first_fit u.server.heap len u.server.res_list)) [
            | inl missing ↦ rw missing (inl refl)
            | inr (p, first) ↦ rw first (inr (p, refl, refl))
          ]),
  )

  search_locked-IsQuiet :
      (len r : ℕ)
      → IsQuiet
          (Cut.acquire (
            Cut.section (search_locked os len) λ found.
              Cut.section (take_locked os found) λ p. Cut.release (last (map_rest os len p))))
          r
  search_locked-IsQuiet len r = record {
    steps = λ v u cs e agrees.
        After-mono (λ found u' _. (u' ≡ u) × Finds (view_of u.server) len found) _
          (search_locked os len u cs)
          (λ found u' cs' (same, finds).
            rw same
              (unchanged u, (take_locked-IsQuiet (view_of u.server) len found u.res finds).steps))
          (search_locked-Finds len u cs);
  }

  map_cut-IsQuiet : (r : ℕ) → IsQuiet (map_cut os) r
  unfolding map_cut
  map_cut-IsQuiet r = reads-IsQuiet r _ _ (λ len. still-IsQuiet r _ _ repost-Still (λ err.
      if-IsQuiet r (err == 0) _ _ (search_locked-IsQuiet len r)
        (last-IsQuiet r _ (λ u cs. map_refused_keeps os (Still u) u cs (refl, refl)))))

  unmap_end-IsQuiet : (p ret : ℕ) → p ≢ 0 → IsQuiet (unmap_end os p ret) p
  unfolding unmap_end return_locked unmap_response
  unmap_end-IsQuiet p ret there =
      if-IsQuiet p (ret == 0) _ _
        (record {
          steps = λ v u cs e agrees.
              (returned-Kept u p there e, (last-IsQuiet 0 _ (respond-Still _ _)).steps);
        })
        (last-IsQuiet p _ (respond-Still _ _))

  unmap_private-IsQuiet :
      (len addr p : ℕ) → IsQuiet (Cut.section (unmap_private os len addr p) (unmap_end os p)) p
  unfolding unmap_private
  unmap_private-IsQuiet len addr p = record {
    steps = λ u cs e. elim (Bool-cases (p == 0)) [
      | inl null ↦ rw null tt
      | inr there ↦ rw there (
        stored-Kept u p _ e refl,
        refl,
        subst (StepsKept none (unmap_end os p _)) (sym e)
            (unmap_end-IsQuiet p _ (ground arith)).steps,
      )
    ];
  }

  unmap_cut-IsQuiet : (r : ℕ) → IsQuiet (unmap_cut os) r
  unfolding unmap_cut unmap_response
  unmap_cut-IsQuiet r = record {
    steps = λ u cs e. (unchanged u, refl, (with_resource u.res).steps);
  }
    where
      with_resource :
          (p : ℕ)
          → IsQuiet
              (Cut.section (gets (λ u. get_u32 len_at u.conn.req)) λ len.
                Cut.section (gets (λ u. get_u64 remote_addr_at u.conn.req)) λ addr.
                  Cut.section (repost os) λ err.
                    if err == 0
                    then Cut.section (unmap_private os len addr p) (unmap_end os p)
                    else last (unmap_response os minus_one))
              p
      with_resource p = reads-IsQuiet p _ _ (λ len. reads-IsQuiet p _ _ (λ addr.
          still-IsQuiet p _ _ repost-Still (λ err.
            if-IsQuiet p (err == 0) _ _ (unmap_private-IsQuiet len addr p)
              (last-IsQuiet p _ (respond-Still _ _)))))

  request_cut-IsQuiet : (opcode r : ℕ) → IsQuiet (request_cut os opcode) r
  unfolding request_cut
  request_cut-IsQuiet op r = if-IsQuiet r (op == 0) _ _ (open_cut-IsQuiet r) (
      if-IsQuiet r (op == 2) _ _
        (last-IsQuiet r _ (λ u cs. handle_close_keeps os (Still u) u cs (refl, refl)))
        (if-IsQuiet r (op == 4) _ _ (map_cut-IsQuiet r) (
          if-IsQuiet r (op == 6) _ _ (unmap_cut-IsQuiet r) (
            if-IsQuiet r (op == 8) _ _
              (last-IsQuiet r _ (λ u cs. handle_commit_keeps os (Still u) u cs (refl, refl)))
              (record { steps = tt })))))

  -- Every section of every completion.
  pub wc_cut-IsQuiet : (wc : Wc) (r : ℕ) → IsQuiet (wc_cut os wc) r
  unfolding wc_cut
  wc_cut-IsQuiet wc r =
      if-IsQuiet r (is_success wc.status && is_recv wc.opcode) _ _
        (still-IsQuiet r _ _ (λ u cs. (refl, refl)) (λ op. request_cut-IsQuiet op r))
        (record { steps = tt })
