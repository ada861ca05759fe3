-- ===== src/Server/Threads/Invariant.antt =====
-- What every turn of every thread keeps, section by section.
use mathlib.Core.Path.{subst}
use mathlib.Core.List.{map-append}
use rpmem.Base.{
  ◌∙◌, All-middle, All-replace, All, ℕ, ◌≡◌, ◌==◌, refl, sym, List, [], ◌∷◌, ◌++◌, map, Bool, true,
  false, if◌then◌else◌, length, ◌+◌, ◌≤◌, ◌⊎◌, inl, inr, arith, ap, Bool-cases, none, some,
}
use rpmem.Machine.{Call, Os, done}
use rpmem.Server.State.{Server, ServerUnit}
use rpmem.Server.Start.{cm_round}
use rpmem.Server.Fleet.{Fleet, unit_of, member_of}
use rpmem.Server.Fleet.OneResource.{FleetLaws}
use rpmem.Server.Fleet.Invariant.{After-at, cm_round-SamePool, SamePool}
use rpmem.Server.Threads.{
  Cut, Worker, member, wc_cut, owners, resumed, moved, Threads, seated, Turn, begins, moves, locks,
  unlocks, Turns, here, next,
}
use rpmem.Server.Threads.Quiet.{Kept, View, view_of, Agrees, StepsKept, IsQuiet, IsQuietUnder}
use rpmem.Server.Threads.Quiet.Sections.{wc_cut-IsQuiet}

-- The server with its units, without what is left of the handlers.
abbrev pub fleet_of : Threads → Fleet
fleet_of t = record { server = t.server; members = map member t.workers }

-- What is left of a handler keeps the order, whether its thread has the lock, and then what the lock
-- protects is as the thread has left it.
abbrev pub Settled : Server → Bool → Cut → ℕ → Type 0
Settled s true cut r = (v : View) × Agrees v s × IsQuietUnder v cut r
Settled s false cut r = IsQuiet cut r

abbrev pub IsSettled : Server → Worker → Type 0
IsSettled s w = Settled s w.owns w.rest w.res

pub owners-seated :
    (before after : List Worker) (w : Worker)
    → owners (before ++ w ∷ after) ≡ (if w.owns then 1 else 0) + owners (before ++ after)
owners-seated [] after w = refl
owners-seated (v ∷ before) after w = omega (arith, owners-seated before after w)

-- A section of a thread, run to its end.
module _ (s : Server) (u u' : ServerUnit) (block : ServerUnit → List Call → _) (rest : ℕ → Cut)
    (cs cs' : List Call) (a : ℕ) where
  block-Settled :
      (owns : Bool) (cut : Cut)
      → cut ≡ Cut.section block rest
      → block u cs ≡ done a u' cs'
      → u.server ≡ s
      → Settled s owns cut u.res
      → Kept u u'
        × ((owns ≡ false) → u'.server.res_list ≡ u.server.res_list)
        × Settled u'.server owns (rest a) u'.res
  block-Settled true cut left run at (v, agrees, quiet) =
      let steps = subst (λ cut. StepsKept (some v) cut u.res) left quiet.steps in
      let (kept, later) =
        After-at _ (block u cs) (steps u cs refl (subst (Agrees v) (sym at) agrees)) run in
      (kept, λ e. absurd (cc), (view_of u'.server, (refl, λ q. refl), record { steps = later }))
  block-Settled false cut left run at quiet =
      let steps = subst (λ cut. StepsKept none cut u.res) left quiet.steps in
      let (kept, same, later) = After-at _ (block u cs) (steps u cs refl) run in
      (kept, λ e. same, record { steps = later })

pub section-Kept :
    (s : Server) (w : Worker) (block : ServerUnit → List Call → _) (rest : ℕ → Cut)
    (cs cs' : List Call) (a : ℕ) (u' : ServerUnit)
    → w.rest ≡ Cut.section block rest
    → block (unit_of s (member w)) cs ≡ done a u' cs'
    → IsSettled s w
    → Kept (unit_of s (member w)) u'
      × ((w.owns ≡ false) → u'.server.res_list ≡ s.res_list)
      × IsSettled u'.server (moved w u' (rest a))
section-Kept s w block rest cs cs' a u' left run settled =
    block-Settled s (unit_of s (member w)) u' block rest cs cs' a w.owns w.rest left run refl
      settled

-- Other threads stay settled where the pool stays, or where none of them has the lock.
module _ (s s' : Server) (sizes : (q : ℕ) → (s'.heap q).st_size ≡ (s.heap q).st_size) where
  other-Settled :
      (owns : Bool) (cut : Cut) (r : ℕ)
      → (owns ≡ false) ⊎ (s'.res_list ≡ s.res_list)
      → Settled s owns cut r
      → Settled s' owns cut r
  other-Settled true cut r (inl free) h = absurd (cc)
  other-Settled true cut r (inr same) (v, (pool, sized), quiet) =
      (v, (same ∙ pool, λ q. sizes q ∙ sized q), quiet)
  other-Settled false cut r same h = h

  others-IsSettled :
      (ws : List Worker)
      → (owners ws ≡ 0) ⊎ (s'.res_list ≡ s.res_list)
      → All (IsSettled s) ws
      → All (IsSettled s') ws
  others-IsSettled [] h settled = tt
  others-IsSettled (w ∷ ws) (inl none_has) (h, hs) = (
    other-Settled w.owns w.rest w.res (inl (ground (arith, none_has))) h,
    others-IsSettled ws (inl (ground (arith, none_has))) hs,
  )
  others-IsSettled (w ∷ ws) (inr same) (h, hs) =
      (other-Settled w.owns w.rest w.res (inr same) h, others-IsSettled ws (inr same) hs)

module _ (s : Server) (r : ℕ) where
  begins-Settled :
      (owns : Bool) (cut rest : Cut) (a : ℕ)
      → cut ≡ Cut.ends a
      → IsQuiet rest r
      → Settled s owns cut r
      → Settled s owns rest r
  begins-Settled true cut rest a left quiet (v, agrees, under) =
      absurd (subst (λ cut. StepsKept (some v) cut r) left under.steps)
  begins-Settled false cut rest a left quiet h = quiet

  locks-Settled :
      (owns : Bool) (cut rest : Cut)
      → cut ≡ Cut.acquire rest
      → owns ≡ false
      → Settled s owns cut r
      → Settled s true rest r
  locks-Settled true cut rest left free h = absurd (cc)
  locks-Settled false cut rest left free quiet = (
    view_of s,
    (refl, λ q. refl),
    record { steps = subst (λ cut. StepsKept none cut r) left quiet.steps (view_of s) },
  )

  unlocks-Settled :
      (owns : Bool) (cut rest : Cut)
      → cut ≡ Cut.release rest
      → Settled s owns cut r
      → IsQuiet rest r
  unlocks-Settled true cut rest left (v, agrees, quiet) = record {
    steps = subst (λ cut. StepsKept (some v) cut r) left quiet.steps;
  }
  unlocks-Settled false cut rest left quiet =
      absurd (subst (λ cut. StepsKept none cut r) left quiet.steps)

module _ (F : Fleet → Type 0) (laws : FleetLaws F) where
  -- The fleet is in order, what is left of the handlers keeps it so, and at most one thread has the
  -- lock.
  pub record IsOrderly (t : Threads) : Type 0 where
    pub sound : F (fleet_of t)
    pub quiet : All (IsSettled t.server) t.workers
    pub one : owners t.workers ≤ 1

  module _ (before after : List Worker) (s : Server) (w : Worker) where
    -- The worker goes on, with the same unit.
    goes_on :
        (rest : Cut) (owns : Bool)
        → Settled s owns rest w.res
        → (if owns then 1 else 0) + owners (before ++ after) ≤ 1
        → IsOrderly (seated before after s w)
        → IsOrderly (seated before after s (record w { rest = rest; owns = owns }))
    goes_on rest owns settled one h =
        let w' : Worker = record w { rest = rest; owns = owns } in
        record {
          sound =
              subst (λ ms. F (record { server = s; members = ms }))
                (map-append member before (w ∷ after) ∙ sym (map-append member before (w' ∷ after)))
                h.sound;
          quiet = All-replace (IsSettled s) before after w w' settled h.quiet;
          one = omega (arith, one, owners-seated before after w');
        }

    moves-IsOrderly :
        (u' : ServerUnit) (rest : Cut)
        → Kept (unit_of s (member w)) u'
        → ((w.owns ≡ false) → u'.server.res_list ≡ s.res_list)
        → IsSettled u'.server (moved w u' rest)
        → IsOrderly (seated before after s w)
        → IsOrderly (seated before after u'.server (moved w u' rest))
    moves-IsOrderly u' rest kept same settled h =
        let idle : Worker = resumed u' (Cut.ends 0) in
        let seats = owners-seated before after w in
        let others : (owners (before ++ idle ∷ after) ≡ 0) ⊎ (u'.server.res_list ≡ s.res_list) =
          elim (Bool-cases w.owns) [
            | inl has ↦ inl (ground (arith, has, seats, h.one, owners-seated before after idle))
            | inr free ↦ inr (same free)
          ] in
        record {
          sound =
              subst (λ ms. F (record { server = u'.server; members = ms }))
                (sym (map-append member before (moved w u' rest ∷ after)))
                (laws.kept s (map member before) (map member after) (member w) u' kept.order (
                  subst (λ ms. F (record { server = s; members = ms }))
                    (map-append member before (w ∷ after)) h.sound));
          quiet = All-replace (IsSettled u'.server) before after idle (moved w u' rest) settled (
              others-IsSettled s u'.server kept.sizes (before ++ idle ∷ after) others
                (All-replace (IsSettled s) before after w idle (record { steps = tt }) h.quiet));
          one = omega (arith, h.one, seats, owners-seated before after (moved w u' rest));
        }

  accepted-IsOrderly :
      (known : Bool) (ws : List Worker) (u' : ServerUnit)
      → F (record {
        server = u'.server;
        members = if known then map member ws else member_of u' ∷ map member ws;
      })
      → All (IsSettled u'.server) ws
      → owners ws ≤ 1
      → IsOrderly (record {
        server = u'.server;
        workers = if known then ws else resumed u' (Cut.ends 0) ∷ ws;
      })
  accepted-IsOrderly true ws u' sound quiet one = record { sound = sound; quiet = quiet; one = one }
  accepted-IsOrderly false ws u' sound quiet one = record {
    sound = sound;
    quiet = (record { steps = tt }, quiet);
    one = omega (arith, one);
  }

  Turn-IsOrderly : {os : Os} {t t' : Threads} → Turn os t t' → IsOrderly t → IsOrderly t'
  Turn-IsOrderly {os} (begins before after s w a wc idle) h =
      goes_on before after s w (wc_cut os wc) w.owns
        (begins-Settled s w.res w.owns w.rest (wc_cut os wc) a idle (wc_cut-IsQuiet os wc w.res)
          (All-middle (IsSettled s) before after w h.quiet))
        (omega (arith, h.one, owners-seated before after w)) h
  Turn-IsOrderly (moves before after s w block rest cs cs' a u' left run) h =
      let (kept, same, settled) =
        section-Kept s w block rest cs cs' a u' left run
          (All-middle (IsSettled s) before after w h.quiet) in
      moves-IsOrderly before after s w u' (rest a) kept same settled h
  Turn-IsOrderly (locks before after s w rest left free) h =
      goes_on before after s w rest true
        (locks-Settled s w.res w.owns w.rest rest left
          (ground (arith, free, owners-seated before after w))
          (All-middle (IsSettled s) before after w h.quiet))
        (omega (arith, free, owners-seated before after w)) h
  Turn-IsOrderly (unlocks before after s w rest left) h =
      goes_on before after s w rest false
        (unlocks-Settled s w.res w.owns w.rest rest left
          (All-middle (IsSettled s) before after w h.quiet))
        (omega (arith, h.one, owners-seated before after w)) h
  Turn-IsOrderly {os} (Turn.accepts ws s blank alive cs cs' u' run) h =
      let same : SamePool s u' =
        After-at _ (cm_round os (unit_of s blank) cs) (cm_round-SamePool os (unit_of s blank) cs)
          run in
      accepted-IsOrderly (length u'.server.conns_list == length s.conns_list) ws u'
        (laws.grown os s blank alive cs cs' u' (map member ws) run h.sound)
        (others-IsSettled s u'.server (λ q. ap (λ heap. (heap q).st_size) same.heap) ws
          (inr same.pool) h.quiet)
        h.one

  pub Turns-IsOrderly : {os : Os} {t t' : Threads} → IsOrderly t → Turns os t t' → IsOrderly t'
  Turns-IsOrderly h here = h
  Turns-IsOrderly h (next r turn) = Turn-IsOrderly turn (Turns-IsOrderly h r)
