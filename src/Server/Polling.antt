-- ===== src/Server/Polling.antt =====
-- What `cq_event_handler` returns, and that its loop ends.
use rpmem.Base.{
  ℕ, zero, suc, ◌+◌, ◌≤◌, ◌<◌, ◌≡◌, ◌≢◌, refl, List, [], ◌∷◌, arith, leb, u32, minus_one, length,
  take, length-take-le, zero-cases, ne→false, Bool-cases, inl, inr,
}
use rpmem.Machine.{
  Wc, Call, Os, fault, After, After-bind, After-if, After-trivial, After-mono, Settles,
  Settles-bind-After, bind-fault, fault_of_never,
}
use rpmem.Server.{ServerUnit, cq_event_handler, handle_wc, handle_wcs}
use rpmem.Server.Settling.{handle_wcs-Settles}

-- More completions than the array holds are never handled to the end.
handle_wcs_overrun :
    (os : Os) (n : ℕ) (wcs : List Wc) (u : ServerUnit) (cs : List Call)
    → length wcs < n
    → After (λ _ _ _. ⊥) (handle_wcs os n wcs u cs)
unfolding handle_wcs
handle_wcs_overrun os zero wcs u cs h = absurd (omega arith)
handle_wcs_overrun os (suc n) [] u cs h = tt
handle_wcs_overrun os (suc n) (wc ∷ wcs) u cs h =
    After-bind (λ _ _ _. Unit {0}) (λ _ _ _. ⊥) (handle_wc os wc) _ u cs
      (After-trivial (handle_wc os wc u cs))
      (λ _ u' cs' _. handle_wcs_overrun os n wcs u' cs' (omega arith))

-- If they are handled to the end, there were no more than 16.
handle_wcs-fit :
    (os : Os) (n : ℕ) (polled : List Wc) (u : ServerUnit) (cs : List Call)
    → After (λ _ _ _. n ≤ 16) (handle_wcs os n (take 16 polled) u cs)
handle_wcs-fit os n polled u cs = elim (Bool-cases (leb n 16)) [
  | inl fit ↦
      After-mono (λ _ _ _. Unit {0}) _ _ (λ _ _ _ _. ground arith)
        (After-trivial (handle_wcs os n (take 16 polled) u cs))
  | inr over ↦
      After-mono (λ _ _ _. ⊥) _ _ (λ _ _ _ h. absurd h)
        (handle_wcs_overrun os n (take 16 polled) u cs (ground (arith, length-take-le 16 polled)))
]

-- The loop of `cq_event_handler` comes to an end, in a result or in a fault, whatever the calls
-- answer: the fuel does not run out if it is at least what `completed`, below 64, lacks to 64.
pub cq_event_handler-Settles :
    (os : Os) (fuel completed : ℕ) (u : ServerUnit) (cs : List Call)
    → completed < 64
    → 64 ≤ fuel + completed
    → Settles (cq_event_handler os fuel completed u cs)
unfolding cq_event_handler
cq_event_handler-Settles os zero completed u cs small enough = absurd (omega arith)
cq_event_handler-Settles os (suc fuel) completed u cs small enough =
    let poll = Call.ibv_poll_cq u.conn.cq in
    let n = os.reply cs poll in
    let wcs = take 16 (os.polled (poll ∷ cs)) in
    elim (zero-cases n) [
      | inl drained ↦ rw drained tt
      | inr some_left ↦ rw (ne→false n 0 some_left) (
          Settles-bind-After (λ _ _ _. n ≤ 16) (handle_wcs os n wcs) _ u (poll ∷ cs)
            (handle_wcs-Settles os n wcs u (poll ∷ cs))
            (handle_wcs-fit os n (os.polled (poll ∷ cs)) u (poll ∷ cs))
            (λ _ u' cs' fit. elim (Bool-cases (leb 64 (u32 (completed + n)))) [
              | inl full ↦ rw full tt
              | inr more ↦ rw more (
                  cq_event_handler-Settles os fuel (u32 (completed + n)) u' cs' (ground arith)
                    (ground arith))
            ]))
    ]

-- If a poll fails, which `ibv_poll_cq` says by a negative number, the handler faults: the number
-- is taken for more completions than the array of 16 holds.
pub cq_event_handler_poll_failed :
    (os : Os) (fuel completed : ℕ) (u : ServerUnit) (cs : List Call)
    → 2147483648 ≤ os.reply cs (Call.ibv_poll_cq u.conn.cq)
    → cq_event_handler os (suc fuel) completed u cs ≡ fault
unfolding cq_event_handler
cq_event_handler_poll_failed os fuel completed u cs failed =
    let poll = Call.ibv_poll_cq u.conn.cq in
    let n = os.reply cs poll in
    let wcs = take 16 (os.polled (poll ∷ cs)) in
    rw (ne→false n 0 (λ e. omega arith)) (
      bind-fault (handle_wcs os n wcs) _ u (poll ∷ cs) (
        fault_of_never (handle_wcs os n wcs u (poll ∷ cs))
          (handle_wcs-Settles os n wcs u (poll ∷ cs))
          (handle_wcs_overrun os n wcs u (poll ∷ cs)
            (omega (arith, length-take-le 16 (os.polled (poll ∷ cs)))))))

-- If every poll finds something, the handler returns nothing but -1, which stands for an error,
-- whether or not a poll has failed.
pub cq_event_handler_busy :
    (os : Os) (fuel completed : ℕ) (u : ServerUnit) (cs : List Call)
    → ((ds : List Call) (cq : ℕ) → os.reply ds (Call.ibv_poll_cq cq) ≢ 0)
    → After (λ ret _ _. ret ≡ minus_one) (cq_event_handler os fuel completed u cs)
unfolding cq_event_handler
cq_event_handler_busy os zero completed u cs busy = tt
cq_event_handler_busy os (suc fuel) completed u cs busy =
    let poll = Call.ibv_poll_cq u.conn.cq in
    let n = os.reply cs poll in
    let wcs = take 16 (os.polled (poll ∷ cs)) in
    rw (ne→false n 0 (busy cs u.conn.cq)) (
      After-bind (λ _ _ _. Unit {0}) _ (handle_wcs os n wcs) _ u (poll ∷ cs)
        (After-trivial (handle_wcs os n wcs u (poll ∷ cs)))
        (λ _ u' cs' _.
          After-if (λ ret _ _. ret ≡ minus_one) (leb 64 (u32 (completed + n))) _ _ u' cs' refl
            (cq_event_handler_busy os fuel _ u' cs' busy)))
