-- ===== src/Client/Draining.antt =====
-- `cq_event_handler` of rpmem.c on a queue that hands out its completions in batches.
use rpmem.Base.{
  ℕ, zero, suc, ◌+◌, ◌≡◌, ◌≢◌, ◌<◌, ◌≤◌, refl, sym, ◌∙◌, ap, arith, false, leb, ne→false,
  if◌then◌else◌, List, [], ◌∷◌, ◌++◌, length, take_all, u32,
}
use rpmem.Protocol.{Buf}
use rpmem.Machine.{Call, Os, Wc, done, bind-done}
use rpmem.Client.{File, handle_wcs, brings_rsp, cq_event_handler}
use rpmem.Client.Waiting.{waits_ended, bytes_after, arrived, handle_wcs-eq}

waits_ended-append :
    (ws rest : List Wc) → waits_ended (ws ++ rest) ≡ waits_ended ws + waits_ended rest
waits_ended-append [] rest = omega arith
waits_ended-append (wc ∷ ws) rest = omega (arith, waits_ended-append ws rest)

bytes_after-append :
    (ws rest : List Wc) (b : Buf) → bytes_after (ws ++ rest) b ≡ bytes_after rest (bytes_after ws b)
bytes_after-append [] rest b = refl
bytes_after-append (wc ∷ ws) rest b =
    bytes_after-append ws rest (if brings_rsp wc then wc.bytes else b)

arrived-append :
    (ws rest : List Wc) (f : File) → arrived rest (arrived ws f) ≡ arrived (ws ++ rest) f
arrived-append ws rest f =
    let file : ℕ → Buf → File =
      λ n b. record f { conn = record (f.conn) { rsp = b }; sem_command = n } in
    ap (λ n. file n (bytes_after rest (bytes_after ws f.conn.rsp)))
      (omega (arith, waits_ended-append ws rest))
    ∙ ap (file (f.sem_command + waits_ended (ws ++ rest)))
        (sym (bytes_after-append ws rest f.conn.rsp))

length-append_wcs : (ws rest : List Wc) → length (ws ++ rest) ≡ length ws + length rest
length-append_wcs [] rest = omega arith
length-append_wcs (wc ∷ ws) rest = omega (arith, length-append_wcs ws rest)

module _ (os : Os) (cq : ℕ) where
  -- From the calls `cs` on, the polls of the queue hand out the completions `wcs` in batches of up to
  -- 16, and then none.
  pub data Drains : List Call → List Wc → Type 0 where
    dry : {cs : List Call} → os.reply cs (Call.ibv_poll_cq cq) ≡ 0 → Drains cs []
    batch :
        {cs : List Call} (ws rest : List Wc)
        → length ws ≢ 0
        → length ws ≤ 16
        → os.reply cs (Call.ibv_poll_cq cq) ≡ length ws
        → os.polled (Call.ibv_poll_cq cq ∷ cs) ≡ ws
        → Drains (Call.ibv_poll_cq cq ∷ cs) rest
        → Drains cs (ws ++ rest)

  -- The calls when the queue is dry.
  abbrev pub drained : {cs : List Call} {wcs : List Wc} → Drains cs wcs → List Call
  drained (Drains.dry {cs} _) = Call.ibv_poll_cq cq ∷ cs
  drained (Drains.batch _ _ _ _ _ _ more) = drained more

round_dry :
    (os : Os) (fuel completed : ℕ) (f : File) (cs : List Call)
    → os.reply cs (Call.ibv_poll_cq f.conn.cq) ≡ 0
    → cq_event_handler os (suc fuel) completed f cs ≡ done 0 f (Call.ibv_poll_cq f.conn.cq ∷ cs)
unfolding cq_event_handler
round_dry os fuel completed f cs h = rw h refl

below_64 : (completed n : ℕ) → completed + n < 64 → leb 64 (u32 (completed + n)) ≡ false
below_64 completed n h = ground arith

counted_up : (completed n : ℕ) → completed + n < 64 → u32 (completed + n) ≡ completed + n
counted_up completed n h = ground arith

round_batch :
    (os : Os) (fuel completed : ℕ) (ws : List Wc) (f : File) (cs : List Call)
    → length ws ≢ 0
    → length ws ≤ 16
    → completed + length ws < 64
    → os.reply cs (Call.ibv_poll_cq f.conn.cq) ≡ length ws
    → os.polled (Call.ibv_poll_cq f.conn.cq ∷ cs) ≡ ws
    → cq_event_handler os (suc fuel) completed f cs
      ≡ cq_event_handler os fuel
          (completed + length ws)
          (arrived ws f)
          (Call.ibv_poll_cq f.conn.cq ∷ cs)
unfolding cq_event_handler
round_batch os fuel completed ws f cs some_left few below n brought =
    let calls = Call.ibv_poll_cq f.conn.cq ∷ cs in
    rw (n, ne→false (length ws) 0 some_left, brought, take_all 16 ws few)
      (bind-done (handle_wcs os (length ws) ws) _ f calls (handle_wcs-eq os ws f calls)
        ∙ rw (below_64 completed (length ws) below, counted_up completed (length ws) below) refl)

drains_from :
    (os : Os) (fuel completed : ℕ) (f : File) {cs : List Call} {wcs : List Wc}
    (h : Drains os f.conn.cq cs wcs)
    → completed + length wcs < 64
    → length wcs < fuel
    → cq_event_handler os fuel completed f cs ≡ done 0 (arrived wcs f) (drained os f.conn.cq h)
drains_from os zero completed f h below enough = absurd (omega (arith, enough))
drains_from os (suc fuel) completed f (Drains.dry {cs} none_left) below enough =
    round_dry os fuel completed f cs none_left
    ∙ ap (λ n. done 0 (record f { sem_command = n }) (Call.ibv_poll_cq f.conn.cq ∷ cs))
        (omega arith)
drains_from os (suc fuel) completed f (Drains.batch {cs} ws rest some_left few n brought more) below
      enough =
    let total = length-append_wcs ws rest in
    round_batch os fuel completed ws f cs some_left few (omega (arith, total, below)) n brought
    ∙ drains_from os fuel (completed + length ws) (arrived ws f) more (omega (arith, total, below))
        (omega (arith, total, enough, some_left))
    ∙ ap (λ g. done 0 g (drained os f.conn.cq more)) (arrived-append ws rest f)

-- The handler takes every completion of a queue that holds fewer than 64, in their order and however
-- they are divided into polls, until a poll finds none: it raises the semaphore of the calls once for
-- each response and each read, leaves the bytes of the last response in its buffer, makes no call but
-- the polls, and returns 0. 64 rounds are enough.
pub cq_event_handler-drains :
    (os : Os) (f : File) {cs : List Call} {wcs : List Wc} (h : Drains os f.conn.cq cs wcs)
    → length wcs < 64
    → cq_event_handler os 64 0 f cs ≡ done 0 (arrived wcs f) (drained os f.conn.cq h)
cq_event_handler-drains os f h below =
    drains_from os 64 0 f h (omega (arith, below)) (omega (arith, below))
