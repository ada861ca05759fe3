-- ===== src/Client/Waiting.antt =====
-- The wait of a call for its response.
use rpmem.Base.{
  ℕ, suc, ◌+◌, ◌≡◌, ◌≢◌, ◌≤◌, refl, ◌∙◌, ap, arith, true, false, leb, eq→true, ne→false,
  if◌then◌else◌, List, [], ◌∷◌, length, take, take_all, u32,
}
use rpmem.Protocol.{Buf}
use rpmem.Machine.{Call, Os, Wc, done, one_if, bind-done}
use rpmem.Client.{
  File, handle_wc, handle_wcs, ends_wait, brings_rsp, after_wc, cq_event_handler, cq_round,
  wait_command,
}

-- How many waits a list of completions ends, and what it leaves in the buffer of the response.
abbrev pub waits_ended : List Wc → ℕ
waits_ended [] = 0
waits_ended (wc ∷ wcs) = one_if (ends_wait wc) + waits_ended wcs

abbrev pub bytes_after : List Wc → Buf → Buf
bytes_after [] b = b
bytes_after (wc ∷ wcs) b = bytes_after wcs (if brings_rsp wc then wc.bytes else b)

abbrev pub arrived : List Wc → File → File
arrived wcs f = record f {
  conn = record (f.conn) { rsp = bytes_after wcs f.conn.rsp };
  sem_command = f.sem_command + waits_ended wcs;
}

arrived_after :
    (wc : Wc) (wcs : List Wc) (f : File) → arrived wcs (after_wc wc f) ≡ arrived (wc ∷ wcs) f
arrived_after wc wcs f =
    ap
      (λ n. record f {
        conn = record (f.conn) { rsp = bytes_after (wc ∷ wcs) f.conn.rsp };
        sem_command = n;
      })
      (ground arith)

-- The loop over the completions of a poll raises the semaphore of the calls once for each response
-- and for each read that succeeded, leaves the bytes of the last response in its buffer, and changes
-- nothing else.
pub handle_wcs-eq :
    (os : Os) (wcs : List Wc) (f : File) (cs : List Call)
    → handle_wcs os (length wcs) wcs f cs ≡ done tt (arrived wcs f) cs
unfolding handle_wcs handle_wc
handle_wcs-eq os [] f cs = ap (λ n. done tt (record f { sem_command = n }) cs) (omega arith)
handle_wcs-eq os (wc ∷ wcs) f cs =
    handle_wcs-eq os wcs (after_wc wc f) cs ∙ ap (λ g. done tt g cs) (arrived_after wc wcs f)

few_completed : (n : ℕ) → n ≤ 16 → leb 64 (u32 (0 + n)) ≡ false
few_completed n h = ground arith

some_arrived : (wcs : List Wc) → waits_ended wcs ≡ 1 → length wcs ≢ 0
some_arrived [] h = absurd (omega arith)
some_arrived (wc ∷ wcs) h = λ e. omega arith

round_drained :
    (os : Os) (fuel completed : ℕ) (f : File) (ds : List Call)
    → let poll = Call.ibv_poll_cq f.conn.cq in
      os.reply ds poll ≡ 0 → cq_event_handler os (suc fuel) completed f ds ≡ done 0 f (poll ∷ ds)
unfolding cq_event_handler
round_drained os fuel completed f ds h = rw h refl

round_brings :
    (os : Os) (fuel : ℕ) (wcs : List Wc) (f : File) (ds : List Call)
    → let poll = Call.ibv_poll_cq f.conn.cq in
      length wcs ≤ 16
      → length wcs ≢ 0
      → os.reply ds poll ≡ length wcs
      → take 16 (os.polled (poll ∷ ds)) ≡ wcs
      → cq_event_handler os (suc fuel) 0 f ds
        ≡ cq_event_handler os fuel (u32 (0 + length wcs)) (arrived wcs f) (poll ∷ ds)
unfolding cq_event_handler
round_brings os fuel wcs f ds few some_left n taken =
    let poll = Call.ibv_poll_cq f.conn.cq in
    rw (n, ne→false (length wcs) 0 some_left, taken)
      (bind-done (handle_wcs os (length wcs) wcs) _ f (poll ∷ ds)
          (handle_wcs-eq os wcs f (poll ∷ ds))
        ∙ rw (few_completed (length wcs) few) refl)

module _ (os : Os) (f : File) (cs : List Call) where
  abbrev pub armed : List Call
  armed = Call.ibv_req_notify_cq f.conn.cq ∷ Call.ibv_get_cq_event f.conn.comp_channel ∷ cs

  -- The calls of one round of `cq_thread` that finds completions once.
  abbrev pub after_round : List Call
  after_round =
      Call.ibv_ack_cq_events f.conn.cq
      ∷ Call.ibv_poll_cq f.conn.cq
      ∷ Call.ibv_poll_cq f.conn.cq
      ∷ Call.ibv_req_notify_cq f.conn.cq
      ∷ Call.ibv_get_cq_event f.conn.comp_channel
      ∷ cs

  -- The next event of the completion channel is for the queue, and brings completions that end one
  -- wait and leave `b` in the buffer of the response.
  pub record Arrives (b : Buf) : Type 0 where
    pub wcs : List Wc
    pub few : length wcs ≤ 16
    pub once : waits_ended wcs ≡ 1
    pub brought : bytes_after wcs f.conn.rsp ≡ b
    pub event : os.reply cs (Call.ibv_get_cq_event f.conn.comp_channel) ≡ 0
    pub for_queue : os.event_cq (Call.ibv_get_cq_event f.conn.comp_channel ∷ cs) ≡ f.conn.cq
    pub arms :
        os.reply (Call.ibv_get_cq_event f.conn.comp_channel ∷ cs) (Call.ibv_req_notify_cq f.conn.cq)
        ≡ 0
    pub polled : os.polled (Call.ibv_poll_cq f.conn.cq ∷ armed) ≡ wcs
    pub polls : os.reply armed (Call.ibv_poll_cq f.conn.cq) ≡ length wcs
    pub drained : os.reply (Call.ibv_poll_cq f.conn.cq ∷ armed) (Call.ibv_poll_cq f.conn.cq) ≡ 0

  -- The file when the wait is over.
  abbrev pub delivered : Buf → File
  delivered b = record f { conn = record (f.conn) { rsp = b }; sem_command = 0 }

  cq_event_handler-arrived :
      (b : Buf) (h : Arrives b)
      → cq_event_handler os 64 0 f armed
        ≡ done 0 (arrived h.wcs f) (Call.ibv_poll_cq f.conn.cq ∷ Call.ibv_poll_cq f.conn.cq ∷ armed)
  cq_event_handler-arrived b h =
      let poll = Call.ibv_poll_cq f.conn.cq in
      round_brings os 63 h.wcs f armed h.few (some_arrived h.wcs h.once) h.polls
        (ap (λ ws. take 16 ws) h.polled ∙ take_all 16 h.wcs h.few)
      ∙ round_drained os 62 (u32 (0 + length h.wcs)) (arrived h.wcs f) (poll ∷ armed) h.drained

  cq_round-arrived :
      (b : Buf) (h : Arrives b) → cq_round os f cs ≡ done true (arrived h.wcs f) after_round
  unfolding cq_round
  cq_round-arrived b h =
      rw (h.event, h.for_queue, eq→true f.conn.cq f.conn.cq refl, h.arms)
        (bind-done (cq_event_handler os 64 0) _ f armed (cq_event_handler-arrived b h))

  -- A call that waits goes on in the next round of `cq_thread` if that brings one completion of a
  -- response or a read: the semaphore is 0 again, the buffer of the response holds what was brought,
  -- and the calls made are those of the round.
  pub wait_command-arrived :
      (fuel : ℕ) (b : Buf)
      → Arrives b
      → f.sem_command ≡ 0
      → wait_command os (suc (suc fuel)) f cs ≡ done tt (delivered b) after_round
  unfolding wait_command
  wait_command-arrived fuel b h zero_count =
      let left = f.sem_command + waits_ended h.wcs in
      let file : Buf → ℕ → File =
        λ bytes n. record f { conn = record (f.conn) { rsp = bytes }; sem_command = n } in
      rw (eq→true f.sem_command 0 zero_count) (
        bind-done (cq_round os) _ f cs (cq_round-arrived b h)
        ∙ rw (ne→false left 0 (λ e. omega (arith, h.once))) (
            ap (λ n. done tt (file (bytes_after h.wcs f.conn.rsp) n) after_round)
              (omega (arith, h.once))
            ∙ ap (λ bytes. done tt (file bytes 0) after_round) h.brought))
