-- ===== src/Client/Events.antt =====
-- How the client takes completions: `rpmem_handle_wc`, `cq_event_handler` and `cq_thread` of rpmem.c,
-- and `sem_wait` on the semaphore that they post.
use mathlib.Core.Bool.{not}
use rpmem.Base.{
  ℕ, zero, suc, ◌+◌, ◌-◌, Bool, true, false, ◌&&◌, ◌||◌, List, [], ◌∷◌, ◌==◌, leb, take,
  if◌then◌else◌, u32,
}
use rpmem.Machine.{
  Wc, is_success, is_recv, is_rdma_read, Call, Os, M, ◌>>=◌, ◌>>◌, pure, faults, gives_up, gets,
  modify, call, call_, in_memory,
}
use rpmem.Client.State.{File}

-- A completion that ends the wait of a call: a response, or memory that has been read.
abbrev pub ends_wait : Wc → Bool
ends_wait wc = is_success wc.status && (is_recv wc.opcode || is_rdma_read wc.opcode)

-- A receive completion brings the bytes of the response.
abbrev pub brings_rsp : Wc → Bool
brings_rsp wc = is_success wc.status && is_recv wc.opcode

-- `rpmem_handle_wc`, on the device's having written the command buffer of a receive.
abbrev pub after_wc : Wc → File → File
after_wc wc f = record f {
  conn = record (f.conn) { rsp = if brings_rsp wc then wc.bytes else f.conn.rsp };
  sem_command = if ends_wait wc then f.sem_command + 1 else f.sem_command;
}

module _ (os : Os) where
  unfoldable pub handle_wc : Wc → M File (Unit {0})
  handle_wc wc = modify (after_wc wc)

  -- `for (i = 0; i < n; i++)` over what is left of the array `wc`.
  unfoldable pub handle_wcs : ℕ → List Wc → M File (Unit {0})
  handle_wcs zero wcs = pure tt
  handle_wcs (suc n) [] = faults
  handle_wcs (suc n) (wc ∷ wcs) = handle_wc wc >> handle_wcs n wcs

  -- `cq_event_handler`, with `completed` so far; one unit of fuel is one round of the `while`.
  unfoldable pub cq_event_handler : ℕ → ℕ → M File ℕ
  cq_event_handler zero completed = gives_up
  cq_event_handler (suc fuel) completed = do
    cq ← gets (λ f. f.conn.cq)
    n ← call os (Call.ibv_poll_cq cq)
    wcs ← in_memory (λ ds. take 16 (os.polled ds))
    let next = cq_event_handler fuel (u32 (completed + n))
    if n == 0
        then pure 0
        else handle_wcs n wcs >> (if leb 64 (u32 (completed + n)) then pure 0 else next)

  -- One round of `cq_thread`: false if the thread has left.
  unfoldable pub cq_round : M File Bool
  cq_round = do
    c ← gets (λ f. f.conn)
    failed ← call os (Call.ibv_get_cq_event c.comp_channel)
    ev_cq ← in_memory os.event_cq
    if not (failed == 0)
        then call_ os Call.thread_exit >> pure false
        else if not (ev_cq == c.cq)
        then call_ os Call.thread_exit >> pure false
        else (do
          unarmed ← call os (Call.ibv_req_notify_cq c.cq)
          if not (unarmed == 0) then call_ os Call.thread_exit >> pure false else (do
            ret ← cq_event_handler 64 0
            call_ os (Call.ibv_ack_cq_events c.cq)
            if ret == 0 then pure true else call_ os Call.thread_exit >> pure false))

  -- `sem_wait(&priv_rfile->sem_command)`: while the count is 0 the thread sleeps and `cq_thread` runs
  -- its rounds, one for each unit of fuel. If `cq_thread` has left and nothing was posted, the call
  -- never returns.
  unfoldable pub wait_command : ℕ → M File (Unit {0})
  wait_command zero = gives_up
  wait_command (suc fuel) = do
    count ← gets (λ f. f.sem_command)
    let again = wait_command fuel
    if count == 0
        then (do
          alive ← cq_round
          posted ← gets (λ f. f.sem_command)
          if alive || not (posted == 0) then again else gives_up)
        else modify (λ f. record f { sem_command = f.sem_command - 1 })
