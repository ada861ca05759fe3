-- ===== src/Server/Events.antt =====
-- How the server reacts to completions: `rpmem_rcv_completion`, `rpmem_handle_wc`,
-- `cq_event_handler` and `cq_thread` of rpmem_server.c.
use mathlib.Core.Bool.{not}
use rpmem.Base.{
  ℕ, zero, suc, ◌+◌, Bool, true, false, ◌&&◌, List, [], ◌∷◌, ◌==◌, leb, take, if◌then◌else◌, u32,
  minus_one,
}
use rpmem.Protocol.{Opcode, opcode_value, opcode_at, get_u32}
use rpmem.Machine.{
  Wc, is_success, is_recv, Call, Os, M, ◌>>=◌, ◌>>◌, pure, faults, gives_up, gets, modify, call,
  call_, in_memory,
}
use rpmem.Server.State.{ServerUnit}
use rpmem.Server.Handlers.{handle_open, handle_close, handle_map, handle_unmap, handle_commit}

module _ (os : Os) where
  -- `rpmem_rcv_completion`; it returns 0 whatever its handler returns.
  unfoldable pub rcv_completion : M ServerUnit ℕ
  rcv_completion = do
    opcode ← gets (λ u. get_u32 opcode_at u.conn.req)
    if opcode == opcode_value Opcode.open_req
        then handle_open os >> pure 0
        else if opcode == opcode_value Opcode.close_req
        then handle_close os >> pure 0
        else if opcode == opcode_value Opcode.map_req
        then handle_map os >> pure 0
        else if opcode == opcode_value Opcode.unmap_req
        then handle_unmap os >> pure 0
        else if opcode == opcode_value Opcode.commit_req
        then handle_commit os >> pure 0
        else pure 0

  -- `rpmem_handle_wc`: a receive completion brings the bytes of the request. A send completion
  -- (`rpmem_snd_completion`), any other opcode and any error are only printed.
  unfoldable pub handle_wc : Wc → M ServerUnit (Unit {0})
  handle_wc wc =
      if is_success wc.status && is_recv wc.opcode
      then (do
        modify (λ u. record u { conn = record (u.conn) { req = wc.bytes } })
        rcv_completion
        pure tt)
      else pure tt

  -- `for (i = 0; i < n; i++)` over the array `wc`, of which the list is what is left. A count that
  -- passes the end of the array reads what is not there.
  unfoldable pub handle_wcs : ℕ → List Wc → M ServerUnit (Unit {0})
  handle_wcs zero wcs = pure tt
  handle_wcs (suc n) [] = faults
  handle_wcs (suc n) (wc ∷ wcs) = handle_wc wc >> handle_wcs n wcs

  -- `cq_event_handler`, with `completed` so far; one unit of fuel is one round of the `while`. After
  -- 64 completions it breaks with `n` above 0, and the test of `n` behind the loop reports an error.
  unfoldable pub cq_event_handler : ℕ → ℕ → M ServerUnit ℕ
  cq_event_handler zero completed = gives_up
  cq_event_handler (suc fuel) completed = do
    cq ← gets (λ u. u.conn.cq)
    n ← call os (Call.ibv_poll_cq cq)
    wcs ← in_memory (λ ds. take 16 (os.polled ds))
    let next = cq_event_handler fuel (u32 (completed + n))
    if n == 0
        then pure 0
        else handle_wcs n wcs >> (if leb 64 (u32 (completed + n)) then pure minus_one else next)

  -- One round of `cq_thread`: false if the thread has left.
  unfoldable pub cq_round : M ServerUnit Bool
  cq_round = do
    c ← gets (λ u. u.conn)
    failed ← call os (Call.ibv_get_cq_event c.comp_channel)
    ev_cq ← in_memory os.event_cq
    if not (failed == 0)
        then call_ os Call.thread_exit >> pure false
        else if not (ev_cq == c.cq)
        then call_ os Call.thread_exit >> pure false
        else (do
          unarmed ← call os (Call.ibv_req_notify_cq c.cq)
          if not (unarmed == 0) then call_ os Call.thread_exit >> pure false else (do
            ret ← cq_event_handler 64 0
            call_ os (Call.ibv_ack_cq_events c.cq)
            if ret == 0 then pure true else call_ os Call.thread_exit >> pure false))
