-- ===== src/Server/EventsStay.antt =====
-- What the handlers keep of a unit is kept by the dispatch of completions and by the rounds of
-- `cq_thread`.
use mathlib.Core.Bool.{not}
use rpmem.Base.{All, take, ℕ, zero, suc, ◌+◌, ◌&&◌, List, [], ◌∷◌, ◌==◌, leb, u32}
use rpmem.Protocol.{get_u32}
use rpmem.Machine.{is_success, is_recv, Wc, Call, Os, After, After-bind, After-if, M, ◌>>◌, pure}
use rpmem.Server.{
  ServerUnit, rcv_completion, handle_wc, handle_wcs, cq_event_handler, cq_round, handle_open,
  handle_close, handle_map, handle_unmap, handle_commit,
}
use rpmem.Server.Stays.{
  Stays, WireLaws, StoreLaws, handle_open_stays, handle_close_stays, handle_map_stays,
  handle_unmap_stays, handle_commit_stays,
}

-- A receive completion brings what `Good` says, and `U` survives its bytes.
pub record BringLaws (U : ServerUnit → Type 0) (Good : Wc → Type 0) : Type 0 where
  pub receives :
      (wc : Wc) (u : ServerUnit)
      → Good wc
      → U u
      → U (record u { conn = record (u.conn) { req = wc.bytes } })

module _ (os : Os) (U : ServerUnit → Type 0) (Good : Wc → Type 0) (wire : WireLaws os U)
    (laws : StoreLaws U) (brings : BringLaws U Good) where
  -- The return value of a handler is dropped.
  dropped_stays :
      (m : M ServerUnit ℕ) (u : ServerUnit) (cs : List Call)
      → After (Stays U) (m u cs)
      → After (Stays U) ((m >> pure {A = ℕ} 0) u cs)
  dropped_stays m u cs h =
      After-bind (Stays U) (Stays U) m (λ _. pure {A = ℕ} 0) u cs h (λ _ u' cs' h'. h')

  pub rcv_completion_stays :
      (u : ServerUnit) (cs : List Call) → U u → After (Stays U) (rcv_completion os u cs)
  unfolding rcv_completion
  rcv_completion_stays u cs h =
      let op = get_u32 0 u.conn.req in
      let drop = λ (m : M ServerUnit ℕ). dropped_stays m u cs in
      After-if (Stays U) (op == 0) _ _ u cs
        (drop (handle_open os) (handle_open_stays os U wire u cs h))
        (After-if (Stays U) (op == 2) _ _ u cs
          (drop (handle_close os) (handle_close_stays os U wire u cs h))
          (After-if (Stays U) (op == 4) _ _ u cs
            (drop (handle_map os) (handle_map_stays os U wire laws u cs h))
            (After-if (Stays U) (op == 6) _ _ u cs
              (drop (handle_unmap os) (handle_unmap_stays os U wire laws u cs h))
              (After-if (Stays U) (op == 8) _ _ u cs
                (drop (handle_commit os) (handle_commit_stays os U wire u cs h)) h))))

  pub handle_wc_stays :
      (wc : Wc) (u : ServerUnit) (cs : List Call)
      → Good wc
      → U u
      → After (Stays U) (handle_wc os wc u cs)
  unfolding handle_wc
  handle_wc_stays wc u cs good h =
      After-if (Stays U) (is_success wc.status && is_recv wc.opcode) _ _ u cs
        (After-bind (Stays U) (Stays U) (rcv_completion os) _ _ cs
          (rcv_completion_stays _ cs (brings.receives wc u good h)) (λ _ u' cs' h'. h'))
        h

  pub handle_wcs_stays :
      (n : ℕ) (wcs : List Wc) (u : ServerUnit) (cs : List Call)
      → All Good wcs
      → U u
      → After (Stays U) (handle_wcs os n wcs u cs)
  unfolding handle_wcs
  handle_wcs_stays zero wcs u cs goods h = h
  handle_wcs_stays (suc n) [] u cs goods h = tt
  handle_wcs_stays (suc n) (wc ∷ wcs) u cs (good, goods) h =
      After-bind (Stays U) (Stays U) (handle_wc os wc) _ u cs (handle_wc_stays wc u cs good h)
        (λ _ u' cs' h'. handle_wcs_stays n wcs u' cs' goods h')

  module _ (goods : (ds : List Call) → All Good (take 16 (os.polled ds))) where
    pub cq_event_handler_stays :
        (fuel completed : ℕ) (u : ServerUnit) (cs : List Call)
        → U u
        → After (Stays U) (cq_event_handler os fuel completed u cs)
    unfolding cq_event_handler
    cq_event_handler_stays zero completed u cs h = tt
    cq_event_handler_stays (suc fuel) completed u cs h =
        let n = os.reply cs (Call.ibv_poll_cq u.conn.cq) in
        After-if (Stays U) (n == 0) _ _ u _ h (
          After-bind (Stays U) (Stays U) (handle_wcs os n _) _ u _
            (handle_wcs_stays n _ u _ (goods _) h)
            (λ _ u' cs' h'.
              After-if (Stays U) (leb 64 (u32 (completed + n))) _ _ u' cs' h'
                (cq_event_handler_stays fuel _ u' cs' h')))

    pub cq_round_stays :
        (u : ServerUnit) (cs : List Call) → U u → After (Stays U) (cq_round os u cs)
    unfolding cq_round
    cq_round_stays u cs h =
        let event = Call.ibv_get_cq_event u.conn.comp_channel in
        let notify = Call.ibv_req_notify_cq u.conn.cq in
        After-if (Stays U) (not (os.reply cs event == 0)) _ _ u _ h (
          After-if (Stays U) (not (os.event_cq (event ∷ cs) == u.conn.cq)) _ _ u _ h (
            After-if (Stays U) (not (os.reply (event ∷ cs) notify == 0)) _ _ u _ h (
              After-bind (Stays U) (Stays U) (cq_event_handler os 64 0) _ u _
                (cq_event_handler_stays 64 0 u _ h)
                (λ ret u' cs' h'. After-if (Stays U) (ret == 0) _ _ u' _ h' h'))))
