-- ===== src/Client/Waits.antt =====
-- What posting and waiting keep: all that does not depend on the connection, the semaphore and the
-- calls of the two threads.
use mathlib.Core.Bool.{not}
use rpmem.Base.{
  ℕ, zero, suc, ◌+◌, ◌≡◌, refl, Bool, true, false, Bool-cases, inl, inr, ◌==◌, ◌||◌, leb, List, [],
  ◌∷◌, take, u32,
}
use rpmem.Machine.{WrOpcode, Call, Os, Wc, After, After-bind, After-if}
use rpmem.Client.{
  File, after_wc, handle_wc, handle_wcs, cq_event_handler, cq_round, wait_command, expect_rsp,
  send_req, transfer,
}
use rpmem.Conn.{Conn, post_send, post_recv, post_rdma_wr}
use rpmem.Protocol.{Buf}

-- The calls that post a work request, and those of `cq_thread`.
abbrev pub of_transport : Call → Bool
of_transport (Call.ibv_get_cq_event _) = true
of_transport (Call.ibv_req_notify_cq _) = true
of_transport (Call.ibv_poll_cq _) = true
of_transport (Call.ibv_ack_cq_events _) = true
of_transport Call.thread_exit = true
of_transport (Call.ibv_post_send _ _) = true
of_transport (Call.ibv_post_recv _ _) = true
of_transport _ = false

abbrev pub Ends : (File → List Call → Type 0) → {A : Type 0} → A → File → List Call → Type 0
Ends P a f cs = P f cs

pub record WaitLaws (P : File → List Call → Type 0) : Type 0 where
  pub connected : (c : Conn) (f : File) (cs : List Call) → P f cs → P (record f { conn = c }) cs
  pub counted : (n : ℕ) (f : File) (cs : List Call) → P f cs → P (record f { sem_command = n }) cs
  pub called :
      (c : Call) (f : File) (cs : List Call) → of_transport c ≡ true → P f cs → P f (c ∷ cs)

module _ (os : Os) (P : File → List Call → Type 0) (laws : WaitLaws P) where
  handle_wcs_keeps :
      (n : ℕ) (wcs : List Wc) (f : File) (cs : List Call)
      → P f cs
      → After (Ends P) (handle_wcs os n wcs f cs)
  unfolding handle_wcs handle_wc
  handle_wcs_keeps zero wcs f cs h = h
  handle_wcs_keeps (suc n) [] f cs h = tt
  handle_wcs_keeps (suc n) (wc ∷ wcs) f cs h =
      handle_wcs_keeps n wcs (after_wc wc f) cs (laws.counted _ _ cs (laws.connected _ f cs h))

  cq_event_handler_keeps :
      (fuel completed : ℕ) (f : File) (cs : List Call)
      → P f cs
      → After (Ends P) (cq_event_handler os fuel completed f cs)
  unfolding cq_event_handler
  cq_event_handler_keeps zero completed f cs h = tt
  cq_event_handler_keeps (suc fuel) completed f cs h =
      let poll = Call.ibv_poll_cq f.conn.cq in
      let n = os.reply cs poll in
      let wcs = take 16 (os.polled (poll ∷ cs)) in
      let h' = laws.called poll f cs refl h in
      After-if (Ends P) (n == 0) _ _ f (poll ∷ cs) h' (
        After-bind (Ends P) (Ends P) (handle_wcs os n wcs) _ f (poll ∷ cs)
          (handle_wcs_keeps n wcs f (poll ∷ cs) h')
          (λ _ g ds k.
            After-if (Ends P) (leb 64 (u32 (completed + n))) _ _ g ds k
              (cq_event_handler_keeps fuel (u32 (completed + n)) g ds k)))

  cq_round_keeps : (f : File) (cs : List Call) → P f cs → After (Ends P) (cq_round os f cs)
  unfolding cq_round
  cq_round_keeps f cs h =
      let get = Call.ibv_get_cq_event f.conn.comp_channel in
      let arm = Call.ibv_req_notify_cq f.conn.cq in
      let h1 = laws.called get f cs refl h in
      let h2 = laws.called arm f (get ∷ cs) refl h1 in
      After-if (Ends P) (not (os.reply cs get == 0)) _ _ f (get ∷ cs)
        (laws.called Call.thread_exit f (get ∷ cs) refl h1)
        (After-if (Ends P) (not (os.event_cq (get ∷ cs) == f.conn.cq)) _ _ f (get ∷ cs)
          (laws.called Call.thread_exit f (get ∷ cs) refl h1)
          (After-if (Ends P) (not (os.reply (get ∷ cs) arm == 0)) _ _ f (arm ∷ get ∷ cs)
            (laws.called Call.thread_exit f (arm ∷ get ∷ cs) refl h2)
            (After-bind (Ends P) (Ends P) (cq_event_handler os 64 0) _ f (arm ∷ get ∷ cs)
              (cq_event_handler_keeps 64 0 f (arm ∷ get ∷ cs) h2)
              (λ ret g ds k.
                let ack = Call.ibv_ack_cq_events f.conn.cq in
                let k' = laws.called ack g ds refl k in
                After-if (Ends P) (ret == 0) _ _ g (ack ∷ ds) k'
                  (laws.called Call.thread_exit g (ack ∷ ds) refl k')))))

  pub wait_command_keeps :
      (fuel : ℕ) (f : File) (cs : List Call) → P f cs → After (Ends P) (wait_command os fuel f cs)
  unfolding wait_command
  wait_command_keeps zero f cs h = tt
  wait_command_keeps (suc fuel) f cs h =
      After-if (Ends P) (f.sem_command == 0) _ _ f cs
        (After-bind (Ends P) (Ends P) (cq_round os) _ f cs (cq_round_keeps f cs h) (λ alive g ds k.
          After-if (Ends P) (alive || not (g.sem_command == 0)) _ _ g ds
            (wait_command_keeps fuel g ds k) tt))
        (laws.counted _ f cs h)

  pub expect_rsp_keeps : (f : File) (cs : List Call) → P f cs → After (Ends P) (expect_rsp os f cs)
  unfolding expect_rsp post_recv
  expect_rsp_keeps f cs h = elim (Bool-cases (f.conn.rsp_mr == 0)) [
    | inl null ↦ rw null tt
    | inr there ↦ rw there (laws.connected _ f _ (laws.called _ f cs refl h))
  ]

  pub send_req_keeps :
      (pack : Buf → Buf) (f : File) (cs : List Call)
      → P f cs
      → After (Ends P) (send_req os pack f cs)
  unfolding send_req post_send
  send_req_keeps pack f cs h = elim (Bool-cases (f.conn.req_mr == 0)) [
    | inl null ↦ rw null tt
    | inr there ↦ rw there (laws.connected _ f _ (laws.called _ f cs refl h))
  ]

  pub transfer_keeps :
      (opcode : WrOpcode) (f : File) (cs : List Call)
      → P f cs
      → After (Ends P) (transfer os opcode f cs)
  unfolding transfer post_rdma_wr
  transfer_keeps opcode f cs h = elim (Bool-cases (f.mr == 0)) [
    | inl null ↦ rw null tt
    | inr there ↦ rw there (laws.called _ f cs refl h)
  ]
