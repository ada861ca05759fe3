-- ===== src/Client/CloseResult.antt =====
-- `rpmem_close` from its first call to its result, where its request is answered.
use rpmem.Base.{ℕ, suc, ◌≡◌, ◌≢◌, refl, ◌∙◌, All, some, List, ◌∷◌, ◌++◌}
use rpmem.Protocol.{Buf, IsCmd, pack_close_req}
use rpmem.Protocol.Spec.{Request, pack_request, parse_request}
use rpmem.Protocol.RoundTrip.{parse-pack_request}
use rpmem.Machine.{Lock, Sem, Thread, Call, Os, done, bind-done, within-done, Ensures, Ensures-done}
use rpmem.Client.{
  File, Library, expect_rsp, send_req, wait_command, tear_down, close_file, rpmem_close,
}
use rpmem.Client.Posting.{
  IsOpen, expecting, packed, expect_call, request_call, expect_rsp-eq, send_req-eq,
}
use rpmem.Client.Waiting.{Arrives, delivered, after_round, wait_command-arrived}
use rpmem.Client.Files.{listing, rpmem_close-run}

module _ (os : Os) (f : File) (cs : List Call) where
  abbrev pub close_expects : Call
  close_expects = expect_call os f

  abbrev pub close_sends : Call
  close_sends = request_call os pack_close_req (expecting f)

  abbrev pub close_waiting : File
  close_waiting = packed pack_close_req (expecting f)

  abbrev pub close_calls : List Call
  close_calls = close_sends ∷ close_expects ∷ cs

  -- The receive for the response and the request are posted, and the response comes.
  pub record Closes (b : Buf) : Type 0 where
    pub expects : os.reply cs close_expects ≡ 0
    pub sends : os.reply (close_expects ∷ cs) close_sends ≡ 0
    pub arrives : Arrives os close_waiting close_calls b

  close_request-parsed :
      IsCmd f.conn.req → parse_request close_waiting.conn.req ≡ some Request.closing
  unfolding pack_request
  close_request-parsed h = parse-pack_request Request.closing f.conn.req h tt

  -- What `rpmem_close` does from the label `out` on: threads, connection, objects, memory.
  abbrev pub torn : ℕ → List Call → List Call
  torn p ds =
      Call.free p
      ∷ Call.mutex_destroy Lock.state_mutex
      ∷ Call.sem_destroy Sem.sem_connect
      ∷ Call.sem_destroy Sem.sem_command
      ∷ Call.ibv_dealloc_pd f.conn.pd
      ∷ Call.ibv_destroy_comp_channel f.conn.comp_channel
      ∷ Call.ibv_destroy_cq f.conn.cq
      ∷ Call.thread_cancel Thread.cq_thread
      ∷ Call.rdma_destroy_event_channel f.cma_channel
      ∷ Call.rdma_destroy_id f.conn.cma_id
      ∷ Call.ibv_destroy_qp f.conn.qp
      ∷ Call.rdma_disconnect f.conn.cma_id
      ∷ Call.thread_cancel Thread.cm_thread
      ∷ ds

  close_file-eq :
      (fuel p : ℕ) (b : Buf)
      → IsOpen f
      → Closes b
      → close_file os (suc (suc fuel)) p f cs
        ≡ done 0
            (delivered os close_waiting close_calls b)
            (torn p (after_round os close_waiting close_calls))
  unfolding close_file tear_down
  close_file-eq fuel p b ready closes =
      bind-done (expect_rsp os) _ f cs (expect_rsp-eq os f cs ready.rsp_registered)
      ∙ rw closes.expects (
          bind-done (send_req os pack_close_req) _ (expecting f) (close_expects ∷ cs)
            (send_req-eq os (expecting f) (close_expects ∷ cs) pack_close_req ready.req_registered)
          ∙ rw closes.sends (
              bind-done (wait_command os (suc (suc fuel))) _ close_waiting close_calls (
                wait_command-arrived os close_waiting close_calls fuel b closes.arrives
                  ready.idle)))

module _ (os : Os) (p : ℕ) (before after : List ℕ) (l : Library) (cs : List Call) where
  -- The calls that take the file off the list.
  abbrev pub unlisting : List Call
  unlisting = Call.unlock Lock.file_list_mutex ∷ Call.lock Lock.file_list_mutex ∷ cs

  abbrev pub last_calls : List Call
  last_calls =
      torn os l.file unlisting p
        (after_round os (close_waiting os l.file unlisting) (close_calls os l.file unlisting))

  abbrev pub closed_library : Buf → Library
  closed_library b = record {
    file_list = before ++ after;
    file = delivered os (close_waiting os l.file unlisting) (close_calls os l.file unlisting) b;
  }

  pub rpmem_close-eq :
      (fuel : ℕ) (b : Buf)
      → l.file_list ≡ before ++ p ∷ after
      → All (λ q. q ≢ p) before
      → IsOpen l.file
      → Closes os l.file unlisting b
      → rpmem_close os (suc (suc fuel)) p l cs ≡ done 0 (closed_library b) last_calls
  rpmem_close-eq fuel b listed others ready closes = rw listed (
      rpmem_close-run os (suc (suc fuel)) p before after l cs others
      ∙ within-done (λ (l : Library). l.file) (λ f l. record l { file = f })
          (close_file os (suc (suc fuel)) p) (listing (before ++ after) l) unlisting
          (close_file-eq os l.file unlisting fuel p b ready closes))

  -- A close of an open file that is on the list, and not earlier on it, whose receive and request are
  -- posted and whose response comes, returns 0. Its request is parsed as a close request; the file is
  -- off the list; and behind the round that brings the response it stops the thread of the connection
  -- manager, disconnects, destroys the queue pair, the id and the event channel, stops the thread of
  -- the completions, destroys the completion queue, the channel and the protection domain, and frees
  -- the file, in this order.
  pub rpmem_close_returns :
      (fuel : ℕ) (b : Buf)
      → l.file_list ≡ before ++ p ∷ after
      → All (λ q. q ≢ p) before
      → IsOpen l.file
      → Closes os l.file unlisting b
      → (parse_request (close_waiting os l.file unlisting).conn.req ≡ some Request.closing)
        × Ensures
            (λ ret l' ds. (ret ≡ 0) × (l'.file_list ≡ before ++ after) × (ds ≡ last_calls))
            (rpmem_close os (suc (suc fuel)) p l cs)
  rpmem_close_returns fuel b listed others ready closes = (
    close_request-parsed os l.file unlisting ready.req_cmd,
    Ensures-done _ (rpmem_close os (suc (suc fuel)) p l cs)
        (rpmem_close-eq fuel b listed others ready closes) (refl, refl, refl),
  )
