-- ===== src/Client/Opened.antt =====
-- `rpmem_open` on the file that it has allocated, where everything goes well.
use rpmem.Base.{ℕ, suc, ◌≡◌, ◌≢◌, refl, ◌∙◌, ne→false, some, List, ◌∷◌}
use rpmem.Protocol.{Buf, IsCmd, zeroed-IsCmd, pack_open_req}
use rpmem.Protocol.Spec.{Request, Response, pack_request, parse_request}
use rpmem.Protocol.Carries.{Carries, unpack_open_rsp-Carries}
use rpmem.Protocol.Frame.{pack_request_frame}
use rpmem.Protocol.RoundTrip.{parse-pack_request}
use rpmem.Machine.{Lock, Thread, Call, Os, done, bind-done}
use rpmem.Client.{
  File, fresh_file, expect_rsp, send_req, wait_connect, wait_command, opened, ask_open, connect,
  open_file,
}
use rpmem.Client.Posting.{
  IsOpen, expecting, packed, expect_call, request_call, expect_rsp-eq, send_req-eq,
}
use rpmem.Client.Waiting.{Arrives, delivered, after_round, wait_command-arrived}
use rpmem.Client.OpenFile.{inits}
use rpmem.Client.Connected.{
  Connects, established, connected_calls, wait_connect-Connects, established-IsOpen,
}

module _ (os : Os) (f : File) (cs : List Call) where
  abbrev pub open_expects : Call
  open_expects = expect_call os f

  abbrev pub open_sends : Call
  open_sends = request_call os pack_open_req (expecting f)

  -- The file while the call waits for the response, and the calls it has made.
  abbrev pub open_waiting : File
  open_waiting = packed pack_open_req (expecting f)

  abbrev pub open_calls : List Call
  open_calls = open_sends ∷ open_expects ∷ cs

  -- The file when the response with the size has come.
  abbrev pub sized : ℕ → Buf → File
  sized size b = record (delivered os open_waiting open_calls b) { size = size }

  pub open_request-parsed :
      IsCmd f.conn.req → parse_request open_waiting.conn.req ≡ some Request.opening
  unfolding pack_request
  open_request-parsed h = parse-pack_request Request.opening f.conn.req h tt

  pub open_waiting-IsCmd : IsCmd f.conn.req → IsCmd open_waiting.conn.req
  unfolding pack_request
  open_waiting-IsCmd h = (pack_request_frame Request.opening f.conn.req h).0

  -- The receive for the response and the request are posted.
  pub record Posts : Type 0 where
    pub expects : os.reply cs open_expects ≡ 0
    pub sends : os.reply (open_expects ∷ cs) open_sends ≡ 0

  ask_open-eq :
      (fuel p size : ℕ) (b : Buf)
      → IsOpen f
      → Posts
      → Arrives os open_waiting open_calls b
      → Carries (Response.opening size) b
      → ask_open os (suc (suc fuel)) p f cs
        ≡ done p (sized size b) (after_round os open_waiting open_calls)
  unfolding ask_open opened
  ask_open-eq fuel p size b ready posts arrives carried =
      bind-done (expect_rsp os) _ f cs (expect_rsp-eq os f cs ready.rsp_registered)
      ∙ rw posts.expects (
          bind-done (send_req os pack_open_req) _ (expecting f) (open_expects ∷ cs)
            (send_req-eq os (expecting f) (open_expects ∷ cs) pack_open_req ready.req_registered)
          ∙ rw posts.sends (
              bind-done (wait_command os (suc (suc fuel))) _ open_waiting open_calls
                (wait_command-arrived os open_waiting open_calls fuel b arrives ready.idle)
              ∙ rw (unpack_open_rsp-Carries size f.size b carried) refl))

module _ (os : Os) (cs : List Call) where
  abbrev pub new_channel : ℕ
  new_channel = os.reply (inits cs) Call.rdma_create_event_channel

  abbrev pub made : List Call
  made = Call.rdma_create_event_channel ∷ inits cs

  abbrev pub name : Call
  name = Call.rdma_create_id new_channel

  abbrev pub resolve : Call
  resolve = Call.rdma_resolve_addr (os.made_id (name ∷ made))

  -- The file when it is asked to resolve the address of the server, and the calls it has made.
  abbrev pub begun : File
  begun = record fresh_file {
    cma_channel = new_channel;
    conn = record (fresh_file.conn) { cma_id = os.made_id (name ∷ made) };
  }

  abbrev pub begun_calls : List Call
  begun_calls = resolve ∷ Call.thread_create Thread.cm_thread ∷ name ∷ made

  -- The event channel, the id and the thread are made, and the address is resolved.
  pub record Begins : Type 0 where
    pub channel : new_channel ≢ 0
    pub named : os.reply made name ≡ 0
    pub thread : os.reply (name ∷ made) (Call.thread_create Thread.cm_thread) ≡ 0
    pub resolved : os.reply (Call.thread_create Thread.cm_thread ∷ name ∷ made) resolve ≡ 0

  module _ (h : Connects os begun begun_calls) where
    -- The file when the connection is established, and the calls it has made.
    abbrev pub joined : File
    joined = established os h.connecting

    abbrev pub joined_calls : List Call
    joined_calls =
        Call.unlock Lock.state_mutex
        ∷ Call.lock Lock.state_mutex
        ∷ connected_calls os h.connecting_calls h.connecting

    pub open_file-eq :
        (fuel p size : ℕ) (b : Buf)
        → Begins
        → Posts os joined joined_calls
        → Arrives os (open_waiting os joined joined_calls) (open_calls os joined joined_calls) b
        → Carries (Response.opening size) b
        → open_file os (suc (suc (suc (suc fuel)))) p fresh_file cs
          ≡ done p (sized os joined joined_calls size b) (
              after_round os
                (open_waiting os joined joined_calls)
                (open_calls os joined joined_calls))
    unfolding open_file connect
    open_file-eq fuel p size b begins posts arrives carried =
        rw (ne→false new_channel 0 begins.channel, begins.named, begins.thread, begins.resolved)
          (bind-done (wait_connect os (suc (suc (suc (suc fuel))))) _ begun begun_calls
              (wait_connect-Connects os h refl fuel)
            ∙ ask_open-eq os joined joined_calls (suc (suc fuel)) p size b
                (established-IsOpen os h refl zeroed-IsCmd refl) posts arrives carried)
