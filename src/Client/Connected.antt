-- ===== src/Client/Connected.antt =====
-- A connection that comes about: the rounds of `cm_thread` up to `RDMA_CM_EVENT_ESTABLISHED`, for which
-- `rpmem_open` waits.
use rpmem.Base.{ℕ, suc, ◌+◌, ◌≡◌, ◌≢◌, refl, ap, ◌∙◌, arith, ne→false, eq→true, true, List, ◌∷◌}
use rpmem.Protocol.{IsCmd}
use rpmem.Machine.{CmEvent, Lock, Call, Os, done, bind-done, Ensures, Ensures-at}
use rpmem.Client.{
  FileState, File, addr_handler, route_handler, enter, on_event, cma_handler, cm_round,
  wait_connect,
}
use rpmem.Client.Posting.{IsOpen}

-- What `rpmem_addr_handler` has done when it returns 0.
pub record Resolved (f g : File) : Type 0 where
  pub pd : g.conn.pd ≢ 0
  pub req_mr : g.conn.req_mr ≢ 0
  pub rsp_mr : g.conn.rsp_mr ≢ 0
  pub comp_channel : g.conn.comp_channel ≢ 0
  pub cq : g.conn.cq ≢ 0
  pub req : g.conn.req ≡ f.conn.req
  pub asleep : g.sem_connect ≡ f.sem_connect
  pub idle : g.sem_command ≡ f.sem_command

addr_handler-Resolved :
    (os : Os) (f : File) (cs : List Call)
    → Ensures (λ ret g _. ret ≡ 0 → Resolved f g) (addr_handler os f cs)
unfolding addr_handler
addr_handler-Resolved os f cs = ground arith

-- `rpmem_route_handler` sets nothing but the queue pair if it returns 0.
abbrev with_qp : ℕ → File → File
with_qp qp f = record f { conn = record (f.conn) { qp = qp } }

route_handler-with_qp :
    (os : Os) (f : File) (cs : List Call)
    → Ensures (λ ret g _. ret ≡ 0 → g ≡ with_qp (os.qp_of f.conn.cma_id) f) (route_handler os f cs)
unfolding route_handler
route_handler-with_qp os f cs = ground arith

module _ (os : Os) where
  abbrev pub get : File → Call
  get f = Call.rdma_get_cm_event f.cma_channel

  -- The calls of a round whose handler has ended with the calls `ds`.
  abbrev pub after_event : List Call → List Call
  after_event ds = Call.rdma_ack_cm_event ∷ Call.unlock Lock.state_mutex ∷ ds

  -- The next event is `event`, and its handler returns 0.
  pub record Handles (event : CmEvent) (f : File) (cs : List Call) (g : File) (ds : List Call)
      : Type 0 where
    pub got : os.reply cs (get f) ≡ 0
    pub event_is : os.cm_event (get f ∷ cs) ≡ event
    pub ran : on_event os event f (Call.lock Lock.state_mutex ∷ get f ∷ cs) ≡ done 0 g ds

  module _ {event : CmEvent} {f : File} {cs : List Call} {g : File} {ds : List Call}
      (h : Handles event f cs g ds) where
    cm_round-Handles : cm_round os f cs ≡ done true g (after_event ds)
    unfolding cm_round cma_handler
    cm_round-Handles =
        rw (h.got, h.event_is)
          (bind-done (cma_handler os event) _ f (get f ∷ cs)
            (bind-done (on_event os event) _ f (Call.lock Lock.state_mutex ∷ get f ∷ cs) h.ran))

    pub wait_connect-Handles :
        (fuel : ℕ)
        → f.sem_connect ≡ 0
        → wait_connect os (suc fuel) f cs ≡ wait_connect os fuel g (after_event ds)
    unfolding wait_connect
    wait_connect-Handles fuel asleep =
        rw (eq→true f.sem_connect 0 asleep) (bind-done (cm_round os) _ f cs cm_round-Handles)

  abbrev pub established : File → File
  established f = record f { state = FileState.established; sem_connect = 0 }

  -- The three events that make a connection, with the file and the calls between them.
  pub record Connects (f : File) (cs : List Call) : Type 0 where
    pub resolved : File
    pub resolved_calls : List Call
    pub connecting : File
    pub connecting_calls : List Call
    pub addr : Handles CmEvent.addr_resolved f cs resolved resolved_calls
    pub route :
        Handles CmEvent.route_resolved resolved
          (after_event resolved_calls)
          connecting
          connecting_calls
    pub got : os.reply (after_event connecting_calls) (get connecting) ≡ 0
    pub event_is : os.cm_event (get connecting ∷ after_event connecting_calls) ≡ CmEvent.established

  abbrev pub connected_calls : List Call → File → List Call
  connected_calls ds g = after_event (Call.lock Lock.state_mutex ∷ get g ∷ after_event ds)

  module _ {f : File} {cs : List Call} (h : Connects f cs) (asleep : f.sem_connect ≡ 0) where
    at_addr : Resolved f h.resolved
    unfolding on_event
    at_addr =
        Ensures-at _ (addr_handler os f (Call.lock Lock.state_mutex ∷ get f ∷ cs))
          (addr_handler-Resolved os f (Call.lock Lock.state_mutex ∷ get f ∷ cs)) h.addr.ran refl

    at_route : h.connecting ≡ with_qp (os.qp_of h.resolved.conn.cma_id) h.resolved
    unfolding on_event
    at_route =
        let ds = Call.lock Lock.state_mutex ∷ get h.resolved ∷ after_event h.resolved_calls in
        Ensures-at _ (route_handler os h.resolved ds) (route_handler-with_qp os h.resolved ds)
          h.route.ran refl

    still_asleep : h.connecting.sem_connect ≡ 0
    still_asleep = ap (λ (g : File). g.sem_connect) at_route ∙ at_addr.asleep ∙ asleep

    last_round :
        (fuel : ℕ)
        → wait_connect os (suc (suc fuel)) h.connecting (after_event h.connecting_calls)
          ≡ done tt (established h.connecting) (connected_calls h.connecting_calls h.connecting)
    unfolding wait_connect on_event enter
    last_round fuel =
        let g = h.connecting in
        let woken = record g { state = FileState.established; sem_connect = g.sem_connect + 1 } in
        wait_connect-Handles (record { got = h.got; event_is = h.event_is; ran = refl }) (suc fuel)
          still_asleep
        ∙ rw (ne→false woken.sem_connect 0 (λ e. omega (arith, e))) (
            ap
              (λ n.
                done tt (record g { state = FileState.established; sem_connect = n })
                  (connected_calls h.connecting_calls g))
              (omega (arith, still_asleep)))

    -- `rpmem_open` goes on when the three events have come whose handlers return 0.
    pub wait_connect-Connects :
        (fuel : ℕ)
        → wait_connect os (suc (suc (suc (suc fuel)))) f cs
          ≡ done tt (established h.connecting) (connected_calls h.connecting_calls h.connecting)
    wait_connect-Connects fuel =
        wait_connect-Handles h.addr (suc (suc (suc fuel))) asleep
        ∙ wait_connect-Handles h.route (suc (suc fuel)) (at_addr.asleep ∙ asleep)
        ∙ last_round fuel

    pub established-IsOpen :
        IsCmd f.conn.req → f.sem_command ≡ 0 → IsOpen (established h.connecting)
    established-IsOpen cmd idle = rw at_route (record {
      req_registered = at_addr.req_mr;
      rsp_registered = at_addr.rsp_mr;
      req_cmd = rw at_addr.req cmd;
      idle = at_addr.idle ∙ idle;
    })
