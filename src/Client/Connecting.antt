-- ===== src/Client/Connecting.antt =====
-- What the events of the connection manager do to a file.
use mathlib.Core.Bool.{not}
use rpmem.Base.{
  ℕ, zero, suc, ◌+◌, ◌≡◌, ◌≢◌, refl, ◌∙◌, arith, ne→false, eq→true, Bool, true, false, ◌==◌,
  if◌then◌else◌, List, ◌∷◌, minus_one,
}
use rpmem.Machine.{
  CmEvent, Lock, Call, Os, done, stuck, bind-done, Ensures, Object, creations, destructions, one_if,
}
use rpmem.Client.{
  FileState, File, addr_handler, route_handler, enter, on_event, cma_handler, cm_round,
  wait_connect,
}

-- The objects that `rpmem_addr_handler` makes for a connection.
abbrev pub built : Object → ℕ
built Object.pd = 1
built Object.mr = 2
built Object.comp_channel = 1
built Object.cq = 1
built _ = 0

-- `rpmem_addr_handler` always comes to its end. If it returns 0 it has created one protection
-- domain, two memory regions, one completion channel and one completion queue, kept them all, and
-- woken nobody; if it returns anything else it has destroyed as many objects of each kind as it has
-- created, and woken `rpmem_open`.
pub addr_handler_objects :
    (os : Os) (o : Object) (f : File) (cs : List Call)
    → Ensures
        (λ ret g ds.
          (creations os o ds + destructions o cs
            ≡ creations os o cs + destructions o ds + (if ret == 0 then built o else 0))
          × (g.sem_connect ≡ f.sem_connect + (if ret == 0 then 0 else 1)))
        (addr_handler os f cs)
unfolding addr_handler
addr_handler_objects os Object.pd f cs = ground arith
addr_handler_objects os o f cs = ground arith

-- `rpmem_route_handler` always comes to its end. It leaves a new queue pair behind if it returns 0,
-- and none otherwise.
pub route_handler_objects :
    (os : Os) (f : File) (cs : List Call)
    → Ensures
        (λ ret g ds.
          creations os Object.qp ds + destructions Object.qp cs
          ≡ creations os Object.qp cs + destructions Object.qp ds + (if ret == 0 then 1 else 0))
        (route_handler os f cs)
unfolding route_handler
route_handler_objects os f cs = ground arith

-- The state after an event.
abbrev pub state_after : CmEvent → FileState → FileState
state_after CmEvent.addr_resolved s = s
state_after CmEvent.route_resolved s = s
state_after CmEvent.established s = FileState.established
state_after CmEvent.disconnected s = FileState.disconnected
state_after CmEvent.addr_change s = FileState.disconnected
state_after CmEvent.timewait_exit s = FileState.disconnected
state_after _ s = FileState.error

-- Whether the handler wakes `rpmem_open` when it returns `ret`.
abbrev pub wakes : CmEvent → ℕ → Bool
wakes CmEvent.established ret = true
wakes CmEvent.route_resolved ret = false
wakes _ ret = not (ret == 0)

-- `rpmem_cma_handler` always comes to its end. Only an established connection, an error and the end
-- of a connection change the state; and it posts the semaphore of `rpmem_open` once if the
-- connection is established, or if it returns an error, but for an error of the route handler.
pub cma_handler_ends :
    (os : Os) (event : CmEvent) (f : File) (cs : List Call)
    → Ensures
        (λ ret g ds.
          (g.state ≡ state_after event f.state)
          × (g.sem_connect ≡ f.sem_connect + one_if (wakes event ret)))
        (cma_handler os event f cs)
unfolding cma_handler on_event enter addr_handler route_handler
cma_handler_ends os CmEvent.addr_resolved f cs = ground arith
cma_handler_ends os CmEvent.route_resolved f cs = ground arith
cma_handler_ends os event f cs = ground arith

-- The queue pair cannot be created when the route is resolved.
pub record CannotConnect (os : Os) (f : File) (cs : List Call) : Type 0 where
  pub got : os.reply cs (Call.rdma_get_cm_event f.cma_channel) ≡ 0
  pub event : os.cm_event (Call.rdma_get_cm_event f.cma_channel ∷ cs) ≡ CmEvent.route_resolved
  pub no_qp :
      os.reply
        (Call.lock Lock.state_mutex ∷ Call.rdma_get_cm_event f.cma_channel ∷ cs)
        (Call.rdma_create_qp f.conn.cma_id f.conn.pd f.conn.cq f.conn.cq 4 4)
      ≢ 0

cma_handler_fails :
    (os : Os) (f : File) (cs : List Call)
    → let create = Call.rdma_create_qp f.conn.cma_id f.conn.pd f.conn.cq f.conn.cq 4 4 in
      os.reply (Call.lock Lock.state_mutex ∷ cs) create ≢ 0
      → cma_handler os CmEvent.route_resolved f cs
        ≡ done minus_one f (Call.unlock Lock.state_mutex ∷ create ∷ Call.lock Lock.state_mutex ∷ cs)
unfolding cma_handler on_event route_handler
cma_handler_fails os f cs no_qp =
    let create = Call.rdma_create_qp f.conn.cma_id f.conn.pd f.conn.cq f.conn.cq 4 4 in
    bind-done (route_handler os) _ f (Call.lock Lock.state_mutex ∷ cs)
      (rw (ne→false (os.reply (Call.lock Lock.state_mutex ∷ cs) create) 0 no_qp) refl)

cm_round_leaves :
    (os : Os) (f : File) (cs : List Call)
    → CannotConnect os f cs
    → let get = Call.rdma_get_cm_event f.cma_channel in
      let create = Call.rdma_create_qp f.conn.cma_id f.conn.pd f.conn.cq f.conn.cq 4 4 in
      cm_round os f cs
      ≡ done false f (
          Call.thread_exit
          ∷ Call.unlock Lock.state_mutex
          ∷ create
          ∷ Call.lock Lock.state_mutex
          ∷ get
          ∷ cs)
unfolding cm_round
cm_round_leaves os f cs h =
    let get = Call.rdma_get_cm_event f.cma_channel in
    rw (h.got, h.event)
      (bind-done (cma_handler os CmEvent.route_resolved) _ f (get ∷ cs)
        (cma_handler_fails os f (get ∷ cs) h.no_qp))

-- If the queue pair cannot be created when the route is resolved, `cm_thread` leaves without posting
-- the semaphore, and the `sem_wait` of `rpmem_open` never returns, however long one waits.
pub wait_connect_hangs :
    (os : Os) (fuel : ℕ) (f : File) (cs : List Call)
    → f.sem_connect ≡ 0
    → CannotConnect os f cs
    → wait_connect os fuel f cs ≡ stuck
unfolding wait_connect
wait_connect_hangs os zero f cs asleep h = refl
wait_connect_hangs os (suc fuel) f cs asleep h = rw (eq→true f.sem_connect 0 asleep) (
    bind-done (cm_round os) _ f cs (cm_round_leaves os f cs h)
    ∙ rw (eq→true f.sem_connect 0 asleep) refl)
