-- ===== src/Client/Connect.antt =====
-- How the client connects: `rpmem_addr_handler`, `rpmem_route_handler`, `rpmem_cma_handler` and
-- `cm_thread` of rpmem.c, and `sem_wait` on the semaphore that they post.
use mathlib.Core.Bool.{not}
use rpmem.Base.{
  ℕ, zero, suc, ◌+◌, ◌-◌, Bool, true, false, ◌||◌, [], ◌∷◌, ◌==◌, if◌then◌else◌, minus_one,
}
use rpmem.Protocol.{cmd_size}
use rpmem.Machine.{
  Slot, Region, Access, Lock, Thread, CmEvent, Call, Os, M, ◌>>=◌, ◌>>◌, pure, gives_up, gets,
  modify, call, call_, in_memory,
}
use rpmem.Client.State.{FileState, File, on_conn}

module _ (os : Os) where
  -- `sem_post(&priv_rfile->sem_connect)`
  unfoldable pub post_connect : M File (Unit {0})
  post_connect = modify (λ f. record f { sem_connect = f.sem_connect + 1 })

  -- The labels at the end of `rpmem_addr_handler`, from the last to the first; this one is `error`.
  unfoldable pub addr_failed : M File ℕ
  unfolding post_connect
  addr_failed = post_connect >> pure minus_one

  unfoldable pub pd_error : M File ℕ
  unfolding addr_failed
  pd_error = do c ← gets (λ f. f.conn); call_ os (Call.ibv_dealloc_pd c.pd); addr_failed

  unfoldable pub recv_mr_error : M File ℕ
  unfolding pd_error
  recv_mr_error = do c ← gets (λ f. f.conn); call_ os (Call.ibv_dereg_mr c.rsp_mr); pd_error

  unfoldable pub send_mr_error : M File ℕ
  unfolding recv_mr_error
  send_mr_error = do c ← gets (λ f. f.conn); call_ os (Call.ibv_dereg_mr c.req_mr); recv_mr_error

  unfoldable pub comp_error : M File ℕ
  unfolding send_mr_error
  comp_error = do
    c ← gets (λ f. f.conn)
    call_ os (Call.ibv_destroy_comp_channel c.comp_channel)
    send_mr_error

  unfoldable pub cq_error : M File ℕ
  unfolding comp_error
  cq_error = do c ← gets (λ f. f.conn); call_ os (Call.ibv_destroy_cq c.cq); comp_error

  -- `rpmem_addr_handler`; the result of `pthread_create` is not looked at.
  unfoldable pub addr_handler : M File ℕ
  unfolding cq_error
  addr_handler = do
    cma_id ← gets (λ f. f.conn.cma_id)
    let verbs = os.verbs_of cma_id
    unresolved ← call os (Call.rdma_resolve_route cma_id)
    if not (unresolved == 0) then addr_failed else (do
      pd ← call os (Call.ibv_alloc_pd verbs)
      on_conn (modify (λ c. record c { pd = pd }))
      if pd == 0 then addr_failed else (do
        rsp_mr ←
            call os (Call.ibv_reg_mr pd (Region.slot Slot.rsp) cmd_size (Access.local_write ∷ []))
        on_conn (modify (λ c. record c { rsp_mr = rsp_mr }))
        if rsp_mr == 0 then pd_error else (do
          req_mr ←
              call os (Call.ibv_reg_mr pd (Region.slot Slot.req) cmd_size (Access.local_write ∷ []))
          on_conn (modify (λ c. record c { req_mr = req_mr }))
          if req_mr == 0 then recv_mr_error else (do
            channel ← call os (Call.ibv_create_comp_channel verbs)
            on_conn (modify (λ c. record c { comp_channel = channel }))
            if channel == 0 then send_mr_error else (do
              cq ← call os (Call.ibv_create_cq verbs 8 channel)
              on_conn (modify (λ c. record c { cq = cq }))
              if cq == 0 then comp_error else (do
                ret ← call os (Call.ibv_req_notify_cq cq)
                if ret == 0
                    then call_ os (Call.thread_create Thread.cq_thread) >> pure 0
                    else cq_error))))))

  -- `rpmem_route_handler`
  unfoldable pub route_handler : M File ℕ
  route_handler = do
    c ← gets (λ f. f.conn)
    no_qp ← call os (Call.rdma_create_qp c.cma_id c.pd c.cq c.cq 4 4)
    if not (no_qp == 0) then pure minus_one else (do
      let qp = os.qp_of c.cma_id
      on_conn (modify (λ c. record c { qp = qp }))
      ret ← call os (Call.rdma_connect c.cma_id)
      if ret == 0 then pure ret else call_ os (Call.ibv_destroy_qp qp) >> pure minus_one)

  -- A case of the `switch` that ends in a state.
  unfoldable pub enter : FileState → ℕ → M File ℕ
  unfolding post_connect
  enter state ret = modify (λ f. record f { state = state }) >> post_connect >> pure ret

  -- The `switch` of `rpmem_cma_handler`
  unfoldable pub on_event : CmEvent → M File ℕ
  on_event CmEvent.addr_resolved = addr_handler
  on_event CmEvent.route_resolved = route_handler
  on_event CmEvent.established = enter FileState.established 0
  on_event CmEvent.addr_error = enter FileState.error minus_one
  on_event CmEvent.route_error = enter FileState.error minus_one
  on_event CmEvent.connect_error = enter FileState.error minus_one
  on_event CmEvent.unreachable = enter FileState.error minus_one
  on_event CmEvent.rejected = enter FileState.error minus_one
  on_event CmEvent.disconnected = enter FileState.disconnected minus_one
  on_event CmEvent.addr_change = enter FileState.disconnected minus_one
  on_event CmEvent.timewait_exit = enter FileState.disconnected minus_one
  on_event CmEvent.connect_request = enter FileState.error minus_one
  on_event CmEvent.other_event = enter FileState.error minus_one

  -- `rpmem_cma_handler`
  unfoldable pub cma_handler : CmEvent → M File ℕ
  cma_handler event = do
    call_ os (Call.lock Lock.state_mutex)
    ret ← on_event event
    call_ os (Call.unlock Lock.state_mutex)
    pure ret

  -- One round of `cm_thread`: false if the thread has left.
  unfoldable pub cm_round : M File Bool
  cm_round = do
    channel ← gets (λ f. f.cma_channel)
    failed ← call os (Call.rdma_get_cm_event channel)
    event ← in_memory os.cm_event
    if not (failed == 0) then call_ os Call.thread_exit >> pure false else (do
      ret ← cma_handler event
      if ret == 0
          then call_ os Call.rdma_ack_cm_event >> pure true
          else call_ os Call.thread_exit >> pure false)

  -- `sem_wait(&priv_rfile->sem_connect)`: while the count is 0 the thread sleeps and `cm_thread` runs
  -- its rounds, one for each unit of fuel.
  unfoldable pub wait_connect : ℕ → M File (Unit {0})
  wait_connect zero = gives_up
  wait_connect (suc fuel) = do
    count ← gets (λ f. f.sem_connect)
    let again = wait_connect fuel
    if count == 0
        then (do
          alive ← cm_round
          posted ← gets (λ f. f.sem_connect)
          if alive || not (posted == 0) then again else gives_up)
        else modify (λ f. record f { sem_connect = f.sem_connect - 1 })
