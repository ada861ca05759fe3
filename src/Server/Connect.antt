-- ===== src/Server/Connect.antt =====
-- How the server takes a connection: `rpmem_conn_init`, `rpmem_create_qp` and
-- `rpmem_connect_request_handler` of rpmem_server.c.
use mathlib.Core.Bool.{not}
use rpmem.Base.{ℕ, [], ◌∷◌, ◌==◌, if◌then◌else◌, minus_one}
use rpmem.Protocol.{cmd_size, zeroed}
use rpmem.Machine.{
  Slot, Region, Access, Lock, Thread, Call, Os, M, ◌>>=◌, ◌>>◌, pure, gets, modify, call, call_,
}
use rpmem.Conn.{Conn, post_recv}
use rpmem.Server.State.{ServerUnit, on_conn}

-- The connection of a unit that `calloc` has just cleared.
abbrev pub fresh_conn : ℕ → Conn
fresh_conn cma_id = record {
  cma_id = cma_id;
  pd = 0;
  cq = 0;
  qp = 0;
  comp_channel = 0;
  req_mr = 0;
  rsp_mr = 0;
  req = zeroed;
  rsp = zeroed;
}

module _ (os : Os) where
  -- The labels at the end of `rpmem_conn_init`, from the last to the first.
  unfoldable pub pd_error : M Conn ℕ
  pd_error = do c ← gets (λ c. c); call_ os (Call.ibv_dealloc_pd c.pd); pure 1

  unfoldable pub recv_mr_error : M Conn ℕ
  unfolding pd_error
  recv_mr_error = do c ← gets (λ c. c); call_ os (Call.ibv_dereg_mr c.req_mr); pd_error

  unfoldable pub send_mr_error : M Conn ℕ
  unfolding recv_mr_error
  send_mr_error = do c ← gets (λ c. c); call_ os (Call.ibv_dereg_mr c.rsp_mr); recv_mr_error

  unfoldable pub comp_error : M Conn ℕ
  unfolding send_mr_error
  comp_error = do
    c ← gets (λ c. c)
    call_ os (Call.ibv_destroy_comp_channel c.comp_channel)
    send_mr_error

  unfoldable pub cq_error : M Conn ℕ
  unfolding comp_error
  cq_error = do c ← gets (λ c. c); call_ os (Call.ibv_destroy_cq c.cq); comp_error

  -- `rpmem_conn_init`: the protection domain, the two memory regions, the channel and the queue are
  -- created in turn; the result of `pthread_create` is not looked at.
  unfoldable pub conn_init : M Conn ℕ
  unfolding cq_error
  conn_init = do
    cma_id ← gets (λ c. c.cma_id)
    let verbs = os.verbs_of cma_id
    pd ← call os (Call.ibv_alloc_pd verbs)
    modify (λ c. record c { pd = pd })
    if pd == 0 then pure 1 else (do
      req_mr ←
          call os (Call.ibv_reg_mr pd (Region.slot Slot.req) cmd_size (Access.local_write ∷ []))
      modify (λ c. record c { req_mr = req_mr })
      if req_mr == 0 then pd_error else (do
        rsp_mr ←
            call os (Call.ibv_reg_mr pd (Region.slot Slot.rsp) cmd_size (Access.local_write ∷ []))
        modify (λ c. record c { rsp_mr = rsp_mr })
        if rsp_mr == 0 then recv_mr_error else (do
          channel ← call os (Call.ibv_create_comp_channel verbs)
          modify (λ c. record c { comp_channel = channel })
          if channel == 0 then send_mr_error else (do
            cq ← call os (Call.ibv_create_cq verbs 128 channel)
            modify (λ c. record c { cq = cq })
            if cq == 0 then comp_error else (do
              ret ← call os (Call.ibv_req_notify_cq cq)
              if ret == 0
                  then call_ os (Call.thread_create Thread.cq_thread) >> pure 0
                  else cq_error)))))

  -- `rpmem_create_qp`
  unfoldable pub create_qp : M Conn ℕ
  create_qp = do
    c ← gets (λ c. c)
    ret ← call os (Call.rdma_create_qp c.cma_id c.pd c.cq c.cq 128 128)
    if ret == 0
        then modify (λ c. record c { qp = os.qp_of c.cma_id }) >> pure ret
        else pure minus_one

  -- `reject:` and `free_conn:`, which goes on to it.
  unfoldable pub reject : ℕ → M ServerUnit (Unit {0})
  reject cma_id = call_ os (Call.rdma_reject cma_id)

  -- `rpmem_connect_request_handler` on the id of the event. The state comes with the server; its
  -- unit is the new one.
  unfoldable pub connect_request_handler : ℕ → M ServerUnit (Unit {0})
  connect_request_handler cma_id = do
    unit ← call os (Call.calloc_struct)
    if unit == 0 then reject cma_id else (do
      modify (λ u. record u { conn = fresh_conn cma_id; res = 0 })
      err ← on_conn conn_init
      if not (err == 0) then call_ os (Call.free unit) >> reject cma_id else (do
        no_qp ← on_conn create_qp
        if not (no_qp == 0) then call_ os (Call.free unit) >> reject cma_id else (do
          c ← gets (λ u. u.conn)
          unposted ← on_conn (post_recv os Slot.req c.req_mr)
          if not (unposted == 0) then reject cma_id else (do
            refused ← call os (Call.rdma_accept cma_id)
            if not (refused == 0) then reject cma_id else (do
              call_ os (Call.lock Lock.conns_mutex)
              modify (λ u. record u {
                server = record (u.server) { conns_list = unit ∷ u.server.conns_list };
              })
              call_ os (Call.unlock Lock.conns_mutex))))))
