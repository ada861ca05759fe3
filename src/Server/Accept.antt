-- ===== src/Server/Accept.antt =====
-- What becomes of a connection request.
use rpmem.Base.{ℕ, ◌+◌, ◌≡◌, ◌≢◌, ◌⊎◌, ne→false, arith, List, [], ◌∷◌}
use rpmem.Machine.{
  Call, Os, Ensures, Ensures-bind, within-done, done, Object, creations, destructions,
}
use rpmem.Conn.{Conn, post_recv}
use rpmem.Server.ConnInit.{built, conn_init_objects}
use rpmem.Server.{
  ServerUnit, on_conn, fresh_conn, connect_request_handler, conn_init, create_qp, reject,
}

-- The latest call rejects the connection.
abbrev pub RejectedLast : ℕ → List Call → Type 0
RejectedLast id [] = ⊥
RejectedLast id (c ∷ cs) = c ≡ Call.rdma_reject id

-- The handler of a connection request always comes to its end, and in one of two ways: the request
-- is rejected and the list of connections stays as it was, or the new unit stands at the head of
-- the list, with both command buffers registered and holding no resource. Pool and sizes stay.
pub connect_request_handler_ends :
    (os : Os) (id : ℕ) (u : ServerUnit) (cs : List Call)
    → let unit = os.reply cs Call.calloc_struct in
      Ensures
        (λ _ u' cs'.
          (u'.server.res_list ≡ u.server.res_list)
          × (u'.server.free_size ≡ u.server.free_size)
          × (u'.server.in_use_size ≡ u.server.in_use_size)
          × ((RejectedLast id cs' × (u'.server.conns_list ≡ u.server.conns_list))
              ⊎ ((u'.server.conns_list ≡ unit ∷ u.server.conns_list)
                  × (unit ≢ 0)
                  × (u'.conn.req_mr ≢ 0)
                  × (u'.conn.rsp_mr ≢ 0)
                  × (u'.res ≡ 0))))
        (connect_request_handler os id u cs)
unfolding connect_request_handler conn_init create_qp reject post_recv
connect_request_handler_ends os id u cs = ground arith

-- If `rpmem_conn_init` succeeds and the queue pair cannot be created, the request is rejected,
-- but what `rpmem_conn_init` has created stays: of each kind of object as many more have been
-- created than destroyed as a connection has.
pub connect_request_handler_leaks :
    (os : Os) (o : Object) (id : ℕ) (u : ServerUnit) (cs : List Call) {c : Conn} {ds : List Call}
    → let unit = os.reply cs Call.calloc_struct in
      unit ≢ 0
      → conn_init os (fresh_conn id) (Call.calloc_struct ∷ cs) ≡ done 0 c ds
      → os.reply ds (Call.rdma_create_qp c.cma_id c.pd c.cq c.cq 128 128) ≢ 0
      → Ensures
          (λ _ u' cs'.
            (RejectedLast id cs')
            × (creations os o cs' + destructions o cs
                ≡ creations os o cs + destructions o cs' + built o))
          (connect_request_handler os id u cs)
unfolding connect_request_handler create_qp reject
connect_request_handler_leaks os o id u cs {c} {ds} there inited no_qp =
    let kept = rw inited at (conn_init_objects os o (fresh_conn id) (Call.calloc_struct ∷ cs)) in
    let fresh = record u { conn = fresh_conn id; res = 0 } in
    rw (ne→false (os.reply cs Call.calloc_struct) 0 there) (
      Ensures-bind _ (on_conn (conn_init os)) _ fresh (Call.calloc_struct ∷ cs)
        (within-done (λ v. v.conn) (λ k v. record v { conn = k }) (conn_init os) fresh
          (Call.calloc_struct ∷ cs) inited)
        (ground (arith, kept)))
