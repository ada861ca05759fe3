-- ===== src/Server/ConnInit.antt =====
-- What `rpmem_conn_init` leaves behind.
use rpmem.Base.{ℕ, ◌+◌, ◌≡◌, ◌≢◌, arith, ◌==◌, if◌then◌else◌, List}
use rpmem.Machine.{Call, Os, Ensures, Object, creations, destructions}
use rpmem.Conn.{Conn}
use rpmem.Server.{conn_init}

-- The objects of a connection.
abbrev pub built : Object → ℕ
built Object.pd = 1
built Object.mr = 2
built Object.comp_channel = 1
built Object.cq = 1
built _ = 0

-- `rpmem_conn_init` always comes to its end. If it returns 0 it has created one protection domain,
-- two memory regions, one completion channel and one completion queue, and kept them all; if it
-- returns anything else it has destroyed as many objects of each kind as it has created.
pub conn_init_objects :
    (os : Os) (o : Object) (c : Conn) (cs : List Call)
    → Ensures
        (λ ret c' cs'.
          creations os o cs' + destructions o cs
          ≡ creations os o cs + destructions o cs' + (if ret == 0 then built o else 0))
        (conn_init os c cs)
unfolding conn_init
conn_init_objects os Object.pd c cs = ground arith
conn_init_objects os o c cs = ground arith

-- If `rpmem_conn_init` returns 0, the handles of the connection are not NULL.
pub conn_init_handles :
    (os : Os) (c : Conn) (cs : List Call)
    → Ensures
        (λ ret c' _.
          ret ≡ 0
          → (c'.pd ≢ 0) × (c'.req_mr ≢ 0) × (c'.rsp_mr ≢ 0) × (c'.comp_channel ≢ 0) × (c'.cq ≢ 0))
        (conn_init os c cs)
unfolding conn_init
conn_init_handles os c cs = ground arith
