-- ===== src/Client/Api.antt =====
-- What a program calls on an open file: `rpmem_map`, `rpmem_unmap` and `rpmem_commit` of rpmem.c. The
-- fuel is that of the waits.
use rpmem.Base.{ℕ, Bool, true, false, [], ◌∷◌, ◌==◌, if◌then◌else◌, u32}
use rpmem.Protocol.{
  Buf, pack_map_req, pack_unmap_req, pack_commit_req, unpack_map_rsp, unpack_unmap_rsp,
  unpack_commit_rsp,
}
use rpmem.Machine.{
  Slot, Region, Access, WrOpcode, Call, Os, M, ◌>>=◌, ◌>>◌, pure, gets, modify, call, call_,
  in_memory, field_of,
}
use rpmem.Conn.{post_send, post_recv, post_rdma_wr}
use rpmem.Client.State.{File, on_conn}
use rpmem.Client.Events.{wait_command}

module _ (os : Os) where
  -- `rpmem_post_recv(conn, &conn->rsp, conn->rsp_mr)`
  unfoldable pub expect_rsp : M File ℕ
  unfolding post_recv
  expect_rsp = do mr ← gets (λ f. f.conn.rsp_mr); on_conn (post_recv os Slot.rsp mr)

  -- The request is packed and sent.
  unfoldable pub send_req : (Buf → Buf) → M File ℕ
  unfolding post_send
  send_req pack = do
    on_conn (modify (λ c. record c { req = pack c.req }))
    mr ← gets (λ f. f.conn.req_mr)
    on_conn (post_send os Slot.req mr)

  -- `rpmem_post_rdma_wr` between the local memory and the memory of the server.
  unfoldable pub transfer : WrOpcode → M File ℕ
  unfolding post_rdma_wr
  transfer opcode = do
    f ← gets (λ f. f)
    lkey ← field_of os.lkey_of f.mr
    on_conn (post_rdma_wr os f.rkey lkey f.remote_addr f.addr (u32 f.len) opcode)

  -- `rpmem_commit`, from the response on.
  unfoldable pub committed : M File ℕ
  committed = do
    rsp ← gets (λ f. f.conn.rsp)
    unset ← in_memory os.junk32
    let result = unpack_commit_rsp rsp unset
    pure (if result.0 == 0 then result.1 else result.0)

  -- `rpmem_commit`
  unfoldable pub rpmem_commit : ℕ → M File ℕ
  rpmem_commit fuel = do
    unposted ← expect_rsp
    if unposted == 0
        then (do
          unwritten ← transfer WrOpcode.rdma_write
          if unwritten == 0
              then (do
                f ← gets (λ f. f)
                unsent ← send_req (λ req. pack_commit_req req (u32 f.len) f.remote_addr)
                if unsent == 0 then wait_command os fuel >> committed else pure unsent)
              else pure unwritten)
        else pure unposted

  -- `destroy_mr:` of `rpmem_unmap`
  unfoldable pub drop_memory : ℕ → M File ℕ
  drop_memory ret = do
    f ← gets (λ f. f)
    call_ os (Call.ibv_dereg_mr f.mr)
    modify (λ f. record f { rkey = 0; remote_addr = 0 })
    call_ os (Call.free f.addr)
    modify (λ f. record f { len = 0 })
    pure ret

  -- `rpmem_unmap`, from the response on.
  unfoldable pub unmapped : M File ℕ
  unmapped = do
    rsp ← gets (λ f. f.conn.rsp)
    unset ← in_memory os.junk32
    let result = unpack_unmap_rsp rsp unset
    drop_memory (if result.0 == 0 then result.1 else result.0)

  -- `rpmem_unmap`
  unfoldable pub rpmem_unmap : ℕ → M File ℕ
  rpmem_unmap fuel = do
    unposted ← expect_rsp
    if unposted == 0
        then (do
          f ← gets (λ f. f)
          unsent ← send_req (λ req. pack_unmap_req req (u32 f.len) f.remote_addr)
          if unsent == 0 then wait_command os fuel >> unmapped else drop_memory unsent)
        else drop_memory unposted

  -- The labels at the end of `rpmem_map`, from the last to the first. The function returns true for the
  -- pointer `rmr` and false for NULL.
  unfoldable pub no_memory : M File Bool
  no_memory = modify (λ f. record f { len = 0 }) >> pure false

  unfoldable pub destroy_addr : M File Bool
  destroy_addr = do addr ← gets (λ f. f.addr); call_ os (Call.free addr); no_memory

  unfoldable pub destroy_mr : M File Bool
  destroy_mr = do mr ← gets (λ f. f.mr); call_ os (Call.ibv_dereg_mr mr); destroy_addr

  unfoldable pub destroy_rkey : M File Bool
  destroy_rkey = modify (λ f. record f { rkey = 0; remote_addr = 0 }) >> destroy_mr

  -- `rpmem_map`, from the response on.
  unfoldable pub fetch : ℕ → M File Bool
  fetch fuel = do
    f ← gets (λ f. f)
    let result = unpack_map_rsp f.conn.rsp f.rkey f.remote_addr
    modify (λ f. record f { rkey = result.1; remote_addr = result.2 })
    if result.0 == 0
        then (do
          unread ← transfer WrOpcode.rdma_read
          if unread == 0 then wait_command os fuel >> pure true else destroy_rkey)
        else destroy_mr

  -- `rpmem_map`, from the posting of the receive on.
  unfoldable pub ask : ℕ → ℕ → M File Bool
  ask fuel len = do
    unposted ← expect_rsp
    if unposted == 0
        then (do
          unsent ← send_req (λ req. pack_map_req req (u32 len))
          if unsent == 0 then wait_command os fuel >> fetch fuel else destroy_mr)
        else destroy_mr

  -- `rpmem_map`
  unfoldable pub rpmem_map : ℕ → ℕ → M File Bool
  rpmem_map fuel len = do
    addr ← call os (Call.calloc len)
    modify (λ f. record f { len = len; addr = addr })
    if addr == 0 then no_memory else (do
      pd ← gets (λ f. f.conn.pd)
      mr ← call os (Call.ibv_reg_mr pd (Region.at addr) len (Access.local_write ∷ []))
      modify (λ f. record f { mr = mr })
      if mr == 0 then destroy_addr else ask fuel len)
