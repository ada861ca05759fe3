-- ===== src/Server/Handlers.antt =====
-- The handlers of the five requests. A handler reads the request, clears its buffer and posts it
-- again, does its work, and sends the response, which is the code under the label `out`.
use rpmem.Base.{ℕ, List, [], ◌∷◌, ◌==◌, if◌then◌else◌, int_ltb, sext, minus_one}
use rpmem.Protocol.{
  Buf, len_at, remote_addr_at, get_u32, get_u64, pack_open_rsp, pack_close_rsp, pack_map_rsp,
  pack_unmap_rsp, pack_commit_rsp,
}
use rpmem.Machine.{
  Slot, Region, Access, Lock, Call, Os, M, ◌>>=◌, ◌>>◌, pure, faults, gets, modify, call, call_,
  in_memory,
}
use rpmem.Conn.{post_send, post_recv}
use rpmem.Server.State.{
  Resource, ServerUnit, on_conn, set_resource, int_size, take_resource, return_resource,
}

-- `MAP_FAILED`, which is `(void *)-1`.
abbrev pub map_failed : ℕ
map_failed = 18446744073709551615

-- `res->…` for a pointer that may be NULL.
abbrev pub deref : ℕ → M ServerUnit Resource
deref p = if p == 0 then faults else gets (λ u. u.server.heap p)

module _ (os : Os) where
  -- `rpmem_post_recv(conn, &conn->req, conn->req_mr)`
  unfoldable pub repost : M ServerUnit ℕ
  unfolding post_recv
  repost = do mr ← gets (λ u. u.conn.req_mr); on_conn (post_recv os Slot.req mr)

  -- `out:` the response is packed and sent; a failure to send turns the result into -1.
  unfoldable pub respond : (Buf → Buf) → ℕ → M ServerUnit ℕ
  unfolding post_send
  respond pack ret = do
    on_conn (modify (λ c. record c { rsp = pack c.rsp }))
    mr ← gets (λ u. u.conn.rsp_mr)
    err ← on_conn (post_send os Slot.rsp mr)
    pure (if err == 0 then ret else minus_one)

  -- `rpmem_handle_open`
  unfoldable pub handle_open : M ServerUnit ℕ
  handle_open = do
    size ← gets (λ u. u.server.free_size)
    err ← repost
    respond (pack_open_rsp size) (if err == 0 then 0 else minus_one)

  -- `rpmem_handle_close`
  unfoldable pub handle_close : M ServerUnit ℕ
  handle_close = respond (pack_close_rsp 0) 0

  -- The loop over the pool: it takes the first resource that is larger than `len`, and returns
  -- what `res` holds after it, which is NULL if there was none.
  unfoldable pub search_pool : ℕ → List ℕ → M ServerUnit ℕ
  search_pool len [] = pure 0
  search_pool len (p ∷ ps) = do
    res ← gets (λ u. u.server.heap p)
    if int_ltb len (int_size res) then modify (take_resource p) >> pure p else search_pool len ps

  unfoldable pub map_response : ℕ → ℕ → ℕ → M ServerUnit ℕ
  map_response ret rkey addr = respond (λ rsp. pack_map_rsp rsp rkey addr) ret

  -- The end of `rpmem_handle_map`, from the test of `res->mr` on.
  unfoldable pub map_registered : ℕ → ℕ → ℕ → ℕ → M ServerUnit ℕ
  map_registered len ret addr mr =
      if mr == 0
      then (do
        call_ os (Call.munmap addr (sext len))
        rkey ← in_memory os.junk32
        map_response minus_one rkey 0)
      else map_response ret (os.rkey_of mr) addr

  -- The code of `rpmem_handle_map` behind the test of `unit->res`.
  unfoldable pub map_resource : ℕ → ℕ → M ServerUnit ℕ
  map_resource len p = do
    res ← deref p
    full ← call os (Call.posix_fallocate res.fd 0 (sext len))
    mapped ← call os (Call.mmap (sext len) res.fd)
    let failed = mapped == map_failed
    let addr = if failed then 0 else mapped
    let ret = if failed then minus_one else if full == 0 then 0 else minus_one
    pd ← gets (λ u. u.conn.pd)
    let access = Access.local_write ∷ Access.remote_write ∷ Access.remote_read ∷ []
    mr ← call os (Call.ibv_reg_mr pd (Region.at addr) (sext len) access)
    modify (set_resource p (record res { addr = addr; map_len = len; mr = mr }))
    map_registered len ret addr mr

  -- `goto out` while `rkey` and `addr` are not assigned yet.
  unfoldable pub map_refused : M ServerUnit ℕ
  map_refused = do
    rkey ← in_memory os.junk32
    addr ← in_memory os.junk64
    map_response minus_one rkey addr

  -- `rpmem_handle_map`
  unfoldable pub handle_map : M ServerUnit ℕ
  handle_map = do
    len ← gets (λ u. get_u32 len_at u.conn.req)
    err ← repost
    if err == 0
        then (do
          call_ os (Call.lock Lock.res_lock)
          pool ← gets (λ u. u.server.res_list)
          p ← search_pool len pool
          call_ os (Call.unlock Lock.res_lock)
          held ← gets (λ u. u.res)
          if held == 0 then map_refused else map_resource len p)
        else map_refused

  unfoldable pub unmap_response : ℕ → M ServerUnit ℕ
  unmap_response ret = respond (λ rsp. pack_unmap_rsp rsp ret) ret

  -- The end of `rpmem_handle_unmap`, from the test of what `munmap` returned on.
  unfoldable pub unmap_finish : ℕ → ℕ → M ServerUnit ℕ
  unmap_finish p ret =
      if ret == 0
      then (do
        call_ os (Call.lock Lock.res_lock)
        modify (return_resource p)
        call_ os (Call.unlock Lock.res_lock)
        unmap_response 0)
      else unmap_response ret

  -- The code of `rpmem_handle_unmap` behind the first `goto out`.
  unfoldable pub unmap_resource : ℕ → ℕ → ℕ → M ServerUnit ℕ
  unmap_resource len addr p = do
    res ← deref p
    call_ os (Call.ibv_dereg_mr res.mr)
    modify (set_resource p (record res { map_len = 0; addr = 0 }))
    ret ← call os (Call.munmap addr (sext len))
    unmap_finish p ret

  -- `rpmem_handle_unmap`
  unfoldable pub handle_unmap : M ServerUnit ℕ
  handle_unmap = do
    p ← gets (λ u. u.res)
    len ← gets (λ u. get_u32 len_at u.conn.req)
    addr ← gets (λ u. get_u64 remote_addr_at u.conn.req)
    err ← repost
    if err == 0 then unmap_resource len addr p else unmap_response minus_one

  unfoldable pub commit_response : ℕ → M ServerUnit ℕ
  commit_response ret = respond (λ rsp. pack_commit_rsp rsp ret) ret

  -- `rpmem_handle_commit`
  unfoldable pub handle_commit : M ServerUnit ℕ
  handle_commit = do
    len ← gets (λ u. get_u32 len_at u.conn.req)
    addr ← gets (λ u. get_u64 remote_addr_at u.conn.req)
    err ← repost
    if err == 0
        then (do ret ← call os (Call.msync addr (sext len)); commit_response ret)
        else commit_response minus_one
