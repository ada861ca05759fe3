-- ===== src/Server/Start.antt =====
-- How the server starts, and its connection manager: `rpmem_bind_server`, `rpmem_server_cma_handler`,
-- `cm_thread` and `main` of rpmem_server.c.
use mathlib.Core.Bool.{not}
use rpmem.Base.{ℕ, Bool, true, false, [], ◌∷◌, ◌==◌, int_ltb, if◌then◌else◌, minus_one}
use rpmem.Machine.{
  Lock, Sem, Thread, CmEvent, Call, Os, M, ◌>>=◌, ◌>>◌, pure, gets, modify, call, call_, in_memory,
}
use rpmem.Conn.Address.{get_addr}
use rpmem.Server.State.{Resource, Server, ServerUnit, int_size, update}
use rpmem.Server.Connect.{connect_request_handler}

abbrev is_request : CmEvent → Bool
is_request CmEvent.connect_request = true
is_request _ = false

module _ (os : Os) where
  -- `rpmem_bind_server`
  unfoldable pub bind_server : M Server ℕ
  unfolding get_addr
  bind_server = do
    unknown ← get_addr os
    if unknown == 0
        then (do
          cma_id ← gets (λ s. s.cma_id)
          unbound ← call os (Call.rdma_bind_addr cma_id)
          if unbound == 0 then call os (Call.rdma_listen cma_id 3) else pure unbound)
        else pure unknown

  -- `rpmem_server_cma_handler`: only a connection request is handled, and the result is always 0.
  unfoldable pub server_cma_handler : CmEvent → ℕ → M ServerUnit ℕ
  server_cma_handler event id =
      if is_request event then connect_request_handler os id >> pure 0 else pure 0

  -- One round of `cm_thread`: false if the thread has left.
  unfoldable pub cm_round : M ServerUnit Bool
  cm_round = do
    channel ← gets (λ u. u.server.cma_channel)
    failed ← call os (Call.rdma_get_cm_event channel)
    event ← in_memory os.cm_event
    id ← in_memory os.event_id
    if not (failed == 0) then call_ os Call.thread_exit >> pure false else (do
      ret ← server_cma_handler event id
      if ret == 0
          then call_ os Call.rdma_ack_cm_event >> pure true
          else call_ os Call.thread_exit >> pure false)

  -- The labels at the end of `main`, from the last to the first.
  unfoldable pub close_fd : ℕ → M Server ℕ
  close_fd fd = call_ os (Call.close fd) >> pure 1

  unfoldable pub free_inargs : ℕ → M Server ℕ
  unfolding close_fd
  free_inargs fd = do
    call_ os (Call.sem_destroy Sem.sem_connect)
    call_ os (Call.mutex_destroy Lock.conns_mutex)
    call_ os (Call.spin_destroy Lock.res_lock)
    close_fd fd

  unfoldable pub destroy_event_channel : ℕ → M Server ℕ
  unfolding free_inargs
  destroy_event_channel fd = do
    s ← gets (λ s. s)
    call_ os (Call.rdma_destroy_event_channel s.cma_channel)
    free_inargs fd

  unfoldable pub destroy_id : ℕ → M Server ℕ
  unfolding destroy_event_channel
  destroy_id fd = do
    s ← gets (λ s. s)
    call_ os (Call.rdma_destroy_id s.cma_id)
    destroy_event_channel fd

  unfoldable pub destroy_thread : ℕ → M Server ℕ
  unfolding destroy_id
  destroy_thread fd = call_ os (Call.thread_cancel Thread.cm_thread) >> destroy_id fd

  -- `main`, from the first lock on, with the resource at `res`.
  unfoldable pub serve : ℕ → Resource → M Server ℕ
  unfolding bind_server destroy_thread
  serve res r = do
    call_ os (Call.spin_init Lock.res_lock)
    call_ os (Call.lock Lock.res_lock)
    modify (λ s. record s {
      heap = update s.heap res r;
      res_list = res ∷ [];
      conns_list = [];
      total_size = int_size r;
      free_size = int_size r;
      in_use_size = 0;
    })
    call_ os (Call.unlock Lock.res_lock)
    call_ os (Call.mutex_init Lock.conns_mutex)
    call_ os (Call.sem_init Sem.sem_connect)
    channel ← call os Call.rdma_create_event_channel
    modify (λ s. record s { cma_channel = channel })
    if channel == 0 then free_inargs r.fd else (do
      no_id ← call os (Call.rdma_create_id channel)
      if not (no_id == 0) then destroy_event_channel r.fd else (do
        cma_id ← in_memory os.made_id
        modify (λ s. record s { cma_id = cma_id })
        no_thread ← call os (Call.thread_create Thread.cm_thread)
        if not (no_thread == 0) then destroy_id r.fd else (do
          unbound ← bind_server
          if unbound == 0
              then call_ os (Call.thread_join Thread.cm_thread) >> pure 0
              else destroy_thread r.fd)))

  -- `main` behind `process_inargs`, with its `struct rpmem_resource` at `res`.
  unfoldable pub start : ℕ → M Server ℕ
  unfolding serve
  start res = do
    fd ← call os Call.file_open
    if fd == minus_one then pure 1 else (do
      bad ← call os (Call.fstat fd)
      blk ← in_memory os.is_blk
      if not (bad == 0) then close_fd fd else (do
        err ← (if blk then call os (Call.ioctl_size fd) else pure 0)
        size ← in_memory os.size_of
        unset ← gets (λ s. s.heap res)
        if int_ltb err 0
            then close_fd fd
            else serve res (record unset { fd = fd; st_size = size })))
