-- ===== src/Client/Session.antt =====
-- `rpmem_open` and `rpmem_close` of rpmem.c.
use mathlib.Core.Bool.{not}
use rpmem.Base.{ℕ, Bool, true, false, List, [], ◌∷◌, ◌==◌, if◌then◌else◌}
use rpmem.Protocol.{pack_open_req, pack_close_req, unpack_open_rsp}
use rpmem.Machine.{
  Lock, Sem, Thread, Call, Os, M, ◌>>=◌, ◌>>◌, pure, faults, gets, modify, call, call_, in_memory,
  within,
}
use rpmem.Client.State.{FileState, File, Library, fresh_file}
use rpmem.Client.Events.{wait_command}
use rpmem.Client.Connect.{wait_connect}
use rpmem.Client.Api.{expect_rsp, send_req}

abbrev pub is_established : FileState → Bool
is_established FileState.established = true
is_established _ = false

-- A piece that acts on the file.
abbrev pub on_file : {A : Type 0} → M File A → M Library A
on_file = within (λ l. l.file) (λ f l. record l { file = f })

-- `SLIST_REMOVE`: it looks for the element until it finds it, and reads through NULL behind the end.
unfoldable pub slist_remove : ℕ → List ℕ → M Library (List ℕ)
slist_remove p [] = faults
slist_remove p (q ∷ qs) = do
  let rest = slist_remove p qs
  if q == p then pure qs else (do left ← rest; pure (q ∷ left))

module _ (os : Os) where
  -- The labels at the end of `rpmem_open`, from the last to the first, for the file at `p`.
  unfoldable pub destroy_rfile : ℕ → M File ℕ
  destroy_rfile p = do
    call_ os (Call.sem_destroy Sem.sem_command)
    call_ os (Call.sem_destroy Sem.sem_connect)
    call_ os (Call.mutex_destroy Lock.state_mutex)
    call_ os (Call.free p)
    pure 0

  unfoldable pub destroy_event_channel : ℕ → M File ℕ
  unfolding destroy_rfile
  destroy_event_channel p = do
    f ← gets (λ f. f)
    call_ os (Call.rdma_destroy_event_channel f.cma_channel)
    destroy_rfile p

  unfoldable pub destroy_id : ℕ → M File ℕ
  unfolding destroy_event_channel
  destroy_id p = do
    f ← gets (λ f. f)
    call_ os (Call.rdma_destroy_id f.conn.cma_id)
    destroy_event_channel p

  unfoldable pub destroy_thread : ℕ → M File ℕ
  unfolding destroy_id
  destroy_thread p = call_ os (Call.thread_cancel Thread.cm_thread) >> destroy_id p

  -- `rpmem_open`, from the response on.
  unfoldable pub opened : ℕ → M File ℕ
  opened p = do
    f ← gets (λ f. f)
    let result = unpack_open_rsp f.conn.rsp f.size
    modify (λ f. record f { size = result.1 })
    if result.0 == 0 then pure p else destroy_thread p

  -- `rpmem_open`, from the established connection on.
  unfoldable pub ask_open : ℕ → ℕ → M File ℕ
  ask_open fuel p = do
    unposted ← expect_rsp os
    if unposted == 0
        then (do
          unsent ← send_req os pack_open_req
          if unsent == 0 then wait_command os fuel >> opened p else destroy_thread p)
        else destroy_thread p

  -- `rpmem_open`, from `rdma_resolve_addr` on.
  unfoldable pub connect : ℕ → ℕ → M File ℕ
  connect fuel p = do
    cma_id ← gets (λ f. f.conn.cma_id)
    unresolved ← call os (Call.rdma_resolve_addr cma_id)
    if unresolved == 0
        then (do
          wait_connect os fuel
          call_ os (Call.lock Lock.state_mutex)
          state ← gets (λ f. f.state)
          call_ os (Call.unlock Lock.state_mutex)
          if is_established state then ask_open fuel p else destroy_thread p)
        else destroy_thread p

  -- `rpmem_open`, on the file at `p` that `calloc` has cleared.
  unfoldable pub open_file : ℕ → ℕ → M File ℕ
  open_file fuel p = do
    call_ os (Call.mutex_init Lock.state_mutex)
    call_ os (Call.sem_init Sem.sem_connect)
    call_ os (Call.sem_init Sem.sem_command)
    channel ← call os Call.rdma_create_event_channel
    modify (λ f. record f { cma_channel = channel })
    if channel == 0 then destroy_rfile p else (do
      no_id ← call os (Call.rdma_create_id channel)
      if not (no_id == 0) then destroy_event_channel p else (do
        cma_id ← in_memory os.made_id
        modify (λ f. record f { conn = record (f.conn) { cma_id = cma_id } })
        no_thread ← call os (Call.thread_create Thread.cm_thread)
        if not (no_thread == 0) then destroy_id p else connect fuel p))

  -- `rpmem_open`: it returns the file at `p`, or 0.
  unfoldable pub rpmem_open : ℕ → M Library ℕ
  rpmem_open fuel = do
    p ← call os Call.calloc_struct
    if p == 0 then pure 0 else (do
      modify (λ l. record l { file = fresh_file })
      rfile ← on_file (open_file fuel p)
      if rfile == 0 then pure 0 else (do
        call_ os (Call.lock Lock.file_list_mutex)
        modify (λ l. record l { file_list = p ∷ l.file_list })
        call_ os (Call.unlock Lock.file_list_mutex)
        pure rfile))

  -- `rpmem_close`, from the label `out` on.
  unfoldable pub tear_down : ℕ → M File ℕ
  tear_down p = do
    f ← gets (λ f. f)
    let c = f.conn
    call_ os (Call.thread_cancel Thread.cm_thread)
    call_ os (Call.rdma_disconnect c.cma_id)
    call_ os (Call.ibv_destroy_qp c.qp)
    call_ os (Call.rdma_destroy_id c.cma_id)
    call_ os (Call.rdma_destroy_event_channel f.cma_channel)
    call_ os (Call.thread_cancel Thread.cq_thread)
    call_ os (Call.ibv_destroy_cq c.cq)
    call_ os (Call.ibv_destroy_comp_channel c.comp_channel)
    call_ os (Call.ibv_dealloc_pd c.pd)
    call_ os (Call.sem_destroy Sem.sem_command)
    call_ os (Call.sem_destroy Sem.sem_connect)
    call_ os (Call.mutex_destroy Lock.state_mutex)
    call_ os (Call.free p)
    pure 0

  -- `rpmem_close`, on the file at `p`: whatever `unpack_close_rsp` says, the code goes on to `out`.
  unfoldable pub close_file : ℕ → ℕ → M File ℕ
  close_file fuel p = do
    unposted ← expect_rsp os
    if unposted == 0
        then (do
          unsent ← send_req os pack_close_req
          if unsent == 0 then wait_command os fuel >> tear_down p else tear_down p)
        else tear_down p

  -- `rpmem_close`
  unfoldable pub rpmem_close : ℕ → ℕ → M Library ℕ
  rpmem_close fuel p = do
    call_ os (Call.lock Lock.file_list_mutex)
    files ← gets (λ l. l.file_list)
    left ← slist_remove p files
    modify (λ l. record l { file_list = left })
    call_ os (Call.unlock Lock.file_list_mutex)
    on_file (close_file fuel p)
