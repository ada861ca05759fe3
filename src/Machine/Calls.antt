-- ===== src/Machine/Calls.antt =====
-- The calls that rpmem.c, rpmem_common.c and rpmem_server.c make of code outside the repository.
use rpmem.Base.{ℕ, Bool, true, false, List}
use rpmem.Protocol.{Buf}

-- The two command buffers of a connection.
pub data Slot : Type 0 where
  req rsp : Slot

-- Memory as a call names it: a command buffer, or an address.
pub data Region : Type 0 where
  slot : Slot → Region
  at : ℕ → Region

-- `IBV_ACCESS_…`
pub data Access : Type 0 where
  local_write remote_write remote_read : Access

-- `IBV_WR_…`
pub data WrOpcode : Type 0 where
  send rdma_read rdma_write : WrOpcode

-- `struct ibv_send_wr` with its one `struct ibv_sge`, as far as the program sets them. `payload` is
-- what a command buffer holds when the request is posted.
pub record SendWr : Type 0 where
  pub wr_id : Region
  pub addr : Region
  pub len : ℕ
  pub lkey : ℕ
  pub opcode : WrOpcode
  pub signaled : Bool
  pub rkey : ℕ
  pub remote_addr : ℕ
  pub payload : Buf

-- `struct ibv_recv_wr` with its one `struct ibv_sge`.
pub record RecvWr : Type 0 where
  pub wr_id : Region
  pub addr : Region
  pub len : ℕ
  pub lkey : ℕ

-- The locks and semaphores, by their field.
pub data Lock : Type 0 where
  res_lock conns_mutex state_mutex file_list_mutex : Lock

pub data Sem : Type 0 where
  sem_connect sem_command : Sem

-- `cm_thread` and `cq_thread`
pub data Thread : Type 0 where
  cm_thread cq_thread : Thread

-- Handles and addresses are numbers, and 0 is NULL.
pub data Call : Type 0 where
  ibv_post_send : ℕ → SendWr → Call
  ibv_post_recv : ℕ → RecvWr → Call
  ibv_poll_cq : ℕ → Call
  ibv_get_cq_event : ℕ → Call
  ibv_req_notify_cq : ℕ → Call
  ibv_ack_cq_events : ℕ → Call
  ibv_alloc_pd : ℕ → Call
  ibv_dealloc_pd : ℕ → Call
  ibv_reg_mr : ℕ → Region → ℕ → List Access → Call
  ibv_dereg_mr : ℕ → Call
  ibv_create_comp_channel : ℕ → Call
  ibv_destroy_comp_channel : ℕ → Call
  ibv_create_cq : ℕ → ℕ → ℕ → Call
  ibv_destroy_cq : ℕ → Call
  ibv_destroy_qp : ℕ → Call
  rdma_create_qp : (id pd send_cq recv_cq max_send_wr max_recv_wr : ℕ) → Call
  rdma_create_event_channel : Call
  rdma_destroy_event_channel : ℕ → Call
  rdma_create_id : ℕ → Call
  rdma_destroy_id : ℕ → Call
  rdma_resolve_addr : ℕ → Call
  rdma_resolve_route : ℕ → Call
  rdma_connect : ℕ → Call
  rdma_disconnect : ℕ → Call
  rdma_accept : ℕ → Call
  rdma_reject : ℕ → Call
  rdma_get_cm_event : ℕ → Call
  rdma_ack_cm_event : Call
  lock : Lock → Call
  unlock : Lock → Call
  mutex_init mutex_destroy : Lock → Call
  sem_init sem_destroy : Sem → Call
  thread_create thread_cancel : Thread → Call
  thread_exit : Call
  calloc : ℕ → Call
  calloc_struct : Call
  free : ℕ → Call
  posix_fallocate : ℕ → ℕ → ℕ → Call
  mmap : ℕ → ℕ → Call
  munmap : ℕ → ℕ → Call
  file_open : Call
  fstat ioctl_size close : ℕ → Call
  spin_init spin_destroy : Lock → Call
  getaddrinfo freeaddrinfo : Call
  rdma_bind_addr : ℕ → Call
  rdma_listen : ℕ → ℕ → Call
  thread_join : Thread → Call
  msync : ℕ → ℕ → Call
  strdup : Call

-- `struct ibv_wc`. A receive completion stands with the bytes that the device has placed in the
-- command buffer that was posted.
pub data WcStatus : Type 0 where
  success flush_err other_err : WcStatus

pub data WcOpcode : Type 0 where
  recv send rdma_read rdma_write other_op : WcOpcode

pub record Wc : Type 0 where
  pub status : WcStatus
  pub opcode : WcOpcode
  pub bytes : Buf

abbrev pub is_success : WcStatus → Bool
is_success WcStatus.success = true
is_success _ = false

abbrev pub is_recv : WcOpcode → Bool
is_recv WcOpcode.recv = true
is_recv _ = false

abbrev pub is_rdma_read : WcOpcode → Bool
is_rdma_read WcOpcode.rdma_read = true
is_rdma_read _ = false

-- `res->ai_family`
pub data Family : Type 0 where
  inet inet6 other_family : Family

-- `event->event`
pub data CmEvent : Type 0 where
  addr_resolved route_resolved established : CmEvent
  addr_error route_error connect_error unreachable rejected : CmEvent
  disconnected addr_change timewait_exit : CmEvent
  connect_request : CmEvent
  other_event : CmEvent

-- The world. `reply` is the value that a call returns after the given earlier calls, the latest
-- first: an `int` as its pattern, a pointer as its address. `polled` is the array that
-- `ibv_poll_cq` leaves in `wc`, `event_cq` the queue that `ibv_get_cq_event` names, `cm_event` and
-- `event_id` the event that `rdma_get_cm_event` gives and its id, `made_id` the id that
-- `rdma_create_id` stores, `ai_family` what `getaddrinfo` finds, and `is_blk` and `size_of` what
-- `fstat64` and `ioctl` say of the resource. `junk32` and `junk64` are what a variable holds that
-- was never assigned. The others read a field of a struct that the verbs library owns.
pub record Os : Type 0 where
  pub reply : List Call → Call → ℕ
  pub polled : List Call → List Wc
  pub event_cq : List Call → ℕ
  pub cm_event : List Call → CmEvent
  pub junk32 : List Call → ℕ
  pub junk64 : List Call → ℕ
  pub lkey_of : ℕ → ℕ
  pub rkey_of : ℕ → ℕ
  pub qp_of : ℕ → ℕ
  pub made_id : List Call → ℕ
  pub event_id : List Call → ℕ
  pub ai_family : List Call → Family
  pub is_blk : List Call → Bool
  pub size_of : List Call → ℕ
  pub verbs_of : ℕ → ℕ
