-- ===== src/Client/State.antt =====
-- The structs of rpmem.h.
use rpmem.Base.{ℕ, List}
use rpmem.Protocol.{zeroed}
use rpmem.Machine.{M, within}
use rpmem.Conn.{Conn}

-- `enum file_state`
pub data FileState : Type 0 where
  init error established disconnected : FileState

-- `struct priv_rpmem_file` with `struct rpmem_file` and `struct priv_rpmem_mr` inside it. A semaphore
-- is its count. `addr` and `len` are the fields of `struct rpmem_mr`.
pub record File : Type 0 where
  pub conn : Conn
  pub cma_channel : ℕ
  pub state : FileState
  pub sem_connect : ℕ
  pub sem_command : ℕ
  pub size : ℕ
  pub addr : ℕ
  pub len : ℕ
  pub mr : ℕ
  pub rkey : ℕ
  pub remote_addr : ℕ

-- A function of rpmem_common.c, on the connection of the file.
abbrev pub on_conn : {A : Type 0} → M Conn A → M File A
on_conn = within (λ f. f.conn) (λ c f. record f { conn = c })

-- The file that `calloc` has just cleared.
abbrev pub fresh_file : File
fresh_file = record {
  conn = record {
    cma_id = 0;
    pd = 0;
    cq = 0;
    qp = 0;
    comp_channel = 0;
    req_mr = 0;
    rsp_mr = 0;
    req = zeroed;
    rsp = zeroed;
  };
  cma_channel = 0;
  state = FileState.init;
  sem_connect = 0;
  sem_command = 0;
  size = 0;
  addr = 0;
  len = 0;
  mr = 0;
  rkey = 0;
  remote_addr = 0;
}

-- The list of files that are open, by their addresses, and the file at hand.
pub record Library : Type 0 where
  pub file_list : List ℕ
  pub file : File
