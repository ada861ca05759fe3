-- ===== src/Conn.antt =====
-- rpmem_common.c and the connection of rpmem_common.h, which the client and the server share.
pub mod Acquire
pub mod Address
use rpmem.Base.{ℕ, ◌≡◌, ◌≢◌, ◌==◌, true, List, [], ◌∷◌, if◌then◌else◌, minus_one}
use rpmem.Protocol.{Buf, cmd_size, zeroed}
use rpmem.Machine.{
  Slot, Region, WrOpcode, Call, Os, M, ◌>>=◌, ◌>>◌, pure, gets, modify, call, field_of, bind-done,
  field_of-done, done,
}

-- `struct rpmem_conn`, without `ib_device` and `dev_attr`, which nothing uses, and `cqthread`.
pub record Conn : Type 0 where
  pub cma_id : ℕ
  pub pd : ℕ
  pub cq : ℕ
  pub qp : ℕ
  pub comp_channel : ℕ
  pub req_mr : ℕ
  pub rsp_mr : ℕ
  pub req : Buf
  pub rsp : Buf

abbrev pub get_slot : Slot → Conn → Buf
get_slot Slot.req c = c.req
get_slot Slot.rsp c = c.rsp

abbrev pub set_slot : Slot → Buf → Conn → Conn
set_slot Slot.req b c = record c { req = b }
set_slot Slot.rsp b c = record c { rsp = b }

module _ (os : Os) where
  -- `rpmem_post_send`
  unfoldable pub post_send : Slot → ℕ → M Conn ℕ
  post_send cmd mr = do
    lkey ← field_of os.lkey_of mr
    c ← gets (λ c. c)
    ret ← call os (
        Call.ibv_post_send c.qp (record {
          wr_id = Region.slot cmd;
          addr = Region.slot cmd;
          len = cmd_size;
          lkey = lkey;
          opcode = WrOpcode.send;
          signaled = true;
          rkey = 0;
          remote_addr = 0;
          payload = get_slot cmd c;
        }))
    pure (if ret == 0 then 0 else minus_one)

  -- `rpmem_post_recv`
  unfoldable pub post_recv : Slot → ℕ → M Conn ℕ
  post_recv cmd mr = do
    modify (set_slot cmd zeroed)
    lkey ← field_of os.lkey_of mr
    c ← gets (λ c. c)
    ret ← call os (
        Call.ibv_post_recv c.qp
          (record { wr_id = Region.slot cmd; addr = Region.slot cmd; len = cmd_size; lkey = lkey }))
    pure (if ret == 0 then 0 else minus_one)

  -- `rpmem_post_rdma_wr`
  unfoldable pub post_rdma_wr : ℕ → ℕ → ℕ → ℕ → ℕ → WrOpcode → M Conn ℕ
  post_rdma_wr rkey lkey remote_addr local_addr len opcode = do
    c ← gets (λ c. c)
    ret ← call os (
        Call.ibv_post_send c.qp (record {
          wr_id = Region.at 0;
          addr = Region.at local_addr;
          len = len;
          lkey = lkey;
          opcode = opcode;
          signaled = true;
          rkey = rkey;
          remote_addr = remote_addr;
          payload = [];
        }))
    pure (if ret == 0 then 0 else minus_one)

-- The work requests of the three functions.
abbrev pub recv_call : Os → Slot → ℕ → Conn → Call
recv_call os cmd mr c = Call.ibv_post_recv c.qp (record {
  wr_id = Region.slot cmd;
  addr = Region.slot cmd;
  len = cmd_size;
  lkey = os.lkey_of mr;
})

abbrev pub send_call : Os → Slot → ℕ → Conn → Call
send_call os cmd mr c = Call.ibv_post_send c.qp (record {
  wr_id = Region.slot cmd;
  addr = Region.slot cmd;
  len = cmd_size;
  lkey = os.lkey_of mr;
  opcode = WrOpcode.send;
  signaled = true;
  rkey = 0;
  remote_addr = 0;
  payload = get_slot cmd c;
})

abbrev pub failed_as : ℕ → ℕ → ℕ
failed_as code ret = if code == 0 then ret else minus_one

pub post_send-eq :
    (os : Os) (cmd : Slot) (mr : ℕ) (c : Conn) (cs : List Call)
    → mr ≢ 0
    → post_send os cmd mr c cs
      ≡ done (failed_as (os.reply cs (send_call os cmd mr c)) 0) c (send_call os cmd mr c ∷ cs)
unfolding post_send
post_send-eq os cmd mr c cs h =
    bind-done (field_of os.lkey_of mr) _ c cs (field_of-done os.lkey_of mr c cs h)

pub post_recv-eq :
    (os : Os) (cmd : Slot) (mr : ℕ) (c : Conn) (cs : List Call)
    → mr ≢ 0
    → post_recv os cmd mr c cs
      ≡ done
          (failed_as (os.reply cs (recv_call os cmd mr (set_slot cmd zeroed c))) 0)
          (set_slot cmd zeroed c)
          (recv_call os cmd mr (set_slot cmd zeroed c) ∷ cs)
unfolding post_recv
post_recv-eq os cmd mr c cs h =
    bind-done (field_of os.lkey_of mr) _ (set_slot cmd zeroed c) cs
      (field_of-done os.lkey_of mr _ cs h)
