-- ===== src/Client/Posting.antt =====
-- The parts of a call of the library: the receive for the response, the transfer, and the request.
use rpmem.Base.{◌≡◌, ◌≢◌, List, [], ◌∷◌, true, u32}
use rpmem.Protocol.{Buf, IsCmd, zeroed}
use rpmem.Machine.{
  Slot, Region, WrOpcode, Call, Os, done, bind-done, within-done, field_of, field_of-done,
}
use rpmem.Conn.{
  post_send, post_recv, post_rdma_wr, recv_call, send_call, failed_as, post_send-eq, post_recv-eq,
}
use rpmem.Client.{File, expect_rsp, send_req, transfer}

-- A connection that is open, with no command on its way.
pub record IsOpen (f : File) : Type 0 where
  pub req_registered : f.conn.req_mr ≢ 0
  pub rsp_registered : f.conn.rsp_mr ≢ 0
  pub req_cmd : IsCmd f.conn.req
  pub idle : f.sem_command ≡ 0

-- The file when the receive is posted, and when the request is packed.
abbrev pub expecting : File → File
expecting f = record f { conn = record (f.conn) { rsp = zeroed } }

abbrev pub packed : (Buf → Buf) → File → File
packed pack f = record f { conn = record (f.conn) { req = pack f.conn.req } }

abbrev pub expect_call : Os → File → Call
expect_call os f = recv_call os Slot.rsp f.conn.rsp_mr (expecting f).conn

abbrev pub request_call : Os → (Buf → Buf) → File → Call
request_call os pack f = send_call os Slot.req f.conn.req_mr (packed pack f).conn

abbrev pub transfer_call : Os → WrOpcode → File → Call
transfer_call os opcode f = Call.ibv_post_send f.conn.qp (record {
  wr_id = Region.at 0;
  addr = Region.at f.addr;
  len = u32 f.len;
  lkey = os.lkey_of f.mr;
  opcode = opcode;
  signaled = true;
  rkey = f.rkey;
  remote_addr = f.remote_addr;
  payload = [];
})

module _ (os : Os) (f : File) (cs : List Call) where
  pub expect_rsp-eq :
      f.conn.rsp_mr ≢ 0
      → expect_rsp os f cs
        ≡ done (failed_as (os.reply cs (expect_call os f)) 0) (expecting f) (expect_call os f ∷ cs)
  unfolding expect_rsp
  expect_rsp-eq h =
      within-done (λ g. g.conn) (λ c g. record g { conn = c }) (post_recv os Slot.rsp f.conn.rsp_mr)
        f cs (post_recv-eq os Slot.rsp f.conn.rsp_mr f.conn cs h)

  pub send_req-eq :
      (pack : Buf → Buf)
      → f.conn.req_mr ≢ 0
      → let post = request_call os pack f in
        send_req os pack f cs ≡ done (failed_as (os.reply cs post) 0) (packed pack f) (post ∷ cs)
  unfolding send_req
  send_req-eq pack h =
      within-done (λ g. g.conn) (λ c g. record g { conn = c }) (post_send os Slot.req f.conn.req_mr)
        (packed pack f) cs (post_send-eq os Slot.req f.conn.req_mr (packed pack f).conn cs h)

  pub transfer-eq :
      (opcode : WrOpcode)
      → f.mr ≢ 0
      → let post = transfer_call os opcode f in
        transfer os opcode f cs ≡ done (failed_as (os.reply cs post) 0) f (post ∷ cs)
  unfolding transfer post_rdma_wr
  transfer-eq opcode h =
      bind-done (field_of os.lkey_of f.mr) _ f cs (field_of-done os.lkey_of f.mr f cs h)
