-- ===== src/Server/Wire.antt =====
-- Posting and sending as equations: what they call, and what they leave.
use rpmem.Base.{ℕ, ◌≡◌, ◌≢◌, ap, ◌∙◌, List, [], ◌∷◌, arith}
use rpmem.Protocol.{Buf, IsCmd, zeroed}
use rpmem.Machine.{Slot, Call, Os, done, bind-done, within-done}
use rpmem.Conn.{
  Conn, post_send, post_recv, recv_call, send_call, failed_as, post_send-eq, post_recv-eq,
}
use rpmem.Server.{ServerUnit, on_conn, repost, respond}

-- Both command buffers are registered, and hold 48 bytes each.
pub record IsReady (c : Conn) : Type 0 where
  pub req_registered : c.req_mr ≢ 0
  pub rsp_registered : c.rsp_mr ≢ 0
  pub req_cmd : IsCmd c.req
  pub rsp_cmd : IsCmd c.rsp

-- The bytes that the latest call sends, if it is a send.
abbrev pub sent : List Call → Buf
sent (Call.ibv_post_send qp wr ∷ cs) = wr.payload
sent _ = []

abbrev pub reposted : ServerUnit → ServerUnit
reposted u = record u { conn = record (u.conn) { req = zeroed } }

abbrev pub responded : (Buf → Buf) → ServerUnit → ServerUnit
responded pack u = record u { conn = record (u.conn) { rsp = pack u.conn.rsp } }

pub repost-eq :
    (os : Os) (u : ServerUnit) (cs : List Call)
    → u.conn.req_mr ≢ 0
    → let post = recv_call os Slot.req u.conn.req_mr (reposted u).conn in
      repost os u cs ≡ done (failed_as (os.reply cs post) 0) (reposted u) (post ∷ cs)
unfolding repost
repost-eq os u cs h =
    within-done (λ v. v.conn) (λ c v. record v { conn = c }) (post_recv os Slot.req u.conn.req_mr) u
      cs (post_recv-eq os Slot.req u.conn.req_mr u.conn cs h)

failed_twice : (code ret : ℕ) → failed_as (failed_as code 0) ret ≡ failed_as code ret
failed_twice code ret = ground arith

pub respond-eq :
    (os : Os) (pack : Buf → Buf) (ret : ℕ) (u : ServerUnit) (cs : List Call)
    → u.conn.rsp_mr ≢ 0
    → let post = send_call os Slot.rsp u.conn.rsp_mr (responded pack u).conn in
      respond os pack ret u cs
      ≡ done (failed_as (os.reply cs post) ret) (responded pack u) (post ∷ cs)
unfolding respond
respond-eq os pack ret u cs h =
    bind-done (on_conn (post_send os Slot.rsp u.conn.rsp_mr)) _ (responded pack u) cs (
      within-done (λ v. v.conn) (λ c v. record v { conn = c }) (post_send os Slot.rsp u.conn.rsp_mr)
        (responded pack u) cs (post_send-eq os Slot.rsp u.conn.rsp_mr (responded pack u).conn cs h))
    ∙ ap (λ code. done code (responded pack u) (post ∷ cs)) (failed_twice (os.reply cs post) ret)
  where
    post : Call
    post = send_call os Slot.rsp u.conn.rsp_mr (responded pack u).conn
