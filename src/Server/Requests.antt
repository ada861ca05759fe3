-- ===== src/Server/Requests.antt =====
-- What `rpmem_rcv_completion` answers: a request of the protocol, read off the wire, gets the
-- response that belongs to it.
use rpmem.Base.{
  ℕ, ◌≡◌, ◌<◌, List, ◌∷◌, ◌==◌, arith, if◌then◌else◌, minus_one, Bool-cases, inl, inr, sext,
}
use rpmem.Protocol.{
  get_u32, get_u64, pack_unmap_req, pack_commit_req, pack_map_req, long-word, long-addr, short-word,
}
use rpmem.Protocol.Spec.{Request, Response, Kind, RequestFits, pack_request, pack_response}
use rpmem.Machine.{Slot, Call, Os, Ensures, Ensures-bind}
use rpmem.Conn.{recv_call}
use rpmem.Server.{
  ServerUnit, repost, handle_open, handle_close, handle_commit, commit_response, rcv_completion,
}
use rpmem.Server.Wire.{reposted, repost-eq}
use rpmem.Server.Serve.{
  Answers, earlier, Received, Received-opcode, dispatched, reposted-IsReady, respond_answers,
}

-- The receive that a handler posts before its work.
abbrev pub posted : Os → ServerUnit → Call
posted os u = recv_call os Slot.req u.conn.req_mr (reposted u).conn

-- An open request is answered with the free size of the server, an int, whether or not the
-- receive could be posted again, which is the only call before the send; the server and the
-- resource of the unit stay as they were.
pub rcv_completion-opening :
    (os : Os) (u : ServerUnit) (cs : List Call)
    → Received Request.opening u
    → u.server.free_size < 4294967296
    → Ensures
        (λ _ u' cs'.
          Answers Kind.opening (Response.opening u.server.free_size) u' cs'
          × (u'.server ≡ u.server)
          × (u'.res ≡ u.res)
          × (earlier cs' ≡ posted os u ∷ cs))
        (rcv_completion os u cs)
unfolding rcv_completion handle_open pack_response
rcv_completion-opening os u cs got fits = rw (Received-opcode Request.opening u got) (
    dispatched _ (handle_open os) u cs (
      Ensures-bind _ (repost os) _ u cs (repost-eq os u cs got.ready.req_registered) (
        respond_answers os (reposted u) _ (Response.opening u.server.free_size) _
          (reposted-IsReady os u cs got.ready) fits)))

-- A close request is answered with 0; the send is the only call, so no receive is posted again, and
-- the server and the resource of the unit stay as they were.
pub rcv_completion-closing :
    (os : Os) (u : ServerUnit) (cs : List Call)
    → Received Request.closing u
    → Ensures
        (λ _ u' cs'.
          Answers Kind.closing (Response.closing 0) u' cs'
          × (u'.server ≡ u.server)
          × (u'.res ≡ u.res)
          × (earlier cs' ≡ cs))
        (rcv_completion os u cs)
unfolding rcv_completion handle_close pack_response
rcv_completion-closing os u cs got = rw (Received-opcode Request.closing u got) (
    dispatched _ (handle_close os) u cs
      (respond_answers os u cs (Response.closing 0) 0 got.ready (omega arith)))

-- The word and the address of a request that was received.
module _ (u : ServerUnit) (len addr : ℕ) where
  pub mapping-len : Received (Request.mapping len) u → len < 4294967296 → get_u32 4 u.conn.req ≡ len
  unfolding pack_request pack_map_req
  mapping-len got fits = rw got.bytes (omega (arith, short-word got.buffer got.was_cmd 4 len))

  pub unmapping-len :
      Received (Request.unmapping len addr) u → len < 4294967296 → get_u32 4 u.conn.req ≡ len
  unfolding pack_request pack_unmap_req
  unmapping-len got fits = rw got.bytes (omega (arith, long-word got.buffer got.was_cmd 6 len addr))

  pub unmapping-addr :
      Received (Request.unmapping len addr) u
      → addr < 18446744073709551616
      → get_u64 8 u.conn.req ≡ addr
  unfolding pack_request pack_unmap_req
  unmapping-addr got fits = rw got.bytes (long-addr got.buffer got.was_cmd 6 len addr fits)

  pub committing-len :
      Received (Request.committing len addr) u → len < 4294967296 → get_u32 4 u.conn.req ≡ len
  unfolding pack_request pack_commit_req
  committing-len got fits =
      rw got.bytes (omega (arith, long-word got.buffer got.was_cmd 8 len addr))

  pub committing-addr :
      Received (Request.committing len addr) u
      → addr < 18446744073709551616
      → get_u64 8 u.conn.req ≡ addr
  unfolding pack_request pack_commit_req
  committing-addr got fits = rw got.bytes (long-addr got.buffer got.was_cmd 8 len addr fits)

-- A commit request is answered with what `msync` of its range returned, and `msync` was called
-- before the response was sent; if the receive could not be posted, the answer is -1 and nothing is
-- synchronised.
pub rcv_completion-committing :
    (os : Os) (u : ServerUnit) (cs : List Call) (len addr : ℕ)
    → Received (Request.committing len addr) u
    → RequestFits (Request.committing len addr)
    → os.reply (posted os u ∷ cs) (Call.msync addr (sext len)) < 4294967296
    → let sync = Call.msync addr (sext len) in
      let ok = os.reply cs (posted os u) == 0 in
      let ret = if ok then os.reply (posted os u ∷ cs) sync else minus_one in
      Ensures
        (λ _ u' cs'.
          Answers Kind.committing (Response.committing ret) u' cs'
          × (u'.server ≡ u.server)
          × (u'.res ≡ u.res)
          × (earlier cs' ≡ (if ok then sync ∷ posted os u ∷ cs else posted os u ∷ cs)))
        (rcv_completion os u cs)
unfolding rcv_completion handle_commit commit_response pack_response
rcv_completion-committing os u cs len addr got fits ret_fits =
    rw (Received-opcode (Request.committing len addr) u got) (
      dispatched _ (handle_commit os) u cs (
        Ensures-bind _ (repost os) _ u cs (repost-eq os u cs got.ready.req_registered) (
          rw (committing-len u len addr got fits.0, committing-addr u len addr got fits.1)
            (elim (Bool-cases (os.reply cs (posted os u) == 0)) [
              | inl ok ↦ rw ok (
                  respond_answers os (reposted u) (Call.msync addr (sext len) ∷ posted os u ∷ cs)
                    (Response.committing (os.reply (posted os u ∷ cs) (Call.msync addr (sext len))))
                    _ (reposted-IsReady os u cs got.ready) ret_fits)
              | inr refused ↦ rw refused (
                  respond_answers os (reposted u) (posted os u ∷ cs) (Response.committing minus_one)
                    _ (reposted-IsReady os u cs got.ready) (omega arith))
            ]))))
