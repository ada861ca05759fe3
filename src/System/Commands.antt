-- ===== src/System/Commands.antt =====
-- A request of the client, as bytes, reaches the unit of the server, and the bytes that the unit sends
-- reach the client.
use rpmem.Base.{ℕ, suc, ◌≡◌, ◌≢◌, ◌<◌, arith, List, ◌∷◌, u32, sext}
use rpmem.Protocol.Spec.{Request, Response, pack_request}
use rpmem.Protocol.Carries.{Carries}
use rpmem.Machine.{Call, Os, done, Ensures, Ensures-at, Ensures-mono}
use rpmem.Client.{File, rpmem_commit, rpmem_unmap}
use rpmem.Client.Posting.{IsOpen}
use rpmem.Client.Waiting.{Arrives}
use rpmem.Client.Committing.{
  SameMemory, commit_expects, commit_writes, commit_sends, commit_waiting, commit_calls,
  rpmem_commit_returns,
}
use rpmem.Client.Unmapping.{
  unmap_expects, unmap_sends, unmap_waiting, unmap_calls, rpmem_unmap_returns,
}
use rpmem.Server.{ServerUnit, rcv_completion}
use rpmem.Server.Wire.{IsReady, sent}
use rpmem.Server.Serve.{Received}
use rpmem.Server.Requests.{posted, rcv_completion-committing}
use rpmem.Server.Unmapping.{Unmapped, rcv_completion-unmapping}

module _ (client server : Os) (f : File) (cs : List Call) (u : ServerUnit) (ds : List Call) where
  -- The unit has the bytes of the request of a commit.
  commit-Received :
      IsOpen f
      → IsReady u.conn
      → u.conn.req ≡ (commit_waiting client f cs).conn.req
      → Received (Request.committing (u32 f.len) f.remote_addr) u
  unfolding pack_request
  commit-Received opened ready bytes = record {
    ready = ready;
    buffer = f.conn.req;
    was_cmd = opened.req_cmd;
    bytes = bytes;
  }

  -- A commit whose request is served by the server, and to which the response of the server comes
  -- back, returns what `msync` of the memory returned on the server, and leaves the memory of the
  -- client as it was.
  pub commit_served :
      (fuel : ℕ) {a : ℕ} {u' : ServerUnit} {ds' : List Call}
      → IsOpen f
      → f.mr ≢ 0
      → f.remote_addr < 18446744073709551616
      → client.reply cs (commit_expects client f cs) ≡ 0
      → client.reply (commit_expects client f cs ∷ cs) (commit_writes client f cs) ≡ 0
      → client.reply
          (commit_writes client f cs ∷ commit_expects client f cs ∷ cs)
          (commit_sends client f cs)
        ≡ 0
      → IsReady u.conn
      → u.conn.req ≡ (commit_waiting client f cs).conn.req
      → server.reply ds (posted server u) ≡ 0
      → server.reply (posted server u ∷ ds) (Call.msync f.remote_addr (sext (u32 f.len)))
        < 4294967296
      → rcv_completion server u ds ≡ done a u' ds'
      → Arrives client (commit_waiting client f cs) (commit_calls client f cs) (sent ds')
      → Ensures
          (λ r f' _.
            (r ≡ server.reply (posted server u ∷ ds) (Call.msync f.remote_addr (sext (u32 f.len))))
            × SameMemory f f')
          (rpmem_commit client (suc (suc fuel)) f cs)
  commit_served fuel {a} {u'} {ds'} opened mapped fits ok1 ok2 ok3 ready bytes ok4 ret_fits served
        arrives =
      let sync = Call.msync f.remote_addr (sext (u32 f.len)) in
      let ret = server.reply (posted server u ∷ ds) sync in
      let answered =
        Ensures-at _ (rcv_completion server u ds)
          (rcv_completion-committing server u ds (u32 f.len) f.remote_addr
            (commit-Received opened ready bytes) (omega arith, fits) ret_fits)
          served in
      let carried : Carries (Response.committing ret) (sent ds') = rw ok4 at answered.0.response in
      Ensures-mono _ _ (rpmem_commit client (suc (suc fuel)) f cs)
        (λ r f' cs' (is, same, _, _). (is, same))
        (rpmem_commit_returns client f cs fuel ret (sent ds') opened mapped fits ok1 ok2 ok3 arrives
          carried).1

  unmap-Received :
      IsOpen f
      → IsReady u.conn
      → u.conn.req ≡ (unmap_waiting client f cs).conn.req
      → Received (Request.unmapping (u32 f.len) f.remote_addr) u
  unfolding pack_request
  unmap-Received opened ready bytes = record {
    ready = ready;
    buffer = f.conn.req;
    was_cmd = opened.req_cmd;
    bytes = bytes;
  }

  -- What `munmap` returns for the memory of the client, after the region is deregistered.
  abbrev pub unmap_result : ℕ
  unmap_result =
      server.reply (Call.ibv_dereg_mr (u.server.heap u.res).mr ∷ posted server u ∷ ds)
        (Call.munmap f.remote_addr (sext (u32 f.len)))

  -- An unmap whose request is served by a unit that holds a resource, and to which the response comes
  -- back, returns what `munmap` returned on the server, and forgets its own memory; if that is 0, the
  -- resource is back in the pool.
  pub unmap_served :
      (fuel : ℕ) {a : ℕ} {u' : ServerUnit} {ds' : List Call}
      → IsOpen f
      → f.remote_addr < 18446744073709551616
      → client.reply cs (unmap_expects client f cs) ≡ 0
      → client.reply (unmap_expects client f cs ∷ cs) (unmap_sends client f cs) ≡ 0
      → IsReady u.conn
      → u.conn.req ≡ (unmap_waiting client f cs).conn.req
      → u.res ≢ 0
      → server.reply ds (posted server u) ≡ 0
      → unmap_result < 4294967296
      → rcv_completion server u ds ≡ done a u' ds'
      → Arrives client (unmap_waiting client f cs) (unmap_calls client f cs) (sent ds')
      → Unmapped unmap_result u u'
        × Ensures
            (λ r f' _. (r ≡ unmap_result) × (f'.len ≡ 0))
            (rpmem_unmap client (suc (suc fuel)) f cs)
  unmap_served fuel {a} {u'} {ds'} opened fits ok1 ok2 ready bytes held ok4 ret_fits served
        arrives =
      let answered =
        Ensures-at _ (rcv_completion server u ds)
          (rcv_completion-unmapping server u ds (u32 f.len) f.remote_addr
            (unmap-Received opened ready bytes) (omega arith, fits) held ok4 ret_fits)
          served in
      (
        answered.1,
        Ensures-mono _ _ (rpmem_unmap client (suc (suc fuel)) f cs)
            (λ r f' cs' (is, gone, _, _). (is, gone))
            (rpmem_unmap_returns client f cs fuel unmap_result (sent ds') opened fits ok1 ok2
              arrives answered.0.response).1,
      )
