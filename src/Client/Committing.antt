-- ===== src/Client/Committing.antt =====
-- `rpmem_commit` from its first call to its result.
use rpmem.Base.{ℕ, suc, ◌≡◌, ◌≢◌, ◌<◌, refl, ◌∙◌, arith, some, List, ◌∷◌, u32}
use rpmem.Protocol.{Buf, IsCmd, pack_commit_req}
use rpmem.Protocol.Spec.{Request, Response, pack_request, parse_request}
use rpmem.Protocol.Carries.{Carries, unpack_commit_rsp-Carries}
use rpmem.Protocol.RoundTrip.{parse-pack_request}
use rpmem.Machine.{WrOpcode, Call, Os, done, Ensures, Ensures-done, bind-done}
use rpmem.Client.{File, expect_rsp, send_req, transfer, committed, rpmem_commit, wait_command}
use rpmem.Client.Waiting.{Arrives, delivered, after_round, wait_command-arrived}
use rpmem.Client.Posting.{
  IsOpen, expecting, packed, expect_call, request_call, transfer_call, expect_rsp-eq, send_req-eq,
  transfer-eq,
}

-- The memory of a file stays as it is.
pub record SameMemory (f g : File) : Type 0 where
  pub addr : g.addr ≡ f.addr
  pub len : g.len ≡ f.len
  pub mr : g.mr ≡ f.mr
  pub rkey : g.rkey ≡ f.rkey
  pub remote_addr : g.remote_addr ≡ f.remote_addr

module _ (os : Os) (f : File) (cs : List Call) where
  -- The request that commits the memory of the file.
  abbrev pub commit_request : Request
  commit_request = Request.committing (u32 f.len) f.remote_addr

  abbrev pack : Buf → Buf
  pack req = pack_commit_req req (u32 f.len) f.remote_addr

  abbrev pub commit_expects : Call
  commit_expects = expect_call os f

  abbrev pub commit_writes : Call
  commit_writes = transfer_call os WrOpcode.rdma_write f

  abbrev pub commit_sends : Call
  commit_sends = request_call os pack (expecting f)

  -- The file while the call waits, and the calls it has made.
  abbrev pub commit_waiting : File
  commit_waiting = packed pack (expecting f)

  abbrev pub commit_calls : List Call
  commit_calls = commit_sends ∷ commit_writes ∷ commit_expects ∷ cs

  commit_request-parsed :
      IsCmd f.conn.req
      → f.remote_addr < 18446744073709551616
      → parse_request commit_waiting.conn.req ≡ some commit_request
  unfolding pack_request
  commit_request-parsed h fits = parse-pack_request commit_request f.conn.req h (omega arith, fits)

  pub rpmem_commit-eq :
      (fuel ret : ℕ) (b : Buf)
      → IsOpen f
      → f.mr ≢ 0
      → os.reply cs commit_expects ≡ 0
      → os.reply (commit_expects ∷ cs) commit_writes ≡ 0
      → os.reply (commit_writes ∷ commit_expects ∷ cs) commit_sends ≡ 0
      → Arrives os commit_waiting commit_calls b
      → Carries (Response.committing ret) b
      → rpmem_commit os (suc (suc fuel)) f cs
        ≡ done ret
            (delivered os commit_waiting commit_calls b)
            (after_round os commit_waiting commit_calls)
  unfolding rpmem_commit committed
  rpmem_commit-eq fuel ret b ready mapped ok1 ok2 ok3 arrives carried =
      bind-done (expect_rsp os) _ f cs (expect_rsp-eq os f cs ready.rsp_registered)
      ∙ rw ok1 (
          bind-done (transfer os WrOpcode.rdma_write) _ (expecting f) (commit_expects ∷ cs)
            (transfer-eq os (expecting f) (commit_expects ∷ cs) WrOpcode.rdma_write mapped)
          ∙ rw ok2 (
              bind-done (send_req os pack) _ (expecting f) (commit_writes ∷ commit_expects ∷ cs) (
                send_req-eq os (expecting f) (commit_writes ∷ commit_expects ∷ cs) pack
                  ready.req_registered)
              ∙ rw ok3 (
                  bind-done (wait_command os (suc (suc fuel))) _ commit_waiting commit_calls
                    (wait_command-arrived os commit_waiting commit_calls fuel b arrives ready.idle)
                  ∙ rw
                      (unpack_commit_rsp-Carries ret
                        (os.junk32 (after_round os commit_waiting commit_calls)) b carried)
                      refl)))

  -- A commit whose three work requests are posted, and whose response comes, returns what the
  -- response carries. It first posts the receive for the response, then the write of the memory to
  -- the server, then the request, which is parsed as a commit of that memory; and it leaves the
  -- memory as it was, and no completion behind.
  pub rpmem_commit_returns :
      (fuel ret : ℕ) (b : Buf)
      → IsOpen f
      → f.mr ≢ 0
      → f.remote_addr < 18446744073709551616
      → os.reply cs commit_expects ≡ 0
      → os.reply (commit_expects ∷ cs) commit_writes ≡ 0
      → os.reply (commit_writes ∷ commit_expects ∷ cs) commit_sends ≡ 0
      → Arrives os commit_waiting commit_calls b
      → Carries (Response.committing ret) b
      → (parse_request commit_waiting.conn.req ≡ some commit_request)
        × Ensures
            (λ r f' cs'.
              (r ≡ ret)
              × SameMemory f f'
              × (f'.sem_command ≡ 0)
              × (cs' ≡ after_round os commit_waiting commit_calls))
            (rpmem_commit os (suc (suc fuel)) f cs)
  rpmem_commit_returns fuel ret b ready mapped addr_fits ok1 ok2 ok3 arrives carried = (
    commit_request-parsed ready.req_cmd addr_fits,
    Ensures-done _ (rpmem_commit os (suc (suc fuel)) f cs)
        (rpmem_commit-eq fuel ret b ready mapped ok1 ok2 ok3 arrives carried)
        (
          refl,
          record { addr = refl; len = refl; mr = refl; rkey = refl; remote_addr = refl },
          refl,
          refl,
        ),
  )
