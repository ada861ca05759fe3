-- ===== src/Client/Unmapping.antt =====
-- `rpmem_unmap` from its first call to its result.
use rpmem.Base.{ℕ, suc, ◌≡◌, ◌<◌, refl, ◌∙◌, arith, some, List, ◌∷◌, u32}
use rpmem.Protocol.{Buf, IsCmd, pack_unmap_req}
use rpmem.Protocol.Spec.{Request, Response, pack_request, parse_request}
use rpmem.Protocol.Carries.{Carries, unpack_unmap_rsp-Carries}
use rpmem.Protocol.RoundTrip.{parse-pack_request}
use rpmem.Machine.{Call, Os, done, Ensures, Ensures-done, bind-done}
use rpmem.Client.{File, expect_rsp, send_req, unmapped, drop_memory, rpmem_unmap, wait_command}
use rpmem.Client.Waiting.{Arrives, delivered, after_round, wait_command-arrived}
use rpmem.Client.Posting.{
  IsOpen, expecting, packed, expect_call, request_call, expect_rsp-eq, send_req-eq,
}

module _ (os : Os) (f : File) (cs : List Call) where
  -- The request that unmaps the memory of the file.
  abbrev pub unmap_request : Request
  unmap_request = Request.unmapping (u32 f.len) f.remote_addr

  abbrev pack : Buf → Buf
  pack req = pack_unmap_req req (u32 f.len) f.remote_addr

  abbrev pub unmap_expects : Call
  unmap_expects = expect_call os f

  abbrev pub unmap_sends : Call
  unmap_sends = request_call os pack (expecting f)

  -- The file while the call waits, and the calls it has made.
  abbrev pub unmap_waiting : File
  unmap_waiting = packed pack (expecting f)

  abbrev pub unmap_calls : List Call
  unmap_calls = unmap_sends ∷ unmap_expects ∷ cs

  unmap_request-parsed :
      IsCmd f.conn.req
      → f.remote_addr < 18446744073709551616
      → parse_request unmap_waiting.conn.req ≡ some unmap_request
  unfolding pack_request
  unmap_request-parsed h fits = parse-pack_request unmap_request f.conn.req h (omega arith, fits)

  -- The file when the call returns, and the calls it has made.
  abbrev pub unmap_left : Buf → File
  unmap_left b = record (delivered os unmap_waiting unmap_calls b) {
    len = 0;
    rkey = 0;
    remote_addr = 0;
  }

  abbrev pub unmap_last : List Call
  unmap_last = Call.free f.addr ∷ Call.ibv_dereg_mr f.mr ∷ after_round os unmap_waiting unmap_calls

  pub rpmem_unmap-eq :
      (fuel ret : ℕ) (b : Buf)
      → IsOpen f
      → os.reply cs unmap_expects ≡ 0
      → os.reply (unmap_expects ∷ cs) unmap_sends ≡ 0
      → Arrives os unmap_waiting unmap_calls b
      → Carries (Response.unmapping ret) b
      → rpmem_unmap os (suc (suc fuel)) f cs ≡ done ret (unmap_left b) unmap_last
  unfolding rpmem_unmap unmapped drop_memory
  rpmem_unmap-eq fuel ret b ready ok1 ok2 arrives carried =
      bind-done (expect_rsp os) _ f cs (expect_rsp-eq os f cs ready.rsp_registered)
      ∙ rw ok1 (
          bind-done (send_req os pack) _ (expecting f) (unmap_expects ∷ cs)
            (send_req-eq os (expecting f) (unmap_expects ∷ cs) pack ready.req_registered)
          ∙ rw ok2 (
              bind-done (wait_command os (suc (suc fuel))) _ unmap_waiting unmap_calls
                (wait_command-arrived os unmap_waiting unmap_calls fuel b arrives ready.idle)
              ∙ rw
                  (unpack_unmap_rsp-Carries ret
                    (os.junk32 (after_round os unmap_waiting unmap_calls)) b carried)
                  refl))

  -- An unmap whose two work requests are posted, and whose response comes, returns what the response
  -- carries. The request is parsed as an unmap of the memory of the file; when the response is there
  -- the region is deregistered and the memory freed.
  pub rpmem_unmap_returns :
      (fuel ret : ℕ) (b : Buf)
      → IsOpen f
      → f.remote_addr < 18446744073709551616
      → os.reply cs unmap_expects ≡ 0
      → os.reply (unmap_expects ∷ cs) unmap_sends ≡ 0
      → Arrives os unmap_waiting unmap_calls b
      → Carries (Response.unmapping ret) b
      → (parse_request unmap_waiting.conn.req ≡ some unmap_request)
        × Ensures
            (λ r f' cs'.
              (r ≡ ret)
              × (f'.len ≡ 0)
              × (f'.sem_command ≡ 0)
              × (cs'
                  ≡ Call.free f.addr
                    ∷ Call.ibv_dereg_mr f.mr
                    ∷ after_round os unmap_waiting unmap_calls))
            (rpmem_unmap os (suc (suc fuel)) f cs)
  rpmem_unmap_returns fuel ret b ready addr_fits ok1 ok2 arrives carried = (
    unmap_request-parsed ready.req_cmd addr_fits,
    Ensures-done _ (rpmem_unmap os (suc (suc fuel)) f cs)
        (rpmem_unmap-eq fuel ret b ready ok1 ok2 arrives carried) (refl, refl, refl, refl),
  )
