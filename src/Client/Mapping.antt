-- ===== src/Client/Mapping.antt =====
-- `rpmem_map` from its first call to its result.
use rpmem.Base.{ℕ, suc, ◌≡◌, ◌≢◌, refl, ◌∙◌, arith, some, true, ne→false, List, [], ◌∷◌, u32}
use rpmem.Protocol.{Buf, pack_map_req}
use rpmem.Protocol.Spec.{Request, Response, pack_request, parse_request}
use rpmem.Protocol.Carries.{Carries, unpack_map_rsp-Carries}
use rpmem.Protocol.RoundTrip.{parse-pack_request}
use rpmem.Machine.{Region, Access, WrOpcode, Call, Os, done, Ensures, Ensures-done, bind-done}
use rpmem.Client.{File, expect_rsp, send_req, transfer, fetch, ask, rpmem_map, wait_command}
use rpmem.Client.Waiting.{Arrives, delivered, after_round, wait_command-arrived}
use rpmem.Client.Posting.{
  IsOpen, expecting, packed, expect_call, request_call, transfer_call, expect_rsp-eq, send_req-eq,
  transfer-eq,
}

module _ (os : Os) (len : ℕ) (f : File) (cs : List Call) where
  abbrev pub allocate : Call
  allocate = Call.calloc len

  abbrev pub local_addr : ℕ
  local_addr = os.reply cs allocate

  abbrev pub register : Call
  register = Call.ibv_reg_mr f.conn.pd (Region.at local_addr) len (Access.local_write ∷ [])

  abbrev pub local_mr : ℕ
  local_mr = os.reply (allocate ∷ cs) register

  -- The file with its memory.
  abbrev pub backed : File
  backed = record f { len = len; addr = local_addr; mr = local_mr }

  abbrev pack : Buf → Buf
  pack req = pack_map_req req (u32 len)

  abbrev pub map_expects : Call
  map_expects = expect_call os backed

  abbrev pub map_sends : Call
  map_sends = request_call os pack (expecting backed)

  -- The file while the call waits for the response, and the calls it has made.
  abbrev pub map_waiting : File
  map_waiting = packed pack (expecting backed)

  abbrev pub map_calls : List Call
  map_calls = map_sends ∷ map_expects ∷ register ∷ allocate ∷ cs

  module _ (rkey remote : ℕ) (b : Buf) where
    -- The file while the call waits for the memory to be read, and the calls it has made.
    abbrev pub map_reading : File
    map_reading = record (delivered os map_waiting map_calls b) {
      rkey = rkey;
      remote_addr = remote;
    }

    abbrev pub map_reads : Call
    map_reads = transfer_call os WrOpcode.rdma_read map_reading

    abbrev pub map_read_calls : List Call
    map_read_calls = map_reads ∷ after_round os map_waiting map_calls

    fetch-runs :
        (fuel : ℕ) (b' : Buf)
        → local_mr ≢ 0
        → Carries (Response.mapping rkey remote) b
        → os.reply (after_round os map_waiting map_calls) map_reads ≡ 0
        → Arrives os map_reading map_read_calls b'
        → fetch os
            (suc (suc fuel))
            (delivered os map_waiting map_calls b)
            (after_round os map_waiting map_calls)
          ≡ done true
              (delivered os map_reading map_read_calls b')
              (after_round os map_reading map_read_calls)
    unfolding fetch
    fetch-runs fuel b' registered carried ok arrives =
        rw (unpack_map_rsp-Carries rkey remote f.rkey f.remote_addr b carried) (
          bind-done (transfer os WrOpcode.rdma_read) _ map_reading
            (after_round os map_waiting map_calls)
            (transfer-eq os map_reading (after_round os map_waiting map_calls) WrOpcode.rdma_read
              registered)
          ∙ rw ok (
              bind-done (wait_command os (suc (suc fuel))) _ map_reading map_read_calls
                (wait_command-arrived os map_reading map_read_calls fuel b' arrives refl)))

    pub rpmem_map-eq :
        (fuel : ℕ) (b' : Buf)
        → IsOpen f
        → local_addr ≢ 0
        → local_mr ≢ 0
        → os.reply (register ∷ allocate ∷ cs) map_expects ≡ 0
        → os.reply (map_expects ∷ register ∷ allocate ∷ cs) map_sends ≡ 0
        → Arrives os map_waiting map_calls b
        → Carries (Response.mapping rkey remote) b
        → os.reply (after_round os map_waiting map_calls) map_reads ≡ 0
        → Arrives os map_reading map_read_calls b'
        → rpmem_map os (suc (suc fuel)) len f cs
          ≡ done true
              (delivered os map_reading map_read_calls b')
              (after_round os map_reading map_read_calls)
    unfolding rpmem_map ask
    rpmem_map-eq fuel b' ready there registered ok1 ok2 arrives carried ok3 read =
        rw (ne→false local_addr 0 there, ne→false local_mr 0 registered)
          (bind-done (expect_rsp os) _ backed (register ∷ allocate ∷ cs)
              (expect_rsp-eq os backed (register ∷ allocate ∷ cs) ready.rsp_registered)
            ∙ rw ok1 (
                bind-done (send_req os pack) _ (expecting backed)
                  (map_expects ∷ register ∷ allocate ∷ cs)
                  (send_req-eq os (expecting backed) (map_expects ∷ register ∷ allocate ∷ cs) pack
                    ready.req_registered)
                ∙ rw ok2 (
                    bind-done (wait_command os (suc (suc fuel))) _ map_waiting map_calls
                      (wait_command-arrived os map_waiting map_calls fuel b arrives ready.idle)
                    ∙ fetch-runs fuel b' registered carried ok3 read)))

    -- A map whose memory can be allocated and registered, whose work requests are posted, and whose
    -- response and read complete, returns a pointer. The request is parsed as a map of the length
    -- asked for, as an int; the file has the new memory, and the remote key and address of the
    -- response; and the last work request reads from there into the memory.
    pub rpmem_map_returns :
        (fuel : ℕ) (b' : Buf)
        → IsOpen f
        → local_addr ≢ 0
        → local_mr ≢ 0
        → os.reply (register ∷ allocate ∷ cs) map_expects ≡ 0
        → os.reply (map_expects ∷ register ∷ allocate ∷ cs) map_sends ≡ 0
        → Arrives os map_waiting map_calls b
        → Carries (Response.mapping rkey remote) b
        → os.reply (after_round os map_waiting map_calls) map_reads ≡ 0
        → Arrives os map_reading map_read_calls b'
        → (parse_request map_waiting.conn.req ≡ some (Request.mapping (u32 len)))
          × Ensures
              (λ r f' cs'.
                (r ≡ true)
                × (f'.addr ≡ local_addr)
                × (f'.len ≡ len)
                × (f'.mr ≡ local_mr)
                × (f'.rkey ≡ rkey)
                × (f'.remote_addr ≡ remote)
                × (f'.sem_command ≡ 0)
                × (cs' ≡ after_round os map_reading map_read_calls))
              (rpmem_map os (suc (suc fuel)) len f cs)
    unfolding pack_request
    rpmem_map_returns fuel b' ready there registered ok1 ok2 arrives carried ok3 read = (
      parse-pack_request (Request.mapping (u32 len)) f.conn.req ready.req_cmd (omega arith),
      Ensures-done _ (rpmem_map os (suc (suc fuel)) len f cs)
          (rpmem_map-eq fuel b' ready there registered ok1 ok2 arrives carried ok3 read)
          (refl, refl, refl, refl, refl, refl, refl, refl),
    )
