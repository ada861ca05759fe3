-- ===== src/System/Mapping.antt =====
-- A map request of the client reaches the unit of the server, whose response comes back.
use rpmem.Base.{ℕ, suc, ◌≡◌, ◌≢◌, arith, some, true, List, ◌∷◌, u32}
use rpmem.Protocol.{Buf}
use rpmem.Protocol.Spec.{Request, Response, ResponseFits, pack_request}
use rpmem.Machine.{Call, Os, done, Ensures, Ensures-at, Ensures-mono}
use rpmem.Client.{File, rpmem_map}
use rpmem.Client.Posting.{IsOpen}
use rpmem.Client.Waiting.{Arrives, after_round}
use rpmem.Client.Mapping.{
  allocate, register, local_addr, local_mr, map_expects, map_sends, map_waiting, map_calls,
  map_reading, map_reads, map_read_calls, rpmem_map_returns,
}
use rpmem.Server.{ServerUnit, rcv_completion, map_failed}
use rpmem.Server.Wire.{IsReady, sent}
use rpmem.Server.Serve.{Received}
use rpmem.Server.Requests.{posted}
use rpmem.Server.Pool.{first_fit}
use rpmem.Server.Mapping.{Mapped, mapped_at, registered_as, rcv_completion-mapping}

module _ (client server : Os) (len : ℕ) (f : File) (cs : List Call) (u : ServerUnit)
    (ds : List Call) (p : ℕ) where
  map-Received :
      IsOpen f
      → IsReady u.conn
      → u.conn.req ≡ (map_waiting client len f cs).conn.req
      → Received (Request.mapping (u32 len)) u
  unfolding pack_request
  map-Received opened ready bytes = record {
    ready = ready;
    buffer = f.conn.req;
    was_cmd = opened.req_cmd;
    bytes = bytes;
  }

  -- The key and the address of the mapping on the server.
  abbrev pub remote_key : ℕ
  remote_key = server.rkey_of (registered_as server u ds (u32 len) p)

  abbrev pub remote : ℕ
  remote = mapped_at server u ds (u32 len) p

  -- A map whose request is served by a unit of a server that has a resource for it and maps it, to
  -- which the response comes back, and whose read of the remote memory completes, returns a pointer:
  -- the file holds the remote key and the address of the mapping that the unit now holds.
  pub map_served :
      (fuel : ℕ) (b : Buf) {a : ℕ} {u' : ServerUnit} {ds' : List Call}
      → IsOpen f
      → local_addr client len f cs ≢ 0
      → local_mr client len f cs ≢ 0
      → client.reply
          (register client len f cs ∷ allocate client len f cs ∷ cs)
          (map_expects client len f cs)
        ≡ 0
      → client.reply
          (map_expects client len f cs ∷ register client len f cs ∷ allocate client len f cs ∷ cs)
          (map_sends client len f cs)
        ≡ 0
      → IsReady u.conn
      → u.conn.req ≡ (map_waiting client len f cs).conn.req
      → server.reply ds (posted server u) ≡ 0
      → first_fit u.server.heap (u32 len) u.server.res_list ≡ some p
      → p ≢ 0
      → remote ≢ map_failed
      → registered_as server u ds (u32 len) p ≢ 0
      → ResponseFits (Response.mapping remote_key remote)
      → rcv_completion server u ds ≡ done a u' ds'
      → Arrives client (map_waiting client len f cs) (map_calls client len f cs) (sent ds')
      → client.reply
          (after_round client (map_waiting client len f cs) (map_calls client len f cs))
          (map_reads client len f cs remote_key remote (sent ds'))
        ≡ 0
      → Arrives client
          (map_reading client len f cs remote_key remote (sent ds'))
          (map_read_calls client len f cs remote_key remote (sent ds'))
          b
      → Mapped server u ds (u32 len) p u'
        × Ensures
            (λ r f' _.
              (r ≡ true) × (f'.len ≡ len) × (f'.rkey ≡ remote_key) × (f'.remote_addr ≡ remote))
            (rpmem_map client (suc (suc fuel)) len f cs)
  map_served fuel b {a} {u'} {ds'} opened there registered ok1 ok2 ready bytes ok3 found some_p
        mapped kept fits served arrives ok4 read =
      let answered =
        Ensures-at _ (rcv_completion server u ds)
          (rcv_completion-mapping server u ds (u32 len) p (map-Received opened ready bytes)
            (omega arith) ok3 found some_p mapped kept fits)
          served in
      (
        answered.1,
        Ensures-mono _ _ (rpmem_map client (suc (suc fuel)) len f cs)
            (λ r f' cs' (is, _, length, _, key, addr, _, _). (is, length, key, addr))
            (rpmem_map_returns client len f cs remote_key remote (sent ds') fuel b opened there
              registered ok1 ok2 arrives answered.0.response ok4 read).1,
      )
