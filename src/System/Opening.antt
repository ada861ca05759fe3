-- ===== src/System/Opening.antt =====
-- `rpmem_open` of the client and `rpmem_handle_open` of the server together.
use rpmem.Base.{ℕ, suc, ◌≡◌, ◌≢◌, ◌<◌, refl, List, ◌∷◌}
use rpmem.Protocol.Spec.{Request, pack_request}
use rpmem.Protocol.{zeroed-IsCmd}
use rpmem.Machine.{Call, Os, done, Ensures, Ensures-at, Ensures-mono}
use rpmem.Client.{Library, FileState, rpmem_open}
use rpmem.Client.Waiting.{Arrives}
use rpmem.Client.Connected.{Connects, established-IsOpen}
use rpmem.Client.Opened.{Begins, Posts, open_waiting, open_calls, begun, begun_calls}
use rpmem.Client.OpenResult.{new_file, opening_calls, at_join, join_calls, rpmem_open_returns}
use rpmem.Server.{ServerUnit, rcv_completion}
use rpmem.Server.Wire.{IsReady, sent}
use rpmem.Server.Serve.{Received}
use rpmem.Server.Requests.{rcv_completion-opening}

module _ (client server : Os) (l : Library) (cs : List Call) (u : ServerUnit) (ds : List Call)
    (h : Connects client
      (begun client (opening_calls client l cs))
      (begun_calls client (opening_calls client l cs))) where
  open-Received :
      IsReady u.conn
      → u.conn.req
        ≡ (open_waiting client (at_join client l cs h) (join_calls client l cs h)).conn.req
      → Received Request.opening u
  unfolding pack_request
  open-Received ready bytes = record {
    ready = ready;
    buffer = (at_join client l cs h).conn.req;
    was_cmd = (established-IsOpen client h refl zeroed-IsCmd refl).req_cmd;
    bytes = bytes;
  }

  -- An open whose calls succeed and whose connection comes about, whose request is served by the server,
  -- and to which the response of the server comes back, returns the new file at the head of the list of files, established and with
  -- the free size of the server, which it leaves as it was.
  pub open_served :
      (fuel : ℕ) {a : ℕ} {u' : ServerUnit} {ds' : List Call}
      → new_file client l cs ≢ 0
      → Begins client (opening_calls client l cs)
      → Posts client (at_join client l cs h) (join_calls client l cs h)
      → IsReady u.conn
      → u.conn.req
        ≡ (open_waiting client (at_join client l cs h) (join_calls client l cs h)).conn.req
      → u.server.free_size < 4294967296
      → rcv_completion server u ds ≡ done a u' ds'
      → Arrives client
          (open_waiting client (at_join client l cs h) (join_calls client l cs h))
          (open_calls client (at_join client l cs h) (join_calls client l cs h))
          (sent ds')
      → (u'.server ≡ u.server)
        × Ensures
            (λ r l' _.
              (r ≡ new_file client l cs)
              × (l'.file_list ≡ new_file client l cs ∷ l.file_list)
              × (l'.file.state ≡ FileState.established)
              × (l'.file.size ≡ u.server.free_size))
            (rpmem_open client (suc (suc (suc (suc fuel)))) l cs)
  open_served fuel {a} {u'} {ds'} there begins posts ready bytes fits served arrives =
      let answered =
        Ensures-at _ (rcv_completion server u ds)
          (rcv_completion-opening server u ds (open-Received ready bytes) fits) served in
      (
        answered.1,
        Ensures-mono _ _ (rpmem_open client (suc (suc (suc (suc fuel)))) l cs)
            (λ r l' cs' (is, list, state, size, _). (is, list, state, size))
            (rpmem_open_returns client l cs h fuel u.server.free_size (sent ds') there begins posts
              arrives answered.0.response).1,
      )
