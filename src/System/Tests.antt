-- ===== src/System/Tests.antt =====
-- The theorems on the client and the server together, at the sample file and the sample server.
use rpmem.Base.{ℕ, ◌≡◌, refl, arith, true, [], ◌∷◌, slice, write}
use rpmem.Protocol.{
  zeroed, zeroed-IsCmd, IsCmd, Buf, get_u32, get_u64, put_u32, put_u64, be32, be_value,
  pack_commit_req, pack_commit_rsp, pack_unmap_req, pack_unmap_rsp, pack_map_req, pack_map_rsp,
}
use rpmem.Protocol.Spec.{Response, pack_request, pack_response}
use rpmem.Machine.{Outcome, done, Ensures}
use rpmem.Conn.{post_send, post_recv}
use rpmem.Client.{rpmem_commit, rpmem_unmap, rpmem_map}
use rpmem.Client.Committing.{SameMemory, commit_waiting}
use rpmem.Client.Unmapping.{unmap_waiting}
use rpmem.Client.Mapping.{map_waiting}
use rpmem.Client.Samples.{
  file, file-IsOpen, commit_world, commit-Arrives, unmap_world, unmap-Arrives, map_world,
  map-Arrives, read-Arrives,
}
use rpmem.Server.{
  Server, ServerUnit, rcv_completion, handle_commit, handle_unmap, handle_map, repost, respond,
  commit_response, unmap_resource, unmap_finish, unmap_response, search_pool, map_resource,
  map_registered, map_response, remove,
}
use rpmem.Server.Wire.{IsReady}
use rpmem.Server.Pool.{first_fit}
use rpmem.Server.Mapping.{Mapped}
use rpmem.Server.Unmapping.{Unmapped}
use rpmem.Server.Samples as Srv
use rpmem.System.Commands.{commit_served, unmap_served}
use rpmem.System.Mapping.{map_served}
use rpmem.System.Opening.{open_served}
use rpmem.Client.{FileState, rpmem_open, addr_handler, route_handler}
use rpmem.Client.Opened.{open_waiting}
use rpmem.Client.OpenSamples.{
  session_world, library, connects, joined_file, joined_calls, open-Arrives,
}
use rpmem.Server.{handle_open}
use rpmem.Protocol.{pack_open_req, pack_open_rsp}

unit-IsReady :
    (s : Server) (res : ℕ) (req : Buf) → IsCmd req → IsReady (Srv.unit_with s res req).conn
unit-IsReady s res req h = record {
  req_registered = λ e. omega arith;
  rsp_registered = λ e. omega arith;
  req_cmd = h;
  rsp_cmd = zeroed-IsCmd;
}

-- The unit when a run of it has ended.
abbrev after : Outcome ServerUnit ℕ → ServerUnit → ServerUnit
after (done a u cs) v = u
after _ v = v

abbrev commit_unit : ServerUnit
commit_unit = Srv.unit_with Srv.server 0 (commit_waiting commit_world file []).conn.req

commit_served_example :
    Ensures (λ r f' _. (r ≡ 0) × SameMemory file f') (rpmem_commit commit_world 2 file [])
unfolding rcv_completion handle_commit commit_response repost respond post_recv post_send
    pack_request pack_response pack_commit_req pack_commit_rsp get_u32 get_u64 put_u32 put_u64 be32
    be_value slice write
commit_served_example =
    commit_served commit_world Srv.world file [] commit_unit [] 0 file-IsOpen (λ e. omega arith)
      (omega arith) refl refl refl
      (unit-IsReady Srv.server 0 (commit_waiting commit_world file []).conn.req (omega arith)) refl
      refl (omega arith) refl commit-Arrives

abbrev unmap_unit : ServerUnit
unmap_unit = Srv.unit_with Srv.busy_server 20 (unmap_waiting unmap_world file []).conn.req

unmap_served_example :
    Unmapped 0 unmap_unit (after (rcv_completion Srv.world unmap_unit []) unmap_unit)
    × Ensures (λ r f' _. (r ≡ 0) × (f'.len ≡ 0)) (rpmem_unmap unmap_world 2 file [])
unfolding rcv_completion handle_unmap unmap_resource unmap_finish unmap_response repost respond
    post_recv post_send pack_request pack_response pack_unmap_req pack_unmap_rsp get_u32 get_u64
    put_u32 put_u64 be32 be_value slice write
unmap_served_example =
    unmap_served unmap_world Srv.world file [] unmap_unit [] 0 file-IsOpen (omega arith) refl refl
      (unit-IsReady Srv.busy_server 20 (unmap_waiting unmap_world file []).conn.req (omega arith))
      refl (λ e. omega arith) refl (omega arith) refl unmap-Arrives

abbrev map_unit : ServerUnit
map_unit = Srv.unit_with Srv.server 0 (map_waiting map_world 4096 file []).conn.req

map_served_example :
    Mapped Srv.world map_unit [] 4096 20 (after (rcv_completion Srv.world map_unit []) map_unit)
    × Ensures
        (λ r f' _. (r ≡ true) × (f'.len ≡ 4096) × (f'.rkey ≡ 77) × (f'.remote_addr ≡ 4096))
        (rpmem_map map_world 2 4096 file [])
unfolding rcv_completion handle_map search_pool map_resource map_registered map_response remove
    first_fit repost respond post_recv post_send pack_request pack_response pack_map_req
    pack_map_rsp get_u32 get_u64 put_u32 put_u64 be32 be_value slice write
map_served_example =
    map_served map_world Srv.world 4096 file [] map_unit [] 20 0
      (pack_response (Response.mapping 77 4096) zeroed) file-IsOpen (λ e. omega arith)
      (λ e. omega arith) refl refl
      (unit-IsReady Srv.server 0 (map_waiting map_world 4096 file []).conn.req (omega arith)) refl
      refl refl (λ e. omega arith) (λ e. omega arith) (λ e. omega arith) (omega arith, omega arith)
      refl map-Arrives refl read-Arrives

abbrev open_unit : ServerUnit
open_unit =
    Srv.unit_with Srv.server 0 (open_waiting session_world joined_file joined_calls).conn.req

open_served_example :
    ((after (rcv_completion Srv.world open_unit []) open_unit).server ≡ Srv.server)
    × Ensures
        (λ r l' _.
          (r ≡ 100)
          × (l'.file_list ≡ 100 ∷ 50 ∷ [])
          × (l'.file.state ≡ FileState.established)
          × (l'.file.size ≡ 8192))
        (rpmem_open session_world 4 library [])
unfolding addr_handler route_handler connects rcv_completion handle_open repost respond post_recv
    post_send pack_request pack_response pack_open_req pack_open_rsp get_u32 get_u64 put_u32 put_u64
    be32 be_value slice write
open_served_example =
    open_served session_world Srv.world library [] open_unit [] connects 0 (λ e. omega arith)
      (record { channel = λ e. omega arith; named = refl; thread = refl; resolved = refl })
      (record { expects = refl; sends = refl })
      (unit-IsReady Srv.server 0 (open_waiting session_world joined_file joined_calls).conn.req
        (omega arith))
      refl (omega arith) refl open-Arrives
