-- ===== src/Examples/OpenTests.antt =====
-- The examples at the sample session.
use rpmem.Base.{◌≡◌, refl, [], ◌∷◌, arith, slice, write}
use rpmem.Protocol.{
  get_u32, get_u64, be_value, put_u32, put_u64, be32, pack_open_req, pack_close_req, pack_map_req,
  pack_map_rsp, pack_commit_req, pack_unmap_req, pack_commit_rsp, pack_unmap_rsp, pack_close_rsp,
}
use rpmem.Protocol.Spec.{Response, pack_response, parse_request}
use rpmem.Machine.{WcOpcode, Ensures}
use rpmem.Client.{addr_handler, route_handler}
use rpmem.Client.Samples.{completion}
use rpmem.Client.OpenSamples.{session_world, library}
use rpmem.Examples.{map_unmap, commit, map_size}
use rpmem.Examples.Exits.{map_unmap_exits, commit_exits}
use rpmem.Examples.Samples.{opens, maps, commits, unmaps, last_unmaps, connects, response}

map_unmap_exits_example :
    Ensures
      (λ code l' _. (code ≡ 0) × (l'.file_list ≡ 50 ∷ []))
      (map_unmap session_world 4 3 library [])
unfolding connects opens maps addr_handler route_handler map_size parse_request get_u32 get_u64
    be_value slice pack_open_req pack_map_req pack_commit_req pack_unmap_req pack_close_req put_u32
    put_u64 write be32 pack_map_rsp pack_commit_rsp pack_unmap_rsp pack_close_rsp pack_response
    unmaps
map_unmap_exits_example =
    map_unmap_exits opens 0 (response (Response.closing 0)) maps unmaps (record {
      expects = refl;
      sends = refl;
      arrives = record {
        wcs = completion WcOpcode.recv (response (Response.closing 0)) ∷ [];
        few = omega arith;
        once = refl;
        brought = refl;
        event = refl;
        for_queue = refl;
        arms = refl;
        polled = refl;
        polls = refl;
        drained = refl;
      };
    })

commit_exits_example :
    Ensures
      (λ code l' _. (code ≡ 0) × (l'.file_list ≡ 50 ∷ []))
      (commit session_world 4 3 library [])
unfolding connects opens maps addr_handler route_handler map_size parse_request get_u32 get_u64
    be_value slice pack_open_req pack_map_req pack_commit_req pack_unmap_req pack_close_req put_u32
    put_u64 write be32 pack_map_rsp pack_commit_rsp pack_unmap_rsp pack_close_rsp pack_response
    commits last_unmaps
commit_exits_example =
    commit_exits opens 0 (response (Response.closing 0)) maps commits last_unmaps (record {
      expects = refl;
      sends = refl;
      arrives = record {
        wcs = completion WcOpcode.recv (response (Response.closing 0)) ∷ [];
        few = omega arith;
        once = refl;
        brought = refl;
        event = refl;
        for_queue = refl;
        arms = refl;
        polled = refl;
        polls = refl;
        drained = refl;
      };
    })
