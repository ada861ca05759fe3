-- ===== src/Examples/Tests.antt =====
-- The theorems on the examples, at the sample session.
use rpmem.Base.{◌≡◌, refl, [], ◌∷◌, slice, write}
use rpmem.Protocol.{
  zeroed, be32, be_value, get_u32, get_u64, put_u32, put_u64, pack_open_req, pack_close_req,
  pack_map_req, pack_unmap_req, pack_commit_req, pack_open_rsp, pack_close_rsp, pack_map_rsp,
  pack_unmap_rsp, pack_commit_rsp, unpack_open_rsp, unpack_map_rsp, unpack_unmap_rsp,
  unpack_commit_rsp,
}
use rpmem.Protocol.Spec.{pack_response, parse_request}
use rpmem.Machine.{Ensures, After, done}
use rpmem.Conn.{post_send, post_recv, post_rdma_wr}
use rpmem.Conn.Address.{get_addr}
use rpmem.Client.{
  rpmem_open, open_file, connect, wait_connect, cm_round, cma_handler, on_event, addr_handler,
  route_handler, enter, ask_open, opened, expect_rsp, send_req, wait_command, cq_round,
  cq_event_handler, handle_wcs, handle_wc, rpmem_map, ask, fetch, transfer, rpmem_commit, committed,
  rpmem_unmap, unmapped, drop_memory, rpmem_close, close_file, tear_down, slist_remove,
}
use rpmem.Client.OpenSamples.{session_world, library}
use rpmem.Server.{search_pool, take_resource}
use rpmem.Server.Samples.{world, server, unit_with}
use rpmem.Examples.Sizes.{search_pool-map_size}
use rpmem.Examples.Runs.{Exits, examples-Exits}
use rpmem.Examples.{
  open_close, map_unmap, commit, with_rfile, close_rfile, map_size, map_then_commit, unmap_rmr,
}

-- simple_commit.c really runs to its end there, and exits with 0.
commit_runs :
    Ensures (λ code l _. (code ≡ 0) × (l.file_list ≡ 50 ∷ [])) (commit session_world 8 3 library [])
unfolding commit with_rfile close_rfile map_size map_then_commit unmap_rmr get_addr rpmem_open
    open_file connect wait_connect cm_round cma_handler on_event addr_handler route_handler enter
    ask_open opened expect_rsp send_req wait_command cq_round cq_event_handler handle_wcs handle_wc
    rpmem_map ask fetch transfer rpmem_commit committed rpmem_unmap unmapped drop_memory rpmem_close
    close_file tear_down slist_remove post_send post_recv post_rdma_wr be32 be_value get_u32 get_u64
    put_u32 put_u64 pack_open_req pack_close_req pack_map_req pack_unmap_req pack_commit_req
    pack_open_rsp pack_close_rsp pack_map_rsp pack_unmap_rsp pack_commit_rsp unpack_open_rsp
    unpack_map_rsp unpack_unmap_rsp unpack_commit_rsp pack_response parse_request slice write
commit_runs = (refl, refl)

examples-Exits_example :
    After (Exits (50 ∷ [])) (open_close session_world 8 3 library [])
    × After (Exits (50 ∷ [])) (map_unmap session_world 8 3 library [])
    × After (Exits (50 ∷ [])) (commit session_world 8 3 library [])
examples-Exits_example = examples-Exits session_world 8 3 library []

search_pool-map_size_example :
    search_pool world (map_size 8192) (20 ∷ []) (unit_with server 0 zeroed) []
    ≡ done 20 (take_resource 20 (unit_with server 0 zeroed)) []
search_pool-map_size_example = search_pool-map_size world (unit_with server 0 zeroed) 20 []
