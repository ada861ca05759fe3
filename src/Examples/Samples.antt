-- ===== src/Examples/Samples.antt =====
-- What the examples find at the sample session: the open, the map, the commit and the unmap.
use rpmem.Base.{refl, List, [], ◌∷◌, arith, slice, write}
use rpmem.Protocol.{
  Buf, zeroed, zeroed-IsCmd, get_u32, get_u64, be_value, put_u32, put_u64, be32, pack_open_req,
  pack_close_req, pack_map_req, pack_map_rsp, pack_commit_req, pack_unmap_req, pack_commit_rsp,
  pack_unmap_rsp, pack_close_rsp,
}
use rpmem.Protocol.Spec.{Response, Kind, pack_response, parse_request}
use rpmem.Protocol.RoundTrip.{unpack-pack_response}
use rpmem.Machine.{Call, WcOpcode}
use rpmem.Client.{File, on_event, addr_handler, route_handler}
use rpmem.Client.Waiting.{Arrives}
use rpmem.Client.Connected.{Connects}
use rpmem.Client.Opened.{open_waiting, open_calls}
use rpmem.Client.OpenResult.{at_join, join_calls}
use rpmem.Client.Samples.{completion}
use rpmem.Client.OpenSamples.{
  session_world, library, first, first_calls, second, addr_run, route_run, file_of, calls_of, rsp,
}
use rpmem.Client.Sequence.{
  Maps, mapped_file, mapped_calls, Commits, committed_file, committed_calls, Unmaps,
}
use rpmem.Examples.{map_size}
use rpmem.Examples.Session.{located, Opens, opened_library, before_body}

abbrev pub found : List Call
found = located []

unfoldable pub connects : Connects session_world (first found) (first_calls found)
unfolding on_event addr_handler route_handler
connects = record {
  resolved = second found;
  resolved_calls = calls_of (addr_run found);
  connecting = file_of (route_run found);
  connecting_calls = calls_of (route_run found);
  addr = record { got = refl; event_is = refl; ran = refl };
  route = record { got = refl; event_is = refl; ran = refl };
  got = refl;
  event_is = refl;
}

abbrev pub joined : File
joined = at_join session_world library found connects

abbrev pub joined_calls : List Call
joined_calls = join_calls session_world library found connects

pub open-Arrives :
    Arrives session_world
      (open_waiting session_world joined joined_calls)
      (open_calls session_world joined joined_calls)
      rsp
unfolding addr_handler route_handler connects parse_request get_u32 be_value slice pack_open_req
    put_u32 write be32
open-Arrives = record {
  wcs = completion WcOpcode.recv rsp ∷ [];
  few = omega arith;
  once = refl;
  brought = refl;
  event = refl;
  for_queue = refl;
  arms = refl;
  polled = refl;
  polls = refl;
  drained = refl;
}

unfoldable pub opens : Opens session_world 8192 library []
unfolding connects
opens = record {
  found = refl;
  known = refl;
  allocated = λ e. omega arith;
  begins = record { channel = λ e. omega arith; named = refl; thread = refl; resolved = refl };
  connects = connects;
  posts = record { expects = refl; sends = refl };
  bytes = rsp;
  arrives = open-Arrives;
  carried =
      unpack-pack_response Kind.opening (Response.opening 8192) zeroed zeroed-IsCmd (omega arith);
}

abbrev pub response : Response → Buf
response r = pack_response r zeroed

abbrev pub file : File
file = (opened_library opens).file

abbrev pub calls : List Call
calls = before_body opens

unfoldable pub maps : Maps session_world (map_size 8192) file calls
unfolding connects opens addr_handler route_handler map_size parse_request get_u32 get_u64 be_value
    slice pack_open_req pack_map_req put_u32 put_u64 write be32 pack_map_rsp pack_response
maps = record {
  rkey = 77;
  remote = 4096;
  bytes = response (Response.mapping 77 4096);
  last_bytes = response (Response.mapping 77 4096);
  allocated = λ e. omega arith;
  registered = λ e. omega arith;
  expects = refl;
  sends = refl;
  arrives = record {
    wcs = completion WcOpcode.recv (response (Response.mapping 77 4096)) ∷ [];
    few = omega arith;
    once = refl;
    brought = refl;
    event = refl;
    for_queue = refl;
    arms = refl;
    polled = refl;
    polls = refl;
    drained = refl;
  };
  carried =
      unpack-pack_response Kind.mapping (Response.mapping 77 4096) zeroed zeroed-IsCmd
        (omega arith, omega arith);
  reads = refl;
  read = record {
    wcs = completion WcOpcode.rdma_read [] ∷ [];
    few = omega arith;
    once = refl;
    brought = refl;
    event = refl;
    for_queue = refl;
    arms = refl;
    polled = refl;
    polls = refl;
    drained = refl;
  };
}

abbrev pub mapped : File
mapped = mapped_file maps

unfoldable pub commits : Commits session_world 0 mapped (mapped_calls maps)
unfolding connects opens maps addr_handler route_handler map_size parse_request get_u32 get_u64
    be_value slice pack_open_req pack_map_req pack_commit_req pack_unmap_req pack_close_req put_u32
    put_u64 write be32 pack_map_rsp pack_commit_rsp pack_unmap_rsp pack_close_rsp pack_response
commits = record {
  bytes = response (Response.committing 0);
  expects = refl;
  writes = refl;
  sends = refl;
  arrives = record {
    wcs = completion WcOpcode.recv (response (Response.committing 0)) ∷ [];
    few = omega arith;
    once = refl;
    brought = refl;
    event = refl;
    for_queue = refl;
    arms = refl;
    polled = refl;
    polls = refl;
    drained = refl;
  };
  carried =
      unpack-pack_response Kind.committing (Response.committing 0) zeroed zeroed-IsCmd
        (omega arith);
}

unfoldable pub unmaps : Unmaps session_world 0 mapped (mapped_calls maps)
unfolding connects opens maps addr_handler route_handler map_size parse_request get_u32 get_u64
    be_value slice pack_open_req pack_map_req pack_commit_req pack_unmap_req pack_close_req put_u32
    put_u64 write be32 pack_map_rsp pack_commit_rsp pack_unmap_rsp pack_close_rsp pack_response
unmaps = record {
  bytes = response (Response.unmapping 0);
  expects = refl;
  sends = refl;
  arrives = record {
    wcs = completion WcOpcode.recv (response (Response.unmapping 0)) ∷ [];
    few = omega arith;
    once = refl;
    brought = refl;
    event = refl;
    for_queue = refl;
    arms = refl;
    polled = refl;
    polls = refl;
    drained = refl;
  };
  carried =
      unpack-pack_response Kind.unmapping (Response.unmapping 0) zeroed zeroed-IsCmd (omega arith);
}

unfoldable pub last_unmaps :
    Unmaps session_world 0 (committed_file commits) (committed_calls commits)
unfolding connects opens maps addr_handler route_handler map_size parse_request get_u32 get_u64
    be_value slice pack_open_req pack_map_req pack_commit_req pack_unmap_req pack_close_req put_u32
    put_u64 write be32 pack_map_rsp pack_commit_rsp pack_unmap_rsp pack_close_rsp pack_response
    commits
last_unmaps = record {
  bytes = response (Response.unmapping 0);
  expects = refl;
  sends = refl;
  arrives = record {
    wcs = completion WcOpcode.recv (response (Response.unmapping 0)) ∷ [];
    few = omega arith;
    once = refl;
    brought = refl;
    event = refl;
    for_queue = refl;
    arms = refl;
    polled = refl;
    polls = refl;
    drained = refl;
  };
  carried =
      unpack-pack_response Kind.unmapping (Response.unmapping 0) zeroed zeroed-IsCmd (omega arith);
}
