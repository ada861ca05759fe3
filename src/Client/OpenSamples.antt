-- ===== src/Client/OpenSamples.antt =====
-- A server that answers each request by its kind, and a connection manager that connects.
use rpmem.Base.{refl, arith, slice, write, ℕ, zero, suc, Option, some, none, List, [], ◌∷◌}
use rpmem.Protocol.{Buf, zeroed, get_u32, be_value, put_u32, be32, pack_open_req}
use rpmem.Protocol.Spec.{Request, Response, pack_response, parse_request}
use rpmem.Machine.{WrOpcode, CmEvent, Lock, Call, Os, Outcome, done, Wc, WcOpcode}
use rpmem.Client.{File, Library, fresh_file, on_event, addr_handler, route_handler}
use rpmem.Client.Waiting.{Arrives}
use rpmem.Client.Connected.{Connects, get, after_event}
use rpmem.Client.Opened.{open_waiting, open_calls, begun, begun_calls}
use rpmem.Client.OpenResult.{opening_calls, at_join, join_calls}
use rpmem.Client.Samples.{completion, world}

abbrev response_to : Request → Response
response_to Request.opening = Response.opening 8192
response_to Request.closing = Response.closing 0
response_to (Request.mapping len) = Response.mapping 77 4096
response_to (Request.unmapping len addr) = Response.unmapping 0
response_to (Request.committing len addr) = Response.committing 0

abbrev answered : Option Request → List Wc
answered none = []
answered (some r) = completion WcOpcode.recv (pack_response (response_to r) zeroed) ∷ []

-- What completes after the latest work request.
abbrev completes : WrOpcode → Buf → List Wc → List Wc
completes WrOpcode.send request earlier = answered (parse_request request)
completes WrOpcode.rdma_read request earlier = completion WcOpcode.rdma_read [] ∷ []
completes WrOpcode.rdma_write request earlier = earlier

abbrev polled : List Call → List Wc
polled [] = []
polled (Call.ibv_post_send qp wr ∷ cs) = completes wr.opcode wr.payload (polled cs)
polled (c ∷ cs) = polled cs

abbrev events : List Call → ℕ
events [] = 0
events (Call.rdma_get_cm_event _ ∷ cs) = suc (events cs)
events (c ∷ cs) = events cs

abbrev event : ℕ → CmEvent
event (suc zero) = CmEvent.addr_resolved
event (suc (suc zero)) = CmEvent.route_resolved
event _ = CmEvent.established

abbrev answer : List Call → Call → ℕ
answer (Call.ibv_poll_cq _ ∷ cs) (Call.ibv_poll_cq _) = 0
answer cs (Call.ibv_poll_cq _) = 1
answer cs (Call.ibv_reg_mr _ _ _ _) = 7
answer cs (Call.ibv_alloc_pd _) = 5
answer cs (Call.ibv_create_comp_channel _) = 6
answer cs (Call.ibv_create_cq _ _ _) = 8
answer cs (Call.calloc _) = 65536
answer cs Call.calloc_struct = 100
answer cs Call.rdma_create_event_channel = 2
answer cs _ = 0

abbrev pub session_world : Os
session_world = record (world (Response.opening 8192)) {
  reply = answer;
  polled = polled;
  cm_event = λ cs. event (events cs);
}

-- Another file is open already.
abbrev pub library : Library
library = record { file_list = 50 ∷ []; file = fresh_file }

abbrev pub file_of : Outcome File ℕ → File
file_of (done _ f _) = f
file_of _ = fresh_file

abbrev pub calls_of : Outcome File ℕ → List Call
calls_of (done _ _ cs) = cs
calls_of _ = []

module _ (start : List Call) where
  -- The two handlers that run before the connection is established, for an open behind the calls
  -- `start`.
  abbrev pub first : File
  first = begun session_world (opening_calls session_world library start)

  abbrev pub first_calls : List Call
  first_calls = begun_calls session_world (opening_calls session_world library start)

  abbrev pub addr_run : Outcome File ℕ
  addr_run =
      addr_handler session_world first
        (Call.lock Lock.state_mutex ∷ get session_world first ∷ first_calls)

  abbrev pub second : File
  second = file_of addr_run

  abbrev second_calls : List Call
  second_calls = after_event session_world (calls_of addr_run)

  abbrev pub route_run : Outcome File ℕ
  route_run =
      route_handler session_world second
        (Call.lock Lock.state_mutex ∷ get session_world second ∷ second_calls)

unfoldable pub connects : Connects session_world (first []) (first_calls [])
unfolding on_event addr_handler route_handler
connects = record {
  resolved = second [];
  resolved_calls = calls_of (addr_run []);
  connecting = file_of (route_run []);
  connecting_calls = calls_of (route_run []);
  addr = record { got = refl; event_is = refl; ran = refl };
  route = record { got = refl; event_is = refl; ran = refl };
  got = refl;
  event_is = refl;
}

abbrev pub rsp : Buf
rsp = pack_response (Response.opening 8192) zeroed

abbrev pub joined_file : File
joined_file = at_join session_world library [] connects

abbrev pub joined_calls : List Call
joined_calls = join_calls session_world library [] connects

pub open-Arrives :
    Arrives session_world
      (open_waiting session_world joined_file joined_calls)
      (open_calls session_world joined_file joined_calls)
      rsp
unfolding addr_handler route_handler connects parse_request get_u32 be_value slice pack_open_req
    put_u32 write be32
open-Arrives = record {
  wcs = completion WcOpcode.recv rsp ∷ [];
  few = omega arith;
  once = refl;
  brought = refl;
  event = refl;
  for_queue = refl;
  arms = refl;
  polled = refl;
  polls = refl;
  drained = refl;
}
