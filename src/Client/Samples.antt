-- ===== src/Client/Samples.antt =====
-- A server that answers every request at once, and an open file.
use rpmem.Base.{false, ℕ, ◌+◌, ◌*◌, refl, arith, List, [], ◌∷◌, minus_one}
use rpmem.Protocol.{Buf, zeroed, zeroed-IsCmd}
use rpmem.Protocol.Spec.{Response, pack_response}
use rpmem.Machine.{WrOpcode, CmEvent, Family, Call, Os, Wc, WcStatus, WcOpcode}
use rpmem.Client.{FileState, File, fresh_file}
use rpmem.Client.Posting.{IsOpen}
use rpmem.Client.Waiting.{Arrives}
use rpmem.Client.Committing.{commit_waiting, commit_calls}
use rpmem.Client.Unmapping.{unmap_waiting, unmap_calls}
use rpmem.Client.Mapping.{map_waiting, map_calls, map_reading, map_read_calls}

abbrev pub completion : WcOpcode → Buf → Wc
completion opcode bytes = record { status = WcStatus.success; opcode = opcode; bytes = bytes }

-- What completes after the latest work request that something answers.
abbrev completed : Buf → WrOpcode → List Wc → List Wc
completed rsp WrOpcode.send earlier = completion WcOpcode.recv rsp ∷ []
completed rsp WrOpcode.rdma_read earlier = completion WcOpcode.rdma_read [] ∷ []
completed rsp WrOpcode.rdma_write earlier = earlier

abbrev served : Buf → List Call → List Wc
served rsp [] = []
served rsp (Call.ibv_post_send qp wr ∷ cs) = completed rsp wr.opcode (served rsp cs)
served rsp (c ∷ cs) = served rsp cs

-- One completion for the first poll of a round, and none for the next.
abbrev answer : List Call → Call → ℕ
answer (Call.ibv_poll_cq _ ∷ cs) (Call.ibv_poll_cq _) = 0
answer cs (Call.ibv_poll_cq _) = 1
answer cs (Call.ibv_reg_mr _ _ _ _) = 7
answer cs (Call.ibv_alloc_pd _) = 5
answer cs (Call.ibv_create_comp_channel _) = 6
answer cs (Call.ibv_create_cq _ _ _) = 8
answer cs (Call.calloc _) = 65536
answer cs Call.rdma_create_event_channel = 2
answer cs (Call.rdma_create_qp _ _ _ _ _ _) = minus_one
answer cs _ = 0

abbrev pub world : Response → Os
world r = record {
  reply = answer;
  polled = served (pack_response r zeroed);
  event_cq = λ cs. 8;
  cm_event = λ cs. CmEvent.route_resolved;
  junk32 = λ cs. 99;
  junk64 = λ cs. 1234;
  lkey_of = λ p. p + 1;
  rkey_of = λ p. p * 11;
  qp_of = λ p. 9;
  made_id = λ cs. 4;
  event_id = λ cs. 4;
  ai_family = λ cs. Family.inet;
  is_blk = λ cs. false;
  size_of = λ cs. 8192;
  verbs_of = λ p. 3;
}

-- An open file with 4096 bytes mapped.
abbrev pub file : File
file = record fresh_file {
  conn = record (fresh_file.conn) {
    cma_id = 4;
    pd = 5;
    cq = 8;
    qp = 9;
    comp_channel = 6;
    req_mr = 7;
    rsp_mr = 7;
  };
  cma_channel = 2;
  state = FileState.established;
  size = 8192;
  addr = 65536;
  len = 4096;
  mr = 7;
  rkey = 77;
  remote_addr = 4096;
}

pub file-IsOpen : IsOpen file
file-IsOpen = record {
  req_registered = λ e. omega arith;
  rsp_registered = λ e. omega arith;
  req_cmd = zeroed-IsCmd;
  idle = refl;
}

abbrev pub commit_world : Os
commit_world = world (Response.committing 0)

pub commit-Arrives :
    Arrives commit_world
      (commit_waiting commit_world file [])
      (commit_calls commit_world file [])
      (pack_response (Response.committing 0) zeroed)
commit-Arrives = record {
  wcs = completion WcOpcode.recv (pack_response (Response.committing 0) zeroed) ∷ [];
  few = omega arith;
  once = refl;
  brought = refl;
  event = refl;
  for_queue = refl;
  arms = refl;
  polled = refl;
  polls = refl;
  drained = refl;
}

abbrev pub unmap_world : Os
unmap_world = world (Response.unmapping 0)

pub unmap-Arrives :
    Arrives unmap_world
      (unmap_waiting unmap_world file [])
      (unmap_calls unmap_world file [])
      (pack_response (Response.unmapping 0) zeroed)
unmap-Arrives = record {
  wcs = completion WcOpcode.recv (pack_response (Response.unmapping 0) zeroed) ∷ [];
  few = omega arith;
  once = refl;
  brought = refl;
  event = refl;
  for_queue = refl;
  arms = refl;
  polled = refl;
  polls = refl;
  drained = refl;
}

abbrev pub map_world : Os
map_world = world (Response.mapping 77 4096)

pub map-Arrives :
    Arrives map_world
      (map_waiting map_world 4096 file [])
      (map_calls map_world 4096 file [])
      (pack_response (Response.mapping 77 4096) zeroed)
map-Arrives = record {
  wcs = completion WcOpcode.recv (pack_response (Response.mapping 77 4096) zeroed) ∷ [];
  few = omega arith;
  once = refl;
  brought = refl;
  event = refl;
  for_queue = refl;
  arms = refl;
  polled = refl;
  polls = refl;
  drained = refl;
}

pub read-Arrives :
    Arrives map_world
      (map_reading map_world 4096 file [] 77 4096 (pack_response (Response.mapping 77 4096) zeroed))
      (map_read_calls map_world 4096 file [] 77 4096
        (pack_response (Response.mapping 77 4096) zeroed))
      (pack_response (Response.mapping 77 4096) zeroed)
read-Arrives = record {
  wcs = completion WcOpcode.rdma_read [] ∷ [];
  few = omega arith;
  once = refl;
  brought = refl;
  event = refl;
  for_queue = refl;
  arms = refl;
  polled = refl;
  polls = refl;
  drained = refl;
}
