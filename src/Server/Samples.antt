-- ===== src/Server/Samples.antt =====
-- A server with one resource of 8192 bytes, and a platform that answers its calls.
use rpmem.Base.{false, ℕ, ◌+◌, ◌*◌, refl, [], ◌∷◌, arith, minus_one}
use rpmem.Protocol.{zeroed-IsCmd, Buf, zeroed}
use rpmem.Protocol.Spec.{Request, pack_request}
use rpmem.Machine.{CmEvent, Family, Call, Os, Wc, WcStatus, WcOpcode}
use rpmem.Server.{Server, ServerUnit, Heap}
use rpmem.Server.Serve.{Received}
use rpmem.Protocol.Frame.{pack_request_frame}

abbrev pub answer : Call → ℕ
answer (Call.ibv_reg_mr _ _ _ _) = 7
answer (Call.mmap _ _) = 4096
answer (Call.ibv_alloc_pd _) = 5
answer (Call.ibv_create_comp_channel _) = 6
answer (Call.ibv_create_cq _ _ _) = 8
answer Call.calloc_struct = 100
answer (Call.ibv_poll_cq _) = 1
answer _ = 0

abbrev pub sent_wc : Wc
sent_wc = record { status = WcStatus.success; opcode = WcOpcode.send; bytes = [] }

abbrev pub world : Os
world = record {
  reply = λ cs c. answer c;
  polled = λ cs. sent_wc ∷ [];
  event_cq = λ cs. 8;
  cm_event = λ cs. CmEvent.established;
  made_id = λ cs. 4;
  event_id = λ cs. 4;
  ai_family = λ cs. Family.inet;
  is_blk = λ cs. false;
  size_of = λ cs. 8192;
  junk32 = λ cs. 99;
  junk64 = λ cs. 1234;
  lkey_of = λ p. p + 1;
  rkey_of = λ p. p * 11;
  qp_of = λ p. 9;
  verbs_of = λ p. 3;
}

abbrev pub heap : Heap
heap p = record { fd = 3; st_size = 8192; mr = 0; addr = 0; map_len = 0 }

abbrev pub server : Server
server = record {
  cma_id = 1;
  cma_channel = 2;
  heap = heap;
  conns_list = [];
  res_list = 20 ∷ [];
  total_size = 8192;
  in_use_size = 0;
  free_size = 8192;
}

abbrev pub unit_with : Server → ℕ → Buf → ServerUnit
unit_with s res req = record {
  server = s;
  conn = record {
    cma_id = 4;
    pd = 5;
    cq = 8;
    qp = 9;
    comp_channel = 6;
    req_mr = 7;
    rsp_mr = 7;
    req = req;
    rsp = zeroed;
  };
  res = res;
}

abbrev pub requested : Request → ServerUnit
requested r = unit_with server 0 (pack_request r zeroed)

pub received :
    (s : Server) (res : ℕ) (r : Request) → Received r (unit_with s res (pack_request r zeroed))
received s res r = record {
  ready = record {
    req_registered = λ e. omega arith;
    rsp_registered = λ e. omega arith;
    req_cmd = (pack_request_frame r zeroed zeroed-IsCmd).0;
    rsp_cmd = zeroed-IsCmd;
  };
  buffer = zeroed;
  was_cmd = zeroed-IsCmd;
  bytes = refl;
}

abbrev pub broken_answer : Call → ℕ
broken_answer (Call.ibv_poll_cq _) = minus_one
broken_answer (Call.rdma_create_qp _ _ _ _ _ _) = minus_one
broken_answer c = answer c

abbrev pub broken_world : Os
broken_world = record world { reply = λ cs c. broken_answer c }

-- The server while the resource is with the unit.
abbrev pub busy_server : Server
busy_server = record server { res_list = []; in_use_size = 8192; free_size = 0 }
