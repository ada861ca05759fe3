-- ===== src/Server/Tests.antt =====
-- The theorems on the server, at the sample server.
use rpmem.Base.{ℕ, ◌+◌, ◌≡◌, refl, [], arith, minus_one}
use rpmem.Base.{List, slice, write}
use rpmem.Conn.{post_recv, post_send}
use rpmem.Protocol.{
  zeroed-IsCmd, pack_map_req, pack_map_rsp, get_u64, put_u32, put_u64, be32, be_value,
}
use rpmem.Protocol.Frame.{pack_request_frame}
use rpmem.Protocol.Spec.{pack_response}
use rpmem.Server.{
  ServerUnit, handle_map, search_pool, map_resource, map_registered, map_response, remove, repost,
  respond,
}
use rpmem.Server.MapUnmap.{receiving, Restored, unmapping-mapping}
use rpmem.Server.Serve.{Received}
use rpmem.Protocol.{zeroed, get_u32, opcode_at}
use rpmem.Server.Credits.{sends, receives, answers, reposts, rcv_completion-posts}
use rpmem.Protocol.Spec.{Request, Response, Kind, pack_request}
use rpmem.Machine.{Outcome, done, stuck, Call, Os, fault, Ensures, After, Settles}
use rpmem.Server.{rcv_completion, cq_event_handler}
use rpmem.Server.Serve.{Answers, earlier}
use rpmem.Server.{handle_wc, handle_wcs}
use rpmem.Server.Pool.{first_fit}
use rpmem.Server.Polling.{cq_event_handler-Settles}
use rpmem.Server.Unmapping.{Unmapped, rcv_completion-unmapping, rcv_completion-unmapping_fault}
use rpmem.Server.Mapping.{Mapped, unlocked, rcv_completion-mapping}
use rpmem.Server.MapFailure.{Withheld, unmapping_calls, rcv_completion-mapping_unregistered}
use rpmem.Server.MapFailure.{rcv_completion-mapping_refused, rcv_completion-mapping_fault}
use rpmem.Server.Samples.{answer, busy_server, world, server, unit_with, requested, received}

abbrev unmap_request : Request
unmap_request = Request.unmapping 4096 4096

rcv_completion-unmapping_example :
    let u = unit_with busy_server 20 (pack_request unmap_request zeroed) in
    Ensures
      (λ _ u' cs'. Answers Kind.unmapping (Response.unmapping 0) u' cs' × Unmapped 0 u u')
      (rcv_completion world u [])
rcv_completion-unmapping_example =
    rcv_completion-unmapping world (unit_with busy_server 20 (pack_request unmap_request zeroed)) []
      4096 4096 (received busy_server 20 unmap_request) (omega arith) (λ e. omega arith) refl
      (omega arith)

rcv_completion-unmapping_fault_example : rcv_completion world (requested unmap_request) [] ≡ fault
rcv_completion-unmapping_fault_example =
    rcv_completion-unmapping_fault world (requested unmap_request) [] 4096 4096
      (received server 0 unmap_request) refl refl

abbrev map_request : Request
map_request = Request.mapping 4096

rcv_completion-mapping_example :
    let u = requested map_request in
    Ensures
      (λ _ u' cs'.
        Answers Kind.mapping (Response.mapping 77 4096) u' cs' × Mapped world u [] 4096 20 u')
      (rcv_completion world u [])
unfolding first_fit
rcv_completion-mapping_example =
    rcv_completion-mapping world (requested map_request) [] 4096 20 (received server 0 map_request)
      (omega arith) refl refl (λ e. omega arith) (λ e. omega arith) (λ e. omega arith) (omega arith)

-- The unit after the map request, and the bytes of the unmap request.
abbrev unit_after : Outcome ServerUnit ℕ → ServerUnit → ServerUnit
unit_after (done _ u' _) u = u'
unit_after fault u = u
unit_after stuck u = u

abbrev calls_of : Outcome ServerUnit ℕ → List Call
calls_of (done _ _ cs) = cs
calls_of fault = []
calls_of stuck = []

abbrev mapped_unit : ServerUnit
mapped_unit = unit_after (rcv_completion world (requested map_request) []) (requested map_request)

abbrev returning : ServerUnit
returning = receiving (pack_request unmap_request zeroed) mapped_unit

returning-Received : Received unmap_request returning
unfolding rcv_completion handle_map search_pool map_resource map_registered map_response remove
    repost respond post_recv post_send pack_request pack_response pack_map_req pack_map_rsp get_u32
    get_u64 put_u32 put_u64 be32 be_value slice write
returning-Received = record {
  ready = record {
    req_registered = λ e. omega arith;
    rsp_registered = λ e. omega arith;
    req_cmd = (pack_request_frame unmap_request zeroed zeroed-IsCmd).0;
    rsp_cmd = omega arith;
  };
  buffer = zeroed;
  was_cmd = zeroed-IsCmd;
  bytes = refl;
}

unmapping-mapping_example :
    Ensures (λ _ u'' _. Restored (requested map_request) u'') (rcv_completion world returning [])
unfolding rcv_completion handle_map search_pool map_resource map_registered map_response remove
    first_fit repost respond post_recv post_send pack_request pack_response pack_map_req
    pack_map_rsp get_u32 get_u64 put_u32 put_u64 be32 be_value slice write
unmapping-mapping_example =
    unmapping-mapping world (requested map_request) [] 4096 20 (pack_request unmap_request zeroed)
      4096 4096 {cs' = calls_of (rcv_completion world (requested map_request) [])} []
      (received server 0 map_request) (omega arith) refl (omega arith) (omega arith) refl refl
      (λ e. omega arith) (λ e. omega arith) (λ e. omega arith) (omega arith) refl returning-Received
      (omega arith) refl refl

rcv_completion-mapping_refused_example :
    let u = unit_with busy_server 0 (pack_request map_request zeroed) in
    Ensures
      (λ _ u' cs'.
        Answers Kind.mapping (Response.mapping 99 1234) u' cs'
        × (u'.server ≡ busy_server)
        × (u'.res ≡ 0)
        × (earlier cs' ≡ unlocked world u []))
      (rcv_completion world u [])
unfolding first_fit
rcv_completion-mapping_refused_example =
    rcv_completion-mapping_refused world (unit_with busy_server 0 (pack_request map_request zeroed))
      [] 4096 (received busy_server 0 map_request) (omega arith) refl refl refl (omega arith)
      (omega arith)

-- The platform, where no region can be registered.
abbrev unregistered_answer : Call → ℕ
unregistered_answer (Call.ibv_reg_mr _ _ _ _) = 0
unregistered_answer c = answer c

abbrev full_world : Os
full_world = record world { reply = λ cs c. unregistered_answer c }

rcv_completion-mapping_unregistered_example :
    let u = requested map_request in
    Ensures
      (λ _ u' cs'.
        Answers Kind.mapping (Response.mapping 99 0) u' cs'
        × Withheld full_world u [] 4096 20 u'
        × (earlier cs' ≡ unmapping_calls full_world u [] 4096 20))
      (rcv_completion full_world u [])
unfolding first_fit
rcv_completion-mapping_unregistered_example =
    rcv_completion-mapping_unregistered full_world (requested map_request) [] 4096 20
      (received server 0 map_request) (omega arith) refl refl (λ e. omega arith) refl (omega arith)

rcv_completion-mapping_fault_example :
    rcv_completion world (unit_with busy_server 20 (pack_request map_request zeroed)) [] ≡ fault
unfolding first_fit
rcv_completion-mapping_fault_example =
    rcv_completion-mapping_fault world (unit_with busy_server 20 (pack_request map_request zeroed))
      [] 4096 (received busy_server 20 map_request) (omega arith) (λ e. omega arith) refl refl

cq_event_handler-Settles_example : Settles (cq_event_handler world 64 0 (requested map_request) [])
cq_event_handler-Settles_example =
    cq_event_handler-Settles world 64 0 (requested map_request) [] (omega arith) (omega arith)

-- The handler really returns -1 there.
cq_event_handler_leaves :
    Ensures (λ ret _ _. ret ≡ minus_one) (cq_event_handler world 64 0 (requested map_request) [])
unfolding cq_event_handler handle_wcs handle_wc
cq_event_handler_leaves = refl

rcv_completion-posts_example :
    After
      (λ _ _ ds.
        (sends ds ≡ 0 + answers (get_u32 opcode_at (requested map_request).conn.req))
        × (receives ds ≡ 0 + reposts (get_u32 opcode_at (requested map_request).conn.req)))
      (rcv_completion world (requested map_request) [])
rcv_completion-posts_example = rcv_completion-posts world (requested map_request) []
