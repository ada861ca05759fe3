-- ===== src/Server/FleetTests.antt =====
-- The theorems on leases and on the server with its units, at the sample platform.
use rpmem.Base.{All, ℕ, ◌+◌, ◌≡◌, ◌≢◌, ◌≤◌, refl, List, [], ◌∷◌, ◌++◌, arith, Bool, true}
use rpmem.Protocol.{Buf, zeroed}
use rpmem.Protocol.Spec.{Request, pack_request}
use rpmem.Machine.{Wc, WcStatus, WcOpcode, CmEvent, Call, Os, Outcome, done, fault, stuck, After}
use rpmem.Conn.{post_recv}
use rpmem.Server.{
  Server, ServerUnit, rcv_completion, cq_round, handle_wc, handle_map, map_resource, map_registered,
  map_response, search_pool, repost, respond, connect_request_handler, conn_init, create_qp,
  fresh_conn,
}
use rpmem.Server.Start.{start, cm_round, server_cma_handler}
use rpmem.Server.Leases.{Moves, lease_of, cq_round-Moves}
use rpmem.Server.Fleet.{Member, Fleet, Reach, unit_of, member_of, serves, accepts, here, next}
use rpmem.Protocol.{zeroed-IsCmd}
use rpmem.Protocol.Frame.{pack_request_frame}
use rpmem.Server.Fleet.Ready.{IsReadyMember, Reach-IsReady}
use rpmem.Server.Fleet.Safety.{alone}
use rpmem.Conn.Acquire.{acquire, arm}
use rpmem.Server.Stages.{stages, conn_init-acquire}
use rpmem.Server.Samples.{answer, world, server, unit_with, requested}

abbrev map_request : Request
map_request = Request.mapping 4096

cq_round-Moves_example :
    After
      (λ _ u' _. Moves (lease_of server 0) (lease_of u'.server u'.res))
      (cq_round world (requested map_request) [])
cq_round-Moves_example = cq_round-Moves world (requested map_request) [] refl

-- The platform, with an event channel and connection requests.
abbrev with_channel : Call → ℕ
with_channel Call.rdma_create_event_channel = 2
with_channel c = answer c

abbrev requests : Os
requests = record world { reply = λ cs c. with_channel c; cm_event = λ cs. CmEvent.connect_request }

module _ {L A : Type 0} where
  abbrev state_of : L → Outcome L A → L
  state_of none (done _ l _) = l
  state_of none fault = none
  state_of none stuck = none

  abbrev calls_of : Outcome L A → List Call
  calls_of (done _ _ cs) = cs
  calls_of fault = []
  calls_of stuck = []

-- A start, two connection requests, and a map request on the second of the two connections.
abbrev first : Server
first = state_of server (start requests 20 server [])

abbrev map_wc : Wc
map_wc = record {
  status = WcStatus.success;
  opcode = WcOpcode.recv;
  bytes = pack_request map_request zeroed;
}

abbrev blank : Member
blank = member_of (unit_with server 0 zeroed)

abbrev admit : Server → ServerUnit
admit s = state_of (unit_of s blank) (cm_round requests (unit_of s blank) [])

abbrev second : ServerUnit
second = admit first

abbrev third : ServerUnit
third = admit second.server

abbrev mapping : Outcome ServerUnit (Unit {0})
mapping = handle_wc requests map_wc third []

abbrev fourth : ServerUnit
fourth = state_of third mapping

abbrev final : Fleet
final = record { server = fourth.server; members = member_of fourth ∷ member_of second ∷ [] }

unfoldable turns : Reach requests (alone first) final
unfolding start cm_round server_cma_handler connect_request_handler conn_init create_qp post_recv
    handle_wc rcv_completion rpmem.Protocol.get_u32 rpmem.Protocol.be_value rpmem.Base.slice
    pack_request rpmem.Protocol.pack_map_req rpmem.Protocol.put_u32 rpmem.Base.write
    rpmem.Protocol.be32 handle_map repost search_pool map_resource map_registered map_response
    respond
turns =
    next
      (next (next here (accepts blank true [] _ second refl refl))
        (accepts blank true [] _ third refl refl))
      (serves [] (member_of second ∷ []) (member_of third) map_wc [] (calls_of mapping) fourth refl
        refl refl)

conn_init-acquire_example :
    conn_init requests (fresh_conn 4) []
    ≡ acquire requests (arm requests) (stages requests) [] (fresh_conn 4) []
conn_init-acquire_example = conn_init-acquire requests (fresh_conn 4) []

Reach-IsReady_example : All IsReadyMember final.members
unfolding turns
Reach-IsReady_example =
    Reach-IsReady turns refl
      (((tt, tt), tt), (pack_request_frame map_request zeroed zeroed-IsCmd).0)
