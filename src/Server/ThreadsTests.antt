-- ===== src/Server/ThreadsTests.antt =====
-- The theorems on the sections of the handlers, at the sample platform.
use rpmem.Base.{
  All, Bool, ℕ, zero, suc, false, ◌++◌, ◌≤◌, ◌≡◌, ◌≢◌, refl, List, [], ◌∷◌, arith, true,
}
use rpmem.Base.{slice, write}
use rpmem.Conn.{post_send}
use rpmem.Protocol.{get_u64, put_u64, pack_map_rsp}
use rpmem.Protocol.Spec.{pack_response}
use rpmem.Server.{rcv_completion, handle_map, remove}
use rpmem.Server.Pool.{first_fit}
use rpmem.Server.Samples.{received}
use rpmem.Server.Threads.Locking.{IsDisciplined, turns-IsDisciplined}
use rpmem.Server.Threads.Lost.{IsGone, remapping-IsGone}
use rpmem.Conn.{post_recv}
use rpmem.Protocol.{zeroed, get_u32, be_value, pack_map_req, put_u32, be32}
use rpmem.Protocol.Spec.{Request, pack_request}
use rpmem.Machine.{Wc, WcStatus, WcOpcode, CmEvent, Call, Os, Outcome, done, fault, stuck, M}
use rpmem.Server.{
  Server, ServerUnit, search_pool, repost, connect_request_handler, conn_init, create_qp,
}
use rpmem.Server.Start.{start, cm_round, server_cma_handler}
use rpmem.Server.Fleet.{Member, unit_of, member_of}
use rpmem.Server.Threads.{
  Cut, wc_cut, request_cut, map_cut, find_fit, search_locked, take_locked, map_rest, Worker, owners,
  moved, member, resumed, Threads, seated, Turn, Turns,
}
use rpmem.Server.Accounts.{count}
use rpmem.Server.Pool.{pool_size}
use rpmem.Server.{map_resource, map_registered, map_response, respond}
use rpmem.Server.Threads.Invariant.{fleet_of, owners-seated}
use rpmem.Server.Fleet.OneResource.{HoldsOne}
use rpmem.Server.Threads.Safety.{
  interleaved-HoldsOne, quiet, IsResting, sole_tenant, section-IsApart,
}
use rpmem.Server.Samples.{answer, world, server, unit_with}

-- What is left after the next section of a worker has run, with no earlier calls.
abbrev Seen : Type 0
Seen = Server × Worker

abbrev ended : Seen → (ℕ → Cut) → Outcome ServerUnit ℕ → Seen
ended seen rest (done a u' _) = (u'.server, moved seen.1 u' (rest a))
ended seen rest fault = seen
ended seen rest stuck = seen

abbrev with_lock : Seen → Cut → Bool → Seen
with_lock seen rest true = seen
with_lock seen rest false = (seen.0, record (seen.1) { rest = rest; owns = true })

abbrev taken_up : Seen → Cut → Seen
taken_up seen (Cut.ends a) = seen
taken_up seen (Cut.section block rest) = ended seen rest (block (unit_of seen.0 (member seen.1)) [])
taken_up seen (Cut.acquire rest) = with_lock seen rest seen.1.owns
taken_up seen (Cut.release rest) = (seen.0, record (seen.1) { rest = rest; owns = false })

abbrev ahead : ℕ → Seen → Seen
ahead zero seen = seen
ahead (suc n) seen = ahead n (taken_up seen seen.1.rest)

-- They are turns, if no other thread has the lock.
module _ (os : Os) (t : Threads) (before after : List Worker) where
  abbrev Come : Seen → Type 0
  Come (s, w) = Turns os t (seated before after s w)

  ended-Turns :
      (seen : Seen) (block : M ServerUnit ℕ) (rest : ℕ → Cut) (r : Outcome ServerUnit ℕ)
      → seen.1.rest ≡ Cut.section block rest
      → block (unit_of seen.0 (member seen.1)) [] ≡ r
      → Come seen
      → Come (ended seen rest r)
  ended-Turns seen block rest (done a u' cs') left e h =
      Turns.next h (Turn.moves before after seen.0 seen.1 block rest [] cs' a u' left e)
  ended-Turns seen block rest fault left e h = h
  ended-Turns seen block rest stuck left e h = h

  with_lock-Turns :
      (others : owners (before ++ after) ≡ 0) (seen : Seen) (rest : Cut) (owns : Bool)
      → seen.1.owns ≡ owns
      → seen.1.rest ≡ Cut.acquire rest
      → Come seen
      → Come (with_lock seen rest owns)
  with_lock-Turns others seen rest true has left h = h
  with_lock-Turns others seen rest false free left h = Turns.next h (
      Turn.locks before after seen.0 seen.1 rest left
        (ground (arith, others, free, owners-seated before after seen.1)))

  taken_up-Turns :
      (others : owners (before ++ after) ≡ 0) (seen : Seen) (cut : Cut)
      → seen.1.rest ≡ cut
      → Come seen
      → Come (taken_up seen cut)
  taken_up-Turns others seen (Cut.ends a) left h = h
  taken_up-Turns others seen (Cut.section block rest) left h =
      ended-Turns seen block rest _ left refl h
  taken_up-Turns others seen (Cut.acquire rest) left h =
      with_lock-Turns others seen rest seen.1.owns refl left h
  taken_up-Turns others seen (Cut.release rest) left h =
      Turns.next h (Turn.unlocks before after seen.0 seen.1 rest left)

  ahead-Turns :
      owners (before ++ after) ≡ 0 → (n : ℕ) (seen : Seen) → Come seen → Come (ahead n seen)
  ahead-Turns others zero seen h = h
  ahead-Turns others (suc n) seen h =
      ahead-Turns others n (taken_up seen seen.1.rest)
        (taken_up-Turns others seen seen.1.rest refl h)

-- A start and two connection requests, of units that hold nothing.
abbrev channel_answer : Call → ℕ
channel_answer Call.rdma_create_event_channel = 2
channel_answer c = answer c

abbrev requests : Os
requests = record world {
  reply = λ cs c. channel_answer c;
  cm_event = λ cs. CmEvent.connect_request;
}

abbrev blank : Member
blank = member_of (unit_with server 0 zeroed)

abbrev server_of : Server → Outcome Server ℕ → Server
server_of s (done _ s' _) = s'
server_of s fault = s
server_of s stuck = s

abbrev unit_after : {A : Type 0} → ServerUnit → Outcome ServerUnit A → ServerUnit
unit_after u (done _ u' _) = u'
unit_after u fault = u
unit_after u stuck = u

abbrev calls_of : Outcome Server ℕ → List Call
calls_of (done _ _ cs) = cs
calls_of fault = []
calls_of stuck = []

abbrev begun : Server
begun = server_of server (start requests 20 server [])

abbrev one : ServerUnit
one = unit_after (unit_of begun blank) (cm_round requests (unit_of begun blank) [])

abbrev two : ServerUnit
two = unit_after (unit_of one.server blank) (cm_round requests (unit_of one.server blank) [])

abbrev wc_of : Request → Wc
wc_of r = record {
  status = WcStatus.success;
  opcode = WcOpcode.recv;
  bytes = pack_request r zeroed;
}

abbrev unit_calls : Outcome ServerUnit ℕ → List Call
unit_calls (done _ _ cs) = cs
unit_calls fault = []
unit_calls stuck = []

-- The second unit has taken the resource for a map of 4096 bytes and still has the lock; the first
-- has begun to handle its open.
abbrev mapping : Seen
mapping = ahead 6 (two.server, resumed two (wc_cut requests (wc_of (Request.mapping 4096))))

abbrev opening : Seen
opening = ahead 1 (mapping.0, resumed one (wc_cut requests (wc_of Request.opening)))

started : start requests 20 server [] ≡ done 0 begun (calls_of (start requests 20 server []))
unfolding start
started = refl

abbrev rested : ServerUnit → Worker
rested u = resumed u (Cut.ends 0)

abbrev asked : ServerUnit → Request → Worker
asked u r = resumed u (wc_cut requests (wc_of r))

accepted : Turns requests (quiet begun) (seated [] (rested one ∷ []) two.server (rested two))
unfolding start cm_round server_cma_handler connect_request_handler conn_init create_qp post_recv
accepted =
    Turns.next (Turns.next Turns.here (Turn.accepts [] begun blank true [] _ one refl))
      (Turn.accepts (rested one ∷ []) one.server blank true [] _ two refl)

mapping-Turns : Turns requests (quiet begun) (seated [] (rested one ∷ []) mapping.0 mapping.1)
mapping-Turns =
    ahead-Turns requests (quiet begun) [] (rested one ∷ []) refl 6
      (two.server, asked two (Request.mapping 4096))
      (Turns.next accepted (
        Turn.begins [] (rested one ∷ []) two.server (rested two) 0 (wc_of (Request.mapping 4096))
          refl))

opening-Turns : Turns requests (quiet begun) (seated (mapping.1 ∷ []) [] opening.0 opening.1)
unfolding wc_cut
opening-Turns =
    ended-Turns requests (quiet begun) (mapping.1 ∷ []) [] (mapping.0, asked one Request.opening) _
      _ _ refl refl
      (Turns.next mapping-Turns
        (Turn.begins (mapping.1 ∷ []) [] mapping.0 (rested one) 0 (wc_of Request.opening) refl))

interleaved-HoldsOne_example :
    HoldsOne 20 8192 (fleet_of (seated (mapping.1 ∷ []) [] opening.0 opening.1))
unfolding start
interleaved-HoldsOne_example =
    interleaved-HoldsOne requests 20 server [] (λ e. omega arith) started opening-Turns

-- A server of two resources: the first is with one unit, and the other unit has taken the second for
-- a map of 4096 bytes and has not mapped it yet.
abbrev two_server : Server
two_server = record server {
  res_list = 30 ∷ [];
  total_size = 16384;
  in_use_size = 8192;
  free_size = 8192;
}

abbrev holder : Worker
holder = rested (unit_with two_server 20 zeroed)

abbrev comer : Worker
comer = rested (unit_with two_server 0 zeroed)

abbrev resting : Threads
resting = seated [] (holder ∷ []) two_server comer

resting-IsResting : IsResting resting
unfolding pool_size
resting-IsResting = record {
  sound = record {
    balanced = record { free = refl; total = refl };
    once = λ a. ground arith;
    no_null = refl;
  };
  idle = (((0, refl), refl), (((0, refl), refl), tt));
}

abbrev second_mapping : Seen
second_mapping =
    ahead 7 (two_server, record comer { rest = wc_cut world (wc_of (Request.mapping 4096)) })

taken : second_mapping.1.res ≡ 30
unfolding wc_cut request_cut map_cut repost find_fit search_locked take_locked search_pool get_u32
    be_value slice pack_request pack_map_req put_u32 write be32
taken = refl

second_mapping-Turns :
    Turns world resting (seated [] (holder ∷ []) second_mapping.0 second_mapping.1)
second_mapping-Turns =
    ahead-Turns world resting [] (holder ∷ []) refl 7
      (two_server, record comer { rest = wc_cut world (wc_of (Request.mapping 4096)) })
      (Turns.next Turns.here
        (Turn.begins [] (holder ∷ []) two_server comer 0 (wc_of (Request.mapping 4096)) refl))

-- The other unit while it has the lock and has just taken the resource.
abbrev locked_mapping : Seen
locked_mapping =
    ahead 6 (two_server, record comer { rest = wc_cut world (wc_of (Request.mapping 4096)) })

locked_mapping-Turns :
    Turns world resting (seated [] (holder ∷ []) locked_mapping.0 locked_mapping.1)
locked_mapping-Turns =
    ahead-Turns world resting [] (holder ∷ []) refl 6
      (two_server, record comer { rest = wc_cut world (wc_of (Request.mapping 4096)) })
      (Turns.next Turns.here
        (Turn.begins [] (holder ∷ []) two_server comer 0 (wc_of (Request.mapping 4096)) refl))

turns-IsDisciplined_example :
    (owners (locked_mapping.1 ∷ holder ∷ []) ≤ 1)
    × All IsDisciplined (locked_mapping.1 ∷ holder ∷ [])
turns-IsDisciplined_example = turns-IsDisciplined world resting-IsResting locked_mapping-Turns

sole_tenant_example :
    All (λ v. v.res ≢ second_mapping.1.res) (holder ∷ [])
    × (count second_mapping.1.res second_mapping.0.res_list ≡ 0)
sole_tenant_example =
    sole_tenant world [] (holder ∷ []) second_mapping.1 resting-IsResting second_mapping-Turns
      (λ e. omega (arith, taken, e))

abbrev mapped : ServerUnit
mapped =
    unit_after (unit_of second_mapping.0 (member second_mapping.1))
      (map_rest world 4096 30 (unit_of second_mapping.0 (member second_mapping.1)) [])

section-IsApart_example :
    All (λ v. v.res ≢ 0 → mapped.server.heap v.res ≡ second_mapping.0.heap v.res) (holder ∷ [])
unfolding wc_cut request_cut map_cut repost find_fit search_locked take_locked search_pool get_u32
    be_value slice pack_request pack_map_req put_u32 write be32 map_rest map_resource map_registered
    map_response respond
section-IsApart_example =
    section-IsApart world [] (holder ∷ []) second_mapping.1 (map_rest world 4096 30) _ [] _ 0 mapped
      resting-IsResting second_mapping-Turns refl refl

-- A unit that holds the first resource and asks for another map, beside a unit that holds nothing.
abbrev asker : ServerUnit
asker = unit_with two_server 20 (pack_request (Request.mapping 4096) zeroed)

abbrev remapped : Outcome ServerUnit ℕ
remapped = rcv_completion world asker []

abbrev later_wc : Wc
later_wc = wc_of (Request.unmapping 4096 4096)

remapping-IsResting : IsResting (seated (comer ∷ []) [] two_server (rested asker))
unfolding pool_size
remapping-IsResting = record {
  sound = record {
    balanced = record { free = refl; total = refl };
    once = λ a. ground arith;
    no_null = refl;
  };
  idle = (((0, refl), refl), (((0, refl), refl), tt));
}

-- The unit goes on to an unmap.
remapping-IsGone_example : IsGone 20 (
    fleet_of (
      seated
        (comer ∷ [])
        []
        (unit_after asker remapped).server
        (record (resumed (unit_after asker remapped) (Cut.ends 0)) {
          rest = wc_cut world later_wc;
        })))
unfolding rcv_completion handle_map search_pool map_resource map_registered map_response remove
    first_fit repost respond post_recv post_send pack_request pack_response pack_map_req
    pack_map_rsp get_u32 get_u64 put_u32 put_u64 be32 be_value slice write
remapping-IsGone_example =
    remapping-IsGone world (comer ∷ []) [] two_server (rested asker) [] 4096 30
      {cs' = unit_calls remapped} remapping-IsResting (λ e. omega arith)
      (received two_server 20 (Request.mapping 4096)) (omega arith) refl refl (λ e. omega arith)
      (λ e. omega arith) (λ e. omega arith) (omega arith) refl
      (Turns.next Turns.here (Turn.begins (comer ∷ []) [] _ _ 0 later_wc refl))
