-- ===== src/Client/QueueTests.antt =====
-- The theorem on the draining of the queue, at a queue of three completions in two batches.
use rpmem.Base.{ℕ, zero, suc, ◌≡◌, refl, arith, List, [], ◌∷◌, ◌++◌}
use rpmem.Protocol.{zeroed}
use rpmem.Machine.{Call, Os, Wc, WcOpcode, done}
use rpmem.Client.{cq_event_handler}
use rpmem.Client.Waiting.{arrived}
use rpmem.Client.Draining.{Drains, cq_event_handler-drains}
use rpmem.Client.Samples.{completion, commit_world, file}

abbrev polls : List Call → ℕ
polls [] = 0
polls (Call.ibv_poll_cq _ ∷ cs) = suc (polls cs)
polls (c ∷ cs) = polls cs

abbrev handed_out : ℕ → List Wc
handed_out (suc zero) = completion WcOpcode.send [] ∷ completion WcOpcode.recv zeroed ∷ []
handed_out (suc (suc zero)) = completion WcOpcode.rdma_read [] ∷ []
handed_out _ = []

abbrev count : ℕ → ℕ
count zero = 2
count (suc zero) = 1
count _ = 0

abbrev answer : List Call → Call → ℕ
answer cs (Call.ibv_poll_cq _) = count (polls cs)
answer cs _ = 0

abbrev queue : Os
queue = record commit_world { reply = answer; polled = λ cs. handed_out (polls cs) }

-- A send, a response and a read.
unfoldable drains : Drains queue 8 [] (handed_out 1 ++ handed_out 2 ++ [])
drains =
    Drains.batch (handed_out 1) (handed_out 2 ++ []) (λ e. omega arith) (omega arith) refl refl
      (Drains.batch (handed_out 2) [] (λ e. omega arith) (omega arith) refl refl (Drains.dry refl))

cq_event_handler-drains_example :
    cq_event_handler queue 64 0 file []
    ≡ done 0
        (arrived (handed_out 1 ++ handed_out 2) file)
        (Call.ibv_poll_cq 8 ∷ Call.ibv_poll_cq 8 ∷ Call.ibv_poll_cq 8 ∷ [])
unfolding drains
cq_event_handler-drains_example = cq_event_handler-drains queue file drains (omega arith)
