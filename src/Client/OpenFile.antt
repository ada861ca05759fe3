-- ===== src/Client/OpenFile.antt =====
-- What `rpmem_open` leaves behind, from its first call on.
use mathlib.Core.Bool.{not}
use rpmem.Base.{
  ℕ, ◌+◌, ◌≡◌, ◌≢◌, refl, arith, ne→false, zero-cases, inl, inr, ◌==◌, if◌then◌else◌, List, ◌∷◌,
}
use rpmem.Machine.{Lock, Thread, Sem, Call, Os, After, After-if, Object, creations, destructions}
use rpmem.Client.{File, destroy_rfile, destroy_event_channel, destroy_id, connect, open_file}
use rpmem.Client.Opening.{OfOpen, More, Left, quiet, destroy_id_balances, connect_balances}

abbrev pub inits : List Call → List Call
inits cs =
    Call.sem_init Sem.sem_command
    ∷ Call.sem_init Sem.sem_connect
    ∷ Call.mutex_init Lock.state_mutex
    ∷ cs

-- The thread is created, and the connection made.
started_balances :
    (os : Os) (o : Object) (cs : List Call) (fuel p : ℕ) (f : File) (ds : List Call)
    → OfOpen o
    → p ≢ 0
    → More os o cs 1 ds
    → let start = Call.thread_create Thread.cm_thread in
      After (Left os o cs) (
        (if not (os.reply ds start == 0) then destroy_id os p else connect os fuel p) f
          (start ∷ ds))
started_balances os o cs fuel p f ds own there h =
    let start = Call.thread_create Thread.cm_thread in
    let h' = quiet os o cs own 1 start ds refl h in
    After-if (Left os o cs) (not (os.reply ds start == 0)) (destroy_id os p) (connect os fuel p) f
      (start ∷ ds) (destroy_id_balances os o cs p f (start ∷ ds) own h')
      (connect_balances os o cs own fuel p f (start ∷ ds) there h')

-- However `rpmem_open` comes to its end for a file that `calloc` has given: if it returns the file,
-- it has left one event channel and one id behind, and if it returns NULL, none.
pub open_file_balances :
    (os : Os) (o : Object) (fuel p : ℕ) (f : File) (cs : List Call)
    → OfOpen o
    → p ≢ 0
    → After
        (λ r _ ds.
          creations os o ds + destructions o cs
          ≡ creations os o cs + destructions o ds + (if r == 0 then 0 else 1))
        (open_file os fuel p f cs)
unfolding open_file destroy_rfile destroy_event_channel
open_file_balances os Object.event_channel fuel p f cs own there =
    let make = Call.rdma_create_event_channel in
    let channel = os.reply (inits cs) make in
    let name = Call.rdma_create_id channel in
    let no_id = os.reply (make ∷ inits cs) name in
    elim (zero-cases channel) [
      | inl null ↦ rw null (ground (arith, null))
      | inr made ↦ rw (ne→false channel 0 made) (elim (zero-cases no_id) [
        | inl named ↦ rw named (
            started_balances os Object.event_channel cs fuel p _ _ own there
              (ground (arith, ne→false channel 0 made)))
        | inr failed ↦ rw (ne→false no_id 0 failed) (ground (arith, ne→false channel 0 made))
      ])
    ]
open_file_balances os Object.cm_id fuel p f cs own there =
    let make = Call.rdma_create_event_channel in
    let channel = os.reply (inits cs) make in
    let name = Call.rdma_create_id channel in
    let no_id = os.reply (make ∷ inits cs) name in
    elim (zero-cases channel) [
      | inl null ↦ rw null (omega arith)
      | inr made ↦ rw (ne→false channel 0 made) (elim (zero-cases no_id) [
        | inl named ↦
            rw named
              (started_balances os Object.cm_id cs fuel p _ _ own there (ground (arith, named)))
        | inr failed ↦ rw (ne→false no_id 0 failed) (ground (arith, ne→false no_id 0 failed))
      ])
    ]
open_file_balances os o fuel p f cs own there = absurd own
