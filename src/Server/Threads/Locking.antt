-- ===== src/Server/Threads/Locking.antt =====
-- How the threads of the server use `res_lock`.
use rpmem.Base.{ℕ, ◌≡◌, ◌≤◌, Bool, true, false, All, All-mono, refl}
use rpmem.Machine.{Os}
use rpmem.Server.State.{Server}
use rpmem.Server.Fleet.OneResource.{IsSound-laws}
use rpmem.Server.Fleet.Invariant.{IsSound}
use rpmem.Server.Threads.{Cut, Worker, owners, Threads, Turns}
use rpmem.Server.Threads.Invariant.{Settled, IsSettled, IsOrderly, Turns-IsOrderly}
use rpmem.Server.Threads.Safety.{IsResting, resting-IsOrderly}

-- A thread that is about to take the lock or has handled its completion has not the lock, and a thread
-- that is about to give it back has it.
abbrev pub Disciplined : Bool → Cut → Type 0
Disciplined owns (Cut.ends a) = owns ≡ false
Disciplined owns (Cut.section block rest) = Unit
Disciplined owns (Cut.acquire rest) = owns ≡ false
Disciplined owns (Cut.release rest) = owns ≡ true

abbrev pub IsDisciplined : Worker → Type 0
IsDisciplined w = Disciplined w.owns w.rest

Settled-Disciplined :
    (s : Server) (owns : Bool) (cut : Cut) (r : ℕ) → Settled s owns cut r → Disciplined owns cut
Settled-Disciplined s true (Cut.ends a) r (v, agrees, quiet) = absurd quiet.steps
Settled-Disciplined s true (Cut.section block rest) r h = tt
Settled-Disciplined s true (Cut.acquire rest) r (v, agrees, quiet) = absurd quiet.steps
Settled-Disciplined s true (Cut.release rest) r h = refl
Settled-Disciplined s false (Cut.ends a) r h = refl
Settled-Disciplined s false (Cut.section block rest) r h = tt
Settled-Disciplined s false (Cut.acquire rest) r h = refl
Settled-Disciplined s false (Cut.release rest) r quiet = absurd quiet.steps

-- From any server with any number of resources whose books are balanced, where no resource is in two
-- places and the pool holds no NULL, and whose units have no handler under way: in every interleaving
-- of the sections, at most one thread has `res_lock`, no thread takes it that has it already, none
-- gives it back that has it not, and none that has handled its completion still has it.
pub turns-IsDisciplined :
    (os : Os) {t t' : Threads}
    → IsResting t
    → Turns os t t'
    → (owners t'.workers ≤ 1) × All IsDisciplined t'.workers
turns-IsDisciplined os {t} {t'} rests r =
    let orderly : IsOrderly IsSound IsSound-laws t' =
      Turns-IsOrderly IsSound IsSound-laws
        (resting-IsOrderly IsSound IsSound-laws t rests.sound rests.idle) r in
    (
      orderly.one,
      All-mono (IsSettled t'.server) IsDisciplined t'.workers
          (λ w settled. Settled-Disciplined t'.server w.owns w.rest w.res settled) orderly.quiet,
    )
