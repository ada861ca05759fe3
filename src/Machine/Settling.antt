-- ===== src/Machine/Settling.antt =====
-- Pieces that settle: they come to their end, or to a fault.
use rpmem.Base.{◌≡◌, refl, Bool, true, false, List, if◌then◌else◌}
use rpmem.Machine.Calls.{Call}
use rpmem.Machine.Monad.{Outcome, done, fault, stuck, M, ◌>>=◌}
use rpmem.Machine.Rules.{After}

-- The piece comes to its end or to a fault: it neither waits for ever nor runs out of rounds.
abbrev pub Settles : {L A : Type 0} → Outcome L A → Type 0
Settles (done a l cs) = Unit
Settles fault = Unit
Settles stuck = ⊥

pub Settles-bind :
    {L A B : Type 0} (m : M L A) (f : A → M L B) (l : L) (cs : List Call)
    → Settles (m l cs)
    → ((a : A) (l' : L) (cs' : List Call) → Settles (f a l' cs'))
    → Settles ((m >>= f) l cs)
Settles-bind {L} {A} {B} m f l cs = go (m l cs)
  where
    go :
        (r : Outcome L A)
        → Settles r
        → ((a : A) (l' : L) (cs' : List Call) → Settles (f a l' cs'))
        → Settles (elim r [ done a l' cs' ↦ f a l' cs' | fault ↦ fault | stuck ↦ stuck ])
    go (done a l' cs') h k = k a l' cs'
    go fault h k = tt
    go stuck h k = h

pub Settles-if :
    {L B : Type 0} (c : Bool) (m k : M L B) (l : L) (cs : List Call)
    → Settles (m l cs)
    → Settles (k l cs)
    → Settles ((if c then m else k) l cs)
Settles-if true m k l cs h g = h
Settles-if false m k l cs h g = g

-- What runs after a piece may use its postcondition.
pub Settles-bind-After :
    {L A B : Type 0} (P : A → L → List Call → Type 0) (m : M L A) (f : A → M L B) (l : L)
    (cs : List Call)
    → Settles (m l cs)
    → After P (m l cs)
    → ((a : A) (l' : L) (cs' : List Call) → P a l' cs' → Settles (f a l' cs'))
    → Settles ((m >>= f) l cs)
Settles-bind-After {L} {A} {B} P m f l cs = go (m l cs)
  where
    go :
        (r : Outcome L A)
        → Settles r
        → After P r
        → ((a : A) (l' : L) (cs' : List Call) → P a l' cs' → Settles (f a l' cs'))
        → Settles (elim r [ done a l' cs' ↦ f a l' cs' | fault ↦ fault | stuck ↦ stuck ])
    go (done a l' cs') h p k = k a l' cs' p
    go fault h p k = tt
    go stuck h p k = h

-- A piece that settles and never comes to its end faults.
pub fault_of_never : {L A : Type 0} (r : Outcome L A) → Settles r → After (λ _ _ _. ⊥) r → r ≡ fault
fault_of_never (done a l cs) h n = absurd n
fault_of_never fault h n = refl
fault_of_never stuck h n = absurd h
