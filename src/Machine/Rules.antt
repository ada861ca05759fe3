-- ===== src/Machine/Rules.antt =====
-- Postconditions: what holds if a piece of the program comes to its end, and the rules by which they
-- are put together.
use mathlib.Core.Path.{subst}
use rpmem.Base.{ℕ, ◌≡◌, ◌≢◌, refl, ap, sym, Bool, true, false, List, if◌then◌else◌, ne→false}
use rpmem.Machine.Calls.{Call}
use rpmem.Machine.Monad.{Outcome, done, fault, stuck, M, ◌>>=◌, within, field_of}

module _ {L A : Type 0} where
  abbrev pub After : (A → L → List Call → Type 0) → Outcome L A → Type 0
  After P (done a l cs) = P a l cs
  After P fault = Unit
  After P stuck = Unit

  -- A postcondition may be weakened.
  pub After-mono :
      (P Q : A → L → List Call → Type 0) (r : Outcome L A)
      → ((a : A) (l : L) (cs : List Call) → P a l cs → Q a l cs)
      → After P r
      → After Q r
  After-mono P Q (done a l cs) f h = f a l cs h
  After-mono P Q fault f h = tt
  After-mono P Q stuck f h = tt

-- Two things that hold where a piece ends.
pub After-both :
    {L A : Type 0} (P Q : A → L → List Call → Type 0) (r : Outcome L A)
    → After P r
    → After Q r
    → After (λ a l cs. P a l cs × Q a l cs) r
After-both P Q (done a l cs) h g = (h, g)
After-both P Q fault h g = tt
After-both P Q stuck h g = tt

-- One piece after another.
pub After-bind :
    {L A B : Type 0} (P : A → L → List Call → Type 0) (Q : B → L → List Call → Type 0) (m : M L A)
    (f : A → M L B) (l : L) (cs : List Call)
    → After P (m l cs)
    → ((a : A) (l' : L) (cs' : List Call) → P a l' cs' → After Q (f a l' cs'))
    → After Q ((m >>= f) l cs)
After-bind {L} {A} {B} P Q m f l cs = go (m l cs)
  where
    go :
        (r : Outcome L A)
        → After P r
        → ((a : A) (l' : L) (cs' : List Call) → P a l' cs' → After Q (f a l' cs'))
        → After Q (elim r [ done a l' cs' ↦ f a l' cs' | fault ↦ fault | stuck ↦ stuck ])
    go (done a l' cs') h k = k a l' cs' h
    go fault h k = tt
    go stuck h k = tt

-- A piece on a part of the state.
pub After-within :
    {L K A : Type 0} (view : L → K) (put : K → L → L) (Q : A → L → List Call → Type 0) (m : M K A)
    (l : L) (cs : List Call)
    → After (λ a k ds. Q a (put k l) ds) (m (view l) cs)
    → After Q (within view put m l cs)
After-within {L} {K} {A} view put Q m l cs = go (m (view l) cs)
  where
    go :
        (r : Outcome K A)
        → After (λ a k ds. Q a (put k l) ds) r
        → After Q (elim r [ done a k ds ↦ done a (put k l) ds | fault ↦ fault | stuck ↦ stuck ])
    go (done a k ds) h = h
    go fault h = tt
    go stuck h = tt

-- A branch: each side under its test.
pub After-if :
    {L B : Type 0} (Q : B → L → List Call → Type 0) (c : Bool) (m k : M L B) (l : L)
    (cs : List Call)
    → After Q (m l cs)
    → After Q (k l cs)
    → After Q ((if c then m else k) l cs)
After-if Q true m k l cs h g = h
After-if Q false m k l cs h g = g

-- A branch whose sides use the test.
pub After-if-test :
    {L B : Type 0} (Q : B → L → List Call → Type 0) (c : Bool) (m k : M L B) (l : L)
    (cs : List Call)
    → (c ≡ true → After Q (m l cs))
    → (c ≡ false → After Q (k l cs))
    → After Q ((if c then m else k) l cs)
After-if-test Q true m k l cs h g = h refl
After-if-test Q false m k l cs h g = g refl

-- The piece comes to its end, and what is asked holds there: total correctness.
abbrev pub Ensures : {L A : Type 0} → (A → L → List Call → Type 0) → Outcome L A → Type 0
Ensures P (done a l cs) = P a l cs
Ensures P fault = ⊥
Ensures P stuck = ⊥

-- A first piece that comes to its end hands over to the second.
pub bind-done :
    {L A B : Type 0} (m : M L A) (f : A → M L B) (l : L) (cs : List Call) {a : A} {l' : L}
    {cs' : List Call}
    → m l cs ≡ done a l' cs'
    → (m >>= f) l cs ≡ f a l' cs'
bind-done m f l cs e =
    ap (λ r. elim r [ done a l' cs' ↦ f a l' cs' | fault ↦ fault | stuck ↦ stuck ]) e

pub within-done :
    {L K A : Type 0} (view : L → K) (put : K → L → L) (m : M K A) (l : L) (cs : List Call) {a : A}
    {k : K} {cs' : List Call}
    → m (view l) cs ≡ done a k cs'
    → within view put m l cs ≡ done a (put k l) cs'
within-done view put m l cs e =
    ap (λ r. elim r [ done a k cs' ↦ done a (put k l) cs' | fault ↦ fault | stuck ↦ stuck ]) e

pub field_of-done :
    {L : Type 0} (f : ℕ → ℕ) (p : ℕ) (l : L) (cs : List Call)
    → p ≢ 0
    → field_of f p l cs ≡ done (f p) l cs
field_of-done f p l cs h = rw (ne→false p 0 h)

-- A total piece in front of another.
pub Ensures-bind :
    {L A B : Type 0} (Q : B → L → List Call → Type 0) (m : M L A) (f : A → M L B) (l : L)
    (cs : List Call) {a : A} {l' : L} {cs' : List Call}
    → m l cs ≡ done a l' cs'
    → Ensures Q (f a l' cs')
    → Ensures Q ((m >>= f) l cs)
Ensures-bind Q m f l cs e h = subst (λ r. Ensures Q r) (sym (bind-done m f l cs e)) h

-- One total piece after another.
pub Ensures-then :
    {L A B : Type 0} (P : A → L → List Call → Type 0) (Q : B → L → List Call → Type 0) (m : M L A)
    (f : A → M L B) (l : L) (cs : List Call)
    → Ensures P (m l cs)
    → ((a : A) (l' : L) (cs' : List Call) → P a l' cs' → Ensures Q (f a l' cs'))
    → Ensures Q ((m >>= f) l cs)
Ensures-then {L} {A} {B} P Q m f l cs = go (m l cs)
  where
    go :
        (r : Outcome L A)
        → Ensures P r
        → ((a : A) (l' : L) (cs' : List Call) → P a l' cs' → Ensures Q (f a l' cs'))
        → Ensures Q (elim r [ done a l' cs' ↦ f a l' cs' | fault ↦ fault | stuck ↦ stuck ])
    go (done a l' cs') h k = k a l' cs' h
    go fault h k = absurd h
    go stuck h k = absurd h

-- A total piece on a part of the state.
pub Ensures-within :
    {L K A : Type 0} (view : L → K) (put : K → L → L) (Q : A → L → List Call → Type 0) (m : M K A)
    (l : L) (cs : List Call)
    → Ensures (λ a k ds. Q a (put k l) ds) (m (view l) cs)
    → Ensures Q (within view put m l cs)
Ensures-within {L} {K} {A} view put Q m l cs = go (m (view l) cs)
  where
    go :
        (r : Outcome K A)
        → Ensures (λ a k ds. Q a (put k l) ds) r
        → Ensures Q (elim r [ done a k ds ↦ done a (put k l) ds | fault ↦ fault | stuck ↦ stuck ])
    go (done a k ds) h = h
    go fault h = absurd h
    go stuck h = absurd h

-- A piece whose end is known.
pub Ensures-done :
    {L A : Type 0} (Q : A → L → List Call → Type 0) (r : Outcome L A) {a : A} {l : L}
    {cs : List Call}
    → r ≡ done a l cs
    → Q a l cs
    → Ensures Q r
Ensures-done Q r e h = subst (λ o. Ensures Q o) (sym e) h

-- What is known of a piece holds where it has ended.
pub Ensures-at :
    {L A : Type 0} (Q : A → L → List Call → Type 0) (r : Outcome L A) {a : A} {l : L}
    {cs : List Call}
    → Ensures Q r
    → r ≡ done a l cs
    → Q a l cs
Ensures-at Q r h e = subst (λ o. Ensures Q o) e h

-- Two things that hold where a piece ends.
pub Ensures-both :
    {L A : Type 0} (P Q : A → L → List Call → Type 0) (r : Outcome L A)
    → Ensures P r
    → Ensures Q r
    → Ensures (λ a l cs. P a l cs × Q a l cs) r
Ensures-both P Q (done a l cs) h g = (h, g)
Ensures-both P Q fault h g = absurd h
Ensures-both P Q stuck h g = absurd h

pub Ensures-mono :
    {L A : Type 0} (P Q : A → L → List Call → Type 0) (r : Outcome L A)
    → ((a : A) (l : L) (cs : List Call) → P a l cs → Q a l cs)
    → Ensures P r
    → Ensures Q r
Ensures-mono P Q (done a l cs) f h = f a l cs h
Ensures-mono P Q fault f h = absurd h
Ensures-mono P Q stuck f h = absurd h

pub bind-fault :
    {L A B : Type 0} (m : M L A) (f : A → M L B) (l : L) (cs : List Call)
    → m l cs ≡ fault
    → (m >>= f) l cs ≡ fault
bind-fault m f l cs e =
    ap (λ r. elim r [ done a l' cs' ↦ f a l' cs' | fault ↦ fault | stuck ↦ stuck ]) e

pub After-trivial : {L A : Type 0} (r : Outcome L A) → After (λ _ _ _. Unit {0}) r
After-trivial (done a l cs) = tt
After-trivial fault = tt
After-trivial stuck = tt
