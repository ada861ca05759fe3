-- ===== src/Machine/Monad.antt =====
-- A piece of the program acts on a state `L` and on the record of calls, the latest first.
use rpmem.Base.{ℕ, List, ◌∷◌, ◌==◌, if◌then◌else◌}
use rpmem.Machine.Calls.{Call, Os}

pub data Outcome (L : Type 0) (A : Type 0) : Type 0 where
  -- The code goes on, with a value, a new state and the calls made so far.
  done : A → L → List Call → Outcome L A
  -- It reads through NULL or past an array: C gives no meaning to what follows.
  fault : Outcome L A
  -- It waits for ever, or has used up the rounds of a loop.
  stuck : Outcome L A

abbrev pub M : Type 0 → Type 0 → Type 0
M L A = L → List Call → Outcome L A

infixl 5 ◌>>=◌ ◌>>◌
abbrev pub ◌>>=◌ : {L A B : Type 0} → M L A → (A → M L B) → M L B
◌>>=◌ m f l cs = elim (m l cs) [ done a l' cs' ↦ f a l' cs' | fault ↦ fault | stuck ↦ stuck ]

abbrev pub ◌>>◌ : {L A B : Type 0} → M L A → M L B → M L B
m >> k = m >>= λ _. k

module _ {L : Type 0} where
  abbrev pub pure : {A : Type 0} → A → M L A
  pure a l cs = done a l cs

  abbrev pub faults : {A : Type 0} → M L A
  faults l cs = fault

  abbrev pub gives_up : {A : Type 0} → M L A
  gives_up l cs = stuck

  abbrev pub gets : {A : Type 0} → (L → A) → M L A
  gets f l cs = done (f l) l cs

  abbrev pub modify : (L → L) → M L (Unit {0})
  modify f l cs = done tt (f l) cs

  abbrev pub call : Os → Call → M L ℕ
  call os c l cs = done (os.reply cs c) l (c ∷ cs)

  -- A call whose value is not used.
  abbrev pub call_ : Os → Call → M L (Unit {0})
  call_ os c l cs = done tt l (c ∷ cs)

  -- A value that the world has put in memory: by a call, through a pointer, or in a variable that
  -- was never assigned.
  abbrev pub in_memory : {A : Type 0} → (List Call → A) → M L A
  in_memory junk l cs = done (junk cs) l cs

  -- A field of the struct that a pointer points to.
  abbrev pub field_of : (ℕ → ℕ) → ℕ → M L ℕ
  field_of f p = if p == 0 then faults else pure (f p)

-- A piece that acts on a part of the state.
abbrev pub within : {L K A : Type 0} → (L → K) → (K → L → L) → M K A → M L A
within view put m l cs = elim (m (view l) cs) [
  | done a k cs' ↦ done a (put k l) cs'
  | fault ↦ fault
  | stuck ↦ stuck
]
