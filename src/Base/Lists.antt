-- ===== src/Base/Lists.antt =====
-- Lists and their lengths over the native numbers; reading and writing a run of elements in place.
use Prim.Native.Nat.{ℕ, zero, suc, ◌+◌, ◌≤◌}
use mathlib.Core.Path.{◌≡◌, refl, ap}
use mathlib.Core.List.{List, [], ◌∷◌, ◌++◌}
use native.Mathlib.Omega.{arith}

abbrev pub All {ℓ κ} : {A : Type ℓ} → (A → Type κ) → List A → Type κ
All P [] = Unit
All P (x ∷ xs) = P x × All P xs

module _ {ℓ κ} {A : Type ℓ} (P : A → Type κ) where
  -- What holds of all elements, at one place.
  pub All-middle : (before after : List A) (a : A) → All P (before ++ a ∷ after) → P a
  All-middle [] after a (h, _) = h
  All-middle (b ∷ before) after a (_, hs) = All-middle before after a hs

  pub All-replace :
      (before after : List A) (a b : A)
      → P b
      → All P (before ++ a ∷ after)
      → All P (before ++ b ∷ after)
  All-replace [] after a b h (_, hs) = (h, hs)
  All-replace (c ∷ before) after a b h (g, hs) = (g, All-replace before after a b h hs)

  pub All-any : (xs : List A) → ((a : A) → P a) → All P xs
  All-any [] h = tt
  All-any (a ∷ xs) h = (h a, All-any xs h)

pub All-mono {ℓ κ} :
    {A : Type ℓ} (P Q : A → Type κ) (xs : List A) → ((a : A) → P a → Q a) → All P xs → All Q xs
All-mono P Q [] f h = tt
All-mono P Q (a ∷ xs) f (h, hs) = (f a h, All-mono P Q xs f hs)

module _ {ℓ} {A : Type ℓ} where
  abbrev pub length : List A → ℕ
  length [] = 0
  length (_ ∷ xs) = suc (length xs)

  abbrev pub replicate : ℕ → A → List A
  replicate zero _ = []
  replicate (suc n) a = a ∷ replicate n a

  -- The `n` elements that stand from place `i` on; fewer if the list ends before.
  unfoldable pub slice : ℕ → ℕ → List A → List A
  slice i n [] = []
  slice zero zero (x ∷ xs) = []
  slice zero (suc n) (x ∷ xs) = x ∷ slice zero n xs
  slice (suc i) n (x ∷ xs) = slice i n xs

  -- `ys` written over what stands from place `i` on; what would pass the end is dropped.
  unfoldable pub write : ℕ → List A → List A → List A
  write i ys [] = []
  write zero [] (x ∷ xs) = x ∷ xs
  write zero (y ∷ ys) (x ∷ xs) = y ∷ write zero ys xs
  write (suc i) ys (x ∷ xs) = x ∷ write i ys xs

  pub length-write : (i : ℕ) (ys xs : List A) → length (write i ys xs) ≡ length xs
  unfolding write
  length-write i ys [] = refl
  length-write zero [] (x ∷ xs) = refl
  length-write zero (y ∷ ys) (x ∷ xs) = ap suc (length-write zero ys xs)
  length-write (suc i) ys (x ∷ xs) = ap suc (length-write i ys xs)

  -- What was written is read back.
  pub slice-write :
      (i : ℕ) (ys xs : List A)
      → i + length ys ≤ length xs
      → slice i (length ys) (write i ys xs) ≡ ys
  unfolding slice write
  slice-write zero [] [] h = refl
  slice-write (suc i) [] [] h = refl
  slice-write zero (y ∷ ys) [] h = absurd (omega arith)
  slice-write (suc i) (y ∷ ys) [] h = absurd (omega arith)
  slice-write zero [] (x ∷ xs) h = refl
  slice-write zero (y ∷ ys) (x ∷ xs) h = ap (λ l. y ∷ l) (slice-write zero ys xs (omega arith))
  slice-write (suc i) ys (x ∷ xs) h = slice-write i ys xs (omega arith)

  -- A write leaves the places in front of it alone.
  pub slice-write_before :
      (j n i : ℕ) (ys xs : List A) → j + n ≤ i → slice j n (write i ys xs) ≡ slice j n xs
  unfolding slice write
  slice-write_before j n i ys [] h = refl
  slice-write_before zero zero zero [] (x ∷ xs) h = refl
  slice-write_before zero zero zero (y ∷ ys) (x ∷ xs) h = refl
  slice-write_before zero (suc n) zero ys (x ∷ xs) h = absurd (omega arith)
  slice-write_before (suc j) n zero ys (x ∷ xs) h = absurd (omega arith)
  slice-write_before zero zero (suc i) ys (x ∷ xs) h = refl
  slice-write_before zero (suc n) (suc i) ys (x ∷ xs) h =
      ap (λ l. x ∷ l) (slice-write_before zero n i ys xs (omega arith))
  slice-write_before (suc j) n (suc i) ys (x ∷ xs) h = slice-write_before j n i ys xs (omega arith)

  -- A write leaves the places behind it alone.
  pub slice-write_after :
      (j n i : ℕ) (ys xs : List A) → i + length ys ≤ j → slice j n (write i ys xs) ≡ slice j n xs
  unfolding slice write
  slice-write_after j n i ys [] h = refl
  slice-write_after j n zero [] (x ∷ xs) h = refl
  slice-write_after zero n zero (y ∷ ys) (x ∷ xs) h = absurd (omega arith)
  slice-write_after (suc j) n zero (y ∷ ys) (x ∷ xs) h =
      slice-write_after j n zero ys xs (omega arith)
  slice-write_after zero n (suc i) ys (x ∷ xs) h = absurd (omega arith)
  slice-write_after (suc j) n (suc i) ys (x ∷ xs) h = slice-write_after j n i ys xs (omega arith)

  pub All-write {κ} :
      (P : A → Type κ) (i : ℕ) (ys xs : List A) → All P ys → All P xs → All P (write i ys xs)
  unfolding write
  All-write P i ys [] hy hx = hx
  All-write P zero [] (x ∷ xs) hy hx = hx
  All-write P zero (y ∷ ys) (x ∷ xs) hy hx = (hy.0, All-write P zero ys xs hy.1 hx.1)
  All-write P (suc i) ys (x ∷ xs) hy hx = (hx.0, All-write P i ys xs hy hx.1)

  abbrev pub take : ℕ → List A → List A
  take zero _ = []
  take (suc n) [] = []
  take (suc n) (x ∷ xs) = x ∷ take n xs

  pub take_all : (n : ℕ) (xs : List A) → length xs ≤ n → take n xs ≡ xs
  take_all zero [] h = refl
  take_all zero (x ∷ xs) h = absurd (omega arith)
  take_all (suc n) [] h = refl
  take_all (suc n) (x ∷ xs) h = ap (λ ys. x ∷ ys) (take_all n xs (omega arith))

  pub length-take-le : (n : ℕ) (xs : List A) → length (take n xs) ≤ n
  length-take-le zero xs = omega arith
  length-take-le (suc n) [] = omega arith
  length-take-le (suc n) (x ∷ xs) = omega (arith, length-take-le n xs)
