-- ===== src/Common/Buffer.antt =====
-- A piece of a buffer, and overwriting one in place.
use Prim.Native.Nat.{ℕ, zero, suc, ◌+◌, ◌≤◌, ◌<◌}
use mathlib.Core.List.{List, [], ◌∷◌}
use mathlib.Core.Logic.{◌⊎◌, inr}
use mathlib.Core.Path.{◌≡◌, refl, ap}
use native.Mathlib.Omega.{arith}
use jules_solidity_pppascal.Common.Lists.{length, get_elem?, take, drop}
use jules_solidity_pppascal.Common.Results.{Result, ok, err, undefined}
use jules_solidity_pppascal.Common.Tests.{leb, if◌then◌else◌, le→leb}

module _ {ℓ} {A : Type ℓ} where
  -- Overwrites the elements from position `i` on; what would fall behind the end is dropped.
  unfoldable pub write : ℕ → List A → List A → List A
  write i ys [] = []
  write zero [] (x ∷ xs) = x ∷ xs
  write zero (y ∷ ys) (x ∷ xs) = y ∷ write zero ys xs
  write (suc i) ys (x ∷ xs) = x ∷ write i ys xs

  pub length-write : (i : ℕ) (ys xs : List A) → length (write i ys xs) ≡ length xs
  unfolding write
  length-write zero ys [] = refl
  length-write (suc i) ys [] = refl
  length-write zero [] (x ∷ xs) = refl
  length-write zero (y ∷ ys) (x ∷ xs) = ap suc (length-write zero ys xs)
  length-write (suc i) ys (x ∷ xs) = ap suc (length-write i ys xs)

  -- What was written can be read.
  pub slice-write_self :
      (i : ℕ) (ys xs : List A)
      → i + length ys ≤ length xs
      → take (length ys) (drop i (write i ys xs)) ≡ ys
  unfolding write
  slice-write_self zero [] xs h = refl
  slice-write_self zero (y ∷ ys) [] h = absurd (omega arith)
  slice-write_self zero (y ∷ ys) (x ∷ xs) h =
      ap (λ t. y ∷ t) (slice-write_self zero ys xs (omega arith))
  slice-write_self (suc i) ys [] h = absurd (omega arith)
  slice-write_self (suc i) ys (x ∷ xs) h = slice-write_self i ys xs (omega arith)

  -- Everything else stays.
  pub get_elem?-write_outside :
      (i j : ℕ) (ys xs : List A)
      → (j < i) ⊎ (i + length ys ≤ j)
      → get_elem? (write i ys xs) j ≡ get_elem? xs j
  unfolding write
  get_elem?-write_outside zero j ys [] h = refl
  get_elem?-write_outside (suc i) j ys [] h = refl
  get_elem?-write_outside zero j [] (x ∷ xs) h = refl
  get_elem?-write_outside zero zero (y ∷ ys) (x ∷ xs) h = absurd (omega arith)
  get_elem?-write_outside zero (suc j) (y ∷ ys) (x ∷ xs) h =
      get_elem?-write_outside zero j ys xs (inr (omega arith))
  get_elem?-write_outside (suc i) zero ys (x ∷ xs) h = refl
  get_elem?-write_outside (suc i) (suc j) ys (x ∷ xs) h =
      get_elem?-write_outside i j ys xs (omega arith)

  pub slice-write_outside :
      (i j n : ℕ) (ys xs : List A)
      → (j + n ≤ i) ⊎ (i + length ys ≤ j)
      → take n (drop j (write i ys xs)) ≡ take n (drop j xs)
  unfolding write
  slice-write_outside i j zero ys xs h = refl
  slice-write_outside zero j (suc n) ys [] h = refl
  slice-write_outside (suc i) j (suc n) ys [] h = refl
  slice-write_outside zero j (suc n) [] (x ∷ xs) h = refl
  slice-write_outside zero zero (suc n) (y ∷ ys) (x ∷ xs) h = absurd (omega arith)
  slice-write_outside zero (suc j) (suc n) (y ∷ ys) (x ∷ xs) h =
      slice-write_outside zero j (suc n) ys xs (inr (omega arith))
  slice-write_outside (suc i) zero (suc n) ys (x ∷ xs) h =
      ap (λ t. x ∷ t) (slice-write_outside i zero n ys xs (omega arith))
  slice-write_outside (suc i) (suc j) (suc n) ys (x ∷ xs) h =
      slice-write_outside i j (suc n) ys xs (omega arith)

  -- Writing through a pointer into the buffer; behind its end that is undefined.
  unfoldable pub overwrite : ℕ → List A → List A → Result (List A)
  unfolding write
  overwrite i ys xs = if leb (i + length ys) (length xs) then ok (write i ys xs) else err undefined

  pub overwrite-ok :
      (i : ℕ) (ys xs : List A) → i + length ys ≤ length xs → overwrite i ys xs ≡ ok (write i ys xs)
  unfolding overwrite
  overwrite-ok i ys xs h = rw (le→leb (i + length ys) (length xs) h)
