-- ===== src/Common/Digits.antt =====
-- Binary operations on numbers, one digit at a time from the lowest, as the native operations take
-- them: the law for the lowest digit.
use Prim.Native.Nat.{ℕ, zero, suc, ◌+◌, ◌-◌, ◌*◌, ◌/◌, ◌%◌, ◌≤◌, digits}
use mathlib.Core.Path.{◌≡◌, refl, ap, ◌∙◌}
use native.Mathlib.Omega.{arith}

module _ (alone : ℕ → ℕ) (combine : ℕ → ℕ → ℕ) where
  -- A digit more of room changes nothing once there is room for all.
  roomier :
      (room a b : ℕ)
      → a ≤ room
      → digits alone combine (suc room) a b ≡ digits alone combine room a b
  roomier room zero b fits = without_digits room b
    where
      without_digits :
          (room b : ℕ) → digits alone combine (suc room) 0 b ≡ digits alone combine room 0 b
      without_digits zero b = refl
      without_digits (suc room) b = refl
  roomier zero (suc a) b fits = absurd (omega arith)
  roomier (suc room) (suc a) b fits =
      ap (λ rest. rest * 2 + combine (suc a % 2) (b % 2))
        (roomier room (suc a / 2) (b / 2) (omega arith))

  much_roomier :
      (more room a b : ℕ)
      → a ≤ room
      → digits alone combine (more + room) a b ≡ digits alone combine room a b
  much_roomier zero room a b fits = ap (λ n. digits alone combine n a b) nothing_more
    where
      nothing_more : 0 + room ≡ room
      nothing_more = omega arith
  much_roomier (suc more) room a b fits =
      ap (λ n. digits alone combine n a b) one_more
      ∙ roomier (more + room) a b (omega arith)
      ∙ much_roomier more room a b fits
    where
      one_more : suc more + room ≡ suc (more + room)
      one_more = omega arith

  pub digits_lowest :
      (a b : ℕ)
      → digits alone combine (suc a) (suc a) b
        ≡ digits alone combine (suc a / 2) (suc a / 2) (b / 2) * 2 + combine (suc a % 2) (b % 2)
  digits_lowest a b =
      ap (λ rest. rest * 2 + combine (suc a % 2) (b % 2))
        (ap (λ room. digits alone combine room (suc a / 2) (b / 2)) enough
          ∙ much_roomier (a - suc a / 2) (suc a / 2) (suc a / 2) (b / 2) (omega arith))
    where
      enough : a ≡ a - suc a / 2 + suc a / 2
      enough = omega arith
