-- ===== src/Common/Text.antt =====
-- A text is the list of its bytes; literals are written as native strings.
use Prim.Native.Char.{code}
use Prim.Native.Nat.{ℕ, zero, suc, ◌/◌, ◌%◌, ◌<◌}
use Prim.Native.String.{String}
use mathlib.Core.Bool.{Bool, true, false, ◌&&◌}
use mathlib.Core.List.{List, [], ◌∷◌, ◌++◌}
use mathlib.Core.Logic.{dite}
use mathlib.Core.Path.{◌≡◌, refl}
use mathlib.Core.WellFounded.{Acc}
use native.Mathlib.Decide.{dec_lt}
use native.Mathlib.Nat.{div-lt_self}
use native.Mathlib.Omega.{arith}
use jules_solidity_pppascal.Common.Order.{lt_wf}
use jules_solidity_pppascal.Common.Tests.{◌==◌}

abbrev pub codes : String → List ℕ
codes String.[] = []
codes (String.◌∷◌ first rest) = code first ∷ codes rest

-- std::string::operator==
unfoldable pub eq_text : List ℕ → List ℕ → Bool
eq_text (c ∷ s) (d ∷ t) = c == d && eq_text s t
eq_text [] [] = true
eq_text _ _ = false

pub eq_text_self : (s : List ℕ) → eq_text s s ≡ true
unfolding eq_text
eq_text_self [] = refl
eq_text_self (x ∷ s) = ground (arith, eq_text_self s)

pub eq_text-eq : (s t : List ℕ) → eq_text s t ≡ true → s ≡ t
unfolding eq_text
eq_text-eq [] [] h = refl
eq_text-eq [] (y ∷ t) h = cc
eq_text-eq (x ∷ s) [] h = cc
eq_text-eq (x ∷ s) (y ∷ t) h = ground (arith, eq_text-eq s t)

abbrev digit_at : List ℕ → ℕ → ℕ
digit_at [] d = 0
digit_at (c ∷ digits) zero = c
digit_at (c ∷ digits) (suc d) = digit_at digits d

pub shrinks : (base n : ℕ) → 1 < base → ¬ (n < base) → n / base < n
shrinks base n h more = div-lt_self (omega arith) h

-- The digits that a stream prints for a number, in the base and the alphabet that are set.
print_loop : (base : ℕ) → List ℕ → (n : ℕ) → 1 < base → Acc ◌<◌ n → List ℕ
print_loop base digits n h (Acc.intro _ smaller) =
    dite (dec_lt n base) (λ _. digit_at digits n ∷ [])
      (λ more.
        print_loop base digits (n / base) h (smaller (n / base) (shrinks base n h more))
        ++ digit_at digits (n % base) ∷ [])

-- std::to_string
unfoldable pub to_decimal : ℕ → List ℕ
unfolding print_loop lt_wf dec_lt
to_decimal n = print_loop 10 (codes "0123456789") n (omega arith) (lt_wf.apply n)

-- std::uppercase << std::hex
unfoldable pub to_upper_hex : ℕ → List ℕ
unfolding print_loop lt_wf dec_lt
to_upper_hex n = print_loop 16 (codes "0123456789ABCDEF") n (omega arith) (lt_wf.apply n)
