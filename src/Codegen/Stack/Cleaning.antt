-- ===== src/Codegen/Stack/Cleaning.antt =====
-- Bits of a word that are cleaned: cleanHigherOrderBits in libsolidity/codegen/CompilerUtils.cpp.
use jules_solidity_pppascal.Codegen.Stack.{clean_higher_order_bits, Bool, ltb, ok}
use jules_solidity_pppascal.Codegen.Context.{append_instruction, Context, append_number}
use jules_solidity_pppascal.Codegen.Stack.Effects.{ok-Runs, Runs}
use jules_solidity_pppascal.Codegen.Machine.{supports, sign_extend}
use jules_solidity_pppascal.Common.Bits.{all_below, all_below_sound}
use jules_solidity_pppascal.Common.Int.{pos}
use jules_solidity_pppascal.Codegen.Stack.Words.{with_number-Runs, perform-and, perform-signextend}
use jules_solidity_pppascal.AssemblyItem.{word_mod}
use jules_solidity_pppascal.Instruction.Info.Families.{is_binary}
use jules_solidity_pppascal.Codegen.Stack.Moves.{recast-Runs}
use jules_solidity_pppascal.Common.Masks.{bit_and-mask}
use Prim.Native.Nat.{ℕ, suc}
use native.Mathlib.Decide.{dec_lt}
use jules_solidity_pppascal.Common.{
  zero, suc, List, ◌∷◌, ◌<◌, ◌≡◌, true, ◌*◌, refl, ◌/◌, if◌then◌else◌, arith, ◌^◌, ◌>>=◌, ◌==◌, ◌%◌,
  ap, lt→ltb, false, ◌∙◌, ◌+◌, ◌-◌, ◌≤◌, ◌&&◌, not, sym, ==_iff, subst,
}
use jules_solidity_pppascal.Instruction.Opcode

-- The low bytes of a word, read as a number of that width and written in 256 bits again.
unfoldable pub cleaned : ℕ → Bool → ℕ → ℕ
cleaned bytes is_signed x =
    if is_signed && not (ltb (x % 2 ^ (8 * bytes)) (2 ^ (8 * bytes - 1)))
    then x % 2 ^ (8 * bytes) + word_mod - 2 ^ (8 * bytes)
    else x % 2 ^ (8 * bytes)

mask_table :
    all_below 31
      (λ k. (2 ^ (8 * suc k) % word_mod + word_mod - 1) % word_mod == 2 ^ (8 * suc k) - 1)
    ≡ true
unfolding all_below
mask_table = refl

mask_value :
    (k : ℕ) → k < 31 → (2 ^ (8 * suc k) % word_mod + word_mod - 1) % word_mod ≡ 2 ^ (8 * suc k) - 1
mask_value k small = (==_iff _ _).0 (all_below_sound 31 _ k mask_table small)

sign_extend-cleaned : (k x : ℕ) → k < 31 → sign_extend k x ≡ cleaned (suc k) true x
unfolding sign_extend cleaned
sign_extend-cleaned k x small =
    let width : 8 * (k + 1) ≡ 8 * suc k = omega arith in
    let sign : 8 * k + 7 ≡ 8 * suc k - 1 = omega arith in
    ap
      (λ b.
        if b
        then (if ltb (x % 2 ^ (8 * (k + 1))) (2 ^ (8 * k + 7))
            then x % 2 ^ (8 * (k + 1))
            else x % 2 ^ (8 * (k + 1)) + word_mod - 2 ^ (8 * (k + 1)))
        else x)
      (lt→ltb k 31 small)
    ∙ ap
        (λ w. if ltb (x % 2 ^ w) (2 ^ (8 * k + 7)) then x % 2 ^ w else x % 2 ^ w + word_mod - 2 ^ w)
        width
    ∙ ap
        (λ e.
          if ltb (x % 2 ^ (8 * suc k)) (2 ^ e)
          then x % 2 ^ (8 * suc k)
          else x % 2 ^ (8 * suc k) + word_mod - 2 ^ (8 * suc k))
        sign
    ∙ flip (ltb (x % 2 ^ (8 * suc k)) (2 ^ (8 * suc k - 1))) (x % 2 ^ (8 * suc k))
        (x % 2 ^ (8 * suc k) + word_mod - 2 ^ (8 * suc k))
  where
    flip : (b : Bool) (m n : ℕ) → (if b then m else n) ≡ (if not b then n else m)
    flip true m n = refl
    flip false m n = refl

cleaned-whole : (is_signed : Bool) (x : ℕ) → x < 2 ^ 256 → cleaned 32 is_signed x ≡ x
unfolding cleaned
cleaned-whole is_signed x fits = ground arith

below_256 : (k : ℕ) → k < 31 → (8 * suc k == 256) ≡ false
below_256 k small = ground arith

narrow-Runs :
    (h k x : ℕ) (is_signed : Bool) (s : List ℕ) (c : Context)
    → k < 31
    → c.asm.current_deposit ≡ pos (suc h)
    → Runs (suc h) c (x ∷ s) (cleaned (suc k) is_signed x ∷ s) (
        if is_signed
        then append_number ((8 * suc k / 8 + word_mod - 1) % word_mod) c
          >>= append_instruction Opcode.signextend
        else append_number ((2 ^ (8 * suc k) % word_mod + word_mod - 1) % word_mod) c
          >>= append_instruction Opcode.and_op)
unfolding is_binary cleaned supports
narrow-Runs h k x true s c small height =
    let byte : k ≡ (8 * suc k / 8 + word_mod - 1) % word_mod = omega arith in
    recast-Runs (suc h) c _ _ _ _ _ _ refl (ap (λ v. v ∷ s) (sign_extend-cleaned k x small))
      (ap (λ v. append_number v c >>= append_instruction Opcode.signextend) byte)
      (with_number-Runs Opcode.signextend h k x _ c s (omega arith) refl refl
        (perform-signextend k x s) height)
narrow-Runs h k x false s c small height =
    recast-Runs (suc h) c _ _ _ _ _ _ refl (ap (λ v. v ∷ s) (bit_and-mask (8 * suc k) x))
      (ap (λ v. append_number v c >>= append_instruction Opcode.and_op) (sym (mask_value k small)))
      (with_number-Runs Opcode.and_op h (2 ^ (8 * suc k) - 1) x _ c s (omega arith) refl refl
        (perform-and _ x s) height)

-- cleanHigherOrderBits leaves the low bytes of the word, read as a signed number if the type is one.
pub clean-Runs :
    (h bytes x : ℕ) (is_signed : Bool) (s : List ℕ) (c : Context)
    → 1 ≤ bytes
    → bytes ≤ 32
    → x < 2 ^ 256
    → c.asm.current_deposit ≡ pos (suc h)
    → Runs
        (suc h)
        c
        (x ∷ s)
        (cleaned bytes is_signed x ∷ s)
        (clean_higher_order_bits (8 * bytes) is_signed c)
unfolding clean_higher_order_bits
clean-Runs h zero x is_signed s c some_bytes small fits height = absurd (omega (arith, some_bytes))
clean-Runs h (suc k) x is_signed s c some_bytes small fits height = elim (dec_lt k 31) [
  | yes below ↦
      recast-Runs (suc h) c _ _ _ _ _ _ refl refl
        (ap
          (λ b.
            if b
            then ok c
            else (if is_signed
                then append_number ((8 * suc k / 8 + word_mod - 1) % word_mod) c
                  >>= append_instruction Opcode.signextend
                else append_number ((2 ^ (8 * suc k) % word_mod + word_mod - 1) % word_mod) c
                  >>= append_instruction Opcode.and_op))
          (sym (below_256 k below)))
        (narrow-Runs h k x is_signed s c below height)
  | no above ↦
      (let whole : 31 ≡ k = omega (arith, small, above) in
        subst
          (λ j.
            Runs (suc h) c (x ∷ s) (cleaned (suc j) is_signed x ∷ s)
              (clean_higher_order_bits (8 * suc j) is_signed c))
          whole
          (recast-Runs (suc h) c _ _ _ _ _ _ refl
            (ap (λ v. v ∷ s) (sym (cleaned-whole is_signed x fits))) refl
            (ok-Runs (suc h) c (x ∷ s) height)))
]
