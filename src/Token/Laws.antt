-- ===== src/Token/Laws.antt =====
-- Operators among the tokens: liblangutil/Token.h.
use jules_solidity_pppascal.Common.{
  none, some, ok, err, true, false, ◌≡◌, ◌<◌, Bool, Option, Result, ◌||◌, ◌↔◌, if◌then◌else◌, List,
  ◌&&◌, refl, ◌==◌, not, ◌≤◌, ltb, arith, ℕ, ◌++◌, leb, ap,
}
use jules_solidity_pppascal.Codegen.Machine.{binary}
use jules_solidity_pppascal.Common.Bits.{all_below, all_below_sound}
use jules_solidity_pppascal.Common.Text.{codes, eq_text-eq, eq_text}
use jules_solidity_pppascal.Token.{
  assignment_to_binary_op, token_info, is_assignment_op, is_binary_op, is_compare_op, precedence,
}
use jules_solidity_pppascal.Token.Kind.{
  tok_assign, num_tokens, Token, tok_assembly_assign, tok_conditional,
}

is_followed_by_equals : Option (List ℕ) → Option (List ℕ) → Bool
is_followed_by_equals none longer = false
is_followed_by_equals (some s) none = false
is_followed_by_equals (some s) (some longer) = eq_text longer (s ++ codes "=")

followed-eq :
    (a b : Option (List ℕ))
    → is_followed_by_equals a b ≡ true
    → (s : List ℕ) × (a ≡ some s) × (b ≡ some (s ++ codes "="))
unfolding is_followed_by_equals
followed-eq none b h = cc
followed-eq (some s) none h = cc
followed-eq (some s) (some longer) h = (s, refl, ap some (eq_text-eq longer (s ++ codes "=") h))

operator_check : Token → Result Token → Bool
operator_check t (err _) = false
operator_check t (ok op) =
    is_binary_op op && is_followed_by_equals (token_info op).spelling (token_info t).spelling

assignment_check : Token → Bool
assignment_check t =
    not (is_assignment_op t && not (t == tok_assign))
    || operator_check t (assignment_to_binary_op t)

assignment_table : all_below num_tokens assignment_check ≡ true
unfolding all_below assignment_check operator_check is_followed_by_equals is_assignment_op
    assignment_to_binary_op is_binary_op token_info eq_text
assignment_table = refl

abbrev OperatorOf : Token → Result Token → Type 0
OperatorOf t r =
    (op : Token) × (s : List ℕ) × (r ≡ ok op)
    × (is_binary_op op ≡ true)
    × ((token_info op).spelling ≡ some s)
    × ((token_info t).spelling ≡ some (s ++ codes "="))

both : (a b : Bool) → (a && b) ≡ true → (a ≡ true) × (b ≡ true)
both a b h = ground arith

operator-OperatorOf : (t : Token) (r : Result Token) → operator_check t r ≡ true → OperatorOf t r
unfolding operator_check
operator-OperatorOf t (err _) h = cc
operator-OperatorOf t (ok op) h =
    let (binary, rest) = both (is_binary_op op) _ h in
    let (s, short, long) = followed-eq (token_info op).spelling (token_info t).spelling rest in
    (op, s, refl, binary, short, long)

-- The operator of a compound assignment is a binary operator, and the assignment is written as that
-- operator with `=` behind it.
pub assignment_to_binary_op-spelling :
    (t : Token)
    → t < num_tokens
    → is_assignment_op t ≡ true
    → (t == tok_assign) ≡ false
    → (op : Token) × (s : List ℕ) × (assignment_to_binary_op t ≡ ok op)
      × (is_binary_op op ≡ true)
      × ((token_info op).spelling ≡ some s)
      × ((token_info t).spelling ≡ some (s ++ codes "="))
unfolding assignment_check
assignment_to_binary_op-spelling t small is other =
    operator-OperatorOf t (assignment_to_binary_op t)
      (passed _ _ _ is other (all_below_sound num_tokens assignment_check t assignment_table small))
  where
    passed : (a b c : Bool) → a ≡ true → b ≡ false → (not (a && not b) || c) ≡ true → c ≡ true
    passed a b c p q h = ground arith

ranked : Token → Bool
ranked t =
    is_binary_op t
    || is_compare_op t
    || is_assignment_op t
    || t == tok_conditional
    || t == tok_assembly_assign

rank_check : Token → Bool
rank_check t = if ranked t then ltb 0 (precedence t) && leb (precedence t) 14 else precedence t == 0

rank_table : all_below num_tokens rank_check ≡ true
unfolding all_below rank_check ranked precedence token_info is_binary_op is_compare_op
    is_assignment_op
rank_table = refl

-- Exactly the binary operators, the comparisons, the assignments, `?` and `:=` have a precedence;
-- the highest is 14.
pub precedence-ranked :
    (t : Token)
    → t < num_tokens
    → ((0 < precedence t) ↔ (
        (is_binary_op t
          || is_compare_op t
          || is_assignment_op t
          || t == tok_conditional
          || t == tok_assembly_assign)
        ≡ true))
      × (precedence t ≤ 14)
unfolding rank_check ranked
precedence-ranked t small = ground (arith, all_below_sound num_tokens rank_check t rank_table small)
