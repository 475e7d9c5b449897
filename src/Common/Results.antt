-- ===== src/Common/Results.antt =====
-- What a function of the program may do other than return: the exceptions that it throws.
use mathlib.Core.Path.{◌≡◌, refl}
use mathlib.Core.Bool.{Bool, true, false}
use mathlib.Core.Option.{some}

-- `out_of_range` is what `.at()` throws. `undefined` marks what the language leaves undefined (a
-- null reference, a write past the end of a buffer). `stuck` is a model loop that ran out of fuel.
pub data Error : Type 0 where
  exception invalid_opcode assembly_exception invalid_deposit : Error
  bad_hex_case bad_hex_character string_too_long invalid_address : Error
  code_generation_error out_of_range undefined stuck : Error
  internal_compiler_error stack_too_deep unimplemented_feature fatal_error : Error

pub data Result {ℓ} (A : Type ℓ) : Type ℓ where
  err : Error → Result A
  ok : A → Result A

-- What follows a call runs only if the call returned.
infixl 5 ◌>>=◌ ◌>>◌
abbrev pub ◌>>=◌ {ℓ κ} : {R : Type ℓ} {S : Type κ} → Result R → (R → Result S) → Result S
err thrown >>= next = err thrown
ok returned >>= next = next returned

abbrev pub ◌>>◌ {ℓ} : {S : Type ℓ} → Result (Unit {0}) → Result S → Result S
check >> next = check >>= λ _. next

-- assertThrow(condition, exception, message)
abbrev pub assert_throw : Bool → Error → Result (Unit {0})
assert_throw false thrown = err thrown
assert_throw true thrown = ok tt

pub >>=-eq-ok {ℓ κ} :
    {R : Type ℓ} {S : Type κ} {last : S} (call : Result R) (next : R → Result S)
    → (call >>= next) ≡ ok last
    → (returned : R) × (call ≡ ok returned) × (next returned ≡ ok last)
>>=-eq-ok (err thrown) next h = cc
>>=-eq-ok (ok returned) next h = (returned, refl, h)

pub assert-eq-ok {ℓ} :
    {B : Type ℓ} (c : Bool) (e : Error) (k : Result B) {b : B}
    → (assert_throw c e >> k) ≡ ok b
    → (c ≡ true) × (k ≡ ok b)
assert-eq-ok true e k h = (refl, h)
assert-eq-ok false e k h = cc

pub ok-injective {ℓ} : {A : Type ℓ} {a b : A} → ok a ≡ ok b → a ≡ b
ok-injective h = cc

pub some-injective {ℓ} : {X : Type ℓ} {x y : X} → some x ≡ some y → x ≡ y
some-injective h = cc
