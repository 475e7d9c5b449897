-- ===== src/Codegen/Context/Variables.antt =====
-- Local variables of the code generator: addVariable, removeVariable and the offsets between the
-- base and the top of the stack, in libsolidity/codegen/CompilerContext.cpp.
use jules_solidity_pppascal.Common.Int.{is_negative, pos}
use jules_solidity_pppascal.Codegen.Context.{
  base_stack_offset_of_variable, add_variable, to_unsigned, Context, base_to_current_stack_offset,
  unsigned_mod, remove_variable, pop_back, VariableDeclaration, last_of, List, ok, err, is_nil,
  internal_compiler_error, leb, Result, assert_throw, not, removal, Option,
}
use jules_solidity_pppascal.Common.Dict.{lookup-insert, lookup, insert}
use jules_solidity_pppascal.Assembly.Emit.{erase}
use jules_solidity_pppascal.Common.{
  none, some, inl, inr, true, ◌≡◌, ◌++◌, ◌∷◌, ◌<◌, refl, ◌^◌, ap, ◌≤◌, ◌==◌, ◌||◌, ◌-◌, ◌%◌,
  if◌then◌else◌, ◌∙◌, ◌≢◌, ==_self, arith, ◌&&◌, ◌>>◌, Bool-cases, ◌+◌, sym, ◌*◌, ==_iff, [], ℕ,
}

last_of-snoc : (xs : List ℕ) (x : ℕ) → last_of (xs ++ x ∷ []) ≡ some x
unfolding last_of
last_of-snoc [] x = refl
last_of-snoc (y ∷ []) x = refl
last_of-snoc (y ∷ z ∷ xs) x = last_of-snoc (z ∷ xs) x

pop_back-snoc : (xs : List ℕ) (x : ℕ) → pop_back (xs ++ x ∷ []) ≡ xs
unfolding pop_back
pop_back-snoc [] x = refl
pop_back-snoc (y ∷ []) x = refl
pop_back-snoc (y ∷ z ∷ xs) x = ap (λ l. y ∷ l) (pop_back-snoc (z ∷ xs) x)

lookup-erase :
    {V : Type 0} (k g : ℕ) (m : List (ℕ × V))
    → lookup g (erase k m) ≡ (if k == g then none else lookup g m)
unfolding lookup erase
lookup-erase k g [] = ground arith
lookup-erase k g ((j, v) ∷ m) = ground (arith, lookup-erase k g m)

-- The offsets of a variable, none if it is unknown.
known_offsets : ℕ → Context → List ℕ
known_offsets v c = elim (lookup v c.local_variables) [ none ↦ [] | some old ↦ old ]

with_offsets : ℕ → List ℕ → Context → Context
with_offsets v offsets c = record c { local_variables = insert v offsets c.local_variables }

added :
    (v : VariableDeclaration) (h k : ℕ) (c : Context)
    → c.asm.current_deposit ≡ pos h
    → h < 2 ^ 32
    → k ≤ h
    → (v.size_on_stack == 1 || v.size_on_stack == 2) ≡ true
    → add_variable v k c ≡ ok (with_offsets v.address (known_offsets v.address c ++ (h - k) ∷ []) c)
unfolding add_variable to_unsigned known_offsets with_offsets
added v h k c height small below size =
    let wrapped : h % unsigned_mod ≡ h = ground arith in
    let within : leb k (h % unsigned_mod) ≡ true = ground arith in
    let result : ℕ → Result Context =
      λ n. ok (with_offsets v.address (known_offsets v.address c ++ (n - k) ∷ []) c) in
    ap
      (λ z.
        assert_throw (not (is_negative z) && leb k (to_unsigned z)) internal_compiler_error
        >> (assert_throw (v.size_on_stack == 1 || v.size_on_stack == 2) internal_compiler_error
            >> result (to_unsigned z)))
      height
    ∙ ap
        (λ b.
          assert_throw b internal_compiler_error
          >> (assert_throw (v.size_on_stack == 1 || v.size_on_stack == 2) internal_compiler_error
              >> result (h % unsigned_mod)))
        within
    ∙ ap (λ b. assert_throw b internal_compiler_error >> result (h % unsigned_mod)) size
    ∙ ap result wrapped

found :
    (v : ℕ) (offsets : List ℕ) (c : Context)
    → lookup v (with_offsets v offsets c).local_variables ≡ some offsets
unfolding with_offsets
found v offsets c =
    lookup-insert v v offsets c.local_variables
    ∙ ap (λ b. if b then some offsets else lookup v c.local_variables) (==_self v)

base_offset :
    (v x : ℕ) (offsets : List ℕ) (c : Context)
    → base_stack_offset_of_variable v (with_offsets v (offsets ++ x ∷ []) c) ≡ ok x
unfolding base_stack_offset_of_variable
base_offset v x offsets c =
    ap
      (λ o. elim o [
        | none ↦ err internal_compiler_error
        | some l ↦ (elim (last_of l) [ none ↦ err internal_compiler_error | some y ↦ ok y ])
      ])
      (found v (offsets ++ x ∷ []) c)
    ∙ ap (λ o. elim o [ none ↦ err internal_compiler_error | some y ↦ ok y ])
        (last_of-snoc offsets x)

-- The variables without the last offset of one.
shortened : ℕ → List ℕ → Context → Context
shortened v offsets c = record c {
  local_variables =
      if is_nil offsets then erase v c.local_variables else insert v offsets c.local_variables;
}

removed :
    (v x : ℕ) (offsets : List ℕ) (c : Context)
    → lookup v c.local_variables ≡ some (offsets ++ x ∷ [])
    → remove_variable v c ≡ ok (shortened v offsets c)
unfolding remove_variable shortened removal
removed v x [] c h =
    ap (λ o. elim o [ none ↦ err internal_compiler_error | some l ↦ removal v c l ]) h
removed v x (y ∷ offsets) c h =
    ap (λ o. elim o [ none ↦ err internal_compiler_error | some l ↦ removal v c l ]) h
    ∙ ap
        (λ l. ok (record c {
          local_variables =
              if is_nil l then erase v c.local_variables else insert v l c.local_variables;
        }))
        (pop_back-snoc (y ∷ offsets) x)

pub base_to_current-pos :
    (n base : ℕ) (c : Context)
    → c.asm.current_deposit ≡ pos n
    → n < 2 ^ 32
    → base < n
    → base_to_current_stack_offset base c ≡ n - base - 1
unfolding base_to_current_stack_offset to_unsigned
base_to_current-pos n base c height fits below =
    ap (λ z. (to_unsigned z + 2 * unsigned_mod - base - 1) % unsigned_mod) height ∙ ground arith

from_top :
    (v h k : ℕ) (offsets : List ℕ) (c : Context)
    → c.asm.current_deposit ≡ pos h
    → h < 2 ^ 32
    → k ≤ h
    → base_to_current_stack_offset (h - k) (with_offsets v offsets c) ≡ (k + 2 ^ 32 - 1) % 2 ^ 32
unfolding base_to_current_stack_offset to_unsigned with_offsets
from_top v h k offsets c height small below =
    ap (λ z. (to_unsigned z + 2 * unsigned_mod - (h - k) - 1) % unsigned_mod) height ∙ ground arith

undone :
    (v g : ℕ) (m : List (ℕ × List ℕ)) (written o p : Option (List ℕ))
    → lookup v m ≡ o
    → p ≡ (if v == g then written else lookup g m)
    → (if v == g then o else p) ≡ lookup g m
undone v g m written o p is after = elim (Bool-cases (v == g)) [
  | inl same ↦
      ap (λ b. if b then o else p) same ∙ sym is ∙ ap (λ x. lookup x m) ((==_iff v g).0 same)
  | inr other ↦
      ap (λ b. if b then o else p) other ∙ after ∙ ap (λ b. if b then written else lookup g m) other
]

restored :
    (v g x : ℕ) (c : Context)
    → lookup v c.local_variables ≢ some []
    → lookup g
        (shortened v
          (known_offsets v c)
          (with_offsets v (known_offsets v c ++ x ∷ []) c)).local_variables
      ≡ lookup g c.local_variables
unfolding shortened with_offsets known_offsets
restored v g x c full = by_offsets (lookup v c.local_variables) refl full
  where
    by_offsets :
        (o : Option (List ℕ))
        → lookup v c.local_variables ≡ o
        → o ≢ some []
        → lookup g
            (shortened v
              (elim o [ none ↦ [] | some old ↦ old ])
              (with_offsets v
                ((elim o [ none ↦ [] | some old ↦ old ]) ++ x ∷ [])
                c)).local_variables
          ≡ lookup g c.local_variables
    by_offsets none is full =
        lookup-erase v g _
        ∙ undone v g c.local_variables _ _ _ is (lookup-insert v g (x ∷ []) c.local_variables)
    by_offsets (some []) is full = absurd (full refl)
    by_offsets (some (y ∷ ys)) is full =
        lookup-insert v g (y ∷ ys) _
        ∙ undone v g c.local_variables _ _ _ is
            (lookup-insert v g ((y ∷ ys) ++ x ∷ []) c.local_variables)

-- A variable of one or two slots is added `k` slots below the top of a stack of `h` slots, with `k` at
-- most `h` and `h` below 2^32, and removed again. In between, its offset from the base is `h - k`,
-- and as long as its slots are there, whatever the height then is, so is the right offset from the
-- top; for the given height itself it is `k - 1`, modulo 2^32. Both calls return, the assembly is
-- unchanged, and what is found of any variable afterwards is what was found before, if the offsets
-- of this one were not an empty vector.
pub add_variable-remove_variable :
    (v : VariableDeclaration) (h k : ℕ) (c : Context)
    → c.asm.current_deposit ≡ pos h
    → h < 2 ^ 32
    → k ≤ h
    → (v.size_on_stack == 1 || v.size_on_stack == 2) ≡ true
    → lookup v.address c.local_variables ≢ some []
    → (c' c'' : Context) × (add_variable v k c ≡ ok c')
      × (base_stack_offset_of_variable v.address c' ≡ ok (h - k))
      × (base_to_current_stack_offset (h - k) c' ≡ (k + 2 ^ 32 - 1) % 2 ^ 32)
      × ((d : Context) (n : ℕ)
          → d.asm.current_deposit ≡ pos n
          → n < 2 ^ 32
          → h - k < n
          → base_to_current_stack_offset (h - k) d ≡ n - (h - k) - 1)
      × (remove_variable v.address c' ≡ ok c'')
      × (c''.asm ≡ c.asm)
      × ((g : ℕ) → lookup g c''.local_variables ≡ lookup g c.local_variables)
unfolding with_offsets shortened
add_variable-remove_variable v h k c height small below size full =
    let offsets = known_offsets v.address c in
    let c' = with_offsets v.address (offsets ++ (h - k) ∷ []) c in
    (
      c',
      shortened v.address offsets c',
      added v h k c height small below size,
      base_offset v.address (h - k) offsets c,
      from_top v.address h k (offsets ++ (h - k) ∷ []) c height small below,
      λ d n top fits above. base_to_current-pos n (h - k) d top fits above,
      removed v.address (h - k) offsets c' (found v.address (offsets ++ (h - k) ∷ []) c),
      refl,
      λ g. restored v.address g (h - k) c full,
    )
