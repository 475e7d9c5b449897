-- ===== src/Codegen/Context/Immutables.antt =====
-- The memory that is reserved for immutable variables during contract creation: addImmutable,
-- immutableMemoryOffset and reservedMemory in libsolidity/codegen/CompilerContext.cpp.
use jules_solidity_pppascal.Common.{
  none, some, inl, inr, true, false, ◌≡◌, ◌==◌, ◌≤◌, ◌+◌, if◌then◌else◌, ◌<◌, ◌⊎◌, ◌^◌, refl, ap,
  sym, arith, ◌%◌, ◌∙◌, Bool-cases, ==_iff, ◌>>◌, ◌>>=◌, ==_self, ℕ,
}
use jules_solidity_pppascal.AssemblyItem.{size_mod}
use jules_solidity_pppascal.Codegen.Context.{
  add_immutable, reserved_memory, Context, immutable_memory_offset, VariableDeclaration,
  general_purpose_memory_start, ok, err, undefined, Result, assert_throw, internal_compiler_error,
  unimplemented_feature,
}
use jules_solidity_pppascal.Common.Dict.{lookup-insert, insert, lookup}

-- `size` bytes are reserved, and the 32 bytes of each immutable variable lie within them, apart from
-- those of the others.
pub record IsReserved (size : ℕ) (c : Context) : Type 0 where
  pub reserved : c.reserved_memory_size ≡ some size
  pub within :
      (g o : ℕ)
      → lookup g c.immutable_variables ≡ some o
      → (general_purpose_memory_start ≤ o) × (o + 32 ≤ general_purpose_memory_start + size)
  pub apart :
      (g j o p : ℕ)
      → (g == j) ≡ false
      → lookup g c.immutable_variables ≡ some o
      → lookup j c.immutable_variables ≡ some p
      → (o + 32 ≤ p) ⊎ (p + 32 ≤ o)

-- What may be registered.
pub record IsImmutable (v : VariableDeclaration) : Type 0 where
  pub declared : v.immutable ≡ true
  pub value : v.is_value_type ≡ true
  pub head : (v.memory_head_size == 32) ≡ true

with_immutable : ℕ → ℕ → Context → Context
with_immutable v size c = record c {
  immutable_variables = insert v (general_purpose_memory_start + size) c.immutable_variables;
  reserved_memory_size = some (size + 32);
}

added :
    (v : VariableDeclaration) (size : ℕ) (c : Context)
    → IsImmutable v
    → c.has_runtime_context ≡ true
    → c.reserved_memory_size ≡ some size
    → size + 160 < 2 ^ 64
    → add_immutable v c ≡ ok (with_immutable v.address size c)
unfolding add_immutable with_immutable
added v size c is runtime reserved small =
    let known : elim c.reserved_memory_size [ some r ↦ ok r | none ↦ err undefined ] ≡ ok size =
      ap (λ o. elim o [ some r ↦ ok r | none ↦ err undefined ]) reserved in
    let final : ℕ → ℕ → Result Context = λ r m. ok (record c {
      immutable_variables =
          insert v.address ((general_purpose_memory_start + r) % size_mod) c.immutable_variables;
      reserved_memory_size = some ((r + m) % size_mod);
    }) in
    let last : ℕ → Result Context = λ r.
      assert_throw (v.memory_head_size == 32) internal_compiler_error
      >> final r v.memory_head_size in
    let stored_size : Result ℕ = elim c.reserved_memory_size [
      | some r ↦ ok r
      | none ↦ err undefined
    ] in
    let third : Result Context =
      assert_throw c.has_runtime_context internal_compiler_error >> (stored_size >>= last) in
    let offset : (general_purpose_memory_start + size) % size_mod
        ≡ general_purpose_memory_start + size =
      omega (arith, small) in
    let more : (size + 32) % size_mod ≡ size + 32 = omega (arith, small) in
    ap
      (λ b.
        assert_throw b internal_compiler_error
        >> (assert_throw v.is_value_type unimplemented_feature >> third))
      is.declared
    ∙ ap (λ b. assert_throw b unimplemented_feature >> third) is.value
    ∙ ap (λ b. assert_throw b internal_compiler_error >> (stored_size >>= last)) runtime
    ∙ ap (λ m. m >>= last) known
    ∙ ap (λ b. assert_throw b internal_compiler_error >> final size v.memory_head_size) is.head
    ∙ ap (final size) ((==_iff v.memory_head_size 32).0 is.head)
    ∙ ap
        (λ k. ok (record c {
          immutable_variables = insert v.address k c.immutable_variables;
          reserved_memory_size = some ((size + 32) % size_mod);
        }))
        offset
    ∙ ap
        (λ k. ok (record c {
          immutable_variables =
              insert v.address (general_purpose_memory_start + size) c.immutable_variables;
          reserved_memory_size = some k;
        }))
        more

stored :
    (v size g : ℕ) (c : Context)
    → lookup g (with_immutable v size c).immutable_variables ≡ (
        if v == g
        then some (general_purpose_memory_start + size)
        else lookup g c.immutable_variables)
unfolding with_immutable
stored v size g c = lookup-insert v g (general_purpose_memory_start + size) c.immutable_variables

stored_cases :
    (v size g o : ℕ) (c : Context)
    → lookup g (with_immutable v size c).immutable_variables ≡ some o
    → ((v ≡ g) × (general_purpose_memory_start + size ≡ o))
      ⊎ (lookup g c.immutable_variables ≡ some o)
stored_cases v size g o c h =
    let either = sym (stored v size g c) ∙ h in
    elim (Bool-cases (v == g)) [
      | inl same ↦
          (let here : some (general_purpose_memory_start + size) ≡ some o =
              ap
                (λ b.
                  if b
                  then some (general_purpose_memory_start + size)
                  else lookup g c.immutable_variables)
                (sym same)
              ∙ either in
            inl ((==_iff v g).0 same, cc))
      | inr other ↦ inr (
          ap
            (λ b.
              if b
              then some (general_purpose_memory_start + size)
              else lookup g c.immutable_variables)
            (sym other)
          ∙ either)
    ]

with_immutable-IsReserved :
    (v size : ℕ) (c : Context)
    → IsReserved size c
    → IsReserved (size + 32) (with_immutable v size c)
unfolding with_immutable
with_immutable-IsReserved v size c is = record {
  reserved = refl;
  within = λ g o h. elim (stored_cases v size g o c h) [
    | inl here ↦ (omega (arith, here.1), omega (arith, here.1))
    | inr old ↦ (let inside = is.within g o old in (omega (arith, inside), omega (arith, inside)))
  ];
  apart = λ g j o p other h k. elim (stored_cases v size g o c h) [
    | inl here ↦ (elim (stored_cases v size j p c k) [
      | inl there ↦
          (let same : g ≡ j = sym here.0 ∙ there.0 in absurd (ground (arith, same, other)))
      | inr old ↦ (let inside = is.within j p old in inr (omega (arith, here.1, inside)))
    ])
    | inr old ↦ (elim (stored_cases v size j p c k) [
      | inl there ↦ (let inside = is.within g o old in inl (omega (arith, there.1, inside)))
      | inr older ↦ is.apart g j o p other old older
    ])
  ];
}

offset_found :
    (size : ℕ) (v : VariableDeclaration) (c : Context)
    → c.has_runtime_context ≡ true
    → immutable_memory_offset v (with_immutable v.address size c)
      ≡ ok (general_purpose_memory_start + size)
unfolding immutable_memory_offset with_immutable
offset_found size v c runtime =
    ap
      (λ o. elim o [
        | none ↦ err internal_compiler_error
        | some x ↦ (assert_throw c.has_runtime_context internal_compiler_error >> ok x)
      ])
      (stored v.address size v.address c
        ∙ ap
            (λ b.
              if b
              then some (general_purpose_memory_start + size)
              else lookup v.address c.immutable_variables)
            (==_self v.address))
    ∙ ap (λ b. assert_throw b internal_compiler_error >> ok (general_purpose_memory_start + size))
        runtime

-- addImmutable, for an immutable variable of value type in a creation context: the invariant holds
-- again with 32 bytes more, and the variable is found behind what was reserved before. Sizes do not
-- wrap.
pub add_immutable-IsReserved :
    (v : VariableDeclaration) (size : ℕ) (c : Context)
    → IsImmutable v
    → IsReserved size c
    → c.has_runtime_context ≡ true
    → size + 160 < 2 ^ 64
    → (c' : Context) × (add_immutable v c ≡ ok c')
      × IsReserved (size + 32) c'
      × (immutable_memory_offset v c' ≡ ok (general_purpose_memory_start + size))
      × (reserved_memory c' ≡ ok (size + 32, record c' { reserved_memory_size = none }))
unfolding with_immutable reserved_memory
add_immutable-IsReserved v size c is reserved runtime small = (
  with_immutable v.address size c,
  added v size c is runtime reserved.reserved small,
  with_immutable-IsReserved v.address size c reserved,
  offset_found size v c runtime,
  refl,
)
