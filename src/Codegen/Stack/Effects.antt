-- ===== src/Codegen/Stack/Effects.antt =====
-- What appending one instruction does, on the reference machine and to the height that the assembly
-- keeps: for libsolidity/codegen/CompilerUtils.cpp.
use Prim.Native.Nat.{ℕ, suc}
use jules_solidity_pppascal.Common.{
  none, some, inl, inr, List, ◌≤◌, Result, ◌≡◌, ◌+◌, ok, ◌>>=◌, ◌++◌, ◌-◌, [], sym, ap, ◌%◌, ◌∷◌,
  append-nil, ◌∙◌, arith, Option-cases, append_assoc, refl, not, assembly_exception, ◌>>◌, true,
  if◌then◌else◌,
}
use jules_solidity_pppascal.Assembly.{append_debug_info, Fields, append_item}
use jules_solidity_pppascal.AssemblyItem.{
  instruction_item, returned, instruction_of, AssemblyItem, return_values, deposit, arguments,
  typed_item, size_mod, push_item,
}
use jules_solidity_pppascal.Codegen.Context.{
  append_number, append_instruction, append_context_debug_info, append_to, Context,
}
use jules_solidity_pppascal.Codegen.Machine.{perform_item, run, perform, supports, push_of}
use jules_solidity_pppascal.Codegen.Stack.{assert_throw}
use jules_solidity_pppascal.Common.Int.{is_negative, to_int, pos, ◌+ℤ◌}
use jules_solidity_pppascal.EvmVersion.{Version}
use jules_solidity_pppascal.Instruction.Info.{instruction_info}
use jules_solidity_pppascal.Instruction.Info.Families.{HasShape}
use jules_solidity_pppascal.Instruction.Opcode.{Instruction}

-- The call returns. It appended code that takes the stack from `s` to `s'` on a machine of the
-- version that is compiled for, it left the height at
-- `h`, and nothing but the assembly changed.

unfoldable pub Runs : ℕ → Context → List ℕ → List ℕ → Result Context → Type 0
Runs h c s s' r =
    (f : Fields) × (emitted : List AssemblyItem) × (r ≡ ok (record c { asm = f }))
    × (f.items ≡ c.asm.items ++ emitted)
    × (f.current_deposit ≡ pos h)
    × (run c.evm_version emitted s ≡ some s')

pub run-append :
    (v : Version) (xs ys : List AssemblyItem) (s t u : List ℕ)
    → run v xs s ≡ some t
    → run v ys t ≡ some u
    → run v (xs ++ ys) s ≡ some u
unfolding run
run-append v [] ys s t u h k = cc
run-append v (x ∷ xs) ys s t u h k = elim (Option-cases (perform_item v x s)) [
  | inl bad ↦ cc
  | inr (s', same) ↦
      (let first : run v xs s' ≡ some t =
          ap (λ o. elim o [ none ↦ none | some q ↦ run v xs q ]) (sym same) ∙ h in
        ap (λ o. elim o [ none ↦ none | some q ↦ run v (xs ++ ys) q ]) same
        ∙ run-append v xs ys s' t u first k)
]

pub ok-Runs :
    (h : ℕ) (c : Context) (s : List ℕ) → c.asm.current_deposit ≡ pos h → Runs h c s s (ok c)
unfolding Runs run
ok-Runs h c s same = (c.asm, [], refl, sym (append-nil c.asm.items), same, refl)

pub bind-Runs :
    (h h' : ℕ) (c : Context) (s s' s'' : List ℕ) (m : Result Context) (k : Context → Result Context)
    → Runs h c s s' m
    → ((f : Fields)
        → f.current_deposit ≡ pos h
        → Runs h' (record c { asm = f }) s' s'' (k (record c { asm = f })))
    → Runs h' c s s'' (m >>= k)
unfolding Runs
bind-Runs h h' c s s' s'' m k (f, emitted, same, items, height, runs) next =
    let (f', emitted', same', items', height', runs') = next f height in
    (
      f',
      emitted ++ emitted',
      ap (λ r. r >>= k) same ∙ same',
      items' ∙ ap (λ l. l ++ emitted') items ∙ append_assoc c.asm.items emitted emitted',
      height',
      run-append c.evm_version emitted emitted' s s' s'' runs runs',
    )

-- Debug information is no code.
pub info-Runs :
    (h : ℕ) (c : Context) (s s' : List ℕ) (text : List ℕ) (r : Result Context)
    → Runs h (append_context_debug_info text c) s s' r
    → Runs h c s s' r
unfolding Runs append_context_debug_info append_debug_info
info-Runs h c s s' text r runs = runs

to_int_step :
    (h h' args ret : ℕ)
    → args ≤ 100
    → ret ≤ 100
    → h' + args ≡ h + ret
    → (pos h +ℤ to_int ((ret + size_mod - args) % size_mod)) ≡ pos h'
unfolding ◌+ℤ◌ to_int
to_int_step h h' args ret small small' balance = ground arith

item_of : Instruction → ℕ → AssemblyItem
item_of inst depth = record (instruction_item inst) { modifier_depth = depth }

deposit-item_of :
    (inst args ret : ℕ)
    → (instruction_info inst).args ≡ args
    → (instruction_info inst).ret ≡ ret
    → deposit (instruction_item inst) ≡ ok ((ret + size_mod - args) % size_mod)
unfolding deposit return_values returned arguments instruction_of
deposit-item_of inst args ret a r =
    ap (λ x. ok (((instruction_info inst).ret + size_mod - x) % size_mod)) a
    ∙ ap (λ x. ok ((x + size_mod - args) % size_mod)) r

appended : AssemblyItem → ℕ → Fields → Fields
appended item d f = record f {
  current_deposit = f.current_deposit +ℤ to_int d;
  items = f.items ++ record item { modifier_depth = f.current_modifier_depth } ∷ [];
}

append_item-appended :
    (item : AssemblyItem) (h d : ℕ) (f : Fields)
    → f.current_deposit ≡ pos h
    → deposit item ≡ ok d
    → append_item item f
      ≡ ok (record item { modifier_depth = f.current_modifier_depth }, appended item d f)
unfolding append_item appended
append_item-appended item h d f height k =
    ap
      (λ z.
        assert_throw (not (is_negative z)) assembly_exception
        >> (deposit item >>= λ x.
            ok (record item { modifier_depth = f.current_modifier_depth }, appended item x f)))
      height
    ∙ ap
        (λ r. r >>= λ x.
          ok (record item { modifier_depth = f.current_modifier_depth }, appended item x f))
        k

-- One item, by what it does to the height and to the stack.
item-Runs :
    (item : AssemblyItem) (h h' d : ℕ) (c : Context) (s s' : List ℕ)
    → deposit item ≡ ok d
    → (pos h +ℤ to_int d) ≡ pos h'
    → c.asm.current_deposit ≡ pos h
    → perform_item c.evm_version item s ≡ some s'
    → Runs h' c s s' (append_to item c)
unfolding Runs append_to run perform_item appended
item-Runs item h h' d c s s' deposits balance height runs = (
  appended item d c.asm,
  record item { modifier_depth = c.asm.current_modifier_depth } ∷ [],
  ap (λ r. r >>= λ (p : AssemblyItem × Fields). ok (record c { asm = p.1 }))
      (append_item-appended item h d c.asm height deposits),
  refl,
  ap (λ z. z +ℤ to_int d) height ∙ balance,
  ap (λ o. elim o [ none ↦ none | some q ↦ some q ]) runs,
)

-- One instruction of a known shape.
pub instruction-Runs :
    (inst h h' args ret additional : ℕ) (c : Context) (s s' : List ℕ)
    → HasShape inst additional args ret
    → args ≤ 100
    → ret ≤ 100
    → h' + args ≡ h + ret
    → c.asm.current_deposit ≡ pos h
    → supports c.evm_version inst ≡ true
    → perform inst s ≡ some s'
    → Runs h' c s s' (append_instruction inst c)
unfolding append_instruction perform_item
instruction-Runs inst h h' args ret additional c s s' shape small small' balance height has runs =
    item-Runs (instruction_item inst) h h' _ c s s'
      (deposit-item_of inst args ret shape.args_is shape.ret_is)
      (to_int_step h h' args ret small small' balance) height
      (ap (λ b. if b then perform inst s else none) has ∙ runs)

-- A number is pushed.
pub number-Runs :
    (v h : ℕ) (c : Context) (s : List ℕ)
    → c.asm.current_deposit ≡ pos h
    → Runs (suc h) c s (v ∷ s) (append_number v c)
unfolding append_number push_item typed_item deposit return_values returned arguments perform_item
    push_of
number-Runs v h c s height =
    item-Runs (push_item v) h (suc h) ((1 + size_mod - 0) % size_mod) c s (v ∷ s) refl
      (to_int_step h (suc h) 0 1 (omega arith) (omega arith) (omega arith)) height refl
