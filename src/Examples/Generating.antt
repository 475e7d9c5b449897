-- ===== src/Examples/Generating.antt =====
-- The theorems on code generation, at small stacks and queues.
use jules_solidity_pppascal.Common.{
  ◌∷◌, true, refl, ◌≤◌, ◌≡◌, ok, ◌⊎◌, [], some, none, ℕ, arith, false, ◌<◌, ◌^◌, ◌-◌,
}
use jules_solidity_pppascal.Assembly.{empty_fields}
use jules_solidity_pppascal.AssemblyItem.{tag, AssemblyItem, bare}
use jules_solidity_pppascal.Codegen.Context.{
  base_to_current_stack_offset, immutable_memory_offset, add_immutable, add_variable,
  base_stack_offset_of_variable, VariableDeclaration, reserved_memory, Context, remove_variable,
}
use jules_solidity_pppascal.Codegen.Context.Immutables.{IsReserved, add_immutable-IsReserved}
use jules_solidity_pppascal.Codegen.Context.Variables.{add_variable-remove_variable}
use jules_solidity_pppascal.Codegen.Queue.{
  next_function_to_compile, start_function_in_queue, elem, entry_label,
}
use jules_solidity_pppascal.Codegen.Queue.Labels.{Labelled, entry_label-Labelled, HasLabels}
use jules_solidity_pppascal.Codegen.Queue.Rounds.{Rounds-end, Reach-next, round, begin, stop}
use jules_solidity_pppascal.Codegen.Queue.Steps.{
  is_labelled, then_step, Reach, Queue, empty_queue, with_label, here, label_step,
}
use jules_solidity_pppascal.Codegen.Stack.{
  move_into_stack, move_to_stack_variable, left_shift_number_on_stack, clean_higher_order_bits,
  right_shift_number_on_stack, copy_to_stack_top,
}
use jules_solidity_pppascal.Codegen.Stack.Cleaning.{clean-Runs, cleaned}
use jules_solidity_pppascal.Codegen.Stack.Copies.{
  copy_to_stack_top-Runs, move_to_stack_variable-Runs,
}
use jules_solidity_pppascal.Codegen.Stack.Effects.{Runs}
use jules_solidity_pppascal.Codegen.Stack.Moves.{move_into_stack-Runs}
use jules_solidity_pppascal.Codegen.Stack.Words.{shift-Runs}
use jules_solidity_pppascal.Common.Dict.{lookup, insert}
use jules_solidity_pppascal.Common.Int.{pos}
use jules_solidity_pppascal.Common.Text.{codes}
use jules_solidity_pppascal.EvmVersion.{Version}

abbrev new_asm : Context
new_asm = record {
  asm = record empty_fields { current_deposit = pos 3 };
  evm_version = Version.istanbul;
  has_runtime_context = true;
  state_variables = [];
  immutable_variables = [];
  reserved_memory_size = some 0;
  local_variables = (7, 0 ∷ []) ∷ [];
  function_compilation_queue = empty_queue;
  await_callbacks = [];
}

abbrev variable : VariableDeclaration
variable = record {
  address = 7;
  variable_name = codes "x";
  immutable = true;
  is_value_type = true;
  memory_head_size = 32;
  size_on_stack = 1;
}

move_into_stack-Runs_example :
    Runs 3 new_asm (1 ∷ 2 ∷ 3 ∷ []) (2 ∷ 3 ∷ 1 ∷ []) (move_into_stack 2 1 new_asm)
move_into_stack-Runs_example =
    move_into_stack-Runs 3 (1 ∷ []) (2 ∷ 3 ∷ []) [] new_asm (omega arith) refl

copy_to_stack_top-Runs_example :
    Runs 4 new_asm (1 ∷ 2 ∷ 3 ∷ []) (2 ∷ 1 ∷ 2 ∷ 3 ∷ []) (copy_to_stack_top 2 1 new_asm)
copy_to_stack_top-Runs_example =
    copy_to_stack_top-Runs 3 (1 ∷ []) (2 ∷ []) (3 ∷ []) new_asm (omega arith) refl

move_to_stack_variable-Runs_example :
    Runs 2 new_asm (1 ∷ 2 ∷ 3 ∷ []) (2 ∷ 1 ∷ []) (move_to_stack_variable variable new_asm)
unfolding base_stack_offset_of_variable
move_to_stack_variable-Runs_example =
    move_to_stack_variable-Runs 2 0 variable (1 ∷ []) (2 ∷ []) (3 ∷ []) [] new_asm refl refl refl
      (omega arith) refl (omega arith) (omega arith) refl

shift-Runs_example :
    Runs 3 new_asm (5 ∷ 2 ∷ 3 ∷ []) (40 ∷ 2 ∷ 3 ∷ []) (left_shift_number_on_stack 3 new_asm)
    × Runs 3 new_asm (5 ∷ 2 ∷ 3 ∷ []) (0 ∷ 2 ∷ 3 ∷ []) (right_shift_number_on_stack 3 new_asm)
shift-Runs_example = shift-Runs 2 3 5 (2 ∷ 3 ∷ []) new_asm (omega arith) refl

clean-Runs_example :
    Runs 3 new_asm
      (511 ∷ 2 ∷ 3 ∷ [])
      (cleaned 1 true 511 ∷ 2 ∷ 3 ∷ [])
      (clean_higher_order_bits 8 true new_asm)
clean-Runs_example =
    clean-Runs 2 1 511 true (2 ∷ 3 ∷ []) new_asm (omega arith) (omega arith) (omega arith) refl

add_variable-remove_variable_example :
    (c' c'' : Context) × (add_variable variable 1 new_asm ≡ ok c')
    × (base_stack_offset_of_variable 7 c' ≡ ok 2)
    × (base_to_current_stack_offset 2 c' ≡ 0)
    × ((d : Context) (n : ℕ)
        → d.asm.current_deposit ≡ pos n
        → n < 2 ^ 32
        → 2 < n
        → base_to_current_stack_offset 2 d ≡ n - 2 - 1)
    × (remove_variable 7 c' ≡ ok c'')
    × (c''.asm ≡ new_asm.asm)
    × ((g : ℕ) → lookup g c''.local_variables ≡ lookup g new_asm.local_variables)
unfolding lookup
add_variable-remove_variable_example =
    add_variable-remove_variable variable 3 1 new_asm refl (omega arith) (omega arith) refl
      (λ bad. cc)

nothing-IsReserved : IsReserved 0 new_asm
unfolding lookup
nothing-IsReserved = record {
  reserved = refl;
  within = λ g o h. cc;
  apart = λ g j o p other h k. cc;
}

add_immutable-IsReserved_example :
    (c' : Context) × (add_immutable variable new_asm ≡ ok c')
    × IsReserved 32 c'
    × (immutable_memory_offset variable c' ≡ ok 128)
    × (reserved_memory c' ≡ ok (32, record c' { reserved_memory_size = none }))
add_immutable-IsReserved_example =
    add_immutable-IsReserved variable 0 new_asm
      (record { declared = refl; value = refl; head = refl }) nothing-IsReserved refl (omega arith)

nothing-HasLabels : HasLabels new_asm
unfolding lookup
nothing-HasLabels = record { tags = λ g label h. cc; apart = λ g g' label label' other h h'. cc }

entry_label-Labelled_example :
    (r : AssemblyItem × Context) × (entry_label 5 (codes "f") new_asm ≡ ok r)
    × Labelled 5 (codes "f") new_asm r
entry_label-Labelled_example =
    entry_label-Labelled 5 (codes "f") new_asm nothing-HasLabels (omega arith)

abbrev one_waits : Queue
one_waits = with_label 5 (bare tag) empty_queue

one_waits-Reach : Reach empty_queue one_waits
unfolding is_labelled
one_waits-Reach = then_step here (label_step empty_queue 5 (bare tag) refl)

Reach-next_example :
    (elem 5 one_waits.already_compiled_functions ≡ true)
    ⊎ ((g : ℕ) × ((next_function_to_compile one_waits).0 ≡ some g)
        × (elem g one_waits.already_compiled_functions ≡ false)
        × (is_labelled g one_waits ≡ true))
unfolding is_labelled insert
Reach-next_example = Reach-next one_waits 5 one_waits-Reach refl

Rounds-end_example : 1 ≤ 1
unfolding next_function_to_compile elem
Rounds-end_example =
    Rounds-end (5 ∷ []) 1 one_waits
      (start_function_in_queue 5 (next_function_to_compile one_waits).1) (λ f h. h)
      (round 5 refl begin stop)
