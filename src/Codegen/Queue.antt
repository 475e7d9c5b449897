-- ===== src/Codegen/Queue.antt =====
-- The queue of functions that are still to be compiled: `FunctionCompilationQueue` in
-- libsolidity/codegen/CompilerContext.cpp, with startFunction. The name of a declaration is passed
-- beside its address.
pub mod Steps
pub mod Rounds
pub mod Labels
use Prim.Native.Nat.{ℕ}
use jules_solidity_pppascal.Common.{
  none, some, Option, List, get_elem?, Result, Bool, ◌∷◌, ◌>>=◌, if◌then◌else◌, false, [], ◌==◌,
  ◌||◌, ◌++◌, ok,
}
use jules_solidity_pppascal.AssemblyItem.{bare, tag_of, AssemblyItem, undefined_item}
use jules_solidity_pppascal.Codegen.Context.{
  FunctionCompilationQueue, append_to, Context, new_context_tag,
}
use jules_solidity_pppascal.Common.Dict.{lookup, insert}
use jules_solidity_pppascal.Common.Text.{codes}

-- With the label that is known, if one is.
from_known : ℕ → List ℕ → Context → Option AssemblyItem → Result (AssemblyItem × Context)
unfolding insert new_context_tag tag_of
from_known declaration name c none = do
  (label, c') ← new_context_tag (codes "declaration of function " ++ name) c
  let q = c'.function_compilation_queue
  t ← tag_of label
  ok (
    t,
    record c' {
      function_compilation_queue = record q {
        entry_labels = insert declaration label q.entry_labels;
        functions_to_compile = q.functions_to_compile ++ declaration ∷ [];
      };
    },
  )
from_known declaration name c (some label) = do t ← tag_of label; ok (t, c)

unfoldable pub entry_label : ℕ → List ℕ → Context → Result (AssemblyItem × Context)
unfolding lookup from_known
entry_label declaration name c =
    from_known declaration name c (lookup declaration c.function_compilation_queue.entry_labels)

unfoldable pub entry_label_if_exists : ℕ → Context → Result AssemblyItem
unfolding lookup tag_of
entry_label_if_exists declaration c =
    elim (lookup declaration c.function_compilation_queue.entry_labels) [
      | none ↦ ok (bare undefined_item)
      | some label ↦ tag_of label
    ]

unfoldable pub elem : ℕ → List ℕ → Bool
elem x [] = false
elem x (y ∷ ys) = x == y || elem x ys

-- The queue without the functions at its front that have code already.
unfoldable pub skip_compiled : List ℕ → List ℕ → List ℕ
unfolding elem
skip_compiled compiled [] = []
skip_compiled compiled (f ∷ functions) =
    let rest = skip_compiled compiled functions in if elem f compiled then rest else f ∷ functions

-- nextFunctionToCompile: the queue is mutable there, so it is returned.
unfoldable pub next_function_to_compile :
    FunctionCompilationQueue → Option ℕ × FunctionCompilationQueue
unfolding skip_compiled
next_function_to_compile q =
    let left = skip_compiled q.already_compiled_functions q.functions_to_compile in
    (get_elem? left 0, record q { functions_to_compile = left })

unfoldable pub without_front : ℕ → List ℕ → List ℕ
without_front f [] = []
without_front f (g ∷ functions) = if g == f then functions else g ∷ functions

-- insert, for a set
unfoldable pub with_element : ℕ → List ℕ → List ℕ
unfolding elem
with_element f known = if elem f known then known else f ∷ known

-- FunctionCompilationQueue::startFunction
unfoldable pub start_function_in_queue : ℕ → FunctionCompilationQueue → FunctionCompilationQueue
unfolding without_front with_element
start_function_in_queue f q = record q {
  functions_to_compile = without_front f q.functions_to_compile;
  already_compiled_functions = with_element f q.already_compiled_functions;
}

-- CompilerContext::startFunction
unfoldable pub start_function : ℕ → List ℕ → Context → Result Context
unfolding start_function_in_queue entry_label append_to
start_function f name c = do
  (label, c') ← entry_label f name (record c {
    function_compilation_queue = start_function_in_queue f c.function_compilation_queue;
  })
  append_to label c'
