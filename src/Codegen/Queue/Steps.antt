-- ===== src/Codegen/Queue/Steps.antt =====
-- What may happen to the queue of functions, as steps: `FunctionCompilationQueue` in
-- libsolidity/codegen/CompilerContext.cpp.
use jules_solidity_pppascal.Common.{
  none, some, inl, inr, true, false, ◌++◌, ◌≡◌, ◌∷◌, ◌||◌, ◌⊎◌, arith, refl, ◌==◌, if◌then◌else◌,
  Bool-cases, ap, ==_iff, ◌∙◌, sym, [], get_elem?,
}
use jules_solidity_pppascal.AssemblyItem.{AssemblyItem}
use jules_solidity_pppascal.Codegen.Context.{FunctionCompilationQueue}
use jules_solidity_pppascal.Codegen.Queue.{
  start_function_in_queue, elem, with_element, next_function_to_compile, without_front,
  skip_compiled, ℕ, Bool, List,
}
use jules_solidity_pppascal.Common.Dict.{insert, lookup, lookup-insert}

abbrev pub Queue : Type 0
Queue = FunctionCompilationQueue

unfoldable pub is_labelled : ℕ → Queue → Bool
unfolding lookup
is_labelled f q = elim (lookup f q.entry_labels) [ none ↦ false | some _ ↦ true ]

abbrev pub with_label : ℕ → AssemblyItem → Queue → Queue
with_label f t q = record q {
  entry_labels = insert f t q.entry_labels;
  functions_to_compile = q.functions_to_compile ++ f ∷ [];
}

-- A label is made for a function that has none, the compiled functions at the front are dropped, or
-- a function is started.
pub data Step : Queue → Queue → Type 0 where
  label_step :
      (q : Queue) (f : ℕ) (t : AssemblyItem) → is_labelled f q ≡ false → Step q (with_label f t q)
  next_step : (q : Queue) → Step q (next_function_to_compile q).1
  start_step : (q : Queue) (f : ℕ) → Step q (start_function_in_queue f q)

pub data Reach (start : Queue) : Queue → Type 0 where
  here : Reach start start
  then_step : {q r : Queue} → Reach start q → Step q r → Reach start r

abbrev pub empty_queue : Queue
empty_queue = record {
  entry_labels = [];
  already_compiled_functions = [];
  functions_to_compile = [];
}

-- Whatever has a label waits or has code, and what waits has a label.
pub record IsConsistent (q : Queue) : Type 0 where
  pub covered :
      (f : ℕ)
      → is_labelled f q ≡ true
      → (elem f q.functions_to_compile ≡ true) ⊎ (elem f q.already_compiled_functions ≡ true)
  pub known : (f : ℕ) → elem f q.functions_to_compile ≡ true → is_labelled f q ≡ true

pub elem-append : (x : ℕ) (xs ys : List ℕ) → elem x (xs ++ ys) ≡ (elem x xs || elem x ys)
unfolding elem
elem-append x [] ys = refl
elem-append x (y ∷ xs) ys = ground (arith, elem-append x xs ys)

elem_same : (f g : ℕ) (l : List ℕ) → (f == g) ≡ true → elem f l ≡ elem g l
elem_same f g l h = ap (λ x. elem x l) ((==_iff f g).0 h)

skip_step :
    (f g : ℕ) (compiled q : List ℕ) (b : Bool)
    → elem g compiled ≡ b
    → elem f (g ∷ q) ≡ true
    → (elem f q ≡ true → (elem f (skip_compiled compiled q) ≡ true) ⊎ (elem f compiled ≡ true))
    → (elem f (if b then skip_compiled compiled q else g ∷ q) ≡ true) ⊎ (elem f compiled ≡ true)
unfolding elem
skip_step f g compiled q false is h later = inl h
skip_step f g compiled q true is h later = elim (Bool-cases (f == g)) [
  | inl same ↦ inr (elem_same f g compiled same ∙ is)
  | inr other ↦ later (ap (λ b. b || elem f q) (sym other) ∙ h)
]

front_step :
    (f g : ℕ) (compiled q : List ℕ) (b : Bool)
    → elem g compiled ≡ b
    → get_elem? (if b then skip_compiled compiled q else g ∷ q) 0 ≡ some f
    → (get_elem? (skip_compiled compiled q) 0 ≡ some f
        → (elem f compiled ≡ false) × (elem f q ≡ true))
    → (elem f compiled ≡ false) × (elem f (g ∷ q) ≡ true)
unfolding elem
front_step f g compiled q false is h later =
    let same : g ≡ f = cc in
    (ap (λ x. elem x compiled) (sym same) ∙ is, ap (λ b. b || elem f q) ((==_iff f g).1 (sym same)))
front_step f g compiled q true is h later =
    let (new, waits) = later h in (new, ground (arith, waits))

pub skip-keeps :
    (f : ℕ) (compiled q : List ℕ)
    → elem f q ≡ true
    → (elem f (skip_compiled compiled q) ≡ true) ⊎ (elem f compiled ≡ true)
unfolding elem skip_compiled
skip-keeps f compiled [] h = cc
skip-keeps f compiled (g ∷ q) h =
    skip_step f g compiled q (elem g compiled) refl h (skip-keeps f compiled q)

pub skip-within :
    (f : ℕ) (compiled q : List ℕ) → elem f (skip_compiled compiled q) ≡ true → elem f q ≡ true
unfolding elem skip_compiled
skip-within f compiled [] h = h
skip-within f compiled (g ∷ q) h = ground (arith, skip-within f compiled q)

pub skip-front :
    (f : ℕ) (compiled q : List ℕ)
    → get_elem? (skip_compiled compiled q) 0 ≡ some f
    → (elem f compiled ≡ false) × (elem f q ≡ true)
unfolding elem skip_compiled
skip-front f compiled [] h = cc
skip-front f compiled (g ∷ q) h =
    front_step f g compiled q (elem g compiled) refl h (skip-front f compiled q)

labelled-with :
    (f g : ℕ) (t : AssemblyItem) (q : Queue)
    → is_labelled g (with_label f t q) ≡ (f == g || is_labelled g q)
unfolding is_labelled
labelled-with f g t q =
    ap (λ o. elim o [ none ↦ false | some _ ↦ true ]) (lookup-insert f g t q.entry_labels)
    ∙ parts (f == g)
  where
    parts :
        (b : Bool)
        → (elim (if b then some t else lookup g q.entry_labels) [ none ↦ false | some _ ↦ true ])
          ≡ (b || is_labelled g q)
    parts true = refl
    parts false = refl

label_covered :
    (q : Queue) (f g : ℕ) (t : AssemblyItem)
    → IsConsistent q
    → (f == g || is_labelled g q) ≡ true
    → (elem g (q.functions_to_compile ++ f ∷ []) ≡ true)
      ⊎ (elem g q.already_compiled_functions ≡ true)
unfolding elem
label_covered q f g t ok_q h =
    let split = elem-append g q.functions_to_compile (f ∷ []) in
    elim (Bool-cases (f == g)) [
      | inl same ↦ inl (ground (arith, split, same))
      | inr other ↦ (elim (ok_q.covered g (ap (λ b. b || is_labelled g q) (sym other) ∙ h)) [
        | inl waits ↦ inl (ground (arith, split, waits))
        | inr done ↦ inr done
      ])
    ]

label_known :
    (q : Queue) (f g : ℕ)
    → IsConsistent q
    → (elem g q.functions_to_compile || elem g (f ∷ [])) ≡ true
    → (f == g || is_labelled g q) ≡ true
unfolding elem
label_known q f g ok_q h = elim (Bool-cases (elem g q.functions_to_compile)) [
  | inl waits ↦ ground (arith, ok_q.known g waits)
  | inr other ↦ ground (arith, h, other)
]

label-IsConsistent :
    (q : Queue) (f : ℕ) (t : AssemblyItem) → IsConsistent q → IsConsistent (with_label f t q)
label-IsConsistent q f t ok_q = record {
  covered = λ g h. label_covered q f g t ok_q (sym (labelled-with f g t q) ∙ h);
  known = λ g h.
      labelled-with f g t q
      ∙ label_known q f g ok_q (sym (elem-append g q.functions_to_compile (f ∷ [])) ∙ h);
}

next-IsConsistent : (q : Queue) → IsConsistent q → IsConsistent (next_function_to_compile q).1
unfolding next_function_to_compile is_labelled
next-IsConsistent q ok_q = record {
  covered = λ g h. elim (ok_q.covered g h) [
    | inl waits ↦ skip-keeps g q.already_compiled_functions q.functions_to_compile waits
    | inr done ↦ inr done
  ];
  known = λ g h. ok_q.known g (skip-within g q.already_compiled_functions q.functions_to_compile h);
}

elem-without_front :
    (f g : ℕ) (q : List ℕ)
    → elem g q ≡ true
    → (elem g (without_front f q) ≡ true) ⊎ ((g == f) ≡ true)
unfolding elem without_front
elem-without_front f g [] h = cc
elem-without_front f g (x ∷ q) h = ground (arith, h)

pub without_front-within :
    (f g : ℕ) (q : List ℕ) → elem g (without_front f q) ≡ true → elem g q ≡ true
unfolding elem without_front
without_front-within f g [] h = h
without_front-within f g (x ∷ q) h = ground (arith, h)

pub elem-with_element :
    (f g : ℕ) (known : List ℕ) → elem g (with_element f known) ≡ (g == f || elem g known)
unfolding with_element elem
elem-with_element f g known = elim (Bool-cases (g == f)) [
  | inl same ↦ ground (arith, same, elem_same g f known same)
  | inr other ↦ ground (arith, other)
]

start-IsConsistent :
    (q : Queue) (f : ℕ) → IsConsistent q → IsConsistent (start_function_in_queue f q)
unfolding start_function_in_queue is_labelled
start-IsConsistent q f ok_q = record {
  covered = λ g h. elim (ok_q.covered g h) [
    | inl waits ↦ (elim (elem-without_front f g q.functions_to_compile waits) [
      | inl still ↦ inl still
      | inr same ↦ inr (
          elem-with_element f g q.already_compiled_functions
          ∙ ap (λ b. b || elem g q.already_compiled_functions) same)
    ])
    | inr done ↦ inr (ground (arith, elem-with_element f g q.already_compiled_functions, done))
  ];
  known = λ g h. ok_q.known g (without_front-within f g q.functions_to_compile h);
}

Step-IsConsistent : {q r : Queue} → Step q r → IsConsistent q → IsConsistent r
Step-IsConsistent (label_step q f t new) ok_q = label-IsConsistent q f t ok_q
Step-IsConsistent (next_step q) ok_q = next-IsConsistent q ok_q
Step-IsConsistent (start_step q f) ok_q = start-IsConsistent q f ok_q

-- The queue stays consistent, whatever happens to it.
pub Reach-IsConsistent : {q r : Queue} → Reach q r → IsConsistent q → IsConsistent r
Reach-IsConsistent here ok_q = ok_q
Reach-IsConsistent (then_step reached step) ok_q =
    Step-IsConsistent step (Reach-IsConsistent reached ok_q)
