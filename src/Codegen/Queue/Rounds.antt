-- ===== src/Codegen/Queue/Rounds.antt =====
-- The loop that compiles the functions of the queue, in `ContractCompiler::appendMissingFunctions`
-- of libsolidity/codegen/ContractCompiler.cpp, seen from the queue.
use jules_solidity_pppascal.Common.{
  none, some, inl, inr, true, false, suc, ◌≡◌, ◌≤◌, ◌<◌, length, [], ◌∷◌, if◌then◌else◌, arith,
  refl, ap, Bool-cases, ◌+◌, sym, ◌==◌, ==_iff, ◌∙◌, ◌||◌, ◌++◌, ==_self, ◌⊎◌, get_elem?,
}
use jules_solidity_pppascal.AssemblyItem.{AssemblyItem}
use jules_solidity_pppascal.Codegen.Queue.{
  next_function_to_compile, elem, start_function_in_queue, with_element, without_front,
  skip_compiled, ℕ, List, Option,
}
use jules_solidity_pppascal.Codegen.Queue.Steps.{
  Queue, empty_queue, elem-with_element, skip-within, elem-append, IsConsistent, skip-keeps,
  Reach-IsConsistent, without_front-within, skip-front, with_label, Reach, is_labelled,
}

no_front :
    (compiled q : List ℕ)
    → get_elem? (skip_compiled compiled q) 0 ≡ none
    → skip_compiled compiled q ≡ []
no_front compiled q h = is_empty (skip_compiled compiled q) h
  where
    is_empty : (l : List ℕ) → get_elem? l 0 ≡ none → l ≡ []
    is_empty [] h = refl
    is_empty (x ∷ l) h = cc

-- Of a queue that any steps led to from the empty one: a function with a label has code, or there is
-- a function that is compiled next, which has a label and no code yet.
pub Reach-next :
    (q : Queue) (f : ℕ)
    → Reach empty_queue q
    → is_labelled f q ≡ true
    → (elem f q.already_compiled_functions ≡ true)
      ⊎ ((g : ℕ) × ((next_function_to_compile q).0 ≡ some g)
          × (elem g q.already_compiled_functions ≡ false)
          × (is_labelled g q ≡ true))
unfolding next_function_to_compile elem is_labelled
Reach-next q f reached labelled =
    let start : IsConsistent empty_queue = record { covered = λ f h. cc; known = λ f h. cc } in
    let ok_q = Reach-IsConsistent reached start in
    by_front (get_elem? (skip_compiled q.already_compiled_functions q.functions_to_compile) 0) refl
      ok_q (ok_q.covered f labelled)
  where
    by_front :
        (o : Option ℕ)
        → get_elem? (skip_compiled q.already_compiled_functions q.functions_to_compile) 0 ≡ o
        → IsConsistent q
        → (elem f q.functions_to_compile ≡ true) ⊎ (elem f q.already_compiled_functions ≡ true)
        → (elem f q.already_compiled_functions ≡ true)
          ⊎ ((g : ℕ) × (o ≡ some g)
              × (elem g q.already_compiled_functions ≡ false)
              × (is_labelled g q ≡ true))
    by_front (some g) first ok_q either =
        let (new, waits) = skip-front g q.already_compiled_functions q.functions_to_compile first in
        inr (g, refl, new, ok_q.known g waits)
    by_front none drained ok_q (inr done) = inl done
    by_front none drained ok_q (inl waits) =
        elim (skip-keeps f q.already_compiled_functions q.functions_to_compile waits) [
          | inr done ↦ inl done
          | inl left ↦
              (let bad : false ≡ true =
                  ap (elem f)
                    (sym (no_front q.already_compiled_functions q.functions_to_compile drained))
                  ∙ left in
                cc)
        ]

-- How many of the functions have no code.
unfoldable pub count_left : List ℕ → List ℕ → ℕ
count_left compiled [] = 0
count_left compiled (f ∷ program) =
    let rest = count_left compiled program in if elem f compiled then rest else suc rest

-- What happens while one function is compiled: only functions of the program are given labels.
pub data Work (program : List ℕ) (start : Queue) : Queue → Type 0 where
  begin : Work program start start
  give_label :
      {q : Queue} (f : ℕ) (t : AssemblyItem)
      → Work program start q
      → is_labelled f q ≡ false
      → elem f program ≡ true
      → Work program start (with_label f t q)
  look_next : {q : Queue} → Work program start q → Work program start (next_function_to_compile q).1
  also_start :
      {q : Queue} (f : ℕ) → Work program start q → Work program start (start_function_in_queue f q)

-- Rounds of the loop: the next function is started, and then compiled.
pub data Rounds (program : List ℕ) : ℕ → Queue → Queue → Type 0 where
  stop : {q : Queue} → Rounds program 0 q q
  round :
      {q r s : Queue} {n : ℕ} (f : ℕ)
      → (next_function_to_compile q).0 ≡ some f
      → Work program (start_function_in_queue f (next_function_to_compile q).1) r
      → Rounds program n r s
      → Rounds program (suc n) q s

abbrev pub Within : List ℕ → Queue → Type 0
Within program q = (f : ℕ) → elem f q.functions_to_compile ≡ true → elem f program ≡ true

abbrev Keeps : List ℕ → List ℕ → Type 0
Keeps old new = (f : ℕ) → elem f old ≡ true → elem f new ≡ true

count_left_mono :
    (old new program : List ℕ) → Keeps old new → count_left new program ≤ count_left old program
unfolding count_left
count_left_mono old new [] keeps = omega arith
count_left_mono old new (f ∷ program) keeps =
    ground (arith, keeps f, count_left_mono old new program keeps)

-- Strictly fewer are left once one more of them has code.
count_left-lt :
    (f : ℕ) (old new program : List ℕ)
    → Keeps old new
    → elem f program ≡ true
    → elem f old ≡ false
    → elem f new ≡ true
    → count_left new program < count_left old program
unfolding count_left elem
count_left-lt f old new [] keeps h wait done = cc
count_left-lt f old new (g ∷ program) keeps h wait done = elim (Bool-cases (f == g)) [
  | inl same ↦
      (let e : f ≡ g = (==_iff f g).0 same in
        let old_g : elem g old ≡ false = ap (λ x. elem x old) (sym e) ∙ wait in
        let new_g : elem g new ≡ true = ap (λ x. elem x new) (sym e) ∙ done in
        ground (arith, old_g, new_g, count_left_mono old new program keeps))
  | inr other ↦
      (let rest : elem f program ≡ true = ap (λ b. b || elem f program) (sym other) ∙ h in
        ground (arith, keeps g, count_left-lt f old new program keeps rest wait done))
]

count_left-le_length : (compiled program : List ℕ) → count_left compiled program ≤ length program
unfolding count_left
count_left-le_length compiled [] = omega arith
count_left-le_length compiled (f ∷ program) = ground (arith, count_left-le_length compiled program)

Keeps-trans : (a b c : List ℕ) → Keeps a b → Keeps b c → Keeps a c
Keeps-trans a b c ab bc f h = bc f (ab f h)

with_element-Keeps : (f : ℕ) (known : List ℕ) → Keeps known (with_element f known)
with_element-Keeps f known g h = ground (arith, elem-with_element f g known, h)

more_within :
    (program : List ℕ) (f g : ℕ) (waiting : List ℕ)
    → elem f program ≡ true
    → (elem g waiting ≡ true → elem g program ≡ true)
    → elem g (waiting ++ f ∷ []) ≡ true
    → elem g program ≡ true
unfolding elem
more_within program f g waiting known inside h =
    let either : (elem g waiting || (g == f || false)) ≡ true =
      sym (elem-append g waiting (f ∷ [])) ∙ h in
    elim (Bool-cases (g == f)) [
      | inl same ↦ ap (λ x. elem x program) ((==_iff g f).0 same) ∙ known
      | inr other ↦ inside (ground (arith, either, other))
    ]

Work-Keeps :
    (program : List ℕ) (q r : Queue)
    → Within program q
    → Work program q r
    → Within program r × Keeps q.already_compiled_functions r.already_compiled_functions
unfolding next_function_to_compile start_function_in_queue elem
Work-Keeps program q _ within begin = (within, λ f h. h)
Work-Keeps program q _ within (give_label {q = r} f t work new known) =
    let (inside, keeps) = Work-Keeps program q r within work in
    (λ g h. more_within program f g r.functions_to_compile known (inside g) h, keeps)
Work-Keeps program q _ within (look_next {q = r} work) =
    let (inside, keeps) = Work-Keeps program q r within work in
    (λ g h. inside g (skip-within g r.already_compiled_functions r.functions_to_compile h), keeps)
Work-Keeps program q _ within (also_start {q = r} f work) =
    let (inside, keeps) = Work-Keeps program q r within work in
    (
      λ g h. inside g (without_front-within f g r.functions_to_compile h),
      λ g h. with_element-Keeps f r.already_compiled_functions g (keeps g h),
    )

Rounds-count :
    (program : List ℕ) (n : ℕ) (q r : Queue)
    → Within program q
    → Rounds program n q r
    → n + count_left r.already_compiled_functions program
      ≤ count_left q.already_compiled_functions program
unfolding skip_compiled next_function_to_compile without_front start_function_in_queue
Rounds-count program _ q _ within stop = omega arith
Rounds-count program _ q s within (round {r = m} {n = k} f first work rounds) =
    let (new, waits) = skip-front f q.already_compiled_functions q.functions_to_compile first in
    let started : Queue = start_function_in_queue f (next_function_to_compile q).1 in
    let inside : Within program started = λ g h. within g (
      skip-within g q.already_compiled_functions q.functions_to_compile
        (without_front-within f g _ h)) in
    let (inside', keeps) = Work-Keeps program started m inside work in
    let compiled : elem f started.already_compiled_functions ≡ true =
      elem-with_element f f q.already_compiled_functions
      ∙ ap (λ b. b || elem f q.already_compiled_functions) (==_self f) in
    let fewer =
      count_left-lt f q.already_compiled_functions m.already_compiled_functions program
        (λ g h. keeps g (with_element-Keeps f q.already_compiled_functions g h)) (within f waits)
        new (keeps f compiled) in
    omega (arith, fewer, Rounds-count program k m s inside' rounds)

-- However the functions of a program refer to each other: the loop runs at most once for each of
-- them. Whatever waits at first is a function of the program, and only these are given labels.
pub Rounds-end :
    (program : List ℕ) (n : ℕ) (q r : Queue)
    → Within program q
    → Rounds program n q r
    → n ≤ length program
Rounds-end program n q r within rounds = omega (
  arith,
  Rounds-count program n q r within rounds,
  count_left-le_length q.already_compiled_functions program,
)
