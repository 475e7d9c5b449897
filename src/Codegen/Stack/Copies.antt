-- ===== src/Codegen/Stack/Copies.antt =====
-- Blocks of stack items that are copied, dropped and written to a variable: copyToStackTop,
-- popStackSlots and moveToStackVariable in libsolidity/codegen/CompilerUtils.cpp.
use jules_solidity_pppascal.Codegen.Context.Variables.{base_to_current-pos}
use jules_solidity_pppascal.Codegen.Stack.Effects.{info-Runs, Runs, ok-Runs, bind-Runs}
use jules_solidity_pppascal.Codegen.Stack.Moves.{
  snoc_assoc, get_elem?-middle, swap_middle-Runs, assert-Runs, snoc_view, recast-Runs, around-Runs,
}
use jules_solidity_pppascal.Codegen.Stack.{
  utils_info, pop_stack_slots, pops, move_to_stack_variable, append_dup, copies, copy_to_stack_top,
  swap_pops, append_swap, List, stack_too_deep, ok, Result, assert_throw, leb,
  internal_compiler_error,
}
use jules_solidity_pppascal.Codegen.Context.{
  VariableDeclaration, unsigned_mod, base_stack_offset_of_variable, base_to_current_stack_offset,
  append_instruction, Context,
}
use jules_solidity_pppascal.Common.Int.{pos}
use jules_solidity_pppascal.Common.Text.{codes}
use jules_solidity_pppascal.Codegen.Stack.Slots.{dup-Runs, pop-Runs}
use jules_solidity_pppascal.Common.{
  zero, suc, ◌≡◌, length, ◌+◌, ◌++◌, ◌≤◌, ◌∙◌, ap, arith, append-nil, [], sym, ◌∷◌, append_assoc,
  refl, length-append, get_elem?, subst, ◌<◌, ◌^◌, ◌-◌, ◌>>=◌, ◌>>◌, ℕ, ◌%◌,
}
use jules_solidity_pppascal.Instruction.Opcode

-- `front` is copied, its last item first, to where `done` already is.
copies-Runs :
    (m n h : ℕ) (done above front tail : List ℕ) (c : Context)
    → length front ≡ m
    → length done + length above + m ≡ n
    → n ≤ 16
    → c.asm.current_deposit ≡ pos h
    → Runs
        (h + m)
        c
        (done ++ (above ++ (front ++ tail)))
        ((front ++ done) ++ (above ++ (front ++ tail)))
        (copies m n c)
unfolding copies
copies-Runs zero n h done above [] tail c size total small height =
    ok-Runs (h + 0) c _ (height ∙ ap pos (omega arith))
copies-Runs zero n h done above (x ∷ front) tail c size total small height = ground arith
copies-Runs (suc m) zero h done above front tail c size total small height = ground arith
copies-Runs (suc m) (suc n) h done above front tail c size total small height =
    let (first, w, same, size') = snoc_view front m size in
    let parts : (r : List ℕ) → first ++ (w ∷ r) ≡ front ++ r =
      λ r. sym (snoc_assoc first r w) ∙ ap (λ l. l ++ r) (sym same) in
    let before : List ℕ = (done ++ above) ++ first in
    let flat : before ++ (w ∷ tail) ≡ done ++ (above ++ (front ++ tail)) =
      append_assoc (done ++ above) first (w ∷ tail)
      ∙ append_assoc done above (first ++ (w ∷ tail))
      ∙ ap (λ l. done ++ (above ++ l)) (parts tail) in
    let place : length before ≡ n =
      length-append (done ++ above) first
      ∙ ap (λ k. k + length first) (length-append done above)
      ∙ omega (arith, total, size') in
    bind-Runs (suc h) (h + suc m) c _ (w ∷ (done ++ (above ++ (front ++ tail)))) _
      (append_dup (suc n) c) _
      (dup-Runs n h w c _ (omega (arith, small))
        (ap (λ l. get_elem? l n) (sym flat)
          ∙ ap (λ k. get_elem? (before ++ (w ∷ tail)) k) (sym place)
          ∙ get_elem?-middle before tail w)
        height)
      λ f height'.
        subst
          (λ k.
            Runs k (record c { asm = f }) (w ∷ (done ++ (above ++ (front ++ tail))))
              ((front ++ done) ++ (above ++ (front ++ tail)))
              (copies m (suc n) (record c { asm = f })))
          (omega arith)
          (recast-Runs (suc h + m) (record c { asm = f }) _ _ _ _ _ _
            (ap (λ l. w ∷ (done ++ (above ++ l))) (parts tail))
            (ap (λ l. l ++ (above ++ (first ++ (w ∷ tail)))) (parts done)
              ∙ ap (λ l. (front ++ done) ++ (above ++ l)) (parts tail))
            refl
            (copies-Runs m (suc n) (suc h) (w ∷ done) above first (w ∷ tail) (record c { asm = f })
              size' (omega (arith, total)) small height'))

-- copyToStackTop copies a block, whose last item lies at most 16 deep, to the top.
pub copy_to_stack_top-Runs :
    (h : ℕ) (above block s : List ℕ) (c : Context)
    → length above + length block ≤ 16
    → c.asm.current_deposit ≡ pos h
    → Runs
        (h + length block)
        c
        (above ++ (block ++ s))
        (block ++ (above ++ (block ++ s)))
        (copy_to_stack_top (length above + length block) (length block) c)
unfolding copy_to_stack_top utils_info
copy_to_stack_top-Runs h above block s c small height =
    assert-Runs (h + length block) c _ _ _ stack_too_deep _ (ground arith) (
      info-Runs (h + length block) c _ _ _ _ (
        recast-Runs _ _ _ _ _ _ _ _ refl (ap (λ l. l ++ (above ++ (block ++ s))) (append-nil block))
          refl
          (copies-Runs (length block) (length above + length block) h [] above block s _ refl
            (omega arith) small height)))

pops-Runs :
    (h : ℕ) (block s : List ℕ) (c : Context)
    → c.asm.current_deposit ≡ pos (h + length block)
    → Runs h c (block ++ s) s (pops (length block) c)
unfolding pops
pops-Runs h [] s c height = ok-Runs h c s (height ∙ ap pos (omega arith))
pops-Runs h (x ∷ block) s c height =
    bind-Runs (h + length block) h c _ (block ++ s) _ (append_instruction Opcode.pop c) _
      (pop-Runs (h + length block) x c (block ++ s) (height ∙ ap pos (omega arith)))
      λ f height'. pops-Runs h block s (record c { asm = f }) height'

pub pop_stack_slots-Runs :
    (h : ℕ) (block s : List ℕ) (c : Context)
    → c.asm.current_deposit ≡ pos (h + length block)
    → Runs h c (block ++ s) s (pop_stack_slots (length block) c)
unfolding pop_stack_slots
pop_stack_slots-Runs h block s c height =
    around-Runs (h + length block) h c _ _ _ _ (pops (length block)) height
      λ d _ height'. pops-Runs h block s d height'

-- The items of a value, one by one, take the place of those of the variable.
swap_pops-Runs :
    (n h : ℕ) (value mid done old s : List ℕ) (c : Context)
    → length value ≡ length old
    → length value + length mid + length done ≡ n
    → n ≤ 16
    → c.asm.current_deposit ≡ pos (h + length value)
    → Runs h c
        (value ++ (mid ++ (done ++ (old ++ s))))
        (mid ++ (done ++ (value ++ s)))
        (swap_pops (length value) n c)
unfolding swap_pops
swap_pops-Runs n h [] mid done [] s c size total small height =
    ok-Runs h c _ (height ∙ ap pos (omega arith))
swap_pops-Runs n h [] mid done (o ∷ old) s c size total small height = ground arith
swap_pops-Runs n h (v ∷ value) mid done [] s c size total small height = ground arith
swap_pops-Runs zero h (v ∷ value) mid done (o ∷ old) s c size total small height = ground arith
swap_pops-Runs (suc n) h (v ∷ value) mid done (o ∷ old) s c size total small height =
    let between : List ℕ = value ++ (mid ++ done) in
    let flat : (r : List ℕ) → between ++ r ≡ value ++ (mid ++ (done ++ r)) =
      λ r. append_assoc value (mid ++ done) r ∙ ap (λ l. value ++ l) (append_assoc mid done r) in
    let place : length between ≡ n =
      length-append value (mid ++ done)
      ∙ ap (λ k. length value + k) (length-append mid done)
      ∙ omega (arith, total) in
    bind-Runs (h + suc (length value)) h c _ (o ∷ (value ++ (mid ++ (done ++ (v ∷ (old ++ s)))))) _
      (append_swap (suc n) c) _
      (recast-Runs _ c _ _ _ _ _ _ (ap (λ l. v ∷ l) (flat (o ∷ (old ++ s))))
        (ap (λ l. o ∷ l) (flat (v ∷ (old ++ s)))) refl
        (swap_middle-Runs n _ v o c between (old ++ s) place (omega (arith, small)) height))
      λ f height'.
        bind-Runs (h + length value) h (record c { asm = f }) _
          (value ++ (mid ++ (done ++ (v ∷ (old ++ s))))) _
          (append_instruction Opcode.pop (record c { asm = f })) _
          (pop-Runs (h + length value) o (record c { asm = f }) _ (height' ∙ ap pos (omega arith)))
          λ g height''.
            recast-Runs h (record c { asm = g }) _ _ _ _ _ _
              (ap (λ l. value ++ (mid ++ l)) (snoc_assoc done (old ++ s) v))
              (ap (λ l. mid ++ l) (snoc_assoc done (value ++ s) v)) refl
              (swap_pops-Runs (suc n) h value mid (done ++ v ∷ []) old s (record c { asm = g })
                (omega (arith, size))
                (ap (λ k. length value + length mid + k) (length-append done (v ∷ []))
                  ∙ omega (arith, total))
                small height'')

known-Runs :
    {X : Type 0} (h : ℕ) (c : Context) (s s' : List ℕ) (m : Result X) (k : X → Result Context)
    (x : X)
    → m ≡ ok x
    → Runs h c s s' (k x)
    → Runs h c s s' (m >>= k)
known-Runs h c s s' m k x same runs = subst (λ r. Runs h c s s' (r >>= k)) (sym same) runs

-- From the position of the variable on.
write-Runs :
    (h p : ℕ) (value mid old s : List ℕ) (size : ℕ) (c : Context)
    → length value ≡ size
    → length old ≡ size
    → 1 ≤ size
    → length value + length mid ≤ 16
    → p ≡ length value + length mid + length old - 1
    → c.asm.current_deposit ≡ pos (h + length value)
    → Runs h c (value ++ (mid ++ (old ++ s))) (mid ++ (value ++ s)) (
        assert_throw (leb size p) internal_compiler_error
        >> (assert_throw (leb ((p - size + 1) % unsigned_mod) 16) stack_too_deep
            >> swap_pops size ((p - size + 1) % unsigned_mod) c))
write-Runs h p value mid old s size c same same' some_items small position height =
    let depth : length value + length mid + 0 ≡ (p - size + 1) % unsigned_mod =
      omega (arith, same, same', some_items, position, small) in
    assert-Runs h c _ _ _ internal_compiler_error _ (ground arith) (
      assert-Runs h c _ _ _ stack_too_deep _ (ground (arith, depth, small)) (
        recast-Runs h c _ _ _ _ _ _ refl refl
          (ap (λ k. swap_pops k ((p - size + 1) % unsigned_mod) c) same)
          (swap_pops-Runs ((p - size + 1) % unsigned_mod) h value mid [] old s c (same ∙ sym same')
            depth (omega (arith, depth, small)) height)))

-- moveToStackVariable, for a variable that takes one slot or more, whose offset is known and has its
-- slots at that offset from the base of a stack of fewer than 2^32 slots: if the value on the top
-- and what lies between it and the variable have at most 16 slots together, the call returns, and
-- the code that it appends puts the value in the place of the variable's slots and leaves all other
-- slots.
pub move_to_stack_variable-Runs :
    (h offset : ℕ) (v : VariableDeclaration) (value mid old s : List ℕ) (c : Context)
    → base_stack_offset_of_variable v.address c ≡ ok offset
    → length value ≡ v.size_on_stack
    → length old ≡ v.size_on_stack
    → 1 ≤ v.size_on_stack
    → h + length value ≡ offset + length value + length mid + length old
    → length value + length mid ≤ 16
    → h + length value < 2 ^ 32
    → c.asm.current_deposit ≡ pos (h + length value)
    → Runs h c (value ++ (mid ++ (old ++ s))) (mid ++ (value ++ s)) (move_to_stack_variable v c)
unfolding move_to_stack_variable utils_info
move_to_stack_variable-Runs h offset v value mid old s c known size size' some_items place small
      fits height =
    let d = utils_info (codes "moveToStackVariable(" ++ v.variable_name ++ codes ")") c in
    let p = base_to_current_stack_offset offset d in
    let position : p ≡ length value + length mid + length old - 1 =
      base_to_current-pos (h + length value) offset d height fits
        (omega (arith, place, size', some_items))
      ∙ omega (arith, place) in
    info-Runs h c _ _ _ _ (
      known-Runs h d _ _ _ _ offset (unfold base_stack_offset_of_variable in known) (
        write-Runs h p value mid old s v.size_on_stack d size size' some_items small position
          height))
