-- ===== src/Codegen/Stack/Slots.antt =====
-- One DUP, SWAP or POP of the code that libsolidity/codegen/CompilerUtils.cpp emits.
use Prim.Native.Nat.{ℕ, suc}
use jules_solidity_pppascal.Common.{
  none, some, List, ◌≡◌, ◌+◌, ◌-◌, [], sym, ap, ◌∷◌, ◌∙◌, arith, refl, ◌<◌, get_elem?, subst, set,
  ◌&&◌, false, true, if◌then◌else◌, ◌≤◌,
}
use jules_solidity_pppascal.Codegen.Context.{append_instruction, Context}
use jules_solidity_pppascal.Codegen.Machine.{push_of, perform, supports, perform_plain, exchange}
use jules_solidity_pppascal.Codegen.Stack.{append_dup, append_swap, leb}
use jules_solidity_pppascal.Codegen.Stack.Effects.{instruction-Runs, Runs}
use jules_solidity_pppascal.Common.Int.{pos}
use jules_solidity_pppascal.EvmVersion.{Version}
use jules_solidity_pppascal.Instruction.Info.{dup_instruction, swap_instruction}
use jules_solidity_pppascal.Instruction.Info.Families.{dup-HasShape, pop-HasShape, swap-HasShape}
use jules_solidity_pppascal.Instruction.Opcode.{Instruction}
use jules_solidity_pppascal.Instruction.Opcode

perform-dup :
    (n v : ℕ) (s : List ℕ) → n < 16 → get_elem? s n ≡ some v → perform (0x80 + n) s ≡ some (v ∷ s)
unfolding perform push_of
perform-dup n v s small found =
    let within : (leb Opcode.dup1 (0x80 + n) && leb (0x80 + n) Opcode.dup16) ≡ true =
      ground arith in
    ap
      (λ b.
        if b
        then push_of (get_elem? s (0x80 + n - Opcode.dup1)) s
        else if leb Opcode.swap1 (0x80 + n) && leb (0x80 + n) Opcode.swap16
        then exchange (0x80 + n - Opcode.swap1) s
        else perform_plain (0x80 + n) s)
      within
    ∙ ap (λ i. push_of (get_elem? s i) s) (omega arith)
    ∙ ap (λ o. push_of o s) found

made-dup : (n : ℕ) (c : Context) → n < 16 → append_dup (suc n) c ≡ append_instruction (0x80 + n) c
unfolding append_dup dup_instruction
made-dup n c small = ground arith

slot-supports : (v : Version) (inst : ℕ) → 0x20 ≤ inst → supports v inst ≡ true
unfolding supports
slot-supports v inst h = ground arith

perform-swap :
    (n x y : ℕ) (s : List ℕ)
    → n < 16
    → get_elem? s n ≡ some y
    → perform (0x90 + n) (x ∷ s) ≡ some (y ∷ set s n x)
unfolding perform exchange
perform-swap n x y s small found =
    let depth : 0x90 + n - Opcode.swap1 ≡ n = omega arith in
    let no_dup : (leb Opcode.dup1 (0x90 + n) && leb (0x90 + n) Opcode.dup16) ≡ false =
      ground arith in
    let within : (leb Opcode.swap1 (0x90 + n) && leb (0x90 + n) Opcode.swap16) ≡ true =
      ground arith in
    ap
      (λ b.
        if b
        then push_of (get_elem? (x ∷ s) (0x90 + n - Opcode.dup1)) (x ∷ s)
        else if leb Opcode.swap1 (0x90 + n) && leb (0x90 + n) Opcode.swap16
        then exchange (0x90 + n - Opcode.swap1) (x ∷ s)
        else perform_plain (0x90 + n) (x ∷ s))
      no_dup
    ∙ ap
        (λ b.
          if b
          then exchange (0x90 + n - Opcode.swap1) (x ∷ s)
          else perform_plain (0x90 + n) (x ∷ s))
        within
    ∙ ap (λ i. exchange i (x ∷ s)) depth
    ∙ ap (λ o. elim o [ none ↦ none | some v ↦ some (v ∷ set s n x) ]) found

made-swap : (n : ℕ) (c : Context) → n < 16 → append_swap (suc n) c ≡ append_instruction (0x90 + n) c
unfolding append_swap swap_instruction
made-swap n c small = ground arith

-- DUPn, SWAPn and POP
pub dup-Runs :
    (n h v : ℕ) (c : Context) (s : List ℕ)
    → n < 16
    → get_elem? s n ≡ some v
    → c.asm.current_deposit ≡ pos h
    → Runs (suc h) c s (v ∷ s) (append_dup (suc n) c)
unfolding append_dup dup_instruction
dup-Runs n h v c s small found height =
    let performed : perform (0x80 + n) s ≡ some (v ∷ s) = perform-dup n v s small found in
    let runs =
      instruction-Runs (0x80 + n) h (suc h) (suc n) (suc (suc n)) 0 c s (v ∷ s)
        (dup-HasShape n small) (omega arith) (omega arith) (omega arith) height
        (slot-supports c.evm_version (0x80 + n) (omega arith)) performed in
    subst (Runs (suc h) c s (v ∷ s)) (sym (made-dup n c small)) runs

pub swap-Runs :
    (n h x y : ℕ) (c : Context) (s : List ℕ)
    → n < 16
    → get_elem? s n ≡ some y
    → c.asm.current_deposit ≡ pos h
    → Runs h c (x ∷ s) (y ∷ set s n x) (append_swap (suc n) c)
swap-Runs n h x y c s small found height =
    let runs =
      instruction-Runs (0x90 + n) h h (suc (suc n)) (suc (suc n)) 0 c (x ∷ s) (y ∷ set s n x)
        (swap-HasShape n small) (omega arith) (omega arith) (omega arith) height
        (slot-supports c.evm_version (0x90 + n) (omega arith)) (perform-swap n x y s small found) in
    subst (Runs h c (x ∷ s) (y ∷ set s n x)) (sym (made-swap n c small)) runs

perform-pop : (x : ℕ) (s : List ℕ) → perform Opcode.pop (x ∷ s) ≡ some s
unfolding perform perform_plain
perform-pop x [] = refl
perform-pop x (y ∷ s) = refl

pub pop-Runs :
    (h x : ℕ) (c : Context) (s : List ℕ)
    → c.asm.current_deposit ≡ pos (suc h)
    → Runs h c (x ∷ s) s (append_instruction Opcode.pop c)
pop-Runs h x c s height =
    instruction-Runs Opcode.pop (suc h) h 1 0 0 c (x ∷ s) s pop-HasShape (omega arith) (omega arith)
      (omega arith) height (slot-supports c.evm_version Opcode.pop (omega arith)) (perform-pop x s)
