-- ===== src/Assembly/Emit/Jumpdests.antt =====
-- The positions of tags in the main loop of `Assembly::assemble`, in libevmasm/Assembly.cpp.
use jules_solidity_pppascal.Common.{
  true, false, ◌<◌, ◌⊎◌, All, ◌^◌, inl, ◌+◌, ◌≤◌, ◌≡◌, arith, inr, [], ◌∷◌, ◌≢◌, length-append,
  subst, sym, refl, suc, zero, >>=-eq-ok, ok-injective, ◌==◌, if◌then◌else◌, get_elem?-append, ℕ,
  List, get_elem?,
}
use jules_solidity_pppascal.Assembly.{Fields, ok, tag}
use jules_solidity_pppascal.Assembly.Emit.{
  Emitted, size_of, Layout, emit_item, emit_items, mark_first, set, some, eq_type, undefined,
}
use jules_solidity_pppascal.Assembly.Emit.Places.{get_elem?-first, Open, Step}
use jules_solidity_pppascal.Assembly.Emit.Steps.{emit_type-Step}
use jules_solidity_pppascal.AssemblyItem.{AssemblyItem, tag, eq_type, size_max, AssemblyItemType}
use jules_solidity_pppascal.Common.Post.{if-Post, Post, ok-Post, option-Post}
use jules_solidity_pppascal.Instruction.Opcode

-- Not among the `w` bytes from `q` on.
abbrev pub Outside : ℕ → ℕ → ℕ → Type 0
Outside p q w = (p < q) ⊎ (q + w ≤ p)

-- Position `p` has the byte `v`, and no open place has it.
pub record Placed (l : Layout) (e : Emitted) (p v : ℕ) : Type 0 where
  pub here : get_elem? e.object.bytecode p ≡ some v
  pub clear : Open l (Outside p) (Outside p) e

-- Number 0 is not a tag; its entry is the position of no JUMPDEST.
pub record EmitInv (l : Layout) (e : Emitted) : Type 0 where
  pub marked :
      (i p : ℕ)
      → 0 < i
      → get_elem? e.tag_positions i ≡ some p
      → p ≢ size_max
      → Placed l e p Opcode.jumpdest
  pub inside : Open l (λ q w. q + w ≤ size_of e) (λ q w. q + w ≤ size_of e) e

pub All-map :
    {A : Type 0} (P Q : A → Type 0) (xs : List A) → ((a : A) → P a → Q a) → All P xs → All Q xs
All-map P Q [] h all = tt
All-map P Q (x ∷ xs) h (p, all) = (h x p, All-map P Q xs h all)

pub Open-map :
    (l : Layout) (P Q : ℕ → ℕ → Type 0) (e : Emitted)
    → ((q w : ℕ) → P q w → Q q w)
    → Open l P P e
    → Open l Q Q e
Open-map l P Q e h o = record {
  tags = All-map _ _ e.tag_refs (λ ref. h ref.0 l.bytes_per_tag) o.tags;
  datas = All-map _ _ e.data_refs (λ ref. h ref.1 l.bytes_per_data_ref) o.datas;
  subs = All-map _ _ e.sub_refs (λ ref. h ref.1 l.bytes_per_data_ref) o.subs;
  sizes = All-map _ _ e.size_refs (λ place. h place l.bytes_per_data_ref) o.sizes;
}

get_elem?-set :
    (xs : List ℕ) (t i v p : ℕ)
    → get_elem? (set xs t v) i ≡ some p
    → (get_elem? xs i ≡ some p) ⊎ ((i ≡ t) × (p ≡ v))
get_elem?-set [] t i v p h = inl h
get_elem?-set (x ∷ xs) zero zero v p h = inr (refl, cc)
get_elem?-set (x ∷ xs) zero (suc i) v p h = inl h
get_elem?-set (x ∷ xs) (suc t) zero v p h = inl h
get_elem?-set (x ∷ xs) (suc t) (suc i) v p h = ground (arith, get_elem?-set xs t i v p h)

module _ (l : Layout) (e e' : Emitted) (s : Step l e e') where
  pub step_grows : size_of e ≤ size_of e'
  step_grows = rw s.grown (omega (arith, length-append e.object.bytecode s.bytes))

module _ (l : Layout) (e e' : Emitted) (s : Step l e e') (small : size_of e' < 2 ^ 32) where
  pub step_inside :
      Open l (λ q w. q + w ≤ size_of e) (λ q w. q + w ≤ size_of e) e
      → Open l (λ q w. q + w ≤ size_of e') (λ q w. q + w ≤ size_of e') e'
  step_inside o =
      s.opened small (λ q w. q + w ≤ size_of e') (λ q w. q + w ≤ size_of e') (λ q w from to. to)
        (λ q w from to. to) (Open-map l _ _ e (λ q w h. omega (arith, step_grows l e e' s)) o)

  pub step_old : (p v : ℕ) → Placed l e p v → Placed l e' p v
  step_old p v old =
      let (low, kept) = get_elem?-append e.object.bytecode s.bytes p v old.here in
      record {
        here = rw s.grown kept;
        clear =
            s.opened small (Outside p) (Outside p) (λ q w from to. inl (omega arith))
              (λ q w from to. inl (omega arith)) old.clear;
      }

  -- The first byte of the new code.
  pub step_new :
      (v : ℕ)
      → Open l (λ q w. q + w ≤ size_of e) (λ q w. q + w ≤ size_of e) e
      → get_elem? e'.object.bytecode (size_of e) ≡ some v
      → Placed l e' (size_of e) v
  step_new v o first = record {
    here = first;
    clear =
        s.opened small (Outside (size_of e)) (Outside (size_of e)) (λ q w from to. inl from)
          (λ q w from to. inl from) (Open-map l _ _ e (λ q w h. inr h) o);
  }

  step-EmitInv : EmitInv l e → EmitInv l e'
  step-EmitInv v = record {
    marked = λ i p positive at real. elim s.tags_step [
      | inl same ↦ step_old p Opcode.jumpdest (v.marked i p positive (rw same at at) real)
      | inr (t, stored, only) ↦
          elim (get_elem?-set e.tag_positions t i (size_of e) p (rw stored at at)) [
            | inl old ↦ step_old p Opcode.jumpdest (v.marked i p positive old real)
            | inr (_, new) ↦
                subst (λ (q : ℕ). Placed l e' q Opcode.jumpdest) (sym new)
                  (step_new Opcode.jumpdest v.inside
                    (rw (s.grown, only) (get_elem?-first e.object.bytecode Opcode.jumpdest [])))
          ]
    ];
    inside = step_inside v.inside;
  }

abbrev pub mark : Emitted → Emitted
mark e = record e { tag_positions = set e.tag_positions 0 (size_of e) }

pub mark-Open :
    (l : Layout) (P Q : ℕ → ℕ → Type 0) (e : Emitted) → Open l P Q e → Open l P Q (mark e)
mark-Open l P Q e o = record { tags = o.tags; datas = o.datas; subs = o.subs; sizes = o.sizes }

mark-EmitInv : (l : Layout) (e : Emitted) → EmitInv l e → EmitInv l (mark e)
mark-EmitInv l e v = record {
  marked = λ i p positive at real. elim (get_elem?-set e.tag_positions 0 i (size_of e) p at) [
    | inl old ↦
        let placed = v.marked i p positive old real in
        record { here = placed.here; clear = mark-Open l (Outside p) (Outside p) e placed.clear }
    | inr (first, _) ↦ absurd (omega arith)
  ];
  inside = mark-Open l (λ q w. q + w ≤ size_of e) (λ q w. q + w ≤ size_of e) e v.inside;
}

abbrev Marks : Layout → Emitted → Emitted → Type 0
Marks l e e₁ = (size_of e₁ ≡ size_of e) × (EmitInv l e → EmitInv l e₁)

pub mark_first-Marks :
    (t : AssemblyItemType) (l : Layout) (e : Emitted) → Post (Marks l e) (mark_first t e)
unfolding mark_first
mark_first-Marks t l e =
    if-Post (Marks l e) (eq_type t tag) _ _ (ok-Post (Marks l e) e (refl, λ v. v)) (
      option-Post (Marks l e) (get_elem? e.tag_positions 0) undefined _ λ first.
        ok-Post (Marks l e) _
          (elim (first == size_max) as (λ b. Marks l e (if b then mark e else e)) [
            | true ↦ (refl, mark-EmitInv l e)
            | false ↦ (refl, λ v. v)
          ]))

abbrev Kept : Layout → Emitted → Emitted → Type 0
Kept l e e' = (size_of e ≤ size_of e') × (size_of e' < 2 ^ 32 → EmitInv l e → EmitInv l e')

Step-Kept : (l : Layout) (e e₁ e' : Emitted) → Marks l e e₁ → Step l e₁ e' → Kept l e e'
Step-Kept l e e₁ e' (same, marks) s =
    (omega (arith, same, step_grows l e₁ e' s), λ small v. step-EmitInv l e₁ e' s small (marks v))

emit_item-Kept :
    (f : Fields) (l : Layout) (item : AssemblyItem) (e : Emitted)
    → Post (Kept l e) (emit_item f l item e)
unfolding emit_item Post
emit_item-Kept f l item e e' done =
    let (e₁, marked, emitted) = >>=-eq-ok (mark_first item.type e) _ done in
    Step-Kept l e e₁ e' (mark_first-Marks item.type l e e₁ marked)
      (emit_type-Step f l item.type item e₁ e' emitted)

-- The main loop only appends to the code, and while the code is below 4 GB it keeps the invariant.
pub emit_items-Kept :
    (f : Fields) (l : Layout) (items : List AssemblyItem) (e e' : Emitted)
    → emit_items f l items e ≡ ok e'
    → Kept l e e'
unfolding emit_items Post
emit_items-Kept f l [] e e' done = subst (Kept l e) (ok-injective done) (omega arith, λ small v. v)
emit_items-Kept f l (item ∷ items) e e' done =
    let (e₁, first, rest) = >>=-eq-ok (emit_item f l item e) _ done in
    let (grows, keeps) = emit_item-Kept f l item e e₁ first in
    let (later, goes_on) = emit_items-Kept f l items e₁ e' rest in
    (omega arith, λ small v. goes_on small (keeps (omega arith) v))
