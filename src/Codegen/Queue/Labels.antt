-- ===== src/Codegen/Queue/Labels.antt =====
-- The labels of functions: `FunctionCompilationQueue::entryLabel` in
-- libsolidity/codegen/CompilerContext.cpp.
use jules_solidity_pppascal.Common.{
  none, some, inl, inr, true, false, ◌≡◌, ◌==◌, ◌⊎◌, refl, ◌++◌, ◌>>=◌, ap, sym, ◌∙◌, if◌then◌else◌,
  ==_self, Bool-cases, ==_iff, ◌<◌, ◌+◌, lt→ltb, ◌≢◌, arith, some-injective,
}
use jules_solidity_pppascal.Assembly.{new_tag}
use jules_solidity_pppascal.AssemblyItem.{tag, tag_of, typed_item, data_of, AssemblyItem}
use jules_solidity_pppascal.Codegen.Context.{Context, new_context_tag}
use jules_solidity_pppascal.Codegen.Queue.{
  entry_label, from_known, ℕ, List, Option, ok, insert, codes,
}
use jules_solidity_pppascal.Codegen.Queue.Steps.{with_label, is_labelled, Step, label_step}
use jules_solidity_pppascal.Common.Dict.{insert, lookup-insert, lookup}
use jules_solidity_pppascal.Common.Text.{codes}

-- Every label is a tag of the assembly that was given out, and no two functions have the same.
pub record HasLabels (c : Context) : Type 0 where
  pub tags :
      (g : ℕ) (label : AssemblyItem)
      → lookup g c.function_compilation_queue.entry_labels ≡ some label
      → (n : ℕ) × (label.type ≡ tag) × (label.payload ≡ some n) × (n < c.asm.used_tags)
  pub apart :
      (g g' : ℕ) (label label' : AssemblyItem)
      → g ≢ g'
      → lookup g c.function_compilation_queue.entry_labels ≡ some label
      → lookup g' c.function_compilation_queue.entry_labels ≡ some label'
      → label.payload ≢ label'.payload

-- The function has a label, and nothing happens.
abbrev pub Known : ℕ → Context → AssemblyItem × Context → Type 0
Known f c r =
    (label : AssemblyItem) × (lookup f c.function_compilation_queue.entry_labels ≡ some label)
    × (r.0.type ≡ tag)
    × (r.0.payload ≡ label.payload)
    × (r.1 ≡ c)

-- It has none: the next tag of the assembly becomes its label, and the function waits.
abbrev pub Made : ℕ → Context → AssemblyItem × Context → Type 0
Made f c r =
    (lookup f c.function_compilation_queue.entry_labels ≡ none)
    × (r.0.type ≡ tag)
    × (r.0.payload ≡ some c.asm.used_tags)
    × (r.1.asm ≡ record c.asm { used_tags = c.asm.used_tags + 1 })
    × (r.1.function_compilation_queue ≡ with_label f r.0 c.function_compilation_queue)

-- What the call leaves: the label that it returned is returned again and nothing more happens; the
-- labels of the other functions are what they were; and the queue made one step, or none.
pub record Labelled (f : ℕ) (name : List ℕ) (c : Context) (r : AssemblyItem × Context)
    : Type 0 where
  pub again : entry_label f name r.1 ≡ ok r
  pub labels :
      (g : ℕ)
      → lookup g r.1.function_compilation_queue.entry_labels ≡ (
          if f == g
          then lookup f r.1.function_compilation_queue.entry_labels
          else lookup g c.function_compilation_queue.entry_labels)
  pub steps :
      (r.1.function_compilation_queue ≡ c.function_compilation_queue)
      ⊎ Step c.function_compilation_queue r.1.function_compilation_queue
  pub origin : Known f c r ⊎ Made f c r
  pub kept : HasLabels r.1

unchanged :
    (f g : ℕ) (m : List (ℕ × AssemblyItem))
    → (if f == g then lookup f m else lookup g m) ≡ lookup g m
unchanged f g m = elim (Bool-cases (f == g)) [
  | inl same ↦
      ap (λ b. if b then lookup f m else lookup g m) same
      ∙ ap (λ x. lookup x m) ((==_iff f g).0 same)
  | inr other ↦ ap (λ b. if b then lookup f m else lookup g m) other
]

tag_of-tag :
    (label : AssemblyItem) (n : ℕ)
    → label.type ≡ tag
    → label.payload ≡ some n
    → tag_of label ≡ ok (typed_item tag n label.debug_info)
unfolding tag_of data_of
tag_of-tag label n is has = rw (is, has) refl

known-Labelled :
    (f : ℕ) (name : List ℕ) (c : Context) (label : AssemblyItem)
    → HasLabels c
    → lookup f c.function_compilation_queue.entry_labels ≡ some label
    → (r : AssemblyItem × Context) × (from_known f name c (some label) ≡ ok r) × Labelled f name c r
unfolding from_known entry_label typed_item
known-Labelled f name c label v is =
    let (n, type, payload, _) = v.tags f label is in
    let t = typed_item tag n label.debug_info in
    let tagged : (tag_of label >>= λ t. ok (t, c)) ≡ ok (t, c) =
      ap (λ m. m >>= λ t. ok (t, c)) (tag_of-tag label n type payload) in
    (
      (t, c),
      tagged,
      record {
        again = ap (from_known f name c) is ∙ tagged;
        labels = λ g. sym (unchanged f g c.function_compilation_queue.entry_labels);
        steps = inl refl;
        origin = inl (label, is, refl, sym payload, refl);
        kept = v;
      },
    )

new_label : List ℕ → Context → AssemblyItem
new_label name c = typed_item tag c.asm.used_tags (codes "declaration of function " ++ name)

made : ℕ → List ℕ → Context → Context
made f name c = record c {
  asm = record c.asm { used_tags = c.asm.used_tags + 1 };
  function_compilation_queue = with_label f (new_label name c) c.function_compilation_queue;
}

-- A label is the new one, or an old one.
after_insert :
    (f g : ℕ) (new label : AssemblyItem) (m : List (ℕ × AssemblyItem))
    → lookup g (insert f new m) ≡ some label
    → ((f ≡ g) × (new ≡ label)) ⊎ (lookup g m ≡ some label)
after_insert f g new label m h = elim (Bool-cases (f == g)) [
  | inl same ↦ inl (
    (==_iff f g).0 same,
    some-injective (
        ap (λ b. if b then some new else lookup g m) (sym same)
        ∙ sym (lookup-insert f g new m)
        ∙ h),
  )
  | inr other ↦
      inr (
        ap (λ b. if b then some new else lookup g m) (sym other)
        ∙ sym (lookup-insert f g new m)
        ∙ h)
]

made-HasLabels : (f : ℕ) (name : List ℕ) (c : Context) → HasLabels c → HasLabels (made f name c)
unfolding made new_label typed_item
made-HasLabels f name c v = record {
  tags = λ g label h. elim (after_insert f g (new_label name c) label _ h) [
    | inl (_, same) ↦
        (c.asm.used_tags, sym (ap (λ l. l.type) same), sym (ap (λ l. l.payload) same), omega arith)
    | inr old ↦
        (let (n, type, payload, below) = v.tags g label old in
          (n, type, payload, omega (arith, below)))
  ];
  apart = λ g g' label label' other h h'. elim (after_insert f g (new_label name c) label _ h) [
    | inl (here, same) ↦ (elim (after_insert f g' (new_label name c) label' _ h') [
      | inl (here', _) ↦ absurd (other (sym here ∙ here'))
      | inr old ↦ newer label label' (v.tags g' label' old) (ap (λ l. l.payload) same)
    ])
    | inr old ↦ (elim (after_insert f g' (new_label name c) label' _ h') [
      | inl (_, same) ↦
          λ e. newer label' label (v.tags g label old) (ap (λ l. l.payload) same) (sym e)
      | inr old' ↦ v.apart g g' label label' other old old'
    ])
  ];
}
  where
    newer :
        (label label' : AssemblyItem)
        → (n : ℕ) × (label'.type ≡ tag) × (label'.payload ≡ some n) × (n < c.asm.used_tags)
        → some c.asm.used_tags ≡ label.payload
        → label.payload ≢ label'.payload
    newer label label' (n, _, payload, below) new same =
        absurd (omega (arith, below, some-injective (new ∙ same ∙ payload)))

new-Labelled :
    (f : ℕ) (name : List ℕ) (c : Context)
    → HasLabels c
    → c.asm.used_tags < 0xffffffff
    → lookup f c.function_compilation_queue.entry_labels ≡ none
    → (r : AssemblyItem × Context) × (from_known f name c none ≡ ok r) × Labelled f name c r
unfolding from_known new_context_tag new_tag tag_of data_of typed_item entry_label is_labelled made
    new_label
new-Labelled f name c v room is =
    let labels = c.function_compilation_queue.entry_labels in
    let label = new_label name c in
    let written : lookup f (insert f label labels) ≡ some label =
      lookup-insert f f label labels
      ∙ ap (λ b. if b then some label else lookup f labels) (==_self f) in
    (
      (label, made f name c),
      rw (lt→ltb c.asm.used_tags 0xffffffff room) refl,
      record {
        again = ap (from_known f name (made f name c)) written;
        labels = λ g.
            lookup-insert f g label labels
            ∙ ap (λ o. if f == g then o else lookup g labels) (sym written);
        steps = inr (
            label_step c.function_compilation_queue f label
              (ap (λ o. elim o [ none ↦ false | some _ ↦ true ]) is));
        origin = inr (is, refl, refl, refl, refl);
        kept = made-HasLabels f name c v;
      },
    )

-- entryLabel, where every label is a tag of the assembly and no two functions share one, and the
-- assembly has a tag left: the call returns. If the function has a label, this is returned and
-- nothing happens. If it has none, its label is the next tag of the assembly, which no other
-- function has, and the function waits behind all others. The labels of other functions stay, the
-- labels are tags and apart as before, the queue makes one step or none, and a second call returns
-- the same label and changes nothing.
pub entry_label-Labelled :
    (f : ℕ) (name : List ℕ) (c : Context)
    → HasLabels c
    → c.asm.used_tags < 0xffffffff
    → (r : AssemblyItem × Context) × (entry_label f name c ≡ ok r) × Labelled f name c r
unfolding entry_label
entry_label-Labelled f name c v room =
    by_lookup (lookup f c.function_compilation_queue.entry_labels) refl
  where
    by_lookup :
        (o : Option AssemblyItem)
        → lookup f c.function_compilation_queue.entry_labels ≡ o
        → (r : AssemblyItem × Context) × (from_known f name c o ≡ ok r) × Labelled f name c r
    by_lookup none is = new-Labelled f name c v room is
    by_lookup (some label) is = known-Labelled f name c label v is
