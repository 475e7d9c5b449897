-- ===== src/Assembly/Emit/References.antt =====
-- The references to tags that the main loop of `Assembly::assemble` leaves open, in
-- libevmasm/Assembly.cpp.
use jules_solidity_pppascal.Common.{
  true, false, ◌<◌, ◌+◌, ◌≡◌, ◌∷◌, [], ◌^◌, All, ◌≤◌, arith, ◌⊎◌, ◌++◌, inr, inl, All-append, refl,
  subst, ok-injective, >>=-eq-ok, sym, ◌∙◌, ◌==◌, if◌then◌else◌, ℕ, List, get_elem?, suc,
}
use jules_solidity_pppascal.Assembly.{Fields, ok}
use jules_solidity_pppascal.Assembly.Emit.{
  Layout, emit_item, mark_first, Emitted, emit_items, size_of, undefined,
}
use jules_solidity_pppascal.Assembly.Emit.Jumpdests.{
  step_old, Placed, step_grows, mark, Outside, step_new, mark-Open, All-map, step_inside,
  emit_items-Kept,
}
use jules_solidity_pppascal.Assembly.Emit.Places.{Open, Step}
use jules_solidity_pppascal.Assembly.Emit.Steps.{emit_type-Step}
use jules_solidity_pppascal.AssemblyItem.{eq_type, AssemblyItemType, AssemblyItem, size_max, tag}
use jules_solidity_pppascal.Common.Dict.{insert}
use jules_solidity_pppascal.Common.Post.{option-Post, Post, ok-Post, if-Post}

abbrev pub Refs : Type 0
Refs = List (ℕ × (ℕ × ℕ))

-- References in order, each with `w` bytes to itself, from `from` on and up to `to`.
abbrev pub Ordered : ℕ → ℕ → ℕ → Refs → Type 0
Ordered w from to [] = Unit {0}
Ordered w from to ((place, target) ∷ refs) =
    (from ≤ place) × (place + w ≤ to) × Ordered w (place + w) to refs

-- Two stretches of code that share no byte.
abbrev pub Clear : ℕ → ℕ → ℕ → ℕ → Type 0
Clear w place q width = (q + width ≤ place) ⊎ (place + w ≤ q)

abbrev pub Anywhere : ℕ → ℕ → Type 0
Anywhere q w = Unit {0}

-- The byte before a reference is the instruction that pushes a tag.
abbrev pub Pushed : Layout → Emitted → ℕ × (ℕ × ℕ) → Type 0
Pushed l e ref = (k : ℕ) × (ref.0 ≡ suc k) × Placed l e k l.tag_push

pub record RefsInv (l : Layout) (e : Emitted) : Type 0 where
  pub inside : Open l (λ q w. q + w ≤ size_of e) (λ q w. q + w ≤ size_of e) e
  pub ordered : Ordered l.bytes_per_tag 0 (size_of e) e.tag_refs
  pub apart : All (λ ref. Open l Anywhere (Clear l.bytes_per_tag ref.0) e) e.tag_refs
  pub pushed : All (Pushed l e) e.tag_refs

pub Ordered-more :
    (w from to more : ℕ) (refs : Refs)
    → to ≤ more
    → Ordered w from to refs
    → Ordered w from more refs
Ordered-more w from to more [] h o = tt
Ordered-more w from to more ((place, target) ∷ refs) h (low, high, o) =
    (low, omega arith, Ordered-more w (place + w) to more refs h o)

Ordered-snoc :
    (w from to k more : ℕ) (target : ℕ × ℕ) (refs : Refs)
    → from ≤ k
    → to < k
    → k + w ≤ more
    → Ordered w from to refs
    → Ordered w from more (refs ++ (k, target) ∷ [])
Ordered-snoc w from to k more target [] low h high o = (low, high, tt)
Ordered-snoc w from to k more target ((place, other) ∷ refs) low h high (first, last, o) =
    (first, omega arith, Ordered-snoc w (place + w) to k more target refs (omega arith) h high o)

pub insert-snoc :
    (w from to k : ℕ) (target : ℕ × ℕ) (refs : Refs)
    → to < k
    → Ordered w from to refs
    → insert k target refs ≡ refs ++ (k, target) ∷ []
unfolding insert
insert-snoc w from to k target [] h o = refl
insert-snoc w from to k target ((place, other) ∷ refs) h (first, last, o) =
    ground (arith, insert-snoc w (place + w) to k target refs h o)

pub All-anywhere : {A : Type 0} (xs : List A) → All (λ x. Unit {0}) xs
All-anywhere [] = tt
All-anywhere (x ∷ xs) = (tt, All-anywhere xs)

pub Ordered-All :
    (w from to : ℕ) (refs : Refs) → Ordered w from to refs → All (λ ref. ref.0 + w ≤ to) refs
Ordered-All w from to [] o = tt
Ordered-All w from to ((place, target) ∷ refs) (low, high, o) =
    (high, Ordered-All w (place + w) to refs o)

All-both :
    {A : Type 0} (P Q R : A → Type 0) (xs : List A)
    → ((a : A) → P a → Q a → R a)
    → All P xs
    → All Q xs
    → All R xs
All-both P Q R [] h ps qs = tt
All-both P Q R (x ∷ xs) h (p, ps) (q, qs) = (h x p q, All-both P Q R xs h ps qs)

module _ (l : Layout) (e e' : Emitted) (s : Step l e e') (small : size_of e' < 2 ^ 32) where
  abbrev w : ℕ
  w = l.bytes_per_tag

  -- A reference before the new code stays apart from all that is left open.
  old-apart :
      (ref : ℕ × (ℕ × ℕ))
      → ref.0 + w ≤ size_of e
      → Open l Anywhere (Clear w ref.0) e
      → Open l Anywhere (Clear w ref.0) e'
  old-apart ref high o =
      s.opened small Anywhere (Clear w ref.0) (λ q width from to. tt)
        (λ q width from to. inr (omega arith)) o

  olds-apart : RefsInv l e → All (λ ref. Open l Anywhere (Clear w ref.0) e') e.tag_refs
  olds-apart v =
      All-both _ _ _ e.tag_refs old-apart (Ordered-All w 0 (size_of e) e.tag_refs v.ordered) v.apart

  olds-pushed : RefsInv l e → All (Pushed l e') e.tag_refs
  olds-pushed v =
      All-map _ _ e.tag_refs
        (λ ref (k, behind, old). (k, behind, step_old l e e' s small k l.tag_push old)) v.pushed

  new-apart :
      RefsInv l e
      → e'.data_refs ≡ e.data_refs
      → e'.sub_refs ≡ e.sub_refs
      → e'.size_refs ≡ e.size_refs
      → Open l Anywhere (Clear w (size_of e + 1)) e'
  new-apart v datas subs sizes = record {
    tags = All-anywhere e'.tag_refs;
    datas = rw datas (All-map _ _ e.data_refs (λ ref h. inl (omega arith)) v.inside.datas);
    subs = rw subs (All-map _ _ e.sub_refs (λ ref h. inl (omega arith)) v.inside.subs);
    sizes = rw sizes (All-map _ _ e.size_refs (λ place h. inl (omega arith)) v.inside.sizes);
  }

  step-RefsInv : RefsInv l e → RefsInv l e'
  step-RefsInv v = record {
    inside = step_inside l e e' s small v.inside;
    ordered = refs.0;
    apart = refs.1;
    pushed = refs.2;
  }
    where
      Good : Refs → Type 0
      Good refs =
          Ordered w 0 (size_of e') refs
          × All (λ ref. Open l Anywhere (Clear w ref.0) e') refs
          × All (Pushed l e') refs

      refs : Good e'.tag_refs
      refs = elim s.refs_step [
        | inl same ↦ subst Good (sym same) (
          Ordered-more w 0 (size_of e) (size_of e') e.tag_refs (step_grows l e e' s) v.ordered,
          olds-apart v,
          olds-pushed v,
        )
        | inr (target, added, room, datas, subs, sizes, first) ↦
            subst Good
              (sym (
                added
                ∙ insert-snoc w 0 (size_of e) (size_of e + 1) target e.tag_refs (omega arith)
                    v.ordered))
              (
                Ordered-snoc w 0 (size_of e) (size_of e + 1) (size_of e') target e.tag_refs
                    (omega arith) (omega arith) room v.ordered,
                All-append _ e.tag_refs _ (olds-apart v) (new-apart v datas subs sizes, tt),
                All-append (Pushed l e') e.tag_refs _ (olds-pushed v) (
                  (size_of e, omega arith, step_new l e e' s small l.tag_push v.inside first),
                  tt,
                ),
              )
      ]

mark-Placed : (l : Layout) (e : Emitted) (p v : ℕ) → Placed l e p v → Placed l (mark e) p v
mark-Placed l e p v old = record {
  here = old.here;
  clear = mark-Open l (Outside p) (Outside p) e old.clear;
}

mark-RefsInv : (l : Layout) (e : Emitted) → RefsInv l e → RefsInv l (mark e)
mark-RefsInv l e v = record {
  inside = mark-Open l _ _ e v.inside;
  ordered = v.ordered;
  apart =
      All-map _ _ e.tag_refs (λ ref. mark-Open l Anywhere (Clear l.bytes_per_tag ref.0) e) v.apart;
  pushed =
      All-map _ _ e.tag_refs (λ ref (k, behind, old). (k, behind, mark-Placed l e k l.tag_push old))
        v.pushed;
}

pub first-RefsInv :
    (t : AssemblyItemType) (l : Layout) (e : Emitted)
    → RefsInv l e
    → Post (λ e₁. RefsInv l e₁) (mark_first t e)
unfolding mark_first
first-RefsInv t l e v = if-Post (RefsInv l) (eq_type t tag) _ _ (ok-Post (RefsInv l) e v) (
    option-Post (RefsInv l) (get_elem? e.tag_positions 0) undefined _ λ first.
      ok-Post (RefsInv l) _
        (elim (first == size_max) as (λ b. RefsInv l (if b then mark e else e)) [
          | true ↦ mark-RefsInv l e v
          | false ↦ v
        ]))

pub item-RefsInv :
    (f : Fields) (l : Layout) (item : AssemblyItem) (e e' : Emitted)
    → RefsInv l e
    → emit_item f l item e ≡ ok e'
    → size_of e' < 2 ^ 32
    → RefsInv l e'
unfolding emit_item Post
item-RefsInv f l item e e' v done small =
    let (e₁, marked, emitted) = >>=-eq-ok (mark_first item.type e) _ done in
    step-RefsInv l e₁ e' (emit_type-Step f l item.type item e₁ e' emitted) small
      (first-RefsInv item.type l e v e₁ marked)

pub emit_items-RefsInv :
    (f : Fields) (l : Layout) (items : List AssemblyItem) (e e' : Emitted)
    → RefsInv l e
    → emit_items f l items e ≡ ok e'
    → size_of e' < 2 ^ 32
    → RefsInv l e'
unfolding emit_items
emit_items-RefsInv f l [] e e' v done small = subst (RefsInv l) (ok-injective done) v
emit_items-RefsInv f l (item ∷ items) e e' v done small =
    let (e₁, first, rest) = >>=-eq-ok (emit_item f l item e) _ done in
    let (later, _) = emit_items-Kept f l items e₁ e' rest in
    emit_items-RefsInv f l items e₁ e' (item-RefsInv f l item e e₁ v first (omega arith)) rest small
