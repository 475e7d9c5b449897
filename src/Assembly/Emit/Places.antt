-- ===== src/Assembly/Emit/Places.antt =====
-- One round of the main loop of `Assembly::assemble`, in libevmasm/Assembly.cpp: the new code, and the
-- places in it that are left open.
use native.Mathlib.Nat.{mod-eq_of_lt}
use jules_solidity_pppascal.Common.{
  ◌<◌, inl, All, ◌^◌, ◌≡◌, ◌+◌, [], ◌≤◌, ◌++◌, ◌⊎◌, ◌∷◌, arith, subst, refl, inr, ◌%◌, append_assoc,
  length-append, sym, All-append, length-replicate, ap, ◌∙◌,
}
use jules_solidity_pppascal.Assembly.{ℕ, List, length, some}
use jules_solidity_pppascal.Assembly.Emit.{
  size_of, Emitted, insert_multi, Layout, put, set, replicate, get_elem?,
}
use jules_solidity_pppascal.Common.Dict.{insert}
use jules_solidity_pppascal.Instruction.Opcode

-- Of every place that is left open and its width, `P` holds if it is for a tag and `Q` otherwise.
pub record Open (l : Layout) (P Q : ℕ → ℕ → Type 0) (e : Emitted) : Type 0 where
  pub tags : All (λ ref. P ref.0 l.bytes_per_tag) e.tag_refs
  pub datas : All (λ ref. Q ref.1 l.bytes_per_data_ref) e.data_refs
  pub subs : All (λ ref. Q ref.1 l.bytes_per_data_ref) e.sub_refs
  pub sizes : All (λ place. Q place l.bytes_per_data_ref) e.size_refs

abbrev Between : (ℕ → ℕ → Type 0) → ℕ → ℕ → Type 0
Between P from to = (q w : ℕ) → from < q → q + w ≤ to → P q w

-- The tags' positions after a round in which `bytes` were written at `from`.
abbrev pub TagsStep : ℕ → List ℕ → List ℕ → List ℕ → Type 0
TagsStep from bytes old new =
    (new ≡ old) ⊎ ((t : ℕ) × (new ≡ set old t from) × (bytes ≡ Opcode.jumpdest ∷ []))

-- The references to tags after a round: the old ones, or these and one in the new code behind
-- the instruction that pushes it, and then nothing else is left open in it.
abbrev pub RefsStep : Layout → Emitted → Emitted → Type 0
RefsStep l e e' =
    (e'.tag_refs ≡ e.tag_refs)
    ⊎ ((target : ℕ × ℕ) × (e'.tag_refs ≡ insert (size_of e + 1) target e.tag_refs)
        × (size_of e + 1 + l.bytes_per_tag ≤ size_of e')
        × (e'.data_refs ≡ e.data_refs)
        × (e'.sub_refs ≡ e.sub_refs)
        × (e'.size_refs ≡ e.size_refs)
        × (get_elem? e'.object.bytecode (size_of e) ≡ some l.tag_push))

pub record Step (l : Layout) (e e' : Emitted) : Type 1 where
  pub bytes : List ℕ
  pub grown : e'.object.bytecode ≡ e.object.bytecode ++ bytes
  pub opened :
      size_of e' < 2 ^ 32
      → (P Q : ℕ → ℕ → Type 0) → Between P (size_of e) (size_of e')
      → Between Q (size_of e) (size_of e')
      → Open l P Q e
      → Open l P Q e'
  pub refs_step : RefsStep l e e'
  pub tags_step : TagsStep (size_of e) bytes e.tag_positions e'.tag_positions

All-insert :
    {V : Type 0} (P : ℕ × V → Type 0) (k : ℕ) (v : V) (m : List (ℕ × V))
    → P (k, v)
    → All P m
    → All P (insert k v m)
unfolding insert
All-insert P k v [] p h = (p, tt)
All-insert P k v ((j, w) ∷ m) p (q, h) = ground (arith, All-insert P k v m p h)

All-insert_multi :
    (P : ℕ × ℕ → Type 0) (k v : ℕ) (m : List (ℕ × ℕ))
    → P (k, v)
    → All P m
    → All P (insert_multi k v m)
unfolding insert_multi
All-insert_multi P k v [] p h = (p, tt)
All-insert_multi P k v ((j, w) ∷ m) p (q, h) = ground (arith, All-insert_multi P k v m p h)

pub put-Step : (l : Layout) (e : Emitted) (bytes : List ℕ) → Step l e (put bytes e)
put-Step l e bytes = record {
  bytes = bytes;
  grown = refl;
  opened = λ small P Q new new_q o. record {
    tags = o.tags;
    datas = o.datas;
    subs = o.subs;
    sizes = o.sizes;
  };
  refs_step = inl refl;
  tags_step = inl refl;
}

pub assign-Step :
    (l : Layout) (e : Emitted) (bytes : List ℕ) (rest : List (ℕ × (List ℕ × List ℕ)))
    → Step l e (put bytes (record e { unassigned = rest }))
assign-Step l e bytes rest = record {
  bytes = bytes;
  grown = refl;
  opened = λ small P Q new new_q o. record {
    tags = o.tags;
    datas = o.datas;
    subs = o.subs;
    sizes = o.sizes;
  };
  refs_step = inl refl;
  tags_step = inl refl;
}

pub get_elem?-first :
    (xs : List ℕ) (y : ℕ) (ys : List ℕ) → get_elem? (xs ++ y ∷ ys) (length xs) ≡ some y
get_elem?-first [] y ys = refl
get_elem?-first (x ∷ xs) y ys = get_elem?-first xs y ys

-- The code of a reference: the instruction that pushes it, and room for it.
abbrev pub with_room : List ℕ → ℕ → ℕ → List ℕ
with_room code inst w = (code ++ inst ∷ []) ++ replicate w 0

room-grown : (code : List ℕ) (inst w : ℕ) → with_room code inst w ≡ code ++ inst ∷ replicate w 0
room-grown code inst w = append_assoc code (inst ∷ []) (replicate w 0)

pub room-length :
    (code : List ℕ) (inst w : ℕ)
    → (length (code ++ inst ∷ []) ≡ length code + 1)
      × (length (with_room code inst w) ≡ length code + 1 + w)
room-length code inst w =
    let one = length-append code (inst ∷ []) in
    (
      omega (arith, one),
      omega (
        arith,
        one,
        length-append (code ++ inst ∷ []) (replicate w 0),
        length-replicate {A = ℕ} w 0,
      ),
    )

room-new :
    (P : ℕ → ℕ → Type 0) (code : List ℕ) (inst w : ℕ)
    → Between P (length code) (length (with_room code inst w))
    → P (length (code ++ inst ∷ [])) w
room-new P code inst w new =
    let (place, all) = room-length code inst w in
    new (length (code ++ inst ∷ [])) w (omega (arith, place)) (omega (arith, place, all))

-- The same with the place cut to 32 bits, which loses nothing in code below 4 GB.
room-new_mod :
    (P : ℕ → ℕ → Type 0) (code : List ℕ) (inst w : ℕ)
    → length (with_room code inst w) < 2 ^ 32
    → Between P (length code) (length (with_room code inst w))
    → P (length (code ++ inst ∷ []) % 2 ^ 32) w
room-new_mod P code inst w small new =
    let (place, all) = room-length code inst w in
    subst (λ (q : ℕ). P q w)
      (sym (mod-eq_of_lt {n = length (code ++ inst ∷ [])} {m = 2 ^ 32} (omega (arith, place, all))))
      (room-new P code inst w new)

module _ (l : Layout) (e : Emitted) (inst : ℕ) where
  abbrev pushed : Emitted
  pushed = put (inst ∷ []) e

  pub push_tag-Step :
      (target : ℕ × ℕ)
      → inst ≡ l.tag_push
      → Step l e (
          put
            (replicate l.bytes_per_tag 0)
            (record pushed { tag_refs = insert (size_of pushed) target e.tag_refs }))
  push_tag-Step target pushes = record {
    bytes = inst ∷ replicate l.bytes_per_tag 0;
    grown = room-grown e.object.bytecode inst l.bytes_per_tag;
    opened = λ small P Q new new_q o. record {
      tags =
          All-insert (λ ref. P ref.0 l.bytes_per_tag) (size_of pushed) target e.tag_refs
            (room-new P e.object.bytecode inst l.bytes_per_tag new) o.tags;
      datas = o.datas;
      subs = o.subs;
      sizes = o.sizes;
    };
    refs_step =
        let (place, all) = room-length e.object.bytecode inst l.bytes_per_tag in
        inr (
          target,
          ap (λ (q : ℕ). insert q target e.tag_refs) place,
          omega (arith, all),
          refl,
          refl,
          refl,
          rw (room-grown e.object.bytecode inst l.bytes_per_tag) (
              get_elem?-first e.object.bytecode inst (replicate l.bytes_per_tag 0)
              ∙ ap some pushes),
        );
    tags_step = inl refl;
  }

  pub push_data-Step :
      (h : ℕ)
      → Step l e (
          put
            (replicate l.bytes_per_data_ref 0)
            (record pushed { data_refs = insert_multi h (size_of pushed % 2 ^ 32) e.data_refs }))
  push_data-Step h = record {
    bytes = inst ∷ replicate l.bytes_per_data_ref 0;
    grown = room-grown e.object.bytecode inst l.bytes_per_data_ref;
    opened = λ small P Q new new_q o. record {
      tags = o.tags;
      datas =
          All-insert_multi (λ ref. Q ref.1 l.bytes_per_data_ref) h (size_of pushed % 2 ^ 32)
            e.data_refs (room-new_mod Q e.object.bytecode inst l.bytes_per_data_ref small new_q)
            o.datas;
      subs = o.subs;
      sizes = o.sizes;
    };
    refs_step = inl refl;
    tags_step = inl refl;
  }

  pub push_sub-Step :
      (sub : ℕ)
      → Step l e (
          put
            (replicate l.bytes_per_data_ref 0)
            (record pushed { sub_refs = insert_multi sub (size_of pushed) e.sub_refs }))
  push_sub-Step sub = record {
    bytes = inst ∷ replicate l.bytes_per_data_ref 0;
    grown = room-grown e.object.bytecode inst l.bytes_per_data_ref;
    opened = λ small P Q new new_q o. record {
      tags = o.tags;
      datas = o.datas;
      subs =
          All-insert_multi (λ ref. Q ref.1 l.bytes_per_data_ref) sub (size_of pushed) e.sub_refs
            (room-new Q e.object.bytecode inst l.bytes_per_data_ref new_q) o.subs;
      sizes = o.sizes;
    };
    refs_step = inl refl;
    tags_step = inl refl;
  }

  pub push_program_size-Step : Step l e (
      put
        (replicate l.bytes_per_data_ref 0)
        (record pushed { size_refs = e.size_refs ++ (size_of pushed % 2 ^ 32) ∷ [] }))
  push_program_size-Step = record {
    bytes = inst ∷ replicate l.bytes_per_data_ref 0;
    grown = room-grown e.object.bytecode inst l.bytes_per_data_ref;
    opened = λ small P Q new new_q o. record {
      tags = o.tags;
      datas = o.datas;
      subs = o.subs;
      sizes =
          All-append (λ place. Q place l.bytes_per_data_ref) e.size_refs
            ((size_of pushed % 2 ^ 32) ∷ []) o.sizes
            (room-new_mod Q e.object.bytecode inst l.bytes_per_data_ref small new_q, tt);
    };
    refs_step = inl refl;
    tags_step = inl refl;
  }

  -- The references that the linked object keeps are not among the open places.
  pub push_address-Step :
      (w : ℕ) (links : List (ℕ × List ℕ)) (immutables : List (ℕ × (List ℕ × List ℕ)))
      → Step l e (
          put (replicate w 0) (record pushed {
            object = record pushed.object {
              link_references = links;
              immutable_references = immutables;
            };
          }))
  push_address-Step w links immutables = record {
    bytes = inst ∷ replicate w 0;
    grown = room-grown e.object.bytecode inst w;
    opened = λ small P Q new new_q o. record {
      tags = o.tags;
      datas = o.datas;
      subs = o.subs;
      sizes = o.sizes;
    };
    refs_step = inl refl;
    tags_step = inl refl;
  }

pub place-Step :
    (l : Layout) (e : Emitted) (t : ℕ)
    → Step l e (
        put (Opcode.jumpdest ∷ []) (record e { tag_positions = set e.tag_positions t (size_of e) }))
place-Step l e t = record {
  bytes = Opcode.jumpdest ∷ [];
  grown = refl;
  opened = λ small P Q new new_q o. record {
    tags = o.tags;
    datas = o.datas;
    subs = o.subs;
    sizes = o.sizes;
  };
  refs_step = inl refl;
  tags_step = inr (t, refl, refl);
}
