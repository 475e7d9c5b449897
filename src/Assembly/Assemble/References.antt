-- ===== src/Assembly/Assemble/References.antt =====
-- The references to tags in the finished code of `Assembly::assemble`, in libevmasm/Assembly.cpp.
use jules_solidity_pppascal.Assembly.Assemble.Fills.{
  add_bytes-Passing, fill_data-Passing, fill_tags-Passing, fill_sizes-Passing, Passing,
}
use jules_solidity_pppascal.Assembly.Assemble.{
  fill_tag, fill_tags, fill, fill_sizes, fill_data, positions_for, ℕ, List, ok, length, some, not,
  true, false, assembly_exception, leb, add_bytes,
}
use jules_solidity_pppascal.Assembly.Emit.Places.{Open}
use jules_solidity_pppascal.LinkerObject.{LinkerObject}
use jules_solidity_pppascal.Assembly.Emit.References.{Clear, Ordered, Refs, Anywhere}
use jules_solidity_pppascal.CommonData.Endian.Laws.{bytes_required_le, length-to_big_endian}
use jules_solidity_pppascal.CommonData.Endian.{to_big_endian, bytes_required}
use jules_solidity_pppascal.Common.Rose.{Rose, child?, root, Roses, nil, cons}
use jules_solidity_pppascal.Common.Buffer.{
  slice-write_outside, slice-write_self, length-write, write,
}
use jules_solidity_pppascal.Assembly.Emit.{Output, Layout, Emitted}
use jules_solidity_pppascal.AssemblyItem.{size_max}
use jules_solidity_pppascal.Assembly.{Fields, cons}
use jules_solidity_pppascal.Common.Post.{Post}
use jules_solidity_pppascal.Assembly.Assemble.Jumps.{fill-written}
use jules_solidity_pppascal.Common.{
  zero, suc, [], ◌∷◌, ◌≡◌, ◌∙◌, arith, take, ◌+◌, ◌≤◌, drop, length-append, ◌++◌, refl, subst, ◌==◌,
  ◌<◌, >>=-eq-ok, Option-cases, ◌^◌, inl, inr, assert-eq-ok, leb→le, All, ap, ok-injective, Bool,
  get_elem?, ◌⊎◌, Bool-cases, ◌≢◌, ==_iff, some-injective, sym,
}

slice-append :
    (j n : ℕ) (xs ys : List ℕ) → j + n ≤ length xs → take n (drop j (xs ++ ys)) ≡ take n (drop j xs)
slice-append zero zero xs ys h = refl
slice-append zero (suc n) [] ys h = absurd (omega arith)
slice-append zero (suc n) (x ∷ xs) ys h = ap (λ t. x ∷ t) (slice-append zero n xs ys (omega arith))
slice-append (suc j) n [] ys h = absurd (omega arith)
slice-append (suc j) n (x ∷ xs) ys h = slice-append j n xs ys (omega arith)

-- The `w` bytes from `place` on are within the code after as before, and the same.
abbrev pub Stays : ℕ → ℕ → LinkerObject → LinkerObject → Type 0
Stays place w o o' =
    place + w ≤ length o.bytecode
    → (place + w ≤ length o'.bytecode)
      × (take w (drop place o'.bytecode) ≡ take w (drop place o.bytecode))

fill-Stays :
    (place w q width v : ℕ) (o : LinkerObject)
    → Clear w place q width
    → Post (Stays place w o) (fill q width v o)
unfolding Post
fill-Stays place w q width v o clear o' done room =
    let written = fill-written q width v o o' done in
    let bytes = to_big_endian width v in
    (
      rw (written, length-write q bytes o.bytecode) room,
      rw written (
          slice-write_outside q place w bytes o.bytecode
            (omega (arith, length-to_big_endian width v))),
    )

Stays-Passing : (place w : ℕ) → Passing (Stays place w) (Clear w place)
Stays-Passing place w = record {
  unchanged = λ o room. (room, refl);
  both = λ o o₁ o' first second room.
      let (room₁, same₁) = first room in
      let (room₂, same₂) = second room₁ in (room₂, same₂ ∙ same₁);
  behind = λ o o' bytes grown room. (
    rw grown (omega (arith, length-append o.bytecode bytes)),
    rw grown (slice-append place w o.bytecode bytes room),
  );
  filled = λ q width v o clear. fill-Stays place w q width v o clear;
}

-- A tree is the child with the given number, counted from 0.
pub data IsChild {A : Type 0} : ℕ → Rose A → Roses A → Type 0 where
  foremost : {r : Rose A} {rs : Roses A} → IsChild 0 r (cons r rs)
  beyond : {i : ℕ} {r s : Rose A} {rs : Roses A} → IsChild i r rs → IsChild (suc i) r (cons s rs)

child?-IsChild :
    {A : Type 0} (rs : Roses A) (i : ℕ) (r : Rose A) → child? rs i ≡ some r → IsChild i r rs
child?-IsChild nil i r h = cc
child?-IsChild (cons s rs) zero r h =
    subst (λ t. IsChild 0 t (cons s rs)) (some-injective h) foremost
child?-IsChild (cons s rs) (suc i) r h = beyond (child?-IsChild rs i r h)

-- The positions of the tags of the assembly itself, if the number is the largest size, and otherwise
-- of the sub-assembly with that number.
abbrev pub TableOf : List ℕ → Roses Output → ℕ → List ℕ → Type 0
TableOf own subs sub_id positions =
    ((sub_id ≡ size_max) × (positions ≡ own))
    ⊎ ((sub_id ≢ size_max)
        × ((sub : Rose Output) × IsChild sub_id sub subs × (positions ≡ (root sub).tag_positions)))

positions_for-TableOf :
    (sub_id : ℕ) (own : List ℕ) (subs : Roses Output) (positions : List ℕ)
    → positions_for sub_id own subs ≡ ok positions
    → TableOf own subs sub_id positions
unfolding positions_for
positions_for-TableOf sub_id own subs positions h = elim (Bool-cases (sub_id == size_max)) [
  | inl same ↦ inl ((==_iff sub_id size_max).0 same, sym (ok-injective (rw same at h)))
  | inr other ↦ inr (
    (λ e. cc (other, (==_iff sub_id size_max).1 e)),
    elim (Option-cases (child? subs sub_id)) [
      | inl missing ↦ cc (rw (other, missing) at h)
      | inr (sub, is) ↦
          (sub, child?-IsChild subs sub_id sub is, sym (ok-injective (rw (other, is) at h)))
    ],
  )
]

-- The reference is to a tag that has a position in its table, and the code has that position where
-- the reference stands.
pub record Resolved (l : Layout) (own code : List ℕ) (ref : ℕ × (ℕ × ℕ)) : Type 0 where
  pub positions : List ℕ
  pub position : ℕ
  pub table : TableOf own l.subs ref.1.0 positions
  pub listed : get_elem? positions ref.1.1 ≡ some position
  pub known : (position == size_max) ≡ false
  pub fits : position < 256 ^ l.bytes_per_tag
  pub there : take l.bytes_per_tag (drop ref.0 code) ≡ to_big_endian l.bytes_per_tag position

module _ (l : Layout) (own : List ℕ) where
  abbrev w : ℕ
  w = l.bytes_per_tag

  pub Resolved-kept :
      (ref : ℕ × (ℕ × ℕ)) (code code' : List ℕ)
      → take w (drop ref.0 code') ≡ take w (drop ref.0 code)
      → Resolved l own code ref
      → Resolved l own code' ref
  Resolved-kept ref code code' same r = record {
    positions = r.positions;
    position = r.position;
    table = r.table;
    listed = r.listed;
    known = r.known;
    fits = r.fits;
    there = same ∙ r.there;
  }

  filled-there :
      (place p : ℕ) (o o' : LinkerObject)
      → place + w ≤ length o.bytecode
      → o'.bytecode ≡ write place (to_big_endian w p) o.bytecode
      → take w (drop place o'.bytecode) ≡ to_big_endian w p
  filled-there place p o o' room written = rw written (
      subst
        (λ (n : ℕ).
          take n (drop place (write place (to_big_endian w p) o.bytecode)) ≡ to_big_endian w p)
        (length-to_big_endian w p)
        (slice-write_self place (to_big_endian w p) o.bytecode
          (omega (arith, length-to_big_endian w p))))

  fill_tag-Resolved :
      (ref : ℕ × (ℕ × ℕ)) (o : LinkerObject)
      → ref.0 + w ≤ length o.bytecode
      → Post
          (λ o'. (length o'.bytecode ≡ length o.bytecode) × Resolved l own o'.bytecode ref)
          (fill_tag l own ref o)
  unfolding fill_tag Post
  fill_tag-Resolved (place, (sub_id, t)) o room o' done =
      let (positions, table, looking) = >>=-eq-ok (positions_for sub_id own l.subs) _ done in
      elim (Option-cases (get_elem? positions t)) [
        | inl missing ↦ cc (rw missing at looking)
        | inr (p, listed) ↦
            let (known, sizing) =
              assert-eq-ok (not (p == size_max)) assembly_exception _ (rw listed at looking) in
            let (small, filling) =
              assert-eq-ok (leb (bytes_required p) w) assembly_exception _ sizing in
            let written = fill-written place w p o o' filling in
            (
              rw (written, length-write place (to_big_endian w p) o.bytecode) refl,
              record {
                positions = positions;
                position = p;
                table = positions_for-TableOf sub_id own l.subs positions table;
                listed = listed;
                known = not-false (p == size_max) known;
                fits = (bytes_required_le p w).0 (leb→le (bytes_required p) w small);
                there = filled-there place p o o' room written;
              },
            )
      ]
    where
      not-false : (b : Bool) → not b ≡ true → b ≡ false
      not-false b h = ground arith

later-Clear :
    (w place from to : ℕ) (refs : Refs)
    → place + w ≤ from
    → Ordered w from to refs
    → All (λ ref. Clear w place ref.0 w) refs
later-Clear w place from to [] h o = tt
later-Clear w place from to ((next, target) ∷ refs) h (low, high, o) =
    (inr (omega arith), later-Clear w place (next + w) to refs (omega arith) o)

module _ (f : Fields) (l : Layout) (own : List ℕ) where
  pub fill_tags-Resolved :
      (from to : ℕ) (refs : Refs) (o : LinkerObject)
      → Ordered l.bytes_per_tag from to refs
      → to ≤ length o.bytecode
      → Post
          (λ o'. (length o.bytecode ≤ length o'.bytecode) × All (Resolved l own o'.bytecode) refs)
          (fill_tags l own refs o)
  unfolding fill_tags Post
  fill_tags-Resolved from to [] o order room o' done =
      (omega (arith, ap (λ (x : LinkerObject). length x.bytecode) (ok-injective done)), tt)
  fill_tags-Resolved from to ((place, target) ∷ refs) o (low, high, order) room o' done =
      let (o₁, first, rest) = >>=-eq-ok (fill_tag l own (place, target) o) _ done in
      let (same, here) = fill_tag-Resolved l own (place, target) o (omega arith) o₁ first in
      let (grows, later) =
        fill_tags-Resolved (place + l.bytes_per_tag) to refs o₁ order (omega arith) o' rest in
      let (_, kept) =
        fill_tags-Passing f l (Stays place l.bytes_per_tag) (Clear l.bytes_per_tag place)
          (Stays-Passing place l.bytes_per_tag) own refs o₁
          (later-Clear l.bytes_per_tag place (place + l.bytes_per_tag) to refs (omega arith) order)
          o' rest (omega arith) in
      (omega arith, (Resolved-kept l own (place, target) o₁.bytecode o'.bytecode kept here, later))

-- The passes behind the one over the tags.
module _ (f : Fields) (l : Layout) (e : Emitted) (o₂ o₃ o₄ : LinkerObject) where
  pub behind-Stays :
      (place w : ℕ)
      → Open l Anywhere (Clear w place) e
      → fill_data l.bytes_per_data_ref e.data_refs f.data_blocks o₂ ≡ ok o₃
      → fill_sizes l.bytes_per_data_ref e.size_refs (add_bytes f.auxiliary_data o₃) ≡ ok o₄
      → Stays place w o₂ o₄
  unfolding Post
  behind-Stays place w o datas sizes room =
      let pass = Stays-Passing place w in
      pass.both o₂ o₃ o₄
        (fill_data-Passing f l (Stays place w) (Clear w place) pass e.data_refs f.data_blocks o₂
          o.datas o₃ datas)
        (pass.both o₃ (add_bytes f.auxiliary_data o₃) o₄
          (add_bytes-Passing f l (Stays place w) (Clear w place) pass f.auxiliary_data o₃)
          (fill_sizes-Passing f l (Stays place w) (Clear w place) pass e.size_refs
            (add_bytes f.auxiliary_data o₃) o.sizes o₄ sizes))
        room
