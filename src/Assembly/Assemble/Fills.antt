-- ===== src/Assembly/Assemble/Fills.antt =====
-- The passes behind the main loop of `Assembly::assemble`, in libevmasm/Assembly.cpp.
use jules_solidity_pppascal.Instruction.Opcode
use jules_solidity_pppascal.Common.{
  All, ◌≡◌, ◌∷◌, [], ◌==◌, ◌++◌, if◌then◌else◌, refl, ◌&&◌, >>=-eq-ok, subst, ok-injective,
  get_elem?,
}
use jules_solidity_pppascal.Assembly.{
  Fields, ℕ, List, length, assembly_exception, assert_throw, not,
}
use jules_solidity_pppascal.Assembly.Assemble.{
  fill, fill_tags, fill_tag, finish, fill_subs, positions_for, fill_data_refs, is_referred,
  fill_data, fill_sizes, add_bytes, leb, is_nil, code_generation_error,
}
use jules_solidity_pppascal.Assembly.Emit.{Emitted, Layout, sub_assembly_by_id}
use jules_solidity_pppascal.Assembly.Emit.Places.{Open}
use jules_solidity_pppascal.AssemblyItem.{size_max}
use jules_solidity_pppascal.Common.Post.{bind-Post, option-Post, Post, if-Post, ok-Post, then-Post}
use jules_solidity_pppascal.Common.Rose.{root, count}
use jules_solidity_pppascal.CommonData.Endian.{bytes_required}
use jules_solidity_pppascal.LinkerObject.{LinkerObject, append}

-- A relation between the object before and after that the passes keep, if the places that they fill
-- are free in the sense of `Free`.
pub record Passing (R : LinkerObject → LinkerObject → Type 0) (Free : ℕ → ℕ → Type 0) : Type 0 where
  pub unchanged : (o : LinkerObject) → R o o
  pub both : (o o₁ o' : LinkerObject) → R o o₁ → R o₁ o' → R o o'
  pub behind : (o o' : LinkerObject) (bytes : List ℕ) → o'.bytecode ≡ o.bytecode ++ bytes → R o o'
  pub filled : (place w v : ℕ) (o : LinkerObject) → Free place w → Post (R o) (fill place w v o)

module _ (f : Fields) (l : Layout) (R : LinkerObject → LinkerObject → Type 0)
    (Free : ℕ → ℕ → Type 0) (r : Passing R Free) where
  pub fill_subs-Passing :
      (refs : List (ℕ × ℕ)) (o : LinkerObject)
      → All (λ ref. Free ref.1 l.bytes_per_data_ref) refs
      → Post (R o) (fill_subs f l refs o)
  unfolding fill_subs Post
  fill_subs-Passing [] o out = ok-Post (R o) o (r.unchanged o)
  fill_subs-Passing ((id, place) ∷ refs) o (here, out) =
      then-Post (R o) (R o) (fill place l.bytes_per_data_ref (length o.bytecode) o) _
        (r.filled place l.bytes_per_data_ref (length o.bytecode) o here)
        λ o₁ kept. bind-Post (R o) (sub_assembly_by_id f l.subs id) _ λ sub o' done.
          r.both o o₁ o' kept (
            r.both o₁ (append o₁ (root sub).object) o'
              (r.behind o₁ (append o₁ (root sub).object) (root sub).object.bytecode
                (unfold append in refl))
              (fill_subs-Passing refs (append o₁ (root sub).object) out o' done))

  pub fill_tag-Passing :
      (own : List ℕ) (ref : ℕ × (ℕ × ℕ)) (o : LinkerObject)
      → Free ref.0 l.bytes_per_tag
      → Post (R o) (fill_tag l own ref o)
  unfolding fill_tag Post
  fill_tag-Passing own (place, (sub_id, t)) o out =
      bind-Post (R o) (positions_for sub_id own l.subs) _ λ positions.
        option-Post (R o) (get_elem? positions t) assembly_exception _ λ position.
          bind-Post (R o) (assert_throw (not (position == size_max)) assembly_exception) _ λ _.
            bind-Post (R o)
              (assert_throw (leb (bytes_required position) l.bytes_per_tag) assembly_exception) _
              λ _. r.filled place l.bytes_per_tag position o out

  pub fill_tags-Passing :
      (own : List ℕ) (refs : List (ℕ × (ℕ × ℕ))) (o : LinkerObject)
      → All (λ ref. Free ref.0 l.bytes_per_tag) refs
      → Post (R o) (fill_tags l own refs o)
  unfolding fill_tags Post
  fill_tags-Passing own [] o out = ok-Post (R o) o (r.unchanged o)
  fill_tags-Passing own (ref ∷ refs) o (here, out) =
      then-Post (R o) (R o) (fill_tag l own ref o) _ (fill_tag-Passing own ref o here)
        λ o₁ kept o' done. r.both o o₁ o' kept (fill_tags-Passing own refs o₁ out o' done)

  fill_data_refs-Passing :
      (h end_of_code : ℕ) (refs : List (ℕ × ℕ)) (o : LinkerObject)
      → All (λ ref. Free ref.1 l.bytes_per_data_ref) refs
      → Post (R o) (fill_data_refs l.bytes_per_data_ref h refs end_of_code o)
  unfolding fill_data_refs Post
  fill_data_refs-Passing h end_of_code [] o out = ok-Post (R o) o (r.unchanged o)
  fill_data_refs-Passing h end_of_code ((key, place) ∷ refs) o (here, out) =
      if-Post (R o) (key == h) _ _
        (then-Post (R o) (R o) (fill place l.bytes_per_data_ref end_of_code o) _
          (r.filled place l.bytes_per_data_ref end_of_code o here)
          λ o₁ kept o' done.
            r.both o o₁ o' kept (fill_data_refs-Passing h end_of_code refs o₁ out o' done))
        (fill_data_refs-Passing h end_of_code refs o out)

  pub fill_data-Passing :
      (refs : List (ℕ × ℕ)) (blocks : List (ℕ × List ℕ)) (o : LinkerObject)
      → All (λ ref. Free ref.1 l.bytes_per_data_ref) refs
      → Post (R o) (fill_data l.bytes_per_data_ref refs blocks o)
  unfolding fill_data Post
  fill_data-Passing refs [] o out = ok-Post (R o) o (r.unchanged o)
  fill_data-Passing refs ((h, bytes) ∷ blocks) o out =
      if-Post (R o) (not (is_referred h refs)) _ _ (fill_data-Passing refs blocks o out) (
        then-Post (R o) (R o) (fill_data_refs l.bytes_per_data_ref h refs (length o.bytecode) o) _
          (fill_data_refs-Passing h (length o.bytecode) refs o out)
          λ o₁ kept o' done. r.both o o₁ o' kept (
            r.both o₁ (add_bytes bytes o₁) o' (r.behind o₁ (add_bytes bytes o₁) bytes refl)
              (fill_data-Passing refs blocks (add_bytes bytes o₁) out o' done)))

  pub fill_sizes-Passing :
      (places : List ℕ) (o : LinkerObject)
      → All (λ place. Free place l.bytes_per_data_ref) places
      → Post (R o) (fill_sizes l.bytes_per_data_ref places o)
  unfolding fill_sizes Post
  fill_sizes-Passing [] o out = ok-Post (R o) o (r.unchanged o)
  fill_sizes-Passing (place ∷ places) o (here, out) =
      then-Post (R o) (R o) (fill place l.bytes_per_data_ref (length o.bytecode) o) _
        (r.filled place l.bytes_per_data_ref (length o.bytecode) o here)
        λ o₁ kept o' done. r.both o o₁ o' kept (fill_sizes-Passing places o₁ out o' done)

  pub add_bytes-Passing : (bytes : List ℕ) (o : LinkerObject) → R o (add_bytes bytes o)
  add_bytes-Passing bytes o = r.behind o (add_bytes bytes o) bytes refl

  -- All passes, one after the other.
  pub finish-Passing :
      (e : Emitted)
      → Open l Free Free e
      → Post (λ out. R e.object out.object × (out.tag_positions ≡ e.tag_positions)) (finish f l e)
  unfolding finish Post
  finish-Passing e opens out done =
      let (_, _, filling) =
        >>=-eq-ok (assert_throw (is_nil e.unassigned) code_generation_error) _ done in
      let (o₁, subs, after_subs) =
        >>=-eq-ok (fill_subs f l e.sub_refs (add_bytes behind_code e.object)) _ filling in
      let (o₂, tags, after_tags) =
        >>=-eq-ok (fill_tags l e.tag_positions e.tag_refs o₁) _ after_subs in
      let (o₃, datas, after_data) =
        >>=-eq-ok (fill_data l.bytes_per_data_ref e.data_refs f.data_blocks o₂) _ after_tags in
      let (o₄, sizes, same) =
        >>=-eq-ok (fill_sizes l.bytes_per_data_ref e.size_refs (add_bytes f.auxiliary_data o₃)) _
          after_data in
      subst (λ out. R e.object out.object × (out.tag_positions ≡ e.tag_positions))
        (ok-injective same)
        (
          r.both _ (add_bytes f.auxiliary_data o₃) o₄
              (r.both _ o₃ _
                (r.both _ o₂ o₃
                  (r.both _ o₁ o₂
                    (r.both _ (add_bytes behind_code e.object) o₁
                      (add_bytes-Passing behind_code e.object)
                      (fill_subs-Passing e.sub_refs (add_bytes behind_code e.object) opens.subs o₁
                        subs))
                    (fill_tags-Passing e.tag_positions e.tag_refs o₁ opens.tags o₂ tags))
                  (fill_data-Passing e.data_refs f.data_blocks o₂ opens.datas o₃ datas))
                (add_bytes-Passing f.auxiliary_data o₃))
              (fill_sizes-Passing e.size_refs (add_bytes f.auxiliary_data o₃) opens.sizes o₄ sizes),
          refl,
        )
    where
      behind_code : List ℕ
      behind_code =
          if count l.subs == 0 && is_nil f.data_blocks && is_nil f.auxiliary_data
          then []
          else Opcode.invalid ∷ []
