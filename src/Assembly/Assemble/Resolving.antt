-- ===== src/Assembly/Assemble/Resolving.antt =====
-- What `Assembly::assemble` makes of the references to tags, in libevmasm/Assembly.cpp.
use jules_solidity_pppascal.Common.{
  All, ◌≡◌, ◌<◌, ◌≤◌, ◌^◌, if◌then◌else◌, ◌+◌, arith, ◌==◌, ◌&&◌, [], ◌∷◌, subst, sym, >>=-eq-ok,
  length-append, ok-injective, ◌∙◌,
}
use jules_solidity_pppascal.Assembly.{
  Fields, length, ℕ, List, node, ok, assert_throw, nil, cons, some,
}
use jules_solidity_pppascal.Assembly.Assemble.{
  assemble_subs, fill_subs, fill_tags, fill_sizes, finish, fill_data, assemble, add_bytes, is_nil,
  code_generation_error, suc, get_elem?,
}
use jules_solidity_pppascal.Assembly.Assemble.Fills.{finish-Passing, fill_subs-Passing}
use jules_solidity_pppascal.Assembly.Assemble.Jumps.{
  assemble_node-found, Grows, Run, all-Open, start, Placed-finished, Grows-Passing, whole-assembled,
}
use jules_solidity_pppascal.Assembly.Assemble.References.{
  Resolved-kept, Resolved, behind-Stays, fill_tags-Resolved,
}
use jules_solidity_pppascal.Assembly.Emit.{Emitted, Output, Layout}
use jules_solidity_pppascal.Assembly.Emit.Jumpdests.{All-map}
use jules_solidity_pppascal.Assembly.Emit.Places.{Open}
use jules_solidity_pppascal.Assembly.Emit.References.{
  Clear, Refs, All-anywhere, emit_items-RefsInv, RefsInv, Ordered-All, Ordered, Anywhere,
  Ordered-more,
}
use jules_solidity_pppascal.Assembly.Emit.Targets.{emit_items-targets, targets, referred}
use jules_solidity_pppascal.Codegen.Machine.{run}
use jules_solidity_pppascal.Common.Post.{Post}
use jules_solidity_pppascal.Common.Rose.{Rose, children, root, count, Roses}
use jules_solidity_pppascal.Instruction.Info.{push_instruction}
use jules_solidity_pppascal.Instruction.Opcode.{Instruction}
use jules_solidity_pppascal.LinkerObject.{LinkerObject}
use jules_solidity_pppascal.Instruction.Opcode

All-Resolved :
    (f : Fields) (l : Layout) (e : Emitted) (o₂ o₃ o₄ : LinkerObject) (own : List ℕ)
    → fill_data l.bytes_per_data_ref e.data_refs f.data_blocks o₂ ≡ ok o₃
    → fill_sizes l.bytes_per_data_ref e.size_refs (add_bytes f.auxiliary_data o₃) ≡ ok o₄
    → (refs : Refs) → All (λ ref. ref.0 + l.bytes_per_tag ≤ length o₂.bytecode) refs
    → All (λ ref. Open l Anywhere (Clear l.bytes_per_tag ref.0) e) refs
    → All (Resolved l own o₂.bytecode) refs
    → All (Resolved l own o₄.bytecode) refs
All-Resolved f l e o₂ o₃ o₄ own datas sizes [] rooms opens rs = tt
All-Resolved f l e o₂ o₃ o₄ own datas sizes (ref ∷ refs) (room, rooms) (o, opens) (r, rs) =
    let (_, kept) = behind-Stays f l e o₂ o₃ o₄ ref.0 l.bytes_per_tag o datas sizes room in
    (
      Resolved-kept l own ref o₂.bytecode o₄.bytecode kept r,
      All-Resolved f l e o₂ o₃ o₄ own datas sizes refs rooms opens rs,
    )

All-grown :
    (w n m : ℕ) (refs : Refs)
    → n ≤ m
    → All (λ ref. ref.0 + w ≤ n) refs
    → All (λ ref. ref.0 + w ≤ m) refs
All-grown w n m [] h rooms = tt
All-grown w n m (ref ∷ refs) h (room, rooms) = (omega arith, All-grown w n m refs h rooms)

finish-Resolved :
    (f : Fields) (l : Layout) (e : Emitted) (out : Output)
    → finish f l e ≡ ok out
    → RefsInv l e
    → All (Resolved l e.tag_positions out.object.bytecode) e.tag_refs
unfolding finish Post
finish-Resolved f l e out done v =
    let (_, _, filling) =
      >>=-eq-ok (assert_throw (is_nil e.unassigned) code_generation_error) _ done in
    let (o₁, subs, after_subs) =
      >>=-eq-ok (fill_subs f l e.sub_refs (add_bytes behind_code e.object)) _ filling in
    let (o₂, tags, after_tags) =
      >>=-eq-ok (fill_tags l e.tag_positions e.tag_refs o₁) _ after_subs in
    let (o₃, datas, after_data) =
      >>=-eq-ok (fill_data l.bytes_per_data_ref e.data_refs f.data_blocks o₂) _ after_tags in
    let (o₄, sizes, same) =
      >>=-eq-ok (fill_sizes l.bytes_per_data_ref e.size_refs (add_bytes f.auxiliary_data o₃)) _
        after_data in
    let subs_grow =
      fill_subs-Passing f l Grows Anywhere Grows-Passing e.sub_refs (add_bytes behind_code e.object)
        (All-anywhere e.sub_refs) o₁ subs in
    let room : length e.object.bytecode ≤ length o₁.bytecode =
      omega (arith, subs_grow, length-append e.object.bytecode behind_code) in
    let (tags_grow, resolved) =
      fill_tags-Resolved f l e.tag_positions 0 (length e.object.bytecode) e.tag_refs o₁ v.ordered
        room o₂ tags in
    subst (λ out. All (Resolved l e.tag_positions out.object.bytecode) e.tag_refs)
      (ok-injective same)
      (All-Resolved f l e o₂ o₃ o₄ e.tag_positions datas sizes e.tag_refs
        (All-grown l.bytes_per_tag (length e.object.bytecode) (length o₂.bytecode) e.tag_refs
          (omega arith)
          (Ordered-All l.bytes_per_tag 0 (length e.object.bytecode) e.tag_refs v.ordered))
        v.apart resolved)
  where
    behind_code : List ℕ
    behind_code =
        if count l.subs == 0 && is_nil f.data_blocks && is_nil f.auxiliary_data
        then []
        else Opcode.invalid ∷ []

start-RefsInv :
    (f : Fields) (l : Layout) (unassigned : List (ℕ × (List ℕ × List ℕ)))
    → RefsInv l (start f unassigned)
start-RefsInv f l unassigned = record {
  inside = record { tags = tt; datas = tt; subs = tt; sizes = tt };
  ordered = tt;
  apart = tt;
  pushed = tt;
}

-- The byte before the place of a reference is the given instruction.
abbrev pub IsPushed : List ℕ → Instruction → ℕ × (ℕ × ℕ) → Type 0
IsPushed code inst ref = (k : ℕ) × (ref.0 ≡ suc k) × (get_elem? code k ≡ some inst)

-- The code of an assembly with the given fields and assembled sub-assemblies: `refs` are the places of
-- the references to tags, one for each item that pushes a tag and in the order of the items, apart
-- from each other and within the code. Each of them is resolved, and the byte before it is the
-- instruction that pushes as many bytes as there are at the place.
pub record ResolvedCode (f : Fields) (subs : Roses Output) (out : Output) : Type 0 where
  pub layout : Layout
  pub own_subs : layout.subs ≡ subs
  pub refs : Refs
  pub in_order : referred refs ≡ targets f.items
  pub ordered : Ordered layout.bytes_per_tag 0 (length out.object.bytecode) refs
  pub tag_push : Instruction
  pub pushes : push_instruction layout.bytes_per_tag ≡ ok tag_push
  pub pushed : All (IsPushed out.object.bytecode tag_push) refs
  pub resolved : All (Resolved layout out.tag_positions out.object.bytecode) refs

Run-ResolvedCode :
    (f : Fields) (subs : Roses Output) (out : Output)
    → Run f subs out
    → length out.object.bytecode < 2 ^ 32
    → ResolvedCode f subs out
unfolding Post
Run-ResolvedCode f subs out run small =
    let e = run.emitted in
    let l = run.layout in
    let first = start f run.unassigned in
    let (grows, same) =
      finish-Passing f l Grows Anywhere Grows-Passing e (all-Open l e) out run.finished in
    let begun = start-RefsInv f l run.unassigned in
    let v = emit_items-RefsInv f l run.items first e begun run.looped (omega arith) in
    record {
      layout = l;
      own_subs = run.own_subs;
      refs = e.tag_refs;
      in_order =
          emit_items-targets f l run.items first e begun run.looped (omega arith) ∙ run.noted;
      ordered =
          Ordered-more l.bytes_per_tag 0 (length e.object.bytecode) (length out.object.bytecode)
            e.tag_refs grows v.ordered;
      tag_push = l.tag_push;
      pushes = run.pushes;
      pushed =
          All-map _ _ e.tag_refs
            (λ ref (k, behind, placed).
              (k, behind, Placed-finished f l e out k l.tag_push placed run.finished))
            v.pushed;
      resolved =
          subst (λ own. All (Resolved l own out.object.bytecode) e.tag_refs) (sym same)
            (finish-Resolved f l e out run.finished v);
    }

-- Each sub-assembly with what it is assembled to.
pub data Assembled : Roses Fields → Roses Output → Type 0 where
  none_below : Assembled nil nil
  one_below :
      {sub : Rose Fields} {out : Rose Output} {subs : Roses Fields} {outs : Roses Output}
      → assemble sub ≡ ok out
      → Assembled subs outs
      → Assembled (cons sub subs) (cons out outs)

assemble_subs-Assembled :
    (subs : Roses Fields) (outs : Roses Output) → assemble_subs subs ≡ ok outs → Assembled subs outs
unfolding assemble_subs
assemble_subs-Assembled nil outs done = subst (Assembled nil) (ok-injective done) none_below
assemble_subs-Assembled (cons sub subs) outs done =
    let (out, first, later) = >>=-eq-ok (assemble sub) _ done in
    let (outs', rest, same) = >>=-eq-ok (assemble_subs subs) _ later in
    subst (Assembled (cons sub subs)) (ok-injective same)
      (one_below first (assemble_subs-Assembled subs outs' rest))

-- In an assembly that assembles to less than 4 GB of code, the result has the results of the
-- sub-assemblies in their order, each assembled for itself, and there is a place in the code for
-- each item that pushes a tag, in the order of the items and apart from each other. The tag, of the
-- assembly itself or of the sub-assembly with the number that the item names, has a position in the
-- result of that assembly, the bytes at the place are this position in big-endian form, whole, and
-- the byte before them is the PUSH instruction for that many bytes.
pub assemble-ResolvedCode :
    (f : Fields) (subs : Roses Fields) (out : Rose Output)
    → assemble (node f subs) ≡ ok out
    → length (root out).object.bytecode < 2 ^ 32
    → Assembled subs (children out) × ResolvedCode f (children out) (root out)
assemble-ResolvedCode f subs out done small =
    let (below, whole) = whole-assembled f subs out done in
    (
      assemble_subs-Assembled subs (children out) below,
      Run-ResolvedCode f (children out) (root out)
          (assemble_node-found f (children out) (root out) whole) small,
    )
