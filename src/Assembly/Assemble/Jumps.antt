-- ===== src/Assembly/Assemble/Jumps.antt =====
-- `m_tagPositionsInBytecode` and the finished code of `Assembly::assemble`, in libevmasm/Assembly.cpp.
use jules_solidity_pppascal.Assembly.{Fields, Assembly}
use jules_solidity_pppascal.Assembly.Assemble.{
  make_layout, empty_object, fill, finish, code_bytes_required, assemble_node, note_occurrences,
  assemble_subs, assemble,
}
use jules_solidity_pppascal.AssemblyItem.{
  eq_type, assign_immutable, AssemblyItem, AssemblyItemType, push_immutable, size_max,
}
use jules_solidity_pppascal.Common.Buffer.{length-write, get_elem?-write_outside, overwrite, write}
use jules_solidity_pppascal.Assembly.Emit.Jumpdests.{emit_items-Kept, Placed, EmitInv, Outside}
use jules_solidity_pppascal.Assembly.Emit.{Layout, Output, emit_items, Emitted}
use jules_solidity_pppascal.CommonData.Endian.{to_big_endian}
use jules_solidity_pppascal.Common.Post.{Post}
use jules_solidity_pppascal.Assembly.Assemble.Fills.{Passing, finish-Passing}
use jules_solidity_pppascal.Instruction.Info.{push_instruction}
use jules_solidity_pppascal.Codegen.Machine.{run}
use jules_solidity_pppascal.Common.Rose.{Roses, Rose, children, root}
use jules_solidity_pppascal.Assembly.Emit.Targets.{targets}
use jules_solidity_pppascal.LinkerObject.{LinkerObject}
use jules_solidity_pppascal.Assembly.Assemble.Noting.{noted-targets, make_layout-parts}
use jules_solidity_pppascal.CommonData.Endian.Laws.{length-to_big_endian}
use jules_solidity_pppascal.Assembly.Emit.Places.{Open}
use jules_solidity_pppascal.Assembly.{Fields, Assembly}
use jules_solidity_pppascal.Common.Rose.{Roses, Rose, children, root}
use jules_solidity_pppascal.Assembly.Assemble.{
  note_occurrences, assemble, assemble_subs, code_bytes_required, fill, empty_object, make_layout,
  finish, assemble_node,
}
use jules_solidity_pppascal.Assembly.Assemble.Noting.{noted-targets, make_layout-parts}
use jules_solidity_pppascal.CommonData.Endian.Laws.{length-to_big_endian}
use jules_solidity_pppascal.Assembly.Assemble.Fills.{finish-Passing, Passing}
use jules_solidity_pppascal.Common.Buffer.{length-write, overwrite, get_elem?-write_outside, write}
use jules_solidity_pppascal.AssemblyItem.{
  eq_type, assign_immutable, push_immutable, size_max, AssemblyItemType, AssemblyItem,
}
use jules_solidity_pppascal.Assembly.Emit.Places.{Open}
use jules_solidity_pppascal.Assembly.Emit.Jumpdests.{Outside, EmitInv, emit_items-Kept}
use jules_solidity_pppascal.Assembly.Emit.Targets.{targets}
use jules_solidity_pppascal.LinkerObject.{LinkerObject}
use jules_solidity_pppascal.CommonData.Endian.{to_big_endian}
use jules_solidity_pppascal.Codegen.Machine.{run}
use jules_solidity_pppascal.Instruction.Info.{push_instruction}
use jules_solidity_pppascal.Assembly.Emit.{Layout, emit_items, Output, Emitted}
use jules_solidity_pppascal.Common.Post.{Post}
use jules_solidity_pppascal.Assembly.Assemble.{
  code_bytes_required, empty_object, finish, assemble, fill, note_occurrences, make_layout,
  assemble_subs, assemble_node, any_type, ℕ, length, List, ok, some, replicate, survey_subs,
}
use jules_solidity_pppascal.CommonData.Endian.Laws.{length-to_big_endian}
use jules_solidity_pppascal.AssemblyItem.{
  size_max, AssemblyItemType, AssemblyItem, assign_immutable, push_immutable, eq_type,
}
use jules_solidity_pppascal.Assembly.Emit.Jumpdests.{emit_items-Kept, EmitInv, Outside}
use jules_solidity_pppascal.Common.Buffer.{overwrite, get_elem?-write_outside, length-write, write}
use jules_solidity_pppascal.Assembly.Emit.{Output, emit_items, Layout, Emitted, at}
use jules_solidity_pppascal.Common.Rose.{Rose, root, children, Roses}
use jules_solidity_pppascal.Assembly.Assemble.Fills.{Passing, finish-Passing}
use jules_solidity_pppascal.Assembly.Emit.Targets.{targets}
use jules_solidity_pppascal.Common.Post.{Post}
use jules_solidity_pppascal.Assembly.Emit.Places.{Open}
use jules_solidity_pppascal.Assembly.Assemble.Noting.{noted-targets, make_layout-parts}
use jules_solidity_pppascal.Assembly.{
  Fields, Assembly, assert_throw, assembly_exception, Bool, not, node,
}
use jules_solidity_pppascal.LinkerObject.{LinkerObject}
use jules_solidity_pppascal.CommonData.Endian.{to_big_endian}
use jules_solidity_pppascal.Common.{
  ◌≤◌, get_elem?-append, ◌∙◌, ◌≡◌, >>=-eq-ok, subst, arith, ok-injective, length-append, ◌<◌, ◌^◌,
  zero, ◌≢◌, ◌%◌, All, ◌&&◌, assert-eq-ok, ap, [], ◌∷◌, suc, get_elem?,
}
use jules_solidity_pppascal.Instruction.Opcode

-- A byte at position `p` of the first code is there in the second.
abbrev Keeps : ℕ → LinkerObject → LinkerObject → Type 0
Keeps p o o' = (v : ℕ) → get_elem? o.bytecode p ≡ some v → get_elem? o'.bytecode p ≡ some v

abbrev pub Grows : LinkerObject → LinkerObject → Type 0
Grows o o' = length o.bytecode ≤ length o'.bytecode

overwrite-written : (i : ℕ) (ys xs zs : List ℕ) → overwrite i ys xs ≡ ok zs → zs ≡ write i ys xs
unfolding overwrite
overwrite-written i ys xs zs h = ground arith

-- What `fill` writes.
pub fill-written :
    (place w v : ℕ) (o : LinkerObject)
    → Post (λ o'. o'.bytecode ≡ write place (to_big_endian w v) o.bytecode) (fill place w v o)
unfolding fill Post
fill-written place w v o o' done =
    let (code, written, same) = >>=-eq-ok (overwrite place (to_big_endian w v) o.bytecode) _ done in
    subst (λ o'. o'.bytecode ≡ write place (to_big_endian w v) o.bytecode) (ok-injective same)
      (overwrite-written place (to_big_endian w v) o.bytecode code written)

fill-kept :
    (p place w v : ℕ) (o : LinkerObject) → Outside p place w → Post (Keeps p o) (fill place w v o)
unfolding Post
fill-kept p place w v o out o' done u h = rw (fill-written place w v o o' done) (
    get_elem?-write_outside place p (to_big_endian w v) o.bytecode
      (rw (length-to_big_endian w v) out)
    ∙ h)

fill-Grows : (place w v : ℕ) (o : LinkerObject) → Post (Grows o) (fill place w v o)
unfolding Post
fill-Grows place w v o o' done =
    rw (fill-written place w v o o' done, length-write place (to_big_endian w v) o.bytecode)
      (omega arith)

Keeps-Passing : (p : ℕ) → Passing (Keeps p) (Outside p)
Keeps-Passing p = record {
  unchanged = λ o v h. h;
  both = λ o o₁ o' first second v h. second v (first v h);
  behind = λ o o' bytes grown v h. rw grown (get_elem?-append o.bytecode bytes p v h).1;
  filled = λ place w v o out. fill-kept p place w v o out;
}

pub Grows-Passing : Passing Grows (λ q w. Unit {0})
Grows-Passing = record {
  unchanged = λ o. omega arith;
  both = λ o o₁ o' first second. omega arith;
  behind = λ o o' bytes grown. rw grown (omega (arith, length-append o.bytecode bytes));
  filled = λ place w v o _. fill-Grows place w v o;
}

get_elem?-replicate : (n i v p : ℕ) → get_elem? (replicate n v) i ≡ some p → p ≡ v
get_elem?-replicate zero i v p h = cc
get_elem?-replicate (suc n) zero v p h = cc
get_elem?-replicate (suc n) (suc i) v p h = get_elem?-replicate n i v p h

abbrev pub start : Fields → List (ℕ × (List ℕ × List ℕ)) → Emitted
start f unassigned = record {
  object = empty_object;
  tag_positions = replicate f.used_tags size_max;
  tag_refs = [];
  data_refs = [];
  sub_refs = [];
  size_refs = [];
  unassigned = unassigned;
}

start-EmitInv :
    (f : Fields) (l : Layout) (unassigned : List (ℕ × (List ℕ × List ℕ)))
    → EmitInv l (start f unassigned)
start-EmitInv f l unassigned = record {
  marked = λ i p positive at real. absurd (real (get_elem?-replicate f.used_tags i size_max p at));
  inside = record { tags = tt; datas = tt; subs = tt; sizes = tt };
}

abbrev has : AssemblyItemType → Fields → Bool
has t f = any_type (λ item. eq_type item.type t) f.items

-- The last two steps of `assemble_node`, and what led there.
pub record Run (f : Fields) (subs : Roses Output) (out : Output) : Type 0 where
  pub layout : Layout
  pub items : List AssemblyItem
  pub unassigned : List (ℕ × (List ℕ × List ℕ))
  pub emitted : Emitted
  pub noted : targets items ≡ targets f.items
  pub own_subs : layout.subs ≡ subs
  pub pushes : push_instruction layout.bytes_per_tag ≡ ok layout.tag_push
  pub looped : emit_items f layout items (start f unassigned) ≡ ok emitted
  pub finished : finish f layout emitted ≡ ok out

assemble_node-Run : (f : Fields) (subs : Roses Output) → Post (Run f subs) (assemble_node f subs)
unfolding assemble_node Post
assemble_node-Run f subs out done =
    let (surveyed, _, noting) = >>=-eq-ok (survey_subs subs 1 []) _ done in
    let (noted, occurrences, checking) = >>=-eq-ok (note_occurrences f.items surveyed.1) _ noting in
    let (_, _, measuring) =
      >>=-eq-ok
        (assert_throw (not (has assign_immutable f && has push_immutable f)) assembly_exception) _
        checking in
    let (code_size, _, laying) =
      >>=-eq-ok (code_bytes_required (surveyed.0 % 2 ^ 32) (record f { items = noted.0 })) _
        measuring in
    let (l, laid, looping) = >>=-eq-ok (make_layout f subs code_size) _ laying in
    let (e, looped, finishing) = >>=-eq-ok (emit_items f l noted.0 (start f noted.1)) _ looping in
    record {
      layout = l;
      items = noted.0;
      unassigned = noted.1;
      emitted = e;
      noted = noted-targets f.items surveyed.1 noted occurrences;
      own_subs = (make_layout-parts f subs code_size l laid).0;
      pushes = (make_layout-parts f subs code_size l laid).1;
      looped = looped;
      finished = finishing;
    }

All-unit : {A : Type 0} (xs : List A) → All (λ x. Unit {0}) xs
All-unit [] = tt
All-unit (x ∷ xs) = (tt, All-unit xs)

pub all-Open : (l : Layout) (e : Emitted) → Open l (λ q w. Unit {0}) (λ q w. Unit {0}) e
all-Open l e = record {
  tags = All-unit e.tag_refs;
  datas = All-unit e.data_refs;
  subs = All-unit e.sub_refs;
  sizes = All-unit e.size_refs;
}

-- A byte that no open place has is in the finished code.
pub Placed-finished :
    (f : Fields) (l : Layout) (e : Emitted) (out : Output) (p v : ℕ)
    → Placed l e p v
    → finish f l e ≡ ok out
    → get_elem? out.object.bytecode p ≡ some v
unfolding Post
Placed-finished f l e out p v placed finished =
    (finish-Passing f l (Keeps p) (Outside p) (Keeps-Passing p) e placed.clear out finished).0 v
      placed.here

Run-placed :
    (f : Fields) (subs : Roses Output) (out : Output)
    → Run f subs out
    → length out.object.bytecode < 2 ^ 32
    → (i p : ℕ) → 0 < i
    → get_elem? out.tag_positions i ≡ some p
    → p ≢ size_max
    → get_elem? out.object.bytecode p ≡ some Opcode.jumpdest
unfolding Post
Run-placed f subs out run small i p positive at real =
    let e = run.emitted in
    let (_, keeps) = emit_items-Kept f run.layout run.items (start f run.unassigned) e run.looped in
    let grows : length e.object.bytecode ≤ length out.object.bytecode =
      (finish-Passing f run.layout Grows (λ q w. Unit {0}) Grows-Passing e (all-Open run.layout e)
        out run.finished).0 in
    let v = keeps (omega arith) (start-EmitInv f run.layout run.unassigned) in
    (let same : out.tag_positions ≡ e.tag_positions =
        (finish-Passing f run.layout Grows (λ q w. Unit {0}) Grows-Passing e (all-Open run.layout e)
          out run.finished).1 in
      let placed = v.marked i p positive (rw same at at) real in
      Placed-finished f run.layout e out p Opcode.jumpdest placed run.finished)

pub whole-assembled :
    (f : Fields) (subs : Roses Fields) (out : Rose Output)
    → assemble (node f subs) ≡ ok out
    → (assemble_subs subs ≡ ok (children out)) × (assemble_node f (children out) ≡ ok (root out))
unfolding assemble
whole-assembled f subs out done =
    let (_, assembling) = assert-eq-ok (not f.invalid) assembly_exception _ done in
    let (outs, below, here) = >>=-eq-ok (assemble_subs subs) _ assembling in
    let (own, whole, same) = >>=-eq-ok (assemble_node f outs) _ here in
    (
      below ∙ ap (λ (o : Rose Output). ok (children o)) (ok-injective same),
      subst (λ (o : Rose Output). assemble_node f (children o) ≡ ok (root o)) (ok-injective same)
          whole,
    )

root-assembled :
    (f : Fields) (subs : Roses Fields) (out : Rose Output)
    → assemble (node f subs) ≡ ok out
    → (outs : Roses Output) × (assemble_node f outs ≡ ok (root out))
root-assembled f subs out done = (children out, (whole-assembled f subs out done).1)

pub assemble_node-found :
    (f : Fields) (subs : Roses Output) (out : Output)
    → assemble_node f subs ≡ ok out
    → Run f subs out
unfolding Post
assemble_node-found f subs out done = assemble_node-Run f subs out done

-- In an assembly that assembles to less than 4 GB of code: wherever a position is noted for a tag
-- (number 0 is no tag, and the largest number stands for no position), the finished code, with all
-- references filled in, has a JUMPDEST.
pub assemble-jumpdest :
    (a : Assembly) (out : Rose Output) (i p : ℕ)
    → assemble a ≡ ok out
    → length (root out).object.bytecode < 2 ^ 32
    → 0 < i
    → get_elem? (root out).tag_positions i ≡ some p
    → p ≢ size_max
    → get_elem? (root out).object.bytecode p ≡ some Opcode.jumpdest
assemble-jumpdest (node f subs) out i p done small positive at real =
    let (outs, whole) = root-assembled f subs out done in
    Run-placed f outs (root out) (assemble_node-found f outs (root out) whole) small i p positive at
      real
