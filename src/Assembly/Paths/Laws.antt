-- ===== src/Assembly/Paths/Laws.antt =====
-- `encodeSubPath` and `decodeSubPath` of libevmasm/Assembly.cpp.
use jules_solidity_pppascal.Common.{
  ◌∷◌, [], All, ◌≡◌, ◌<◌, arith, ◌≤◌, ◌-◌, ◌+◌, Option-cases, inl, inr, subst, assert-eq-ok,
  ok-injective, sym, ◌∙◌, leb→le,
}
use jules_solidity_pppascal.Assembly.{
  Fields, List, ℕ, length, none, some, ok, ltb, true, assembly_exception,
}
use jules_solidity_pppascal.Assembly.Paths.{
  find_id, find_path, insert_path, decode_sub_path, encode_sub_path, encode_long, leb,
}
use jules_solidity_pppascal.Assembly.Paths.Finding.{
  Distinct, find_id-find_path, find_id-insert_path, find_id_below, find_path-bound,
  find_path-insert_path, insert_path-All, insert_path-Distinct, length-insert_path,
}
use jules_solidity_pppascal.AssemblyItem.{size_max}
use jules_solidity_pppascal.Common.Text.{eq_text_self}

-- The numbers count down from the largest size, none of them that of a direct sub-assembly, and
-- neither a number nor a path occurs twice.
pub record PathsInv (num_subs : ℕ) (f : Fields) : Type 0 where
  pub above : All (λ entry. size_max - length f.sub_paths + 1 ≤ entry.1) f.sub_paths
  pub outside : All (λ entry. num_subs ≤ entry.1) f.sub_paths
  pub distinct : Distinct f.sub_paths

weaken :
    (low high : ℕ) (paths : List (List ℕ × ℕ))
    → low ≤ high
    → All (λ entry. high ≤ entry.1) paths
    → All (λ entry. low ≤ entry.1) paths
weaken low high [] le h = tt
weaken low high ((path, id) ∷ paths) le (h, hs) = (omega arith, weaken low high paths le hs)

-- What is known once a path has a number.
pub record Encoded (num_subs : ℕ) (path : List ℕ) (f f' : Fields) (id : ℕ) : Type 0 where
  pub inv : PathsInv num_subs f'
  pub decodes : decode_sub_path num_subs id f' ≡ ok path
  pub again : encode_sub_path num_subs path f' ≡ ok (id, f')

decode-found :
    (num_subs id : ℕ) (path : List ℕ) (f : Fields)
    → num_subs ≤ id
    → find_id id f.sub_paths ≡ some path
    → decode_sub_path num_subs id f ≡ ok path
unfolding decode_sub_path
decode-found num_subs id path f h e = ground arith

-- What holds of the answer of a successful `encode_long`.
abbrev Done : ℕ → List ℕ → ℕ × Fields → Type 0
Done num_subs path (id, f') =
    PathsInv num_subs f'
    × (num_subs ≤ id)
    × (find_id id f'.sub_paths ≡ some path)
    × (encode_long num_subs path f' ≡ ok (id, f'))

encode_long-known :
    (num_subs : ℕ) (path : List ℕ) (f : Fields) (id : ℕ)
    → find_path path f.sub_paths ≡ some id
    → encode_long num_subs path f ≡ ok (id, f)
unfolding encode_long
encode_long-known num_subs path f id e = rw (encode_long, e)

known-Done :
    (num_subs : ℕ) (path : List ℕ) (f : Fields) (id : ℕ)
    → PathsInv num_subs f
    → find_path path f.sub_paths ≡ some id
    → Done num_subs path (id, f)
known-Done num_subs path f id v e = (
  v,
  find_path-bound num_subs path id f.sub_paths v.outside e,
  find_id-find_path path id f.sub_paths v.distinct e,
  encode_long-known num_subs path f id e,
)

abbrev extended : List ℕ → Fields → Fields
extended path f = record f {
  sub_paths = insert_path path (size_max - length f.sub_paths) f.sub_paths;
}

encode_long-new :
    (num_subs : ℕ) (path : List ℕ) (f f' : Fields) (id : ℕ)
    → find_path path f.sub_paths ≡ none
    → encode_long num_subs path f ≡ ok (id, f')
    → (num_subs ≤ size_max - length f.sub_paths)
      × (◌≡◌ {A = ℕ × Fields} (size_max - length f.sub_paths, extended path f) (id, f'))
unfolding encode_long
encode_long-new num_subs path f f' id e h =
    let (fits, same) =
      assert-eq-ok (leb num_subs (size_max - length f.sub_paths)) assembly_exception
        (ok (size_max - length f.sub_paths, extended path f)) (rw (encode_long, e) at h) in
    (leb→le _ _ fits, ok-injective same)

extended-Done :
    (num_subs : ℕ) (path : List ℕ) (f : Fields)
    → PathsInv num_subs f
    → length f.sub_paths < size_max
    → num_subs ≤ size_max - length f.sub_paths
    → find_path path f.sub_paths ≡ none
    → Done num_subs path (size_max - length f.sub_paths, extended path f)
extended-Done num_subs path f v room fits new = (
  record {
    above = rw (length-insert_path path next f.sub_paths) (
        insert_path-All _ path next f.sub_paths (omega arith)
          (weaken _ _ f.sub_paths (omega arith) v.above));
    outside = insert_path-All num_subs path next f.sub_paths fits v.outside;
    distinct = insert_path-Distinct path next f.sub_paths unused new v.distinct;
  },
  fits,
  ground (arith, find_id-insert_path path next next f.sub_paths unused),
  encode_long-known num_subs path (extended path f) next
      (ground (arith, find_path-insert_path path path next f.sub_paths new, eq_text_self path)),
)
  where
    next : ℕ
    next = size_max - length f.sub_paths

    unused : find_id next f.sub_paths ≡ none
    unused = find_id_below next f.sub_paths (weaken _ _ f.sub_paths (omega arith) v.above)

encode_long-Done :
    (num_subs : ℕ) (path : List ℕ) (f f' : Fields) (id : ℕ)
    → PathsInv num_subs f
    → length f.sub_paths < size_max
    → encode_long num_subs path f ≡ ok (id, f')
    → Done num_subs path (id, f')
encode_long-Done num_subs path f f' id v room e = elim (Option-cases (find_path path f.sub_paths)) [
  | inl new ↦
      let (fits, same) = encode_long-new num_subs path f f' id new e in
      subst (Done num_subs path) same (extended-Done num_subs path f v room fits new)
  | inr (old, known) ↦
      subst (Done num_subs path)
        (ok-injective (sym (encode_long-known num_subs path f old known) ∙ e))
        (known-Done num_subs path f old v known)
]

encode-single :
    (num_subs sub : ℕ) (f f' : Fields) (id : ℕ)
    → encode_sub_path num_subs (sub ∷ []) f ≡ ok (id, f')
    → (ltb sub num_subs ≡ true) × (◌≡◌ {A = ℕ × Fields} (sub, f) (id, f'))
unfolding encode_sub_path
encode-single num_subs sub f f' id e =
    let (direct, same) = assert-eq-ok (ltb sub num_subs) assembly_exception (ok (sub, f)) e in
    (direct, ok-injective same)

decode-extended :
    (num_subs : ℕ) (path p : List ℕ) (f : Fields) (j : ℕ)
    → PathsInv num_subs f
    → length f.sub_paths < size_max
    → decode_sub_path num_subs j f ≡ ok p
    → decode_sub_path num_subs j (extended path f) ≡ ok p
unfolding decode_sub_path
decode-extended num_subs path p f j v room d = ground (
  arith,
  find_id-insert_path path next j f.sub_paths,
  find_id_below next f.sub_paths (weaken _ _ f.sub_paths (omega arith) v.above),
)
  where
    next : ℕ
    next = size_max - length f.sub_paths

-- While the invariant of the numbers holds and fewer than 2^64 - 1 paths have a number: if a path
-- is given a number, that number stands for the path from then on, a second call gives the same
-- number and changes nothing, and the invariant still holds.
pub encode_sub_path-Encoded :
    (num_subs : ℕ) (path : List ℕ) (f f' : Fields) (id : ℕ)
    → PathsInv num_subs f
    → length f.sub_paths < size_max
    → encode_sub_path num_subs path f ≡ ok (id, f')
    → Encoded num_subs path f f' id
unfolding encode_sub_path
encode_sub_path-Encoded num_subs [] f f' id v room e = cc
encode_sub_path-Encoded num_subs (sub ∷ []) f f' id v room e =
    let (direct, same) = encode-single num_subs sub f f' id e in
    subst (λ r. Encoded num_subs (sub ∷ []) f r.1 r.0) same
      (record {
        inv = v;
        decodes = unfold decode_sub_path in rw direct;
        again = unfold encode_sub_path in rw direct;
      })
encode_sub_path-Encoded num_subs (sub ∷ deeper ∷ path) f f' id v room e =
    let (inv, low, found, again) =
      encode_long-Done num_subs (sub ∷ deeper ∷ path) f f' id v room e in
    record {
      inv = inv;
      decodes = decode-found num_subs id (sub ∷ deeper ∷ path) f' low found;
      again = again;
    }

-- While the invariant of the numbers holds and fewer than 2^64 - 1 paths have a number, giving a
-- path a number does not change what the numbers given before stand for.
pub decode-encode_other :
    (num_subs : ℕ) (path p : List ℕ) (f f' : Fields) (id j : ℕ)
    → PathsInv num_subs f
    → length f.sub_paths < size_max
    → encode_sub_path num_subs path f ≡ ok (id, f')
    → decode_sub_path num_subs j f ≡ ok p
    → decode_sub_path num_subs j f' ≡ ok p
unfolding encode_sub_path
decode-encode_other num_subs [] p f f' id j v room e d = cc
decode-encode_other num_subs (sub ∷ []) p f f' id j v room e d =
    subst (λ r. decode_sub_path num_subs j r.1 ≡ ok p) (encode-single num_subs sub f f' id e).1 d
decode-encode_other num_subs (sub ∷ deeper ∷ path) p f f' id j v room e d =
    let long : List ℕ = sub ∷ deeper ∷ path in
    elim (Option-cases (find_path long f.sub_paths)) [
      | inl new ↦
          subst (λ r. decode_sub_path num_subs j r.1 ≡ ok p)
            (encode_long-new num_subs long f f' id new e).1
            (decode-extended num_subs long p f j v room d)
      | inr (old, known) ↦
          subst (λ r. decode_sub_path num_subs j r.1 ≡ ok p)
            (ok-injective (sym (encode_long-known num_subs long f old known) ∙ e)) d
    ]
