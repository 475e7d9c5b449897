-- ===== src/Assembly/Paths.antt =====
-- Numbers for sub-assemblies of sub-assemblies: `decodeSubPath`, `encodeSubPath` and
-- `subAssemblyById` of libevmasm/Assembly.cpp. A path lists a number for each level.
pub mod Finding
pub mod Laws
use jules_solidity_pppascal.Common.{
  ◌∷◌, err, if◌then◌else◌, out_of_range, [], ◌==◌, ◌-◌, ◌||◌, ◌>>◌, ◌&&◌, leb,
}
use jules_solidity_pppascal.Assembly.{
  Fields, List, ℕ, Bool, Option, Result, false, none, some, ok, assembly_exception, true, ltb,
  length, assert_throw,
}
use jules_solidity_pppascal.AssemblyItem.{size_max}
use jules_solidity_pppascal.Common.Rose.{Rose, Roses, node, child?, children}
use jules_solidity_pppascal.Common.Text.{eq_text}

-- find_if over the entries, by their second part.
unfoldable pub find_id : ℕ → List (List ℕ × ℕ) → Option (List ℕ)
find_id id [] = none
find_id id ((path, known) ∷ paths) = if known == id then some path else find_id id paths

unfoldable pub find_path : List ℕ → List (List ℕ × ℕ) → Option ℕ
unfolding eq_text
find_path path [] = none
find_path path ((known, id) ∷ paths) = if eq_text known path then some id else find_path path paths

-- operator< of vectors, the order of the map's keys.
less_path : List ℕ → List ℕ → Bool
less_path p [] = false
less_path [] (y ∷ q) = true
less_path (x ∷ p) (y ∷ q) = ltb x y || (x == y && less_path p q)

-- A new entry at its place. The path has no entry yet.
unfoldable pub insert_path : List ℕ → ℕ → List (List ℕ × ℕ) → List (List ℕ × ℕ)
unfolding less_path
insert_path path id [] = (path, id) ∷ []
insert_path path id ((known, n) ∷ paths) =
    let later = insert_path path id paths in
    if less_path path known then (path, id) ∷ (known, n) ∷ paths else (known, n) ∷ later

-- `num_subs` is `m_subs.size()`.
unfoldable pub decode_sub_path : ℕ → ℕ → Fields → Result (List ℕ)
unfolding find_id
decode_sub_path num_subs id f =
    if ltb id num_subs
    then ok (id ∷ [])
    else elim (find_id id f.sub_paths) [ some path ↦ ok path | none ↦ err assembly_exception ]

encode_long : ℕ → List ℕ → Fields → Result (ℕ × Fields)
unfolding find_path insert_path
encode_long num_subs path f = elim (find_path path f.sub_paths) [
  | some id ↦ ok (id, f)
  | none ↦ (do
    let object_id = size_max - length f.sub_paths
    assert_throw (leb num_subs object_id) assembly_exception
    ok (object_id, record f { sub_paths = insert_path path object_id f.sub_paths }))
]

unfoldable pub encode_sub_path : ℕ → List ℕ → Fields → Result (ℕ × Fields)
unfolding encode_long
encode_sub_path num_subs [] f = err assembly_exception
encode_sub_path num_subs (sub ∷ []) f = do
  assert_throw (ltb sub num_subs) assembly_exception
  ok (sub, f)
encode_sub_path num_subs (sub ∷ deeper ∷ path) f = encode_long num_subs (sub ∷ deeper ∷ path) f

-- The descent along a path. `.at()` throws where there is no such child.
unfoldable pub descend : {A : Type 0} → List ℕ → Rose A → Result (Rose A)
descend [] r = ok r
descend (i ∷ path) r = elim (child? (children r) i) [
  | some c ↦ descend path c
  | none ↦ err out_of_range
]
