-- ===== src/Assembly/Paths/Finding.antt =====
-- Look-ups in the table of nested sub-assemblies, of Assembly::encodeSubPath and decodeSubPath in
-- libevmasm/Assembly.cpp.
use jules_solidity_pppascal.Common.{
  ◌∷◌, [], All, ◌≡◌, suc, ◌<◌, arith, if◌then◌else◌, refl, ◌≤◌, ◌==◌,
}
use jules_solidity_pppascal.Assembly.{List, ℕ, length, none, some}
use jules_solidity_pppascal.Assembly.Paths.{find_id, find_path, insert_path}
use jules_solidity_pppascal.Common.Text.{eq_text, eq_text_self, eq_text-eq}

-- All numbers given so far lie above `low` and differ from one another.
abbrev pub Above : ℕ → List (List ℕ × ℕ) → Type 0
Above low paths = All (λ entry. low < entry.1) paths

pub length-insert_path :
    (path : List ℕ) (id : ℕ) (paths : List (List ℕ × ℕ))
    → length (insert_path path id paths) ≡ suc (length paths)
unfolding insert_path
length-insert_path path id [] = refl
length-insert_path path id ((known, n) ∷ paths) = ground (arith, length-insert_path path id paths)

-- The numbers are pairwise different, and so are the paths.
abbrev pub Distinct : List (List ℕ × ℕ) → Type 0
Distinct [] = Unit {0}
Distinct ((path, id) ∷ paths) =
    (find_id id paths ≡ none) × (find_path path paths ≡ none) × Distinct paths

pub find_id-insert_path :
    (path : List ℕ) (id j : ℕ) (paths : List (List ℕ × ℕ))
    → find_id id paths ≡ none
    → find_id j (insert_path path id paths) ≡ (if id == j then some path else find_id j paths)
unfolding find_id insert_path
find_id-insert_path path id j [] h = refl
find_id-insert_path path id j ((known, n) ∷ paths) h =
    ground (arith, find_id-insert_path path id j paths)

pub find_path-insert_path :
    (path other : List ℕ) (id : ℕ) (paths : List (List ℕ × ℕ))
    → find_path path paths ≡ none
    → find_path other (insert_path path id paths)
      ≡ (if eq_text path other then some id else find_path other paths)
unfolding find_path insert_path
find_path-insert_path path other id [] h = refl
find_path-insert_path path other id ((known, n) ∷ paths) h = ground (
  arith,
  find_path-insert_path path other id paths,
  eq_text-eq path other,
  eq_text-eq known other,
  eq_text_self path,
)

-- A number below all that were given is not found.
pub find_id_below :
    (low : ℕ) (paths : List (List ℕ × ℕ)) → Above low paths → find_id low paths ≡ none
unfolding find_id
find_id_below low [] h = refl
find_id_below low ((path, id) ∷ paths) (h, hs) = ground (arith, find_id_below low paths hs)

-- Each path is found under its number.
pub find_id-find_path :
    (path : List ℕ) (id : ℕ) (paths : List (List ℕ × ℕ))
    → Distinct paths
    → find_path path paths ≡ some id
    → find_id id paths ≡ some path
unfolding find_id find_path
find_id-find_path path id [] d e = cc
find_id-find_path path id ((known, n) ∷ paths) (hn, hp, d) e =
    ground (arith, find_id-find_path path id paths d, eq_text-eq known path)

pub find_path-bound :
    (low : ℕ) (path : List ℕ) (id : ℕ) (paths : List (List ℕ × ℕ))
    → All (λ entry. low ≤ entry.1) paths
    → find_path path paths ≡ some id
    → low ≤ id
unfolding find_path
find_path-bound low path id [] h e = cc
find_path-bound low path id ((known, n) ∷ paths) (h, hs) e =
    ground (arith, find_path-bound low path id paths hs)

pub insert_path-All :
    (low : ℕ) (path : List ℕ) (id : ℕ) (paths : List (List ℕ × ℕ))
    → low ≤ id
    → All (λ entry. low ≤ entry.1) paths
    → All (λ entry. low ≤ entry.1) (insert_path path id paths)
unfolding insert_path
insert_path-All low path id [] h hs = (h, tt)
insert_path-All low path id ((known, n) ∷ paths) h (hn, hs) =
    ground (arith, insert_path-All low path id paths h hs)

pub insert_path-Distinct :
    (path : List ℕ) (id : ℕ) (paths : List (List ℕ × ℕ))
    → find_id id paths ≡ none
    → find_path path paths ≡ none
    → Distinct paths
    → Distinct (insert_path path id paths)
unfolding insert_path find_id find_path
insert_path-Distinct path id [] hi hp d = (refl, refl, tt)
insert_path-Distinct path id ((known, n) ∷ paths) hi hp (dn, dk, d) = ground (
  arith,
  insert_path-Distinct path id paths,
  find_id-insert_path path id n paths,
  find_path-insert_path path known id paths,
  eq_text-eq path known,
  eq_text_self path,
)
