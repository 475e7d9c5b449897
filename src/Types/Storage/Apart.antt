-- ===== src/Types/Storage/Apart.antt =====
-- The members lie in storage in order and apart: `StorageOffsets::computeOffsets` in
-- libsolidity/ast/Types.cpp.
use jules_solidity_pppascal.Common.{
  false, some, zero, suc, ok, [], ◌∷◌, ℕ, ◌≤◌, ◌*◌, List, if◌then◌else◌, ◌≡◌, ◌+◌, ◌==◌, All, arith,
  inl, inr, subst, ◌<◌, ap, sym, ==_iff, ◌∙◌, Bool-cases, get_elem?,
}
use jules_solidity_pppascal.Common.Dict.{lookup}
use jules_solidity_pppascal.Common.Post.{Post}
use jules_solidity_pppascal.Types.Storage.{compute_offsets, StorageItem, offset_at}
use jules_solidity_pppascal.Types.Storage.Laying.{Fits, Laid, end_of, offsets_loop-Laid, start_of}

-- Bytes of storage, counted from the first slot.

-- An entry of the rest, behind one for index i.
lookup-behind :
    {V : Type 0} (i n : ℕ) (v : V) (m : List (ℕ × V)) → i < n → lookup n ((i, v) ∷ m) ≡ lookup n m
unfolding lookup
lookup-behind i n v m h =
    let other : (i == n) ≡ false = ground (arith, h) in
    ap (λ b. if b then some v else lookup n m) other

lookup-here :
    {V : Type 0} (i n : ℕ) (v : V) (m : List (ℕ × V)) → i ≡ n → lookup n ((i, v) ∷ m) ≡ some v
unfolding lookup
lookup-here i n v m h = ap (λ b. if b then some v else lookup n m) ((==_iff i n).1 h)

start-end :
    (place : ℕ × ℕ) (t : StorageItem)
    → 1 ≤ t.slots
    → place.1 + t.bytes_in_slot ≤ 32
    → start_of place ≤ end_of place t
unfolding start_of end_of
start-end place t some_slots inside = ground arith

-- No entry lies before.
pub Laid-late :
    (size at i : ℕ) (types : List StorageItem) (offsets : List (ℕ × (ℕ × ℕ))) (n : ℕ) (p : ℕ × ℕ)
    → Laid size at i types offsets
    → lookup n offsets ≡ some p
    → (i ≤ n) × (at ≤ start_of p)
unfolding Laid lookup
Laid-late size at i [] offsets n p (_, none_left) h =
    let bad : lookup n [] ≡ some p = ap (lookup n) (sym none_left) ∙ h in cc
Laid-late size at i (t ∷ types) offsets n p (inl (_, laid)) h =
    let (later, after) = Laid-late size at (i + 1) types offsets n p laid h in
    (omega (arith, later), after)
Laid-late size at i (t ∷ types) offsets n p
      (inr (place, rest, _, some_slots, same, after, inside, laid)) h =
    let h' : lookup n ((i, place) ∷ rest) ≡ some p = ap (lookup n) (sym same) ∙ h in
    elim (Bool-cases (i == n)) [
      | inl here ↦
          (let e : some place ≡ some p =
              ap (λ b. if b then some place else lookup n rest) (sym here) ∙ h' in
            let e' : place ≡ p = cc in
            (omega (arith, (==_iff i n).0 here), subst (λ q. at ≤ start_of q) e' after))
      | inr other ↦
          (let later =
              Laid-late size (end_of place t) (i + 1) types rest n p laid
                (ap (λ b. if b then some place else lookup n rest) (sym other) ∙ h') in
            (
              omega (arith, later.0),
              omega (arith, after, later.1, start-end place t some_slots inside),
            ))
    ]

Laid-end :
    (size at i : ℕ) (types : List StorageItem) (offsets : List (ℕ × (ℕ × ℕ)))
    → Laid size at i types offsets
    → at ≤ size * 32
unfolding Laid
Laid-end size at i [] offsets (h, _) = h
Laid-end size at i (t ∷ types) offsets (inl (_, laid)) = Laid-end size at (i + 1) types offsets laid
Laid-end size at i (t ∷ types) offsets (inr (place, rest, _, some_slots, _, after, inside, laid)) =
    omega (
      arith,
      after,
      start-end place t some_slots inside,
      Laid-end size (end_of place t) (i + 1) types rest laid,
    )

-- An item with an offset lies within its slot and within the size, and before those behind it.
abbrev Placed : ℕ → ℕ → ℕ × ℕ → StorageItem → List (ℕ × (ℕ × ℕ)) → Type 0
Placed size n p t offsets =
    (p.1 + t.bytes_in_slot ≤ 32)
    × (end_of p t ≤ size * 32)
    × ((m : ℕ) (q : ℕ × ℕ) → n < m → lookup m offsets ≡ some q → end_of p t ≤ start_of q)

Laid-Placed :
    (size at i : ℕ) (types : List StorageItem) (offsets : List (ℕ × (ℕ × ℕ))) (n : ℕ)
    (t : StorageItem) (p : ℕ × ℕ)
    → Laid size at i types offsets
    → get_elem? types n ≡ some t
    → lookup (i + n) offsets ≡ some p
    → Placed size (i + n) p t offsets
unfolding Laid
Laid-Placed size at i [] offsets n t p laid g h = cc
Laid-Placed size at i (u ∷ types) offsets zero t p (inl (_, laid)) g h =
    absurd (omega (arith, (Laid-late size at (i + 1) types offsets (i + 0) p laid h).0))
Laid-Placed size at i (u ∷ types) offsets (suc k) t p (inl (_, laid)) g h =
    let index : i + 1 + k ≡ i + suc k = omega arith in
    subst (λ n. Placed size n p t offsets) index
      (Laid-Placed size at (i + 1) types offsets k t p laid g
        (ap (λ n. lookup n offsets) index ∙ h))
Laid-Placed size at i (u ∷ types) offsets zero t p
      (inr (place, rest, _, some_slots, same, after, inside, laid)) g h =
    let e : some place ≡ some p =
      sym (lookup-here i (i + 0) place rest (omega arith)) ∙ ap (lookup (i + 0)) (sym same) ∙ h in
    let e' : place ≡ p = cc in
    let e'' : u ≡ t = cc in
    subst (λ v. Placed size (i + 0) p v offsets) e''
      (subst (λ v. Placed size (i + 0) v u offsets) e'
        (
          inside,
          Laid-end size (end_of place u) (i + 1) types rest laid,
          λ m q later k.
              (Laid-late size (end_of place u) (i + 1) types rest m q laid (
                sym (lookup-behind i m place rest (omega (arith, later)))
                ∙ ap (lookup m) (sym same)
                ∙ k)).1,
        ))
Laid-Placed size at i (u ∷ types) offsets (suc n) t p
      (inr (place, rest, _, some_slots, same, after, inside, laid)) g h =
    let index : i + 1 + n ≡ i + suc n = omega arith in
    let found : lookup (i + 1 + n) rest ≡ some p =
      ap (λ x. lookup x rest) index
      ∙ sym (lookup-behind i (i + suc n) place rest (omega arith))
      ∙ ap (lookup (i + suc n)) (sym same)
      ∙ h in
    let (low, within, apart) =
      Laid-Placed size (end_of place u) (i + 1) types rest n t p laid g found in
    (
      low,
      within,
      λ m q later k. apart m q (omega (arith, later)) (
          sym (lookup-behind i m place rest (omega (arith, later))) ∙ ap (lookup m) (sym same) ∙ k),
    )

-- The offsets of two members, where a member takes at most 32 bytes of a slot: each lies within one
-- slot, the one with the smaller index ends before the other begins, and the other ends within the
-- size.
pub compute_offsets-apart :
    (types : List StorageItem) (size : ℕ) (offsets : List (ℕ × (ℕ × ℕ))) (i j : ℕ)
    (t u : StorageItem) (p q : ℕ × ℕ)
    → compute_offsets types ≡ ok (size, offsets)
    → All Fits types
    → i < j
    → get_elem? types i ≡ some t
    → get_elem? types j ≡ some u
    → offset_at i offsets ≡ some p
    → offset_at j offsets ≡ some q
    → (p.1 + t.bytes_in_slot ≤ 32)
      × (q.1 + u.bytes_in_slot ≤ 32)
      × (end_of p t ≤ start_of q)
      × (end_of q u ≤ size * 32)
unfolding compute_offsets offset_at start_of Post
compute_offsets-apart types size offsets i j t u p q computed fits before ti uj pi qj =
    let laid = offsets_loop-Laid 0 (0, 0) types (omega arith) fits (size, offsets) computed in
    let zero_i : 0 + i ≡ i = omega arith in
    let zero_j : 0 + j ≡ j = omega arith in
    let first =
      Laid-Placed size 0 0 types offsets i t p laid ti (ap (λ n. lookup n offsets) zero_i ∙ pi) in
    let second =
      Laid-Placed size 0 0 types offsets j u q laid uj (ap (λ n. lookup n offsets) zero_j ∙ qj) in
    (first.0, second.0, first.2 j q (omega (arith, before)) qj, second.1)
