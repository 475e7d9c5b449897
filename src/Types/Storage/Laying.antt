-- ===== src/Types/Storage/Laying.antt =====
-- The loop of StorageOffsets::computeOffsets in libsolidity/ast/Types.cpp, item after item.
use jules_solidity_pppascal.Common.{
  true, false, ok, [], ◌∷◌, ℕ, ◌≤◌, ◌*◌, List, if◌then◌else◌, ◌≡◌, ◌+◌, ◌==◌, All, ◌⊎◌, arith,
  assert_throw, internal_compiler_error, Bool, not, ltb, ◌^◌, ◌>>◌, leb, ◌>>=◌, inl, inr, refl,
  subst, Error, leb→le,
}
use jules_solidity_pppascal.Common.Post.{ok-Post, then-Post, Post, bind-Post}
use jules_solidity_pppascal.Types.Storage.{place_of, StorageItem, offsets_loop, after_item}

-- Bytes of storage, counted from the first slot.

-- Bytes of storage, counted from the first slot.
unfoldable pub start_of : ℕ × ℕ → ℕ
start_of place = place.0 * 32 + place.1

-- An item of one slot takes its bytes, a larger one all its slots.
unfoldable pub end_of : ℕ × ℕ → StorageItem → ℕ
unfolding start_of
end_of place t = if t.slots == 1 then start_of place + t.bytes_in_slot else (place.0 + t.slots) * 32

abbrev pub Fits : StorageItem → Type 0
Fits t = t.bytes_in_slot ≤ 32

-- From the byte `at` on, the items lie one behind the other, and all before the end of `size` slots.
unfoldable pub Laid : ℕ → ℕ → ℕ → List StorageItem → List (ℕ × (ℕ × ℕ)) → Type 0
unfolding start_of end_of
Laid size at i [] offsets = (at ≤ size * 32) × (offsets ≡ [])
Laid size at i (t ∷ types) offsets =
    ((t.is_stored ≡ false) × Laid size at (i + 1) types offsets)
    ⊎ ((place : ℕ × ℕ) × (rest : List (ℕ × (ℕ × ℕ))) × (t.is_stored ≡ true)
        × (1 ≤ t.slots)
        × (offsets ≡ (i, place) ∷ rest)
        × (at ≤ start_of place)
        × (place.1 + t.bytes_in_slot ≤ 32)
        × Laid size (end_of place t) (i + 1) types rest)

placed-facts :
    (slot byte : ℕ) (t : StorageItem)
    → byte ≤ 32
    → Fits t
    → (start_of (slot, byte) ≤ start_of (place_of slot byte t))
      × ((place_of slot byte t).1 + t.bytes_in_slot ≤ 32)
unfolding place_of start_of
placed-facts slot byte t h small = (ground arith, ground arith)

after_item-facts :
    (place : ℕ × ℕ) (t : StorageItem)
    → place.1 + t.bytes_in_slot ≤ 32
    → ((after_item place t).1 ≤ 32) × (start_of (after_item place t) ≡ end_of place t)
unfolding after_item end_of start_of
after_item-facts place t h = (ground arith, ground arith)

assert_holds : (b : Bool) (e : Error) → Post (λ _. b ≡ true) (assert_throw b e)
unfolding Post
assert_holds true e u h = refl
assert_holds false e u h = cc

item-Laid :
    (i : ℕ) (at : ℕ × ℕ) (t : StorageItem) (types : List StorageItem) (b : Bool)
    → t.is_stored ≡ b
    → at.1 ≤ 32
    → Fits t
    → Post
        (λ (r : ℕ × List (ℕ × (ℕ × ℕ))). Laid r.0 (start_of at) (i + 1) types r.1)
        (offsets_loop (i + 1) at types)
    → Post
        (λ (r : ℕ × List (ℕ × (ℕ × ℕ))).
          Laid r.0 (start_of (after_item (place_of at.0 at.1 t) t)) (i + 1) types r.1)
        (offsets_loop (i + 1) (after_item (place_of at.0 at.1 t) t) types)
    → Post
        (λ (r : ℕ × List (ℕ × (ℕ × ℕ))). Laid r.0 (start_of at) i (t ∷ types) r.1)
        (if not b
          then offsets_loop (i + 1) at types
          else assert_throw (ltb (place_of at.0 at.1 t).0 (2 ^ 256)) internal_compiler_error
            >> (assert_throw (leb 1 t.slots) internal_compiler_error
                >> (offsets_loop (i + 1) (after_item (place_of at.0 at.1 t) t) types
                    >>= λ (r : ℕ × List (ℕ × (ℕ × ℕ))). ok (r.0, (i, place_of at.0 at.1 t) ∷ r.1))))
unfolding Laid Post
item-Laid i at t types false is low small skipped placed = λ r h. inl (is, skipped r h)
item-Laid i at t types true is low small skipped placed =
    let place : ℕ × ℕ = place_of at.0 at.1 t in
    let (after, inside) = placed-facts at.0 at.1 t low small in
    let (low', end) = after_item-facts place t inside in
    bind-Post _ (assert_throw (ltb (place_of at.0 at.1 t).0 (2 ^ 256)) internal_compiler_error) _
      λ _.
        then-Post (λ _. leb 1 t.slots ≡ true) _
          (assert_throw (leb 1 t.slots) internal_compiler_error) _
          (assert_holds (leb 1 t.slots) internal_compiler_error)
          λ _ some_slots.
            then-Post
              (λ (r : ℕ × List (ℕ × (ℕ × ℕ))).
                Laid r.0 (start_of (after_item place t)) (i + 1) types r.1)
              _ _ _ placed
              λ r laid. ok-Post _ _ (
                inr (
                  place,
                  r.1,
                  is,
                  leb→le 1 t.slots some_slots,
                  refl,
                  after,
                  inside,
                  subst (λ n. Laid r.0 n (i + 1) types r.1) end laid,
                ))

pub offsets_loop-Laid :
    (i : ℕ) (at : ℕ × ℕ) (types : List StorageItem)
    → at.1 ≤ 32
    → All Fits types
    → Post
        (λ (r : ℕ × List (ℕ × (ℕ × ℕ))). Laid r.0 (start_of at) i types r.1)
        (offsets_loop i at types)
unfolding offsets_loop Laid start_of Post
offsets_loop-Laid i at [] low fits =
    bind-Post _ (assert_throw _ internal_compiler_error) _ λ _. ok-Post _ _ (ground arith, refl)
offsets_loop-Laid i at (t ∷ types) low (small, fits) =
    let inside = (placed-facts at.0 at.1 t low small).1 in
    let low' = (after_item-facts (place_of at.0 at.1 t) t inside).0 in
    item-Laid i at t types t.is_stored refl low small (offsets_loop-Laid (i + 1) at types low fits)
      (offsets_loop-Laid (i + 1) (after_item (place_of at.0 at.1 t) t) types low' fits)
