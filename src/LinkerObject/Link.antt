-- ===== src/LinkerObject/Link.antt =====
-- References and code in `append` and `link` of libevmasm/LinkerObject.cpp.
use jules_solidity_pppascal.Common.{
  All, ◌<◌, [], ◌∷◌, ◌≡◌, ◌≤◌, length, take, none, ◌+◌, drop, ◌∙◌, arith, refl, Option,
  Option-cases, append-nil, ok, inr, inl, ◌++◌, length-take, ap, append_assoc, sym,
}
use jules_solidity_pppascal.Common.Buffer.{
  overwrite, overwrite-ok, write, length-write, slice-write_self, slice-write_outside,
}
use jules_solidity_pppascal.Common.Dict.{lookup, insert, lookup-insert}
use jules_solidity_pppascal.LinkerObject.{
  LinkerObject, shift_references, find_address, match_library, link_loop, link, List, ℕ, some,
  after_colon,
}

-- Every reference of the other object is found where its code now stands. A place before that
-- keeps the reference it had.
shift_references-later :
    (size j : ℕ) (others refs : List (ℕ × List ℕ))
    → j < size
    → lookup j (shift_references size others refs) ≡ lookup j refs
unfolding shift_references
shift_references-later size j [] refs h = refl
shift_references-later size j ((offset, name) ∷ others) refs h =
    shift_references-later size j others (insert (offset + size) name refs) h
    ∙ ground (arith, lookup-insert (offset + size) j name refs)

-- The references that `link` leaves: those with no address.
unfoldable pub unmatched : List (List ℕ × List ℕ) → List (ℕ × List ℕ) → List (ℕ × List ℕ)
unmatched addresses [] = []
unmatched addresses ((offset, name) ∷ refs) = elim (match_library name addresses) [
  | some address ↦ unmatched addresses refs
  | none ↦ (offset, name) ∷ unmatched addresses refs
]

-- References in order, each with 21 bytes to itself, from `start` on, within `size` bytes of code.
abbrev pub Apart : ℕ → ℕ → List (ℕ × List ℕ) → Type 0
Apart start size [] = Unit {0}
Apart start size ((offset, name) ∷ refs) =
    (start ≤ offset) × (offset + 21 ≤ size) × Apart (offset + 21) size refs

-- Addresses have 21 bytes.
abbrev pub FullAddresses : List (List ℕ × List ℕ) → Type 0
FullAddresses = All λ entry. length entry.1 ≡ 21

-- What has become of the 21 bytes at `offset`: with an address, its first 20 bytes, while the last
-- byte is the old one; without, all are the old ones.
abbrev pub LinkedAs : Option (List ℕ) → ℕ → List ℕ → List ℕ → Type 0
LinkedAs (some address) offset old new =
    (take 20 (drop offset new) ≡ take 20 address)
    × (take 1 (drop (offset + 20) new) ≡ take 1 (drop (offset + 20) old))
LinkedAs none offset old new = take 21 (drop offset new) ≡ take 21 (drop offset old)

abbrev pub Linked : List (List ℕ × List ℕ) → List ℕ → List ℕ → ℕ × List ℕ → Type 0
Linked addresses old new (offset, name) = LinkedAs (match_library name addresses) offset old new

find_address-full :
    (addresses : List (List ℕ × List ℕ)) (name address : List ℕ)
    → FullAddresses addresses
    → find_address name addresses ≡ some address
    → length address ≡ 21
unfolding find_address
find_address-full [] name address h e = cc
find_address-full ((known, known_address) ∷ addresses) name address (h, hs) e =
    ground (arith, find_address-full addresses name address hs)

match_library-full :
    (addresses : List (List ℕ × List ℕ)) (name address : List ℕ)
    → FullAddresses addresses
    → match_library name addresses ≡ some address
    → length address ≡ 21
unfolding match_library
match_library-full addresses name address h e = elim (Option-cases (find_address name addresses)) [
  | inr (found, p) ↦ find_address-full addresses name address h (p ∙ rw (match_library, p) at e)
  | inl p ↦ elim (Option-cases (after_colon name)) [
    | inl q ↦ absurd (cc (rw (match_library, p, q) at e))
    | inr (simple, q) ↦ find_address-full addresses simple address h (rw (match_library, p, q) at e)
  ]
]

-- Code that agrees from `start` on serves as well for the references from there on.
LinkedAs-old :
    (start offset : ℕ) (old old' new : List ℕ)
    → start ≤ offset
    → ((n j : ℕ) → start ≤ j → take n (drop j old') ≡ take n (drop j old))
    → (found : Option (List ℕ)) → LinkedAs found offset old' new
    → LinkedAs found offset old new
LinkedAs-old start offset old old' new from agree (some address) (first, last) =
    (first, last ∙ agree 1 (offset + 20) (omega arith))
LinkedAs-old start offset old old' new from agree none same = same ∙ agree 21 offset from

Linked-old :
    (addresses : List (List ℕ × List ℕ)) (start size : ℕ) (old old' new : List ℕ)
    (refs : List (ℕ × List ℕ))
    → Apart start size refs
    → ((n j : ℕ) → start ≤ j → take n (drop j old') ≡ take n (drop j old))
    → All (Linked addresses old' new) refs
    → All (Linked addresses old new) refs
Linked-old addresses start size old old' new [] apart agree h = tt
Linked-old addresses start size old old' new ((offset, name) ∷ refs) (from, within, apart) agree
      (h, hs) =
    (
      LinkedAs-old start offset old old' new from agree (match_library name addresses) h,
      Linked-old addresses (offset + 21) size old old' new refs apart
          (λ n j le. agree n j (omega arith)) hs,
    )

module _ (addresses : List (List ℕ × List ℕ)) (offset : ℕ) (name : List ℕ)
    (refs : List (ℕ × List ℕ)) where
  -- One round of the loop and of `unmatched`, for each answer.
  round-none :
      (code : List ℕ) (remaining : List (ℕ × List ℕ))
      → match_library name addresses ≡ none
      → link_loop addresses ((offset, name) ∷ refs) code remaining
        ≡ link_loop addresses refs code (remaining ++ (offset, name) ∷ [])
  unfolding link_loop
  round-none code remaining e = rw (link_loop, e)

  round-some :
      (code code' : List ℕ) (remaining : List (ℕ × List ℕ)) (address : List ℕ)
      → match_library name addresses ≡ some address
      → overwrite offset (take 20 address) code ≡ ok code'
      → link_loop addresses ((offset, name) ∷ refs) code remaining
        ≡ link_loop addresses refs code' remaining
  unfolding link_loop
  round-some code code' remaining address e w = rw (link_loop, e) (rw w)

  unmatched-none :
      match_library name addresses ≡ none
      → unmatched addresses ((offset, name) ∷ refs) ≡ (offset, name) ∷ unmatched addresses refs
  unfolding unmatched
  unmatched-none e = rw (unmatched, e)

  unmatched-some :
      {address : List ℕ}
      → match_library name addresses ≡ some address
      → unmatched addresses ((offset, name) ∷ refs) ≡ unmatched addresses refs
  unfolding unmatched
  unmatched-some e = rw (unmatched, e)

-- What a run of the loop over `refs` ends with.
record LoopEnds (addresses : List (List ℕ × List ℕ)) (refs : List (ℕ × List ℕ)) (start : ℕ)
    (old : List ℕ) (remaining : List (ℕ × List ℕ)) : Type 0 where
  code : List ℕ
  ends : link_loop addresses refs old remaining ≡ ok (code, remaining ++ unmatched addresses refs)
  size_kept : length code ≡ length old
  before : (n j : ℕ) → j + n ≤ start → take n (drop j code) ≡ take n (drop j old)
  linked : All (Linked addresses old code) refs

module _ (addresses : List (List ℕ × List ℕ)) (full : FullAddresses addresses) (offset : ℕ)
    (name : List ℕ) (refs : List (ℕ × List ℕ)) (start : ℕ) (old : List ℕ)
    (remaining : List (ℕ × List ℕ)) (from : start ≤ offset)
    (within : offset + 21 ≤ length old) where
  keep_reference :
      match_library name addresses ≡ none
      → LoopEnds addresses refs (offset + 21) old (remaining ++ (offset, name) ∷ [])
      → LoopEnds addresses ((offset, name) ∷ refs) start old remaining
  keep_reference e rest = record {
    code = rest.code;
    ends =
        round-none addresses offset name refs old remaining e
        ∙ rest.ends
        ∙ ap (λ t. ok (rest.code, t))
            (append_assoc remaining ((offset, name) ∷ []) (unmatched addresses refs)
              ∙ ap (λ t. remaining ++ t) (sym (unmatched-none addresses offset name refs e)));
    size_kept = rest.size_kept;
    before = λ n j le. rest.before n j (omega arith);
    linked = (rw e (rest.before 21 offset (omega arith)), rest.linked);
  }

  fill_reference :
      (address : List ℕ)
      → match_library name addresses ≡ some address
      → Apart (offset + 21) (length old) refs
      → LoopEnds addresses refs (offset + 21) (write offset (take 20 address) old) remaining
      → LoopEnds addresses ((offset, name) ∷ refs) start old remaining
  fill_reference address e apart rest = record {
    code = rest.code;
    ends =
        round-some addresses offset name refs old (write offset (take 20 address) old) remaining
          address e (overwrite-ok offset (take 20 address) old (omega (arith, twenty)))
        ∙ rest.ends
        ∙ ap (λ t. ok (rest.code, remaining ++ t))
            (sym (unmatched-some addresses offset name refs e));
    size_kept = rest.size_kept ∙ length-write offset (take 20 address) old;
    before = λ n j le.
        rest.before n j (omega arith)
        ∙ slice-write_outside offset j n (take 20 address) old (inl (omega arith));
    linked = (rw e (first, last), tail);
  }
    where
      twenty : length (take 20 address) ≡ 20
      twenty =
          omega (arith, length-take 20 address, match_library-full addresses name address full e)

      first : take 20 (drop offset rest.code) ≡ take 20 address
      first =
          rest.before 20 offset (omega arith)
          ∙ (rw twenty at (slice-write_self offset (take 20 address) old (omega (arith, twenty))))

      last : take 1 (drop (offset + 20) rest.code) ≡ take 1 (drop (offset + 20) old)
      last =
          rest.before 1 (offset + 20) (omega arith)
          ∙ slice-write_outside offset (offset + 20) 1 (take 20 address) old
              (inr (omega (arith, twenty)))

      tail : All (Linked addresses old rest.code) refs
      tail =
          Linked-old addresses (offset + 21) (length old) old (write offset (take 20 address) old)
            rest.code refs apart
            (λ n j le.
              slice-write_outside offset j n (take 20 address) old (inr (omega (arith, twenty))))
            rest.linked

loop-ends :
    (addresses : List (List ℕ × List ℕ))
    → FullAddresses addresses
    → (refs : List (ℕ × List ℕ)) (start : ℕ) (old : List ℕ) (remaining : List (ℕ × List ℕ))
    → Apart start (length old) refs
    → LoopEnds addresses refs start old remaining
loop-ends addresses full [] start old remaining apart = record {
  code = old;
  ends = unfold link_loop unmatched in rw append-nil;
  size_kept = refl;
  before = λ n j le. refl;
  linked = tt;
}
loop-ends addresses full ((offset, name) ∷ refs) start old remaining (from, within, apart) =
    elim (Option-cases (match_library name addresses)) [
      | inl e ↦
          keep_reference addresses full offset name refs start old remaining from within e (
            loop-ends addresses full refs (offset + 21) old (remaining ++ (offset, name) ∷ [])
              apart)
      | inr (address, e) ↦
          let code = write offset (take 20 address) old in
          fill_reference addresses full offset name refs start old remaining from within address e
            apart
            (loop-ends addresses full refs (offset + 21) code remaining
              (rw (length-write offset (take 20 address) old) apart))
    ]

-- Linking an object whose references lie in order, apart and within the code, with addresses of 21
-- bytes, succeeds. It keeps the size of the code and exactly the references that have no address.
-- At each other reference it writes the first 20 bytes of the address; the byte for the 21st stays
-- what it was. Where there is no address, the code stays what it was.
pub link-Linked :
    (o : LinkerObject) (addresses : List (List ℕ × List ℕ))
    → FullAddresses addresses
    → Apart 0 (length o.bytecode) o.link_references
    → (code : List ℕ) × (link o addresses
        ≡ ok
            (record o { bytecode = code; link_references = unmatched addresses o.link_references }))
      × (length code ≡ length o.bytecode)
      × All (Linked addresses o.bytecode code) o.link_references
unfolding link
link-Linked o addresses full apart =
    let r = loop-ends addresses full o.link_references 0 o.bytecode [] apart in
    (r.code, rw r.ends, r.size_kept, r.linked)
