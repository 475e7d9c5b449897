-- ===== src/LinkerObject.antt =====
-- Bytecode with open references to libraries: libevmasm/LinkerObject.h and LinkerObject.cpp. The
-- hash `keccak256`, 32 bytes, is not code of the repository and is an argument. Offsets and sizes are
-- those of buffers in memory, so their sums do not wrap.
pub mod Link
use Prim.Native.Nat.{ℕ}
use jules_solidity_pppascal.Common.{
  length, List, Result, Option, [], ◌++◌, ◌∷◌, ◌>>=◌, take, ok, none, ◌*◌, ◌+◌, some, if◌then◌else◌,
  ◌==◌,
}
use jules_solidity_pppascal.Common.Buffer.{overwrite}
use jules_solidity_pppascal.Common.Dict.{lookup, insert}
use jules_solidity_pppascal.Common.Text.{codes, eq_text}
use jules_solidity_pppascal.CommonData.Hex.{HexPrefix, dont_add, HexCase, lower, to_hex}

-- `immutable_references` maps the hash of an immutable to its identifier and its places in the code.
pub record LinkerObject : Type 0 where
  pub bytecode : List ℕ
  pub link_references : List (ℕ × List ℕ)
  pub immutable_references : List (ℕ × (List ℕ × List ℕ))

-- The `for` loop of `append` over the references of the other object.
unfoldable pub shift_references : ℕ → List (ℕ × List ℕ) → List (ℕ × List ℕ) → List (ℕ × List ℕ)
unfolding insert
shift_references size [] refs = refs
shift_references size ((offset, name) ∷ others) refs =
    shift_references size others (insert (offset + size) name refs)

unfoldable pub append : LinkerObject → LinkerObject → LinkerObject
unfolding shift_references
append o other = record o {
  link_references = shift_references (length o.bytecode) other.link_references o.link_references;
  bytecode = o.bytecode ++ other.bytecode;
}

-- std::map::find in the addresses. An address has 21 bytes.
unfoldable pub find_address : List ℕ → List (List ℕ × List ℕ) → Option (List ℕ)
unfolding eq_text
find_address name [] = none
find_address name ((known, address) ∷ addresses) =
    if eq_text known name then some address else find_address name addresses

-- What follows the first colon.
unfoldable pub after_colon : List ℕ → Option (List ℕ)
after_colon [] = none
after_colon (c ∷ name) = if c == b':' then some name else after_colon name

unfoldable pub match_library : List ℕ → List (List ℕ × List ℕ) → Option (List ℕ)
unfolding find_address after_colon
match_library name addresses = elim (find_address name addresses) [
  | some address ↦ some address
  | none ↦ elim (after_colon name) [ some simple ↦ find_address simple addresses | none ↦ none ]
]

-- The `for` loop of `link`: the code so far, and the references that remain. 20 bytes are copied.
unfoldable pub link_loop :
    List (List ℕ × List ℕ)
    → List (ℕ × List ℕ)
    → List ℕ
    → List (ℕ × List ℕ)
    → Result (List ℕ × List (ℕ × List ℕ))
unfolding overwrite
link_loop addresses [] code remaining = ok (code, remaining)
link_loop addresses ((offset, name) ∷ refs) code remaining = elim (match_library name addresses) [
  | some address ↦ (do
    code' ← overwrite offset (take 20 address) code
    link_loop addresses refs code' remaining)
  | none ↦ link_loop addresses refs code (remaining ++ (offset, name) ∷ [])
]

unfoldable pub link : LinkerObject → List (List ℕ × List ℕ) → Result LinkerObject
unfolding link_loop
link o addresses = do
  (code, remaining) ← link_loop addresses o.link_references o.bytecode []
  ok (record o { bytecode = code; link_references = remaining })

module _ (keccak256 : List ℕ → List ℕ) where
  unfoldable pub library_placeholder : List ℕ → List ℕ
  library_placeholder name =
      codes "$" ++ take 34 (to_hex (keccak256 name) dont_add lower) ++ codes "$"

  -- The marks of one reference in the hexadecimal text: two underscores, the placeholder's 36
  -- characters, four underscores.
  unfoldable pub mark_reference : ℕ × List ℕ → List ℕ → Result (List ℕ)
  unfolding library_placeholder overwrite
  mark_reference (offset, name) hex = do
    let pos = offset * 2
    hex₁ ← overwrite pos (codes "__") hex
    hex₂ ← overwrite (pos + 38) (codes "__") hex₁
    hex₃ ← overwrite (pos + 40) (codes "__") hex₂
    overwrite (pos + 2) (take 36 (library_placeholder name)) hex₃

  mark_references : List (ℕ × List ℕ) → List ℕ → Result (List ℕ)
  unfolding mark_reference
  mark_references [] hex = ok hex
  mark_references (ref ∷ refs) hex = mark_reference ref hex >>= mark_references refs

  -- LinkerObject::toHex
  unfoldable pub object_to_hex : LinkerObject → Result (List ℕ)
  unfolding mark_references
  object_to_hex o = mark_references o.link_references (to_hex o.bytecode dont_add lower)
