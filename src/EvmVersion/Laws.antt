-- ===== src/EvmVersion/Laws.antt =====
-- `hasOpcode`, `fromString` and `name` of liblangutil/EVMVersion.h.
use jules_solidity_pppascal.Common.{
  ◌≡◌, ℕ, true, arith, some, ◌↔◌, refl, ◌∷◌, ap, Bool-cases, ◌∙◌, inl, inr, [], some-injective,
}
use jules_solidity_pppascal.Common.Text.{eq_text, eq_text-eq}
use jules_solidity_pppascal.EvmVersion.{
  less_version, Version, homestead, berlin, has_opcode, spurious_dragon, constantinople,
  version_name, istanbul, tangerine_whistle, byzantium, from_string, petersburg, find_version,
  all_versions, List,
}
use jules_solidity_pppascal.Instruction.Opcode.{Instruction}

-- If a version has an instruction, every later version has it.
pub has_opcode_later :
    (v w : Version) (inst : Instruction)
    → less_version v w ≡ true
    → has_opcode v inst ≡ true
    → has_opcode w inst ≡ true
unfolding has_opcode less_version
has_opcode_later v w inst later has = ground arith

found-name :
    (text : List ℕ) (v : Version) (versions : List Version)
    → find_version text versions ≡ some v
    → text ≡ version_name v
unfolding find_version
found-name text v [] h = cc
found-name text v (w ∷ versions) h = elim (Bool-cases (eq_text text (version_name w))) [
  | inl same ↦
      eq_text-eq text (version_name w) same ∙ ap version_name (some-injective (rw same at h))
  | inr other ↦ found-name text v versions (rw other at h)
]

name-found : (v : Version) → from_string (version_name v) ≡ some v
unfolding from_string
name-found homestead = refl
name-found tangerine_whistle = refl
name-found spurious_dragon = refl
name-found byzantium = refl
name-found constantinople = refl
name-found petersburg = refl
name-found istanbul = refl
name-found berlin = refl

-- The name of every version is read back as that version, and no other text is read.
pub from_string-version_name :
    (text : List ℕ) (v : Version) → (from_string text ≡ some v) ↔ (text ≡ version_name v)
unfolding from_string
from_string-version_name text v =
    (found-name text v all_versions, λ named. ap from_string named ∙ name-found v)
