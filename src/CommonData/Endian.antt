-- ===== src/CommonData/Endian.antt =====
-- Numbers as big-endian bytes: the templates of libsolutil/CommonData.h. A byte is a number below
-- 256, `v >>= 8` is `v / 256` and `v & 0xff` is `v % 256`.
pub mod Laws
use mathlib.Core.Logic.{dite}
use mathlib.Core.List.{foldl}
use mathlib.Core.WellFounded.{Acc}
use native.Mathlib.Decide.{dec_lt}
use jules_solidity_pppascal.Common.{
  ℕ, zero, suc, ◌+◌, ◌*◌, ◌/◌, ◌%◌, ◌^◌, ◌<◌, max, bit_or, List, [], ◌∷◌, ◌++◌, arith,
}
use jules_solidity_pppascal.Common.Order.{lt_wf}

abbrev pub IsByte : ℕ → Type 0
IsByte b = b < 256

-- for (; _i != 0; ++i, _i >>= 8) {}
bytes_required_loop : ℕ → (v : ℕ) → Acc ◌<◌ v → ℕ
bytes_required_loop i v (Acc.intro _ smaller) =
    dite (dec_lt 0 v)
      (λ more. bytes_required_loop (i + 1) (v / 256) (smaller (v / 256) (omega arith))) (λ _. i)

unfoldable pub bytes_required : ℕ → ℕ
unfolding bytes_required_loop lt_wf dec_lt
bytes_required v = bytes_required_loop 0 v (lt_wf.apply v)

-- The buffer of `n` bytes is filled from its end, the low byte first.
unfoldable pub to_big_endian : ℕ → ℕ → List ℕ
to_big_endian zero v = []
to_big_endian (suc n) v = to_big_endian n (v / 256) ++ v % 256 ∷ []

-- The result has `width` bits: what `ret << 8` pushes out at the top is lost.
unfoldable pub from_big_endian : ℕ → List ℕ → ℕ
from_big_endian width = foldl (λ ret b. bit_or (ret * 256 % 2 ^ width) b) 0

-- The counting loop is the one of `bytes_required`.
unfoldable pub to_compact_big_endian : ℕ → ℕ → List ℕ
unfolding bytes_required to_big_endian
to_compact_big_endian v least = to_big_endian (max least (bytes_required v)) v
