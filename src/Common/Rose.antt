-- ===== src/Common/Rose.antt =====
-- Trees in which every node has a value and a list of children, as an assembly and its
-- sub-assemblies.
use Prim.Native.Nat.{ℕ, zero, suc}
use mathlib.Core.Option.{Option, none, some}

mutual
  pub data Rose (A : Type 0) : Type 0 where
    node : A → Roses A → Rose A

  pub data Roses (A : Type 0) : Type 0 where
    nil : Roses A
    cons : Rose A → Roses A → Roses A

abbrev pub root : {A : Type 0} → Rose A → A
root (node a children) = a

abbrev pub children : {A : Type 0} → Rose A → Roses A
children (node a rs) = rs

abbrev pub count : {A : Type 0} → Roses A → ℕ
count nil = 0
count (cons r rs) = suc (count rs)

abbrev pub child? : {A : Type 0} → Roses A → ℕ → Option (Rose A)
child? nil i = none
child? (cons r rs) zero = some r
child? (cons r rs) (suc i) = child? rs i

abbrev pub snoc : {A : Type 0} → Roses A → Rose A → Roses A
snoc nil r = cons r nil
snoc (cons s rs) r = cons s (snoc rs r)
