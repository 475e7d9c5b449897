-- ===== src/Common/Post.antt =====
-- What holds of everything that a computation may return, put together the way the computation is.
use jules_solidity_pppascal.Common.Tests.{if◌then◌else◌}
use jules_solidity_pppascal.Common.Results.{Result, ok, err, Error, ◌>>=◌, ok-injective}
use mathlib.Core.Path.{◌≡◌, refl, subst}
use mathlib.Core.Bool.{Bool, true, false}
use mathlib.Core.Option.{Option, none, some}

module _ {ℓ} {X : Type 0} where
  unfoldable pub Post : (X → Type ℓ) → Result X → Type ℓ
  Post Q r = (x : X) → r ≡ ok x → Q x

  pub ok-Post : (Q : X → Type ℓ) (x : X) → Q x → Post Q (ok x)
  unfolding Post
  ok-Post Q x q y h = subst Q (ok-injective h) q

  pub bind-Post :
      {A : Type 0} (Q : X → Type ℓ) (m : Result A) (k : A → Result X)
      → ((a : A) → Post Q (k a))
      → Post Q (m >>= k)
  unfolding Post
  bind-Post Q (ok a) k h y same = h a y same
  bind-Post Q (err thrown) k h y bad = cc

  pub option-Post :
      {A : Type 0} (Q : X → Type ℓ) (o : Option A) (thrown : Error) (k : A → Result X)
      → ((a : A) → Post Q (k a))
      → Post Q (elim o [ none ↦ err thrown | some a ↦ k a ])
  unfolding Post
  option-Post Q none thrown k h y bad = cc
  option-Post Q (some a) thrown k h y same = h a y same

  pub if-Post :
      (Q : X → Type ℓ) (c : Bool) (one other : Result X)
      → Post Q one
      → Post Q other
      → Post Q (if c then one else other)
  if-Post Q true one other p q = p
  if-Post Q false one other p q = q

-- What is known of a call is handed to what follows it.
pub then-Post {ℓ κ} :
    {A X : Type 0} (R : A → Type κ) (Q : X → Type ℓ) (m : Result A) (k : A → Result X)
    → Post R m
    → ((a : A) → R a → Post Q (k a))
    → Post Q (m >>= k)
unfolding Post
then-Post R Q (ok a) k r h y same = h a (r a refl) y same
then-Post R Q (err thrown) k r h y bad = cc
