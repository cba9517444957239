-- ===== src/Base/Map.antt =====
-- A concurrent map (`DashMap`) as a function into `Option`: a missing key is `none`.
use mathlib.Core.Path.{◌≡◌, refl}
use mathlib.Core.Logic.{◌≢◌, ite}
use mathlib.Core.Option.{Option, none, some}
use native.Mathlib.Omega.{arith}

abbrev pub Map {ℓ κ} : Type ℓ → Type κ → Type (ℓ ⊔ κ)
Map K V = K → Option V

abbrev pub or_else {ℓ} : {V : Type ℓ} → Option V → V → V
or_else none d = d
or_else (some v) d = v

module _ {ℓ κ} {K : Type ℓ} {V : Type κ} where
  abbrev pub empty : Map K V
  empty k = none

module _ {ℓ κ} {K : Type ℓ} {V : Type κ} (d : Discrete K) where
  -- Write or remove one entry.
  unfoldable pub put : Map K V → K → Option V → Map K V
  put m k o j = ite (d k j) o (m j)

  pub put_self : (m : Map K V) (k : K) (o : Option V) → put m k o k ≡ o
  unfolding put
  put_self m k o = ground arith

  pub put-ne : (m : Map K V) (k j : K) (o : Option V) → k ≢ j → put m k o j ≡ m j
  unfolding put
  put-ne m k j o h = ground arith

pub ite-ap {ℓ κ μ} :
    {P : Type ℓ} {A : Type κ} {B : Type μ} (f : A → B) (d : Dec P) (x y : A)
    → f (ite d x y) ≡ ite d (f x) (f y)
ite-ap f (yes p) x y = refl
ite-ap f (no p) x y = refl
