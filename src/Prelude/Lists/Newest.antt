-- ===== src/Prelude/Lists/Newest.antt =====
-- The newest rows of a table: what `order_by(desc(timestamp)).limit(size)` gives of a list.
pub mod Laws
use Prim.Native.Nat.{ℕ, zero, suc, ◌+◌, ◌≤◌, ◌<◌}
use mathlib.Core.Path.{◌≡◌, refl}
use mathlib.Core.Bool.{Bool, true, false}
use mathlib.Core.List.{List, [], ◌∷◌, ◌++◌}
use mathlib.Core.Logic.{inl, inr}
use native.Mathlib.Omega.{arith}
use mec_measurements.Prelude.Tests.{if◌then◌else◌, leb, Bool-cases}
use mec_measurements.Prelude.Lists.Every.{All, All-mono}

module _ {ℓ} {A : Type ℓ} (time : A → ℕ) where
  -- A row goes before the first that is not newer.
  unfoldable pub insert_newer : A → List A → List A
  insert_newer x [] = x ∷ []
  insert_newer x (y ∷ ys) = if leb (time y) (time x) then x ∷ y ∷ ys else y ∷ insert_newer x ys

  -- order_by(sqlalchemy.desc(timestamp))
  unfoldable pub newest_first : List A → List A
  unfolding insert_newer
  newest_first [] = []
  newest_first (x ∷ xs) = insert_newer x (newest_first xs)

module _ {ℓ} {A : Type ℓ} where
  -- limit(size)
  unfoldable pub limit : ℕ → List A → List A
  limit zero xs = []
  limit (suc n) [] = []
  limit (suc n) (x ∷ xs) = x ∷ limit n xs

  unfoldable pub beyond : ℕ → List A → List A
  beyond zero xs = xs
  beyond (suc n) [] = []
  beyond (suc n) (x ∷ xs) = beyond n xs

  pub limit-beyond : (n : ℕ) (xs : List A) → limit n xs ++ beyond n xs ≡ xs
  unfolding limit beyond
  limit-beyond zero xs = refl
  limit-beyond (suc n) [] = refl
  limit-beyond (suc n) (x ∷ xs) = λ i. x ∷ limit-beyond n xs i
