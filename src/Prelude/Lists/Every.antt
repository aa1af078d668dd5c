-- ===== src/Prelude/Lists/Every.antt =====
-- Predicates that hold of every item of a list.
use mathlib.Core.Path.{◌≡◌, refl}
use mathlib.Core.Logic.{◌⊎◌, inl, inr}
use mathlib.Core.Bool.{Bool, true, false, ◌||◌}
use mathlib.Core.List.{List, [], ◌∷◌, ◌++◌, map}
use native.Mathlib.Omega.{arith}
use mec_measurements.Prelude.Tests.{if◌then◌else◌}
use mec_measurements.Prelude.Lists.Search.{any}
use mec_measurements.Prelude.Lists.Keyed.{upsert, remove_first}

-- Every item of the list satisfies the predicate.
abbrev pub All {ℓ κ} : {A : Type ℓ} → (A → Type κ) → List A → Type κ
All P [] = Unit
All P (x ∷ xs) = P x × All P xs

-- The item is one of the list's.
abbrev pub Among : {A : Type 0} → A → List A → Type 0
Among x [] = ⊥
Among x (y ∷ ys) = (x ≡ y) ⊎ Among x ys

module _ {ℓ κ} {A : Type ℓ} (P : A → Type κ) where
  pub All-append : (xs ys : List A) → All P xs → All P ys → All P (xs ++ ys)
  All-append [] ys hx hy = hy
  All-append (x ∷ xs) ys hx hy = (hx.0, All-append xs ys hx.1 hy)

  pub All-if : (b : Bool) (xs ys : List A) → All P xs → All P ys → All P (if b then xs else ys)
  All-if true xs ys hx hy = hx
  All-if false xs ys hx hy = hy

  pub All-upsert : (p : A → Bool) (v : A) (xs : List A) → P v → All P xs → All P (upsert p v xs)
  All-upsert p v [] hv h = (hv, tt)
  All-upsert p v (x ∷ xs) hv h =
      All-if (p x) (v ∷ xs) (x ∷ upsert p v xs) (hv, h.1) (h.0, All-upsert p v xs hv h.1)

  pub All-remove_first : (p : A → Bool) (xs : List A) → All P xs → All P (remove_first p xs)
  All-remove_first p [] h = h
  All-remove_first p (x ∷ xs) h =
      All-if (p x) xs (x ∷ remove_first p xs) h.1 (h.0, All-remove_first p xs h.1)

pub All-mono {ℓ κ μ} :
    {A : Type ℓ} (P : A → Type κ) (Q : A → Type μ)
    → ((x : A) → P x → Q x)
    → (xs : List A) → All P xs
    → All Q xs
All-mono P Q f [] h = tt
All-mono P Q f (x ∷ xs) h = (f x h.0, All-mono P Q f xs h.1)

-- Every item is one of the list's.
pub All-Among : {A : Type 0} (xs : List A) → All (λ x. Among x xs) xs
All-Among [] = tt
All-Among (x ∷ xs) =
    (inl refl, All-mono (λ y. Among y xs) (λ y. Among y (x ∷ xs)) (λ y h. inr h) xs (All-Among xs))

pub List-cases {ℓ} :
    {A : Type ℓ} (xs : List A) → (xs ≡ []) ⊎ ((x : A) × (rest : List A) × (xs ≡ x ∷ rest))
List-cases [] = inl refl
List-cases (x ∷ rest) = inr (x, rest, refl)

pub any-append {ℓ} :
    {A : Type ℓ} (p : A → Bool) (xs ys : List A) → any p (xs ++ ys) ≡ (any p xs || any p ys)
any-append p [] ys = refl
any-append p (x ∷ xs) ys = ground (arith, any-append p xs ys)

pub any-map {ℓ κ} :
    {A : Type ℓ} {B : Type κ} (p : B → Bool) (f : A → B) (xs : List A)
    → any p (map f xs) ≡ any (λ x. p (f x)) xs
any-map p f [] = refl
any-map p f (x ∷ xs) = ground (arith, any-map p f xs)
