-- ===== src/Prelude/Lists/Newest/Laws.antt =====
-- That the newest rows are those of the table that no other row is newer than.
use Prim.Native.Nat.{ℕ, zero, suc, ◌≤◌}
use mathlib.Core.Path.{◌≡◌, refl}
use mathlib.Core.List.{List, [], ◌∷◌, ◌++◌}
use mathlib.Core.List.Perm as Permutation
use mathlib.Core.List.{Perm}
use mathlib.Core.Logic.{◌⊎◌, inl, inr}
use native.Mathlib.Omega.{arith}
use mec_measurements.Prelude.Tests.{leb, Bool-cases}
use mec_measurements.Prelude.Lists.{length}
use mec_measurements.Prelude.Lists.Every.{All, All-mono}
use mec_measurements.Prelude.Lists.Newest.{insert_newer, newest_first, limit, beyond, limit-beyond}

module _ {ℓ} {A : Type ℓ} (time : A → ℕ) where
  -- The taken rows and those that are left are the rows; no row that is left is newer than one that
  -- is taken; as many are taken as there are, up to the size.
  pub record IsNewest (size : ℕ) (rows taken : List A) : Type ℓ where
    pub left : List A
    pub whole : Perm (taken ++ left) rows
    pub newer : All (λ x. All (λ y. time y ≤ time x) left) taken
    pub bounded : length taken ≤ size
    pub full : (left ≡ []) ⊎ (length taken ≡ size)

  abbrev Sorted : List A → Type 0
  Sorted [] = Unit
  Sorted (x ∷ xs) = All (λ y. time y ≤ time x) xs × Sorted xs

  insert_newer-Perm : (x : A) (xs : List A) → Perm (insert_newer time x xs) (x ∷ xs)
  unfolding insert_newer
  insert_newer-Perm x [] = Permutation.rfl
  insert_newer-Perm x (y ∷ ys) = elim (Bool-cases (leb (time y) (time x))) [
    | inl e ↦ rw e Permutation.rfl
    | inr e ↦
        rw e (
          Permutation.trans (Permutation.cons y (insert_newer-Perm x ys)) (Permutation.swap x y ys))
  ]

  newest_first-Perm : (xs : List A) → Perm (newest_first time xs) xs
  unfolding newest_first
  newest_first-Perm [] = Permutation.nil
  newest_first-Perm (x ∷ xs) =
      Permutation.trans (insert_newer-Perm x (newest_first time xs))
        (Permutation.cons x (newest_first-Perm xs))

  insert_newer-All :
      (P : A → Type 0) (x : A) (xs : List A) → P x → All P xs → All P (insert_newer time x xs)
  unfolding insert_newer
  insert_newer-All P x [] h hs = (h, tt)
  insert_newer-All P x (y ∷ ys) h hs = elim (Bool-cases (leb (time y) (time x))) [
    | inl e ↦ rw e (h, hs)
    | inr e ↦ rw e (hs.0, insert_newer-All P x ys h hs.1)
  ]

  insert_newer-Sorted : (x : A) (xs : List A) → Sorted xs → Sorted (insert_newer time x xs)
  unfolding insert_newer
  insert_newer-Sorted x [] s = (tt, tt)
  insert_newer-Sorted x (y ∷ ys) s = elim (Bool-cases (leb (time y) (time x))) [
    | inl e ↦
        let le : time y ≤ time x = ground arith in
        rw e ((le, All-mono _ _ (λ z h. omega (arith, h, le)) ys s.0), s)
    | inr e ↦
        let le : time x ≤ time y = ground arith in
        rw e (insert_newer-All (λ z. time z ≤ time y) x ys le s.0, insert_newer-Sorted x ys s.1)
  ]

  newest_first-Sorted : (xs : List A) → Sorted (newest_first time xs)
  unfolding newest_first
  newest_first-Sorted [] = tt
  newest_first-Sorted (x ∷ xs) =
      insert_newer-Sorted x (newest_first time xs) (newest_first-Sorted xs)

  beyond-All : (P : A → Type 0) (n : ℕ) (xs : List A) → All P xs → All P (beyond n xs)
  unfolding beyond
  beyond-All P zero xs h = h
  beyond-All P (suc n) [] h = h
  beyond-All P (suc n) (x ∷ xs) h = beyond-All P n xs h.1

  limit-newer :
      (n : ℕ) (xs : List A)
      → Sorted xs
      → All (λ x. All (λ y. time y ≤ time x) (beyond n xs)) (limit n xs)
  unfolding limit beyond
  limit-newer zero xs s = tt
  limit-newer (suc n) [] s = tt
  limit-newer (suc n) (x ∷ xs) s =
      (beyond-All (λ y. time y ≤ time x) n xs s.0, limit-newer n xs s.1)

  length-limit-le : (n : ℕ) (xs : List A) → length (limit n xs) ≤ n
  unfolding limit
  length-limit-le zero xs = omega arith
  length-limit-le (suc n) [] = omega arith
  length-limit-le (suc n) (x ∷ xs) = omega (arith, length-limit-le n xs)

  limit_full : (n : ℕ) (xs : List A) → (beyond n xs ≡ []) ⊎ (length (limit n xs) ≡ n)
  unfolding limit beyond
  limit_full zero xs = inr refl
  limit_full (suc n) [] = inl refl
  limit_full (suc n) (x ∷ xs) = elim (limit_full n xs) [
    | inl e ↦ inl e
    | inr e ↦ inr (omega (arith, e))
  ]

  pub limit-IsNewest :
      (size : ℕ) (rows : List A) → IsNewest size rows (limit size (newest_first time rows))
  limit-IsNewest size rows = record {
    left = beyond size (newest_first time rows);
    whole = rw (limit-beyond size (newest_first time rows)) (newest_first-Perm rows);
    newer = limit-newer size (newest_first time rows) (newest_first-Sorted rows);
    bounded = length-limit-le size (newest_first time rows);
    full = limit_full size (newest_first time rows);
  }
