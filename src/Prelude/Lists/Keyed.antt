-- ===== src/Prelude/Lists/Keyed.antt =====
-- Lists that are used as tables: an item is found by a test on its key, the first hit is replaced
-- or deleted through its index, and a new item goes to the end.
use Prim.Native.Nat.{ℕ, ◌+◌, ◌-◌, ◌≤◌}
use mathlib.Core.Path.{◌≡◌, refl}
use mathlib.Core.Bool.{Bool, true, false}
use mathlib.Core.Option.{none, some}
use mathlib.Core.List.{List, [], ◌∷◌, ◌++◌}
use native.Mathlib.Omega.{arith}
use mec_measurements.Prelude.Tests.{if◌then◌else◌, ltb, is_some}
use mec_measurements.Prelude.Lists.Search.{find, find_index, set, delete_at}

module _ {ℓ} {A : Type ℓ} where
  -- How many items pass the test.
  abbrev pub count_if : (A → Bool) → List A → ℕ
  count_if p [] = 0
  count_if p (x ∷ xs) = (if p x then 1 else 0) + count_if p xs

  -- The first hit replaced by `v`, or `v` at the end.
  abbrev pub upsert : (A → Bool) → A → List A → List A
  upsert p v [] = v ∷ []
  upsert p v (x ∷ xs) = let rest = upsert p v xs in if p x then v ∷ xs else x ∷ rest

  -- Without the first hit.
  abbrev pub remove_first : (A → Bool) → List A → List A
  remove_first p [] = []
  remove_first p (x ∷ xs) = let rest = remove_first p xs in if p x then xs else x ∷ rest

  -- The two ways of the source, through the index.
  abbrev pub set_or_append : (A → Bool) → A → List A → List A
  set_or_append p v xs = elim (find_index p xs) [ none ↦ xs ++ v ∷ [] | some i ↦ set xs i v ]

  abbrev pub delete_found : (A → Bool) → List A → List A
  delete_found p xs = elim (find_index p xs) [ none ↦ xs | some i ↦ delete_at xs i ]

  abbrev pub append_if_absent : (A → Bool) → A → List A → List A
  append_if_absent p v xs = elim (find_index p xs) [ none ↦ xs ++ v ∷ [] | some _ ↦ xs ]

  pub set_or_append-eq-upsert :
      (p : A → Bool) (v : A) (xs : List A) → set_or_append p v xs ≡ upsert p v xs
  set_or_append-eq-upsert p v [] = refl
  set_or_append-eq-upsert p v (x ∷ xs) = ground (arith, set_or_append-eq-upsert p v xs)

  pub delete_found-eq-remove_first :
      (p : A → Bool) (xs : List A) → delete_found p xs ≡ remove_first p xs
  delete_found-eq-remove_first p [] = refl
  delete_found-eq-remove_first p (x ∷ xs) = ground (arith, delete_found-eq-remove_first p xs)

  -- What a search finds passes its test.
  pub find_sound : (p : A → Bool) (xs : List A) (v : A) → find p xs ≡ some v → p v ≡ true
  find_sound p [] v h = ground arith
  find_sound p (x ∷ xs) v h = ground (arith, find_sound p xs v)

  pub is_some-find : (p : A → Bool) (xs : List A) → is_some (find p xs) ≡ ltb 0 (count_if p xs)
  is_some-find p [] = refl
  is_some-find p (x ∷ xs) = ground (arith, is_some-find p xs)

  pub find-upsert_self :
      (p : A → Bool) (v : A) (xs : List A) → p v ≡ true → find p (upsert p v xs) ≡ some v
  find-upsert_self p v [] h = ground arith
  find-upsert_self p v (x ∷ xs) h = ground (arith, find-upsert_self p v xs h)

  pub count_if-upsert_self :
      (p : A → Bool) (v : A) (xs : List A)
      → p v ≡ true
      → count_if p xs ≤ 1
      → count_if p (upsert p v xs) ≡ 1
  count_if-upsert_self p v [] h u = ground arith
  count_if-upsert_self p v (x ∷ xs) h u = ground (arith, count_if-upsert_self p v xs h)

  pub count_if-remove_first :
      (p : A → Bool) (xs : List A) → count_if p (remove_first p xs) ≡ count_if p xs - 1
  count_if-remove_first p [] = refl
  count_if-remove_first p (x ∷ xs) = ground (arith, count_if-remove_first p xs)

  pub find-append :
      (p : A → Bool) (xs : List A) (v : A)
      → find p (xs ++ v ∷ [])
        ≡ (if is_some (find p xs) then find p xs else if p v then some v else none)
  find-append p [] v = refl
  find-append p (x ∷ xs) v = ground (arith, find-append p xs v)

  pub find-remove_first_self :
      (p : A → Bool) (xs : List A) → count_if p xs ≤ 1 → find p (remove_first p xs) ≡ none
  find-remove_first_self p [] u = refl
  find-remove_first_self p (x ∷ xs) u =
      ground (arith, is_some-find p xs, find-remove_first_self p xs)

  pub count_if-append :
      (p : A → Bool) (xs ys : List A) → count_if p (xs ++ ys) ≡ count_if p xs + count_if p ys
  count_if-append p [] ys = omega arith
  count_if-append p (x ∷ xs) ys = omega (arith, count_if-append p xs ys)

  pub count_if-find_index :
      (p : A → Bool) (xs : List A) → is_some (find_index p xs) ≡ ltb 0 (count_if p xs)
  count_if-find_index p [] = refl
  count_if-find_index p (x ∷ xs) = ground (arith, count_if-find_index p xs)

  pub count_if-append_if_absent :
      (p : A → Bool) (v : A) (xs : List A)
      → count_if p xs ≤ 1
      → count_if p (append_if_absent p v xs) ≤ 1
  count_if-append_if_absent p v xs u =
      ground (arith, count_if-find_index p xs, count_if-append p xs (v ∷ []))

-- A second test `q` that no item passes together with `p`.
module _ {ℓ} {A : Type ℓ} (p q : A → Bool) (apart : (x : A) → p x ≡ true → q x ≡ false) where
  pub find-upsert_apart : (v : A) (xs : List A) → p v ≡ true → find q (upsert p v xs) ≡ find q xs
  find-upsert_apart v [] h = ground (arith, apart v)
  find-upsert_apart v (x ∷ xs) h = ground (arith, apart v, apart x, find-upsert_apart v xs h)

  pub count_if-upsert_apart :
      (v : A) (xs : List A) → p v ≡ true → count_if q (upsert p v xs) ≡ count_if q xs
  count_if-upsert_apart v [] h = ground (arith, apart v)
  count_if-upsert_apart v (x ∷ xs) h =
      ground (arith, apart v, apart x, count_if-upsert_apart v xs h)

  pub find-remove_first_apart : (xs : List A) → find q (remove_first p xs) ≡ find q xs
  find-remove_first_apart [] = refl
  find-remove_first_apart (x ∷ xs) = ground (arith, apart x, find-remove_first_apart xs)

  pub count_if-remove_first_apart : (xs : List A) → count_if q (remove_first p xs) ≡ count_if q xs
  count_if-remove_first_apart [] = refl
  count_if-remove_first_apart (x ∷ xs) = ground (arith, apart x, count_if-remove_first_apart xs)

  pub count_if-append_if_absent_apart :
      (v : A) (xs : List A) → p v ≡ true → count_if q (append_if_absent p v xs) ≡ count_if q xs
  count_if-append_if_absent_apart v xs h = ground (arith, apart v, count_if-append q xs (v ∷ []))
