-- ===== src/Bytes.antt =====
-- Python's byte strings as lists of numbers: what the messages between the parts are split by.
use Prim.Native.Char.{code}
use mec_measurements.Prelude.{
  ℕ, zero, suc, ◌≤◌, String, Bool, true, false, Option, none, some, List, [], ◌∷◌, ◌++◌, ◌≡◌, refl,
  length, eqb, any, ◌&&◌, if◌then◌else◌, arith, ap,
}

abbrev pub Bytes : Type 0
Bytes = List ℕ

-- The bytes of an ASCII text.
abbrev pub bytes : String → Bytes
bytes String.[] = []
bytes (String.◌∷◌ c s) = code c ∷ bytes s

unfoldable pub bytes_eq : Bytes → Bytes → Bool
bytes_eq [] [] = true
bytes_eq [] (b ∷ bs) = false
bytes_eq (a ∷ as') [] = false
bytes_eq (a ∷ as') (b ∷ bs) = eqb a b && bytes_eq as' bs

pub bytes_eq_refl : (bs : Bytes) → bytes_eq bs bs ≡ true
unfolding bytes_eq
bytes_eq_refl [] = refl
bytes_eq_refl (b ∷ bs) = ground (arith, bytes_eq_refl bs)

abbrev pub take : ℕ → Bytes → Bytes
take zero bs = []
take (suc n) [] = []
take (suc n) (b ∷ bs) = b ∷ take n bs

abbrev pub drop : ℕ → Bytes → Bytes
drop zero bs = bs
drop (suc n) [] = []
drop (suc n) (b ∷ bs) = drop n bs

pub take_all : (n : ℕ) (bs : Bytes) → length bs ≤ n → take n bs ≡ bs
take_all zero [] h = refl
take_all zero (b ∷ bs) h = absurd (omega arith)
take_all (suc n) [] h = refl
take_all (suc n) (b ∷ bs) h = ap (λ r. b ∷ r) (take_all n bs (omega arith))

-- No byte is `c`.
abbrev pub Lacks : ℕ → Bytes → Type 0
Lacks c bs = any (λ b. eqb b c) bs ≡ false

abbrev pub with_head : ℕ → Bytes × Option Bytes → Bytes × Option Bytes
with_head b (front, back) = (b ∷ front, back)

-- line.split(c, 1)
unfoldable pub split_first : ℕ → Bytes → Bytes × Option Bytes
split_first c [] = ([], none)
split_first c (b ∷ bs) =
    let rest = with_head b (split_first c bs) in if eqb b c then ([], some bs) else rest

pub split_first-append :
    (c : ℕ) (front back : Bytes)
    → Lacks c front
    → split_first c (front ++ c ∷ back) ≡ (front, some back)
unfolding split_first
split_first-append c [] back h = ground arith
split_first-append c (b ∷ front) back h = ground (arith, split_first-append c front back)

abbrev pub onto_head : ℕ → List Bytes → List Bytes
onto_head b [] = (b ∷ []) ∷ []
onto_head b (piece ∷ pieces) = (b ∷ piece) ∷ pieces

-- data.split(c)
unfoldable pub split : ℕ → Bytes → List Bytes
split c [] = [] ∷ []
split c (b ∷ bs) = let rest = split c bs in if eqb b c then [] ∷ rest else onto_head b rest

-- pieces[:-1]
unfoldable pub but_last : List Bytes → List Bytes
but_last [] = []
but_last (piece ∷ []) = []
but_last (piece ∷ next ∷ pieces) = piece ∷ but_last (next ∷ pieces)

pub split_lacking : (c : ℕ) (bs : Bytes) → Lacks c bs → split c bs ≡ bs ∷ []
unfolding split
split_lacking c [] h = refl
split_lacking c (b ∷ bs) h = ground (arith, split_lacking c bs)

pub split-append :
    (c : ℕ) (line rest : Bytes) → Lacks c line → split c (line ++ c ∷ rest) ≡ line ∷ split c rest
unfolding split
split-append c [] rest h = ground arith
split-append c (b ∷ line) rest h = ground (arith, split-append c line rest)

pub Lacks-take :
    (c n : ℕ) (bs rest : Bytes) → n ≤ length bs → Lacks c bs → Lacks c (take n (bs ++ rest))
Lacks-take c zero bs rest le h = refl
Lacks-take c (suc n) [] rest le h = absurd (omega arith)
Lacks-take c (suc n) (b ∷ bs) rest le h = ground (arith, Lacks-take c n bs rest)

pub Lacks-append :
    (c : ℕ) (front back : Bytes) → Lacks c front → Lacks c back → Lacks c (front ++ back)
Lacks-append c [] back h g = g
Lacks-append c (b ∷ front) back h g = ground (arith, Lacks-append c front back)
