-- ===== src/Protocol/Frames/Laws.antt =====
-- A message arrives however the connection cuts it (edge_protocol.py).
use mec_measurements.Prelude.{
  ℕ, zero, suc, ◌+◌, ◌-◌, ◌*◌, ◌/◌, ◌%◌, ◌^◌, ◌≤◌, ◌<◌, ◌≡◌, refl, ◌∙◌, ap, sym, false, Option,
  none, some, List, [], ◌∷◌, ◌++◌, length, length-append, leb, ltb, arith, Bool-cases, inl, inr,
  All,
}
use mathlib.Core.List.{append_assoc}
use mec_measurements.Bytes.{Bytes, take, drop}
use mec_measurements.Protocol.Frames.{pack, unpack, recv, at_most, read}

-- All that a connection still brings.
abbrev pub joined : List Bytes → Bytes
joined [] = []
joined (piece ∷ pieces) = piece ++ joined pieces

-- A piece that arrives has a byte.
abbrev pub Nonempty : List Bytes → Type 0
Nonempty pieces = All (λ (piece : Bytes). 0 < length piece) pieces

take-drop : (n : ℕ) (bs : Bytes) → take n bs ++ drop n bs ≡ bs
take-drop zero bs = refl
take-drop (suc n) [] = refl
take-drop (suc n) (b ∷ bs) = ap (λ r. b ∷ r) (take-drop n bs)

length-take : (n : ℕ) (bs : Bytes) → n ≤ length bs → length (take n bs) ≡ n
length-take zero bs h = refl
length-take (suc n) [] h = absurd (omega arith)
length-take (suc n) (b ∷ bs) h = omega (arith, length-take n bs)

length-drop : (n : ℕ) (bs : Bytes) → n ≤ length bs → n + length (drop n bs) ≡ length bs
length-drop zero bs h = omega arith
length-drop (suc n) [] h = absurd (omega arith)
length-drop (suc n) (b ∷ bs) h = omega (arith, length-drop n bs)

bytes_value :
    (n : ℕ)
    → n < 2 ^ 31
    → n / 2 ^ 24 * 2 ^ 24 + n / 2 ^ 16 % 256 * 2 ^ 16 + n / 2 ^ 8 % 256 * 2 ^ 8 + n % 256 ≡ n
bytes_value n h = omega arith

pub unpack-pack : (n : ℕ) (header : Bytes) → pack n ≡ some header → unpack header ≡ n
unfolding pack unpack
unpack-pack n header h = elim (Bool-cases (ltb n (2 ^ 31))) [
  | inl e ↦
      let same : n / 2 ^ 24 ∷ n / 2 ^ 16 % 256 ∷ n / 2 ^ 8 % 256 ∷ n % 256 ∷ [] ≡ header =
        cc (rw e at h) in
      rw (← same) (let bound : n < 2 ^ 31 = ground arith in ground (arith, bytes_value n bound))
  | inr e ↦ cc (rw e at h)
]

-- What one call of recv gives.
record Received (n : ℕ) (pieces : List Bytes) (got : Bytes × List Bytes) : Type 0 where
  whole : got.0 ++ joined got.1 ≡ joined pieces
  some_there : 0 < length got.0
  bounded : length got.0 ≤ n
  rest : Nonempty got.1

recv-Received :
    (n : ℕ) (pieces : List Bytes)
    → 0 < n
    → 0 < length (joined pieces)
    → Nonempty pieces
    → Received n pieces (recv n pieces)
unfolding recv
recv-Received n [] pos there ne = absurd (omega arith)
recv-Received n (piece ∷ pieces) pos there ne = elim (Bool-cases (leb (length piece) n)) [
  | inl e ↦ rw e (record { whole = refl; some_there = ne.0; bounded = ground arith; rest = ne.1 })
  | inr e ↦
      let more : n < length piece = ground arith in
      rw e (record {
        whole =
            sym (append_assoc (take n piece) (drop n piece) (joined pieces))
            ∙ ap (λ r. r ++ joined pieces) (take-drop n piece);
        some_there = omega (arith, length-take n piece);
        bounded = omega (arith, length-take n piece);
        rest = (omega (arith, length-drop n piece), ne.1);
      })
]

pub take-length : (xs ys : Bytes) → take (length xs) (xs ++ ys) ≡ xs
take-length [] ys = refl
take-length (x ∷ xs) ys = ap (λ r. x ∷ r) (take-length xs ys)

pub drop-length : (xs ys : Bytes) → drop (length xs) (xs ++ ys) ≡ ys
drop-length [] ys = refl
drop-length (x ∷ xs) ys = drop-length xs ys

-- The loop has read just the bytes that were asked for.
pub record Reads (total : ℕ) (all : Bytes) (r : Option (Bytes × List Bytes)) : Type 0 where
  pub left : List Bytes
  pub ends : r ≡ some (take total all, left)
  pub after : joined left ≡ drop total all
  pub pieces_left : Nonempty left

abbrev pub Limits : Option ℕ → Type 0
Limits limit = (k : ℕ) → 0 < k → (0 < at_most limit k) × (at_most limit k ≤ k)

pub read-Reads :
    (fuel total : ℕ) (limit : Option ℕ) (buf : Bytes) (pieces : List Bytes)
    → Limits limit
    → Nonempty pieces
    → length buf ≤ total
    → total ≤ length buf + length (joined pieces)
    → total - length buf < fuel
    → Reads total (buf ++ joined pieces) (read fuel total limit buf pieces)
unfolding read
read-Reads zero total limit buf pieces lim ne le there enough = absurd (omega arith)
read-Reads (suc fuel) total limit buf pieces lim ne le there enough =
    elim (Bool-cases (leb total (length buf))) [
      | inl e ↦
          let full : length buf ≡ total = ground arith in
          rw (e, ← full)
            (record {
              left = pieces;
              ends = rw (take-length buf (joined pieces)) refl;
              after = sym (drop-length buf (joined pieces));
              pieces_left = ne;
            })
      | inr e ↦
          let more : 0 < total - length buf = ground arith in
          let l = lim (total - length buf) more in
          let g = recv-Received (at_most limit (total - length buf)) pieces l.0 (omega arith) ne in
          let got = recv (at_most limit (total - length buf)) pieces in
          let whole : (buf ++ got.0) ++ joined got.1 ≡ buf ++ joined pieces =
            append_assoc buf got.0 (joined got.1) ∙ ap (λ r. buf ++ r) g.whole in
          rw (e, ← whole)
            (read-Reads fuel total limit (buf ++ got.0) got.1 lim g.rest
              (omega (arith, l.1, g.bounded, length-append buf got.0))
              (omega (
                arith,
                there,
                length-append buf got.0,
                length-append got.0 (joined got.1),
                ap length g.whole,
              ))
              (omega (arith, enough, g.some_there, length-append buf got.0)))
    ]

recv-le :
    (n : ℕ) (pieces : List Bytes) → (recv n pieces).0 ++ joined (recv n pieces).1 ≡ joined pieces
unfolding recv
recv-le n [] = refl
recv-le n (piece ∷ pieces) = elim (Bool-cases (leb (length piece) n)) [
  | inl e ↦ rw e refl
  | inr e ↦ rw e (
      sym (append_assoc (take n piece) (drop n piece) (joined pieces))
      ∙ ap (λ r. r ++ joined pieces) (take-drop n piece))
]

-- Where the connection brings less than was asked for, the loop does not end.
pub read_starves :
    (fuel total : ℕ) (limit : Option ℕ) (buf : Bytes) (pieces : List Bytes)
    → length buf + length (joined pieces) < total
    → read fuel total limit buf pieces ≡ none
unfolding read
read_starves zero total limit buf pieces h = refl
read_starves (suc fuel) total limit buf pieces h =
    let got = recv (at_most limit (total - length buf)) pieces in
    let less : leb total (length buf) ≡ false = ground arith in
    rw less (
      read_starves fuel total limit (buf ++ got.0) got.1 (
        omega (
          arith,
          h,
          length-append buf got.0,
          length-append got.0 (joined got.1),
          ap length (recv-le (at_most limit (total - length buf)) pieces),
        )))

recv_bounded : (n : ℕ) (pieces : List Bytes) → length (recv n pieces).0 ≤ n
unfolding recv
recv_bounded n [] = omega arith
recv_bounded n (piece ∷ pieces) = elim (Bool-cases (leb (length piece) n)) [
  | inl e ↦ rw e (ground arith)
  | inr e ↦ let more : n ≤ length piece = ground arith in rw e (omega (arith, length-take n piece))
]

-- What the loop gives, however many rounds it took, is the front of what the connection brings.
pub read_gives :
    (fuel total : ℕ) (limit : Option ℕ) (buf : Bytes) (pieces : List Bytes) (b : Bytes)
    (left : List Bytes)
    → Limits limit
    → length buf ≤ total
    → read fuel total limit buf pieces ≡ some (b, left)
    → (b ++ joined left ≡ buf ++ joined pieces) × (length b ≡ total)
unfolding read
read_gives zero total limit buf pieces b left lim le h = cc
read_gives (suc fuel) total limit buf pieces b left lim le h =
    elim (Bool-cases (leb total (length buf))) [
      | inl e ↦
          let same : ◌≡◌ {A = Option (Bytes × List Bytes)} (some (buf, pieces)) (some (b, left)) =
            rw e at h in
          (cc, ground (arith, same))
      | inr e ↦
          let l = lim (total - length buf) (ground arith) in
          let n : ℕ = at_most limit (total - length buf) in
          let got = recv n pieces in
          let small : length got.0 ≤ n = recv_bounded n pieces in
          let next =
            read_gives fuel total limit (buf ++ got.0) got.1 b left lim
              (omega (arith, le, small, l.1, length-append buf got.0)) (rw e at h) in
          (
            next.0 ∙ append_assoc buf got.0 (joined got.1) ∙ ap (λ r. buf ++ r) (recv-le n pieces),
            next.1,
          )
    ]
