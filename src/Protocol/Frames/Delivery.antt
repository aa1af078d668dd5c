-- ===== src/Protocol/Frames/Delivery.antt =====
-- Whole messages over a connection, and messages that are cut off (edge_protocol.py).
use mec_measurements.Prelude.{
  ℕ, ◌+◌, ◌^◌, ◌<◌, ◌≡◌, refl, ◌∙◌, ap, sym, Option, none, some, List, [], ◌++◌, length,
  length-append, ltb, arith, Bool-cases, Option-cases, inl, inr,
}
use mathlib.Core.List.{append_assoc}
use mec_measurements.Bytes.{Bytes, take, drop}
use mec_measurements.Protocol.Frames.{pack, text_of, is_ascii, prepare_msg, read, client_thread}
use mec_measurements.Protocol.Frames.Laws.{
  joined, Nonempty, Limits, read-Reads, unpack-pack, take-length, drop-length, read_starves,
  read_gives,
}

no_limit : Limits none
no_limit k pos = (pos, omega arith)

limit_4096 : Limits (some 4096)
limit_4096 k pos = ground arith

abbrev length_of : Option Bytes → ℕ
length_of none = 0
length_of (some bs) = length bs

length-pack : (n : ℕ) (header : Bytes) → pack n ≡ some header → length header ≡ 4
unfolding pack
length-pack n header h = elim (Bool-cases (ltb n (2 ^ 31))) [
  | inl e ↦ sym (ap length_of h) ∙ rw (pack, e) refl
  | inr e ↦ cc (rw (pack, e) at h)
]

-- A frame is its header and its text.
record IsFrame (text frame : Bytes) : Type 0 where
  header : Bytes
  packed : pack (length text) ≡ some header
  parts : frame ≡ header ++ text

prepare_msg-IsFrame :
    (msg_type msg frame : Bytes)
    → prepare_msg msg_type msg ≡ some frame
    → IsFrame (text_of msg_type msg) frame
unfolding prepare_msg
prepare_msg-IsFrame msg_type msg frame h =
    elim (Option-cases (pack (length (text_of msg_type msg)))) [
      | inl e ↦ cc (rw e at h)
      | inr (header, e) ↦ elim (Bool-cases (is_ascii (text_of msg_type msg))) [
        | inl f ↦ record { header = header; packed = e; parts = cc (rw (e, f) at h) }
        | inr f ↦ cc (rw (e, f) at h)
      ]
    ]

module _ (msg_type msg frame : Bytes) (fuel : ℕ) (pieces : List Bytes)
    (made : prepare_msg msg_type msg ≡ some frame) where
  abbrev text : Bytes
  text = text_of msg_type msg

  -- A prepared message that the connection brings whole, in any pieces and with anything behind it,
  -- is handed over as its type, a space and its text, once the loops have rounds for its bytes; and
  -- what is behind it stays in the connection.
  pub client_thread-prepare_msg :
      (later : Bytes)
      → Nonempty pieces
      → joined pieces ≡ frame ++ later
      → length frame < fuel
      → (left : List Bytes) × (client_thread fuel pieces ≡ some (text, left))
        × (joined left ≡ later)
  unfolding client_thread
  client_thread-prepare_msg later ne brings enough =
      let f = prepare_msg-IsFrame msg_type msg frame made in
      let four = length-pack (length text) f.header f.packed in
      let all : joined pieces ≡ f.header ++ (text ++ later) =
        brings ∙ ap (λ x. x ++ later) f.parts ∙ append_assoc f.header text later in
      let sizes : length frame ≡ 4 + length text =
        omega (arith, ap length f.parts, length-append f.header text, four) in
      let first =
        read-Reads fuel 4 none [] pieces no_limit ne (omega arith)
          (omega (arith, four, ap length all, length-append f.header (text ++ later)))
          (omega (arith, sizes, enough)) in
      let header_lem : take 4 (joined pieces) ≡ f.header =
        rw (all, ← four) (take-length f.header (text ++ later)) in
      let rest_lem : joined first.left ≡ text ++ later =
        first.after ∙ rw (all, ← four) (drop-length f.header (text ++ later)) in
      let second =
        read-Reads fuel (length text) (some 4096) [] first.left limit_4096 first.pieces_left
          (omega arith) (omega (arith, ap length rest_lem, length-append text later))
          (omega (arith, sizes, enough)) in
      let got : take (length text) (joined first.left) ≡ text =
        rw rest_lem (take-length text later) in
      (
        second.left,
        rw (first.ends, header_lem, unpack-pack (length text) f.header f.packed, second.ends, got)
            refl,
        second.after ∙ rw rest_lem (drop-length text later),
      )

  -- A prepared message that is cut off before its last byte is never handed over: the loops go on
  -- for any number of rounds.
  pub client_thread_cut_off :
      (missing : Bytes)
      → joined pieces ++ missing ≡ frame
      → 0 < length missing
      → client_thread fuel pieces ≡ none
  unfolding client_thread
  client_thread_cut_off missing brings cut =
      let f = prepare_msg-IsFrame msg_type msg frame made in
      let four = length-pack (length text) f.header f.packed in
      let sizes : length (joined pieces) + length missing ≡ 4 + length text = omega (
        arith,
        ap length (brings ∙ f.parts),
        length-append (joined pieces) missing,
        length-append f.header text,
        four,
      ) in
      elim (Option-cases (read fuel 4 none [] pieces)) [
        | inl e ↦ rw e refl
        | inr ((header, left), e) ↦
            let g = read_gives fuel 4 none [] pieces header left no_limit (omega arith) e in
            let whole : header ++ (joined left ++ missing) ≡ f.header ++ text =
              sym (append_assoc header (joined left) missing)
              ∙ ap (λ x. x ++ missing) g.0
              ∙ brings
              ∙ f.parts in
            let same : header ≡ f.header =
              sym (take-length header (joined left ++ missing))
              ∙ rw (g.1, ← four) (ap (take (length f.header)) whole)
              ∙ take-length f.header text in
            let rest : joined left ++ missing ≡ text =
              sym (drop-length header (joined left ++ missing))
              ∙ rw (g.1, ← four) (ap (drop (length f.header)) whole)
              ∙ drop-length f.header text in
            rw (e, same, unpack-pack (length text) f.header f.packed)
              (read_starves fuel (length text) (some 4096) [] left
                (omega (arith, ap length rest, length-append (joined left) missing, cut)))
      ]
