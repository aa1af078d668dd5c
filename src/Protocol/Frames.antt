-- ===== src/Protocol/Frames.antt =====
-- prepare_msg and EdgeTCPServer.client_thread (edge_protocol.py): a message behind its length, and
-- the loops that read it from a connection, which brings the bytes in pieces. A connection is the
-- list of the pieces that still come; where it is empty the other side has closed.
pub mod Laws
pub mod Delivery
use mec_measurements.Prelude.{
  ℕ, zero, suc, ◌+◌, ◌-◌, ◌*◌, ◌/◌, ◌%◌, ◌^◌, Bool, true, false, Option, none, some, List, [], ◌∷◌,
  ◌++◌, length, leb, ltb, ◌&&◌, if◌then◌else◌,
}
use mec_measurements.Bytes.{Bytes, take, drop}

-- struct.pack('!i', n): four bytes, the highest first; none where the number does not fit.
unfoldable pub pack : ℕ → Option Bytes
pack n =
    if ltb n (2 ^ 31)
    then some (n / 2 ^ 24 ∷ n / 2 ^ 16 % 256 ∷ n / 2 ^ 8 % 256 ∷ n % 256 ∷ [])
    else none

-- struct.unpack('!i', buf)[0] for four bytes. A length from 2 ^ 31 on is a negative number, and
-- nothing is read for it: it counts as zero.
unfoldable pub unpack : Bytes → ℕ
unpack (a ∷ b ∷ c ∷ d ∷ []) =
    let n = a * 2 ^ 24 + b * 2 ^ 16 + c * 2 ^ 8 + d in if ltb n (2 ^ 31) then n else 0
unpack other = 0

-- '{} {}'.format(msg_type, msg)
abbrev pub text_of : (msg_type msg : Bytes) → Bytes
text_of msg_type msg = msg_type ++ b' ' ∷ msg

-- msg.encode(): Python 2 decodes the text as ASCII first, and raises at a byte from 128 on.
abbrev pub is_ascii : Bytes → Bool
is_ascii [] = true
is_ascii (b ∷ bs) = ltb b 128 && is_ascii bs

abbrev pub framed : Bytes → Option Bytes → Option Bytes
framed msg none = none
framed msg (some header) = if is_ascii msg then some (header ++ msg) else none

-- none where the length does not fit, for which struct.pack raises, or the text cannot be encoded
unfoldable pub prepare_msg : (msg_type msg : Bytes) → Option Bytes
prepare_msg msg_type msg = framed (text_of msg_type msg) (pack (length (text_of msg_type msg)))

-- conn.recv(n): the next piece or its first n bytes, and nothing after the end.
unfoldable pub recv : ℕ → List Bytes → Bytes × List Bytes
recv n [] = ([], [])
recv n (piece ∷ pieces) =
    if leb (length piece) n then (piece, pieces) else (take n piece, drop n piece ∷ pieces)

abbrev pub at_most : Option ℕ → ℕ → ℕ
at_most none n = n
at_most (some limit) n = if ltb limit n then limit else n

-- while len(buf) < total: buf += conn.recv(...), with fuel; none where the loop goes on.
unfoldable pub read :
    (fuel total : ℕ) → (limit : Option ℕ) → (buf : Bytes) → List Bytes → Option (Bytes × List Bytes)
read zero total limit buf pieces = none
read (suc fuel) total limit buf pieces =
    let got = recv (at_most limit (total - length buf)) pieces in
    let rest = read fuel total limit (buf ++ got.0) got.1 in
    if leb total (length buf) then some (buf, pieces) else rest

abbrev pub after_header : ℕ → Option (Bytes × List Bytes) → Option (Bytes × List Bytes)
after_header fuel none = none
after_header fuel (some (header, pieces)) = read fuel (unpack header) (some 4096) [] pieces

-- What client_thread hands to on_msg, and what is left in the connection.
unfoldable pub client_thread : ℕ → List Bytes → Option (Bytes × List Bytes)
client_thread fuel pieces = after_header fuel (read fuel 4 none [] pieces)
