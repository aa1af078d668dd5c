-- ===== src/Migration/Datagrams/Laws.antt =====
-- Which datagrams reach the destination's handlers (node_main of migrate_dest.py).
use mec_measurements.Prelude.{
  ℕ, ◌+◌, ◌≤◌, ◌<◌, String, Bool, Option, [], ◌∷◌, ◌++◌, ◌≡◌, refl, ◌∙◌, length, length-append,
  if◌then◌else◌, arith, ap, leb, Bool-cases, inl, inr,
}
use mec_measurements.Effects.{Result, return, raise, and_then}
use mec_measurements.Bytes.{
  Bytes, take, take_all, Lacks, Lacks-take, Lacks-append, split, split_first-append, split-append,
  split_lacking, but_last,
}
use mec_measurements.Edge.MigrateNode.{Kwargs}
use mec_measurements.Migration.DiffPatch.{Tools}
use mec_measurements.Migration.Commands.{Daemon}
use mec_measurements.Migration.State.{MigrateDest}
use mec_measurements.Migration.Datagrams.{datagram, dispatch, process_line, process_lines, receive}

-- The line of a datagram, and the datagram with its end.
abbrev line_of : (command payload : Bytes) → Bytes
line_of command payload = command ++ b' ' ∷ payload

datagram-line_of :
    (command payload : Bytes) → datagram command payload ≡ line_of command payload ++ b'\n' ∷ []
unfolding datagram
datagram-line_of command payload = refl

line_of-Lacks :
    (command payload : Bytes)
    → Lacks b'\n' command
    → Lacks b'\n' payload
    → Lacks b'\n' (line_of command payload)
line_of-Lacks command payload c p =
    Lacks-append b'\n' command (b' ' ∷ payload) c (ground (arith, p))

and_then-skip :
    {S : Type 0} (r : Result (Unit {0}) × S) → and_then r.0 (λ x s. (return tt, s)) r.1 ≡ r
and_then-skip (return x, s) = refl
and_then-skip (raise e, s) = refl

module _ {t : Tools} {d : Daemon t.Content} (yaml_load : Bytes → Option Kwargs) (binds : ℕ → Bool)
    (addr : String) (s : MigrateDest t d) (command payload : Bytes) (one_word : Lacks b' ' command)
    (c : Lacks b'\n' command) (p : Lacks b'\n' payload) where
  receive_short :
      length (datagram command payload) ≤ 1024
      → receive yaml_load binds addr (datagram command payload) s
        ≡ dispatch yaml_load binds addr command (yaml_load payload) s
  unfolding receive process_lines process_line split but_last
  receive_short short =
      rw
        (
          take_all 1024 (datagram command payload) short,
          datagram-line_of command payload,
          split-append b'\n' (line_of command payload) [] (line_of-Lacks command payload c p),
          split_first-append b' ' command payload one_word,
        )
        (and_then-skip (dispatch yaml_load binds addr command (yaml_load payload) s))

  length_lem : length (datagram command payload) ≡ length (line_of command payload) + 1
  length_lem =
      ap length (datagram-line_of command payload)
      ∙ length-append (line_of command payload) (b'\n' ∷ [])

  receive_long :
      1024 < length (datagram command payload)
      → receive yaml_load binds addr (datagram command payload) s ≡ (return tt, s)
  unfolding receive process_lines but_last
  receive_long long =
      let fits : 1024 ≤ length (line_of command payload) = omega (arith, length_lem) in
      rw
        (
          datagram-line_of command payload,
          split_lacking b'\n' (take 1024 (line_of command payload ++ b'\n' ∷ [])) (
              Lacks-take b'\n' 1024 (line_of command payload) (b'\n' ∷ []) fits
                (line_of-Lacks command payload c p)),
        )
        refl

  -- A datagram with a command of one word and a payload on one line does what its command says of
  -- the arguments in the payload if it has at most 1024 bytes; a longer one is read without its end,
  -- and then nothing is done and no exception raised.
  pub receive-datagram : receive yaml_load binds addr (datagram command payload) s ≡ (
      if leb (length (datagram command payload)) 1024
      then dispatch yaml_load binds addr command (yaml_load payload) s
      else (return tt, s))
  receive-datagram = elim (Bool-cases (leb (length (datagram command payload)) 1024)) [
    | inl e ↦ rw e (receive_short (ground arith))
    | inr e ↦ rw e (receive_long (ground arith))
  ]
