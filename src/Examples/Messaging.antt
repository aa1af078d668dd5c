-- ===== src/Examples/Messaging.antt =====
-- The theorems on messages, applied to short ones.
use mec_measurements.Prelude.{true, none, some, List, [], ◌∷◌, ◌≡◌, refl, arith}
use mec_measurements.Bytes.{Bytes, bytes, bytes_eq}
use mec_measurements.Protocol.Frames.{prepare_msg, pack, client_thread}
use mec_measurements.Protocol.Frames.Laws.{joined}
use mec_measurements.Protocol.Frames.Delivery.{client_thread-prepare_msg, client_thread_cut_off}
use mec_measurements.Migration.State.{MigrateDest}
use mec_measurements.Migration.Dest
use mec_measurements.Migration.Datagrams.{datagram, receive}
use mec_measurements.Migration.Datagrams.Laws.{receive-datagram}
use mec_measurements.Examples.Migrating.{tools, daemon, a_service, before}

-- "monitor 123" behind its length, in three pieces.
abbrev a_frame : Bytes
a_frame = 0 ∷ 0 ∷ 0 ∷ 11 ∷ bytes "monitor 123"

a_frame_lem : prepare_msg (bytes "monitor") (bytes "123") ≡ some a_frame
unfolding prepare_msg pack
a_frame_lem = refl

abbrev pieces : List Bytes
pieces = (0 ∷ 0 ∷ []) ∷ (0 ∷ 11 ∷ bytes "moni") ∷ bytes "tor 123++" ∷ []

client_thread-prepare_msg_example :
    (left : List Bytes) × (client_thread 20 pieces ≡ some (bytes "monitor 123", left))
    × (joined left ≡ bytes "++")
client_thread-prepare_msg_example =
    client_thread-prepare_msg (bytes "monitor") (bytes "123") a_frame 20 pieces a_frame_lem
      (bytes "++") (omega arith) refl (omega arith)

client_thread_cut_off_example :
    client_thread 1000 ((0 ∷ 0 ∷ []) ∷ (0 ∷ 11 ∷ bytes "moni") ∷ []) ≡ none
client_thread_cut_off_example =
    client_thread_cut_off (bytes "monitor") (bytes "123") a_frame 1000
      ((0 ∷ 0 ∷ []) ∷ (0 ∷ 11 ∷ bytes "moni") ∷ []) a_frame_lem (bytes "tor 123") refl (omega arith)

abbrev dest : MigrateDest tools daemon
dest = before.dest

receive-datagram_example :
    receive
      (λ payload. some a_service)
      (λ port. true)
      "10.0.0.1"
      (datagram (bytes "prepare") (bytes "{}"))
      dest
    ≡ Dest.handle_cmd_prepare (λ port. true) "10.0.0.1" a_service dest
unfolding datagram bytes_eq
receive-datagram_example =
    receive-datagram (λ payload. some a_service) (λ port. true) "10.0.0.1" dest (bytes "prepare")
      (bytes "{}") refl refl refl
