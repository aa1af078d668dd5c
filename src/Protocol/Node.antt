-- ===== src/Protocol/Node.antt =====
-- ProtocolNode (edge_protocol.py): callbacks by the type of a message.
use mec_measurements.Prelude.{Option, none, some, [], ◌≡◌, refl, if◌then◌else◌}
use mec_measurements.Effects.{Exception, Result, return, raise, index_error}
use mec_measurements.Bytes.{Bytes, bytes_eq, bytes_eq_refl, Lacks, split_first, split_first-append}
use mec_measurements.Protocol.Frames.{text_of}

-- The dictionary of callbacks; a callback may raise.
abbrev pub Callbacks : Type 0
Callbacks = Bytes → Option (Bytes → Result Bytes)

unfoldable pub add_callback : Bytes → (Bytes → Result Bytes) → Callbacks → Callbacks
add_callback msg_type func cb other = if bytes_eq msg_type other then some func else cb other

-- A key error is caught, also one of the callback itself.
abbrev pub handled : Result Bytes → Result Bytes
handled (return answer) = return answer
handled (raise Exception.key_error) = return []
handled (raise e) = raise e

abbrev pub called : Option (Bytes → Result Bytes) → Option Bytes → Result Bytes
called none payload = return []
called (some func) none = raise index_error
called (some func) (some payload) = handled (func payload)

unfoldable pub get_message : Callbacks → Bytes → Result Bytes
get_message cb line = let msg = split_first b' ' line in called (cb msg.0) msg.1

-- A message whose type is one word reaches the callback that was added last for the type, with its
-- text, spaces included; the answer is the callback's, and empty where it raises a key error.
pub get_message-add_callback :
    (msg_type msg : Bytes) (func : Bytes → Result Bytes) (cb : Callbacks)
    → Lacks b' ' msg_type
    → get_message (add_callback msg_type func cb) (text_of msg_type msg) ≡ handled (func msg)
unfolding get_message add_callback
get_message-add_callback msg_type msg func cb word =
    rw (split_first-append b' ' msg_type msg word, bytes_eq_refl msg_type) refl
