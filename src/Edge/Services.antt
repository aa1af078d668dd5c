-- ===== src/Edge/Services.antt =====
-- What an edge server looks up for a service (utilities.py): its image and port, and an open port of
-- the host. The test `binds` of a port is the socket's, outside the repository.
use native.Mathlib.Decide.{dec_le}
use mec_measurements.Prelude.{
  ℕ, zero, suc, ◌+◌, ◌≤◌, ◌<◌, ◌≡◌, String, Bool, true, false, Option, none, some, ◌==◌,
  if◌then◌else◌, inl, inr, arith, Bool-cases,
}

pub get_container_for_service : String → Option String × Option ℕ
get_container_for_service service_name =
    if service_name == "openface"
    then (some "ngovanmao/openface:17", some 9999)
    else if service_name == "yolo"
    then (some "ngovanmao/u1404_opencv_py3_yolov3:05", some 9988)
    else if service_name == "simple"
    then (some "gochit/simple_tcp_service:03", some 9966)
    else (none, none)

-- `for port in range(start, start + rounds)`: the first port that can be bound.
unfoldable pub find_port : (ℕ → Bool) → ℕ → ℕ → Option ℕ
find_port binds zero port = none
find_port binds (suc rounds) port =
    let rest = find_port binds rounds (port + 1) in if binds port then some port else rest

-- find_open_port(9900, 9999)
unfoldable pub find_open_port : (ℕ → Bool) → Option ℕ
unfolding find_port
find_open_port binds = find_port binds 99 9900

-- What the search says of the ports from `port` on: the found one is the first that can be bound,
-- and where there is none, none can be bound.
abbrev pub Finds : (ℕ → Bool) → ℕ → ℕ → Option ℕ → Type 0
Finds binds rounds port none = (q : ℕ) → port ≤ q → q < port + rounds → binds q ≡ false
Finds binds rounds port (some found) =
    (port ≤ found)
    × (found < port + rounds)
    × (binds found ≡ true)
    × ((q : ℕ) → port ≤ q → q < found → binds q ≡ false)

-- The step of the search: no port before `found` but the first is left to be asked.
find_port_later :
    (binds : ℕ → Bool) (rounds port : ℕ) (r : Option ℕ)
    → binds port ≡ false
    → Finds binds rounds (port + 1) r
    → Finds binds (suc rounds) port r
find_port_later binds rounds port none taken h = λ q low high. elim (dec_le (port + 1) q) [
  | yes above ↦ h q above (omega arith)
  | no below ↦ let e : port ≡ q = omega arith in rw e at taken
]
find_port_later binds rounds port (some found) taken h = (
  omega arith,
  omega arith,
  h.2,
  λ q low high. elim (dec_le (port + 1) q) [
    | yes above ↦ h.3 q above high
    | no below ↦ let e : port ≡ q = omega arith in rw e at taken
  ],
)

find_port-Finds :
    (binds : ℕ → Bool) (rounds port : ℕ) → Finds binds rounds port (find_port binds rounds port)
unfolding find_port
find_port-Finds binds zero port = λ q low high. absurd (omega arith)
find_port-Finds binds (suc rounds) port = elim (Bool-cases (binds port)) [
  | inl free ↦ rw free (omega arith, omega arith, free, λ q low high. absurd (omega arith))
  | inr taken ↦ rw taken (
      find_port_later binds rounds port (find_port binds rounds (port + 1)) taken
        (find_port-Finds binds rounds (port + 1)))
]

-- find_open_port gives the first port from 9900 to 9998 that can be bound, and none only where no
-- port from 9900 to 9998 can be bound; port 9999 is not tried.
pub find_open_port-Finds : (binds : ℕ → Bool) → Finds binds 99 9900 (find_open_port binds)
unfolding find_open_port
find_open_port-Finds binds = find_port-Finds binds 99 9900
