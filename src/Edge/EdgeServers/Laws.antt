-- ===== src/Edge/EdgeServers/Laws.antt =====
-- What the neighbour table of edge_servers.py keeps.
use mec_measurements.Prelude.{
  String, ◌≡◌, Option, none, some, Bool, true, false, List, [], ◌∷◌, ◌==◌, ◌≤◌, if◌then◌else◌,
  count_if, upsert, remove_first, set_or_append-eq-upsert, delete_found-eq-remove_first,
  find-upsert_self, find-upsert_apart, count_if-upsert_self, count_if-upsert_apart,
  count_if-remove_first, count_if-remove_first_apart, arith, eq_iff, eq_refl, Bool-cases, inl, inr,
  ◌||◌, any, find-append, find, or_else, find-append, find-remove_first_self,
  count_if-append_if_absent, count_if-append_if_absent_apart, List, [], ◌∷◌, Option,
  find-remove_first_apart, find_sound,
}
use mathlib.Core.List.{reverse, reverse-cons}
use mec_measurements.Edge.EdgeServers.{
  ServerInfo, EdgeServers, named, add_new_server, remove_server, get_server_info, update_server,
  update_my_neighbors,
}

pub named_apart :
    (n m : String) → (n == m) ≡ false → (s : ServerInfo) → named n s ≡ true → named m s ≡ false
named_apart n m h s e = ground (arith, eq_iff s.server_name n, eq_iff s.server_name m, eq_iff n m)

pub update_server-eq-upsert :
    (servers : EdgeServers) (s : ServerInfo)
    → update_server servers s ≡ upsert (named s.server_name) s servers
unfolding update_server
update_server-eq-upsert servers s = set_or_append-eq-upsert (named s.server_name) s servers

remove_server-eq-remove_first :
    (servers : EdgeServers) (s : ServerInfo)
    → remove_server servers s ≡ remove_first (named s.server_name) servers
unfolding remove_server
remove_server-eq-remove_first servers s = delete_found-eq-remove_first (named s.server_name) servers

find-named-upsert :
    (servers : EdgeServers) (s : ServerInfo) (name : String)
    → find (named name) (upsert (named s.server_name) s servers)
      ≡ (if s.server_name == name then some s else find (named name) servers)
find-named-upsert servers s name = elim (Bool-cases (s.server_name == name)) [
  | inl e ↦
      rw (e, ← (eq_iff s.server_name name).0 e)
        (find-upsert_self (named s.server_name) s servers (eq_refl s.server_name))
  | inr e ↦ rw e (
      find-upsert_apart (named s.server_name) (named name) (named_apart s.server_name name e) s
        servers (eq_refl s.server_name))
]

-- After update_server a lookup of the server's name gives the new entry, and a lookup of any other
-- name gives what it gave before.
pub get_server_info-update_server :
    (servers : EdgeServers) (s : ServerInfo) (name : String)
    → get_server_info (update_server servers s) name
      ≡ (if s.server_name == name then some s else get_server_info servers name)
unfolding get_server_info
get_server_info-update_server servers s name =
    rw (update_server-eq-upsert servers s) (find-named-upsert servers s name)

-- No two entries of the table have one name.
abbrev pub IsUnique : EdgeServers → Type 0
IsUnique servers = (name : String) → count_if (named name) servers ≤ 1

pub update_server-IsUnique :
    (servers : EdgeServers) (s : ServerInfo) → IsUnique servers → IsUnique (update_server servers s)
update_server-IsUnique servers s u name =
    rw (update_server-eq-upsert servers s) (elim (Bool-cases (s.server_name == name)) [
      | inl e ↦ ground (
        arith,
        eq_iff s.server_name name,
        eq_refl name,
        u name,
        count_if-upsert_self (named name) s servers,
      )
      | inr e ↦ ground (
        arith,
        u name,
        eq_refl s.server_name,
        count_if-upsert_apart (named s.server_name) (named name) (named_apart s.server_name name e)
            s servers,
      )
    ])

pub add_new_server-IsUnique :
    (servers : EdgeServers) (s : ServerInfo)
    → IsUnique servers
    → IsUnique (add_new_server servers s)
unfolding add_new_server
add_new_server-IsUnique servers s u name = elim (Bool-cases (s.server_name == name)) [
  | inl e ↦
      rw (← (eq_iff s.server_name name).0 e)
        (count_if-append_if_absent (named s.server_name) s servers (u s.server_name))
  | inr e ↦ ground (
    arith,
    u name,
    eq_refl s.server_name,
    count_if-append_if_absent_apart (named s.server_name) (named name)
        (named_apart s.server_name name e) s servers,
  )
]

pub remove_server-IsUnique :
    (servers : EdgeServers) (s : ServerInfo) → IsUnique servers → IsUnique (remove_server servers s)
remove_server-IsUnique servers s u name =
    rw (remove_server-eq-remove_first servers s) (elim (Bool-cases (s.server_name == name)) [
      | inl e ↦
          ground
            (arith, eq_iff s.server_name name, u name, count_if-remove_first (named name) servers)
      | inr e ↦ ground (
        arith,
        u name,
        count_if-remove_first_apart (named s.server_name) (named name)
            (named_apart s.server_name name e) servers,
      )
    ])

-- A removed server is not found again, and every other one stays.
pub get_server_info-remove_server :
    (servers : EdgeServers) (s : ServerInfo) (name : String)
    → IsUnique servers
    → get_server_info (remove_server servers s) name
      ≡ (if s.server_name == name then none else get_server_info servers name)
unfolding get_server_info
get_server_info-remove_server servers s name u =
    rw (remove_server-eq-remove_first servers s) (elim (Bool-cases (s.server_name == name)) [
      | inl e ↦
          rw (e, ← (eq_iff s.server_name name).0 e)
            (find-remove_first_self (named s.server_name) servers (u s.server_name))
      | inr e ↦ rw e (
          find-remove_first_apart (named s.server_name) (named name)
            (named_apart s.server_name name e) servers)
    ])

-- The entry of the message that counts for a name: the last one, unless the name is the server's own.
abbrev pub latest : String → String → List ServerInfo → Option ServerInfo
latest me name all = if name == me then none else find (named name) (reverse all)

find-reverse-cons :
    (p : ServerInfo → Bool) (s : ServerInfo) (rest : List ServerInfo)
    → find p (reverse (s ∷ rest)) ≡ or_else (find p (reverse rest)) (if p s then some s else none)
find-reverse-cons p s rest =
    rw (reverse-cons s rest) (ground (arith, find-append p (reverse rest) s))

latest-cons :
    (me name : String) (s : ServerInfo) (rest : List ServerInfo) (before : Option ServerInfo)
    → or_else (latest me name (s ∷ rest)) before
      ≡ or_else
          (latest me name rest)
          (if s.server_name == me then before else if s.server_name == name then some s else before)
latest-cons me name s rest before =
    rw (find-reverse-cons (named name) s rest)
      (ground (arith, eq_iff s.server_name me, eq_iff s.server_name name, eq_iff name me))

module _ (me : String) where
  -- After UPDATED_SERVERS the table holds, for each name but the server's own, the last entry that
  -- the message has for it, and what it held before where the message has none.
  pub get_server_info-update_my_neighbors :
      (all : List ServerInfo) (servers : EdgeServers) (r : Bool) (name : String)
      → get_server_info (update_my_neighbors (servers, r) me all).0 name
        ≡ or_else (latest me name all) (get_server_info servers name)
  unfolding update_my_neighbors
  get_server_info-update_my_neighbors [] servers r name = ground arith
  get_server_info-update_my_neighbors (s ∷ rest) servers r name =
      elim (Bool-cases (s.server_name == me)) [
        | inl e ↦
            rw (e, latest-cons me name s rest (get_server_info servers name), e)
              (get_server_info-update_my_neighbors rest servers true name)
        | inr e ↦
            rw
              (
                e,
                latest-cons me name s rest (get_server_info servers name),
                e,
                ← get_server_info-update_server servers s name,
              )
              (get_server_info-update_my_neighbors rest (update_server servers s) r name)
      ]

  -- The server is registered exactly when the message names it, and is told so otherwise.
  pub is_registered-update_my_neighbors :
      (all : List ServerInfo) (servers : EdgeServers) (r : Bool)
      → (update_my_neighbors (servers, r) me all).1 ≡ (r || any (named me) all)
  unfolding update_my_neighbors
  is_registered-update_my_neighbors [] servers r = ground arith
  is_registered-update_my_neighbors (s ∷ rest) servers r = elim (Bool-cases (s.server_name == me)) [
    | inl e ↦ ground (arith, is_registered-update_my_neighbors rest servers true)
    | inr e ↦ ground (arith, is_registered-update_my_neighbors rest (update_server servers s) r)
  ]

  pub update_my_neighbors-IsUnique :
      (all : List ServerInfo) (servers : EdgeServers) (r : Bool)
      → IsUnique servers
      → IsUnique (update_my_neighbors (servers, r) me all).0
  unfolding update_my_neighbors
  update_my_neighbors-IsUnique [] servers r u = u
  update_my_neighbors-IsUnique (s ∷ rest) servers r u = elim (Bool-cases (s.server_name == me)) [
    | inl e ↦ rw e (update_my_neighbors-IsUnique rest servers true u)
    | inr e ↦ rw e (
        update_my_neighbors-IsUnique rest (update_server servers s) r
          (update_server-IsUnique servers s u))
  ]

-- Adding, updating and removing a server and taking over an UPDATED_SERVERS message each keep the
-- table without two entries of one name.
pub operations-IsUnique :
    (me : String) (all : List ServerInfo) (r : Bool) (s : ServerInfo) (servers : EdgeServers)
    → IsUnique servers
    → IsUnique (add_new_server servers s)
      × IsUnique (update_server servers s)
      × IsUnique (remove_server servers s)
      × IsUnique (update_my_neighbors (servers, r) me all).0
operations-IsUnique me all r s servers u = (
  add_new_server-IsUnique servers s u,
  update_server-IsUnique servers s u,
  remove_server-IsUnique servers s u,
  update_my_neighbors-IsUnique me all servers r u,
)

-- What a lookup finds has the name that was asked for.
pub get_server_info_sound :
    (servers : EdgeServers) (name : String) (s : ServerInfo)
    → get_server_info servers name ≡ some s
    → s.server_name ≡ name
unfolding get_server_info
get_server_info_sound servers name s h =
    ground (arith, find_sound (named name) servers s h, eq_iff s.server_name name)
