-- ===== src/Edge/EdgeServices/Laws.antt =====
-- What the service registry of edge_services.py keeps.
use mec_measurements.Prelude.{
  String, ◌≡◌, none, some, Bool, true, false, List, [], ◌∷◌, ◌==◌, ◌&&◌, ◌≤◌, if◌then◌else◌,
  count_if, upsert, remove_first, set_or_append-eq-upsert, delete_found-eq-remove_first,
  find-upsert_self, find-upsert_apart, count_if-upsert_self, count_if-upsert_apart,
  find-remove_first_self, find-remove_first_apart, arith, eq_iff, eq_refl, Bool-cases, inl, inr,
  any, any-append, All, All-append, All-mono, All-upsert, All-remove_first, find, is_some,
  is_some-find, count_if-find_index, or_else, find-append, find_sound,
}
use mec_measurements.Edge.MigrateNode.{MigrateNode}
use mec_measurements.Edge.EdgeServices.{
  EdgeServices, keyed, is_associated_user, add_service, remove_service, update_service, get_service,
  find_index_service,
}

-- The test of a service's own key.
abbrev key : MigrateNode → MigrateNode → Bool
key s = keyed s.service_name s.end_user

key_refl : (s : MigrateNode) → key s s ≡ true
key_refl s = ground (arith, eq_refl s.service_name, eq_refl s.end_user)

keyed_apart :
    (a b c d : String)
    → (a == c && b == d) ≡ false
    → (s : MigrateNode) → keyed a b s ≡ true
    → keyed c d s ≡ false
keyed_apart a b c d h s e = ground (
  arith,
  eq_iff s.service_name a,
  eq_iff s.end_user b,
  eq_iff s.service_name c,
  eq_iff s.end_user d,
  eq_iff a c,
  eq_iff b d,
)

services-update_service :
    (es : EdgeServices) (s : MigrateNode)
    → (update_service es s).services ≡ upsert (key s) s es.services
unfolding update_service
services-update_service es s = ground (arith, set_or_append-eq-upsert (key s) s es.services)

services-remove_service :
    (es : EdgeServices) (s : MigrateNode)
    → (remove_service es s).services ≡ remove_first (key s) es.services
unfolding remove_service
services-remove_service es s = ground (arith, delete_found-eq-remove_first (key s) es.services)

-- No two services of the registry have the same name and user.
abbrev pub IsUnique : EdgeServices → Type 0
IsUnique es = (service user : String) → count_if (keyed service user) es.services ≤ 1

-- After update_service a lookup of the service's own name and user gives it, and any other lookup
-- gives what it gave before.
pub get_service-update_service :
    (es : EdgeServices) (s : MigrateNode) (user service : String)
    → get_service (update_service es s) user service ≡ (
        if s.service_name == service && s.end_user == user
        then some s
        else get_service es user service)
unfolding get_service
get_service-update_service es s user service =
    rw (services-update_service es s)
      (elim (Bool-cases (s.service_name == service && s.end_user == user)) [
        | inl e ↦ ground (
          arith,
          eq_iff s.service_name service,
          eq_iff s.end_user user,
          find-upsert_self (keyed service user) s es.services,
        )
        | inr e ↦ rw e (
            find-upsert_apart (key s) (keyed service user)
              (keyed_apart s.service_name s.end_user service user e) s es.services (key_refl s))
      ])

pub update_service-IsUnique :
    (es : EdgeServices) (s : MigrateNode) → IsUnique es → IsUnique (update_service es s)
update_service-IsUnique es s u service user =
    rw (services-update_service es s)
      (elim (Bool-cases (s.service_name == service && s.end_user == user)) [
        | inl e ↦ ground (
          arith,
          eq_iff s.service_name service,
          eq_iff s.end_user user,
          u service user,
          count_if-upsert_self (keyed service user) s es.services,
        )
        | inr e ↦ ground (
          arith,
          u service user,
          key_refl s,
          count_if-upsert_apart (key s) (keyed service user)
              (keyed_apart s.service_name s.end_user service user e) s es.services,
        )
      ])

-- remove_service of a registry without duplicates: the service is not found again, and every other
-- one is found as before.
pub get_service-remove_service :
    (es : EdgeServices) (s : MigrateNode) (user service : String)
    → IsUnique es
    → get_service (remove_service es s) user service ≡ (
        if s.service_name == service && s.end_user == user
        then none
        else get_service es user service)
unfolding get_service
get_service-remove_service es s user service u =
    rw (services-remove_service es s)
      (elim (Bool-cases (s.service_name == service && s.end_user == user)) [
        | inl e ↦ ground (
          arith,
          eq_iff s.service_name service,
          eq_iff s.end_user user,
          u service user,
          find-remove_first_self (keyed service user) es.services,
        )
        | inr e ↦ rw e (
            find-remove_first_apart (key s) (keyed service user)
              (keyed_apart s.service_name s.end_user service user e) es.services)
      ])

-- The user of the service is among `users`.
abbrev KnownBy : List String → MigrateNode → Type 0
KnownBy users s = any (λ u. u == s.end_user) users ≡ true

-- Every service of the registry belongs to a user that the registry knows.
abbrev pub IsCovered : EdgeServices → Type 0
IsCovered es = All (KnownBy es.users) es.services

-- Adding a service makes its user known, and forgets none.
users-add_service :
    (es : EdgeServices) (s : MigrateNode) (user : String)
    → any (λ u. u == user) (add_service es s).users
      ≡ (if s.end_user == user then true else any (λ u. u == user) es.users)
unfolding add_service is_associated_user
users-add_service es s user =
    ground (arith, eq_iff s.end_user user, any-append (λ u. u == user) es.users (s.end_user ∷ []))

users-remove_service :
    (es : EdgeServices) (s : MigrateNode) → (remove_service es s).users ≡ es.users
unfolding remove_service
users-remove_service es s = ground arith

module _ (es : EdgeServices) (s : MigrateNode) where
  add_service_mono : (x : MigrateNode) → KnownBy es.users x → KnownBy (add_service es s).users x
  add_service_mono x h = ground (arith, users-add_service es s x.end_user)

  add_service-known : KnownBy (add_service es s).users s
  add_service-known = ground (arith, users-add_service es s s.end_user, eq_refl s.end_user)

  pub add_service-IsCovered : IsCovered es → IsCovered (add_service es s)
  unfolding add_service
  add_service-IsCovered h =
      All-append (KnownBy (add_service es s).users) es.services (s ∷ [])
        (All-mono (KnownBy es.users) (KnownBy (add_service es s).users) add_service_mono es.services
          h)
        (add_service-known, tt)

  pub remove_service-IsCovered : IsCovered es → IsCovered (remove_service es s)
  remove_service-IsCovered h =
      rw (users-remove_service es s, services-remove_service es s)
        (All-remove_first (KnownBy es.users) (key s) es.services h)

  -- A service of the same name and user has a user that is known.
  hit-known :
      (xs : List MigrateNode)
      → All (KnownBy es.users) xs
      → is_some (find (key s) xs) ≡ true
      → KnownBy es.users s
  hit-known [] h e = cc
  hit-known (x ∷ xs) h e = elim (Bool-cases (key s x)) [
    | inl hit ↦ ground (arith, h.0, eq_iff x.end_user s.end_user)
    | inr miss ↦ hit-known xs h.1 (ground arith)
  ]

  update_service-found :
      is_some (find (key s) es.services) ≡ true → (update_service es s).users ≡ es.users
  unfolding update_service
  update_service-found e =
      ground (arith, is_some-find (key s) es.services, count_if-find_index (key s) es.services)

  update_service-new :
      is_some (find (key s) es.services) ≡ false → update_service es s ≡ add_service es s
  unfolding update_service
  update_service-new e =
      ground (arith, is_some-find (key s) es.services, count_if-find_index (key s) es.services)

  pub update_service-IsCovered : IsCovered es → IsCovered (update_service es s)
  update_service-IsCovered h = elim (Bool-cases (is_some (find (key s) es.services))) [
    | inl found ↦
        rw (update_service-found found, services-update_service es s)
          (All-upsert (KnownBy es.users) (key s) s es.services (hit-known es.services h found) h)
    | inr new ↦ rw (update_service-new new) (add_service-IsCovered h)
  ]

-- Adding, updating and removing a service each keep it so that every service of the registry belongs
-- to a user that the registry knows.
pub operations-IsCovered :
    (es : EdgeServices) (s : MigrateNode)
    → IsCovered es
    → IsCovered (add_service es s)
      × IsCovered (update_service es s)
      × IsCovered (remove_service es s)
operations-IsCovered es s h =
    (add_service-IsCovered es s h, update_service-IsCovered es s h, remove_service-IsCovered es s h)

-- add_service looks at no entry: an entry that is there under the same name and user is found first.
pub get_service-add_service :
    (es : EdgeServices) (s : MigrateNode) (user service : String)
    → get_service (add_service es s) user service
      ≡ or_else
          (get_service es user service)
          (if s.service_name == service && s.end_user == user then some s else none)
unfolding get_service add_service
get_service-add_service es s user service =
    ground (arith, find-append (keyed service user) es.services s)

-- What a lookup finds has the name and the user that were asked for.
pub get_service_sound :
    (es : EdgeServices) (user service : String) (s : MigrateNode)
    → get_service es user service ≡ some s
    → (s.service_name ≡ service) × (s.end_user ≡ user)
unfolding get_service
get_service_sound es user service s h = ground (
  arith,
  find_sound (keyed service user) es.services s h,
  eq_iff s.service_name service,
  eq_iff s.end_user user,
)

-- The index of a service is found exactly where the service is.
pub find_index_service-get_service :
    (es : EdgeServices) (s : MigrateNode)
    → is_some (find_index_service es s) ≡ is_some (get_service es s.end_user s.service_name)
unfolding find_index_service get_service
find_index_service-get_service es s =
    ground (arith, count_if-find_index (key s) es.services, is_some-find (key s) es.services)
