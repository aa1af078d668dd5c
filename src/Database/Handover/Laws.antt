-- ===== src/Database/Handover/Laws.antt =====
-- The handover time is the earliest one that lies ahead (central_database.py).
use mec_measurements.Prelude.{
  String, true, false, Option, none, some, List, [], ◌∷◌, ◌≡◌, refl, not, ◌||◌, if◌then◌else◌, All,
  All-mono, Among, All-Among, arith, Bool-cases, Option-cases, inl, inr,
}
use mathlib.Core.Path.{subst}
use mec_measurements.Platform.{Platform, Real, zero_real}
use mec_measurements.Effects.{Result-cases, return}
use mec_measurements.Database.Estimate.Laws.{IsOrdered}
use mec_measurements.Database.Rows.{EndUserInfo, BtsInfo, DbCentral}
use mec_measurements.Database.Queries.{get_user, get_bts}
use mec_measurements.Database.Handover.{
  Point, precedes, insert_time, sorted, is_future, select_time, remain_times, HandoverPoints,
  get_handover_time,
}

module _ ⦃p : Platform⦄ (order : IsOrdered) where
  open p use {lt}

  -- a comes no later than b.
  abbrev NotAfter : Option Real → Option Real → Type 0
  NotAfter a b = precedes b a ≡ false

  NotAfter-trans : (a b c : Option Real) → NotAfter a b → NotAfter b c → NotAfter a c
  NotAfter-trans none none none h k = refl
  NotAfter-trans none none (some c) h k = refl
  NotAfter-trans none (some b) none h k = refl
  NotAfter-trans none (some b) (some c) h k = refl
  NotAfter-trans (some a) none c h k = absurd (ground arith)
  NotAfter-trans (some a) (some b) none h k = absurd (ground arith)
  NotAfter-trans (some a) (some b) (some c) h k = order.le_trans a b c h k

  precedes-NotAfter : (a b : Option Real) → precedes a b ≡ true → NotAfter a b
  precedes-NotAfter none none h = refl
  precedes-NotAfter none (some b) h = refl
  precedes-NotAfter (some a) none h = absurd (ground arith)
  precedes-NotAfter (some a) (some b) h = order.lt_asymm a b h

  abbrev IsSorted : List (Option Real) → Type 0
  IsSorted [] = Unit
  IsSorted (t ∷ rest) = All (NotAfter t) rest × IsSorted rest

  module _ (P : Option Real → Type 0) where
    All-insert_time :
        (t : Option Real) (ts : List (Option Real)) → P t → All P ts → All P (insert_time t ts)
    All-insert_time t [] h k = (h, tt)
    All-insert_time t (u ∷ rest) h k = elim (Bool-cases (precedes t u)) [
      | inl e ↦ rw e (h, k)
      | inr e ↦ rw e (k.0, All-insert_time t rest h k.1)
    ]

    -- What holds of each sorted time holds of each time.
    insert_time-All :
        (t : Option Real) (ts : List (Option Real)) → All P (insert_time t ts) → P t × All P ts
    insert_time-All t [] h = h
    insert_time-All t (u ∷ rest) h = elim (Bool-cases (precedes t u)) [
      | inl e ↦ (rw e at h)
      | inr e ↦
          let (first, later) = (rw e at h) in
          let (hit, others) = insert_time-All t rest later in (hit, (first, others))
    ]

    -- And the other way round.
    All-sorted : (ts : List (Option Real)) → All P ts → All P (sorted ts)
    All-sorted [] h = tt
    All-sorted (t ∷ rest) h = All-insert_time t (sorted rest) h.0 (All-sorted rest h.1)

    second-among :
        (u : Option Real) (t : Real)
        → P u
        → (if is_future u then return u else return none) ≡ return (some t)
        → P (some t)
    second-among none t h e = absurd (ground arith)
    second-among (some b) t h e = let f : b ≡ t = ground arith in rw (← f) h

    -- The time that is selected is one of the times.
    select_time-among :
        (ts : List (Option Real)) (t : Real)
        → All P ts
        → select_time ts ≡ return (some t)
        → P (some t)
    unfolding select_time
    select_time-among [] t h e = absurd (ground arith)
    select_time-among (none ∷ []) t h e = absurd (ground arith)
    select_time-among (some a ∷ []) t h e = let f : a ≡ t = ground arith in rw (← f) h.0
    select_time-among (none ∷ u ∷ rest) t h e = second-among u t h.1.0 e
    select_time-among (some a ∷ u ∷ rest) t h e = elim (Bool-cases (is_future (some a))) [
      | inl ahead ↦ let f : a ≡ t = ground arith in rw (← f) h.0
      | inr past ↦ second-among u t h.1.0 (ground arith)
    ]

    sorted-All : (ts : List (Option Real)) → All P (sorted ts) → All P ts
    sorted-All [] h = tt
    sorted-All (t ∷ rest) h =
        let (first, later) = insert_time-All t (sorted rest) h in (first, sorted-All rest later)

  insert_time-IsSorted :
      (t : Option Real) (ts : List (Option Real)) → IsSorted ts → IsSorted (insert_time t ts)
  insert_time-IsSorted t [] h = (tt, tt)
  insert_time-IsSorted t (u ∷ rest) h = elim (Bool-cases (precedes t u)) [
    | inl e ↦
        let near = precedes-NotAfter t u e in
        rw e (
          (near, All-mono (NotAfter u) (NotAfter t) (λ x k. NotAfter-trans t u x near k) rest h.0),
          h,
        )
    | inr e ↦ rw e (All-insert_time (NotAfter u) t rest e h.0, insert_time-IsSorted t rest h.1)
  ]

  sorted-IsSorted : (ts : List (Option Real)) → IsSorted (sorted ts)
  sorted-IsSorted [] = tt
  sorted-IsSorted (t ∷ rest) = insert_time-IsSorted t (sorted rest) (sorted-IsSorted rest)

  -- The time u does not lie ahead, or is not earlier than t.
  abbrev pub Earliest : Real → Option Real → Type 0
  Earliest t u = (not (is_future u) || not (precedes u (some t))) ≡ true

  rest-Earliest :
      (t : Real) (ts : List (Option Real)) → All (NotAfter (some t)) ts → All (Earliest t) ts
  rest-Earliest t ts = All-mono (NotAfter (some t)) (Earliest t) (λ u h. ground arith) ts

  head-Earliest : (t : Real) → Earliest t (some t)
  head-Earliest t = ground (arith, order.lt_irrefl t)

  -- The second time, where the first does not lie ahead.
  second-Earliest :
      (u : Option Real) (rest : List (Option Real)) (t : Real)
      → IsSorted (u ∷ rest)
      → (if is_future u then return u else return none) ≡ return (some t)
      → (lt t zero_real ≡ false) × All (Earliest t) (u ∷ rest)
  second-Earliest none rest t s h = absurd (ground arith)
  second-Earliest (some b) rest t s h =
      let e : b ≡ t = ground arith in
      let near = s.0 in
      (ground arith, (rw e (head-Earliest t), rest-Earliest t rest (rw e at near)))

  select_time-Earliest :
      (ts : List (Option Real)) (t : Real)
      → IsSorted ts
      → select_time ts ≡ return (some t)
      → (lt t zero_real ≡ false) × All (Earliest t) ts
  unfolding select_time
  select_time-Earliest [] t s h = absurd (ground arith)
  select_time-Earliest (none ∷ []) t s h = absurd (ground arith)
  select_time-Earliest (some a ∷ []) t s h =
      let e : a ≡ t = ground arith in (ground arith, (rw e (head-Earliest t), tt))
  select_time-Earliest (none ∷ u ∷ rest) t s h =
      let (late, rest_earliest) = second-Earliest u rest t s.1 h in (late, (refl, rest_earliest))
  select_time-Earliest (some a ∷ u ∷ rest) t s h = elim (Bool-cases (is_future (some a))) [
    | inl ahead ↦
        let e : a ≡ t = ground arith in
        let near = subst (λ b. All (NotAfter (some b)) (u ∷ rest)) e s.0 in
        (ground arith, (rw e (head-Earliest t), rest-Earliest t (u ∷ rest) near))
    | inr past ↦
        let (late, rest_earliest) = second-Earliest u rest t s.1 (ground arith) in
        (late, (ground arith, rest_earliest))
  ]

  -- A handover time that is forecast is one of the times at which the stored user reaches the points
  -- that find_handover_points gives for the user's line and the two stored base stations; it lies
  -- ahead, and none of these times lies ahead and is earlier.
  pub get_handover_time-Earliest :
      (find_handover_points : HandoverPoints) (db : DbCentral) (user src dst : String)
      (hys t : Real)
      → get_handover_time find_handover_points db user src dst hys ≡ return (some t)
      → (row : EndUserInfo) × (from : BtsInfo) × (to : BtsInfo) × (points : List Point)
        × (times : List (Option Real)) × (get_user db user ≡ some row)
        × (get_bts db src ≡ some from)
        × (get_bts db dst ≡ some to)
        × (find_handover_points row.a row.b (from.x, from.y) (to.x, to.y) hys
            ≡ return (some points))
        × (remain_times row points ≡ return times)
        × Among (some t) times
        × (lt t zero_real ≡ false)
        × All (Earliest t) times
  unfolding get_handover_time
  get_handover_time-Earliest find_handover_points db user src dst hys t h =
      elim (Option-cases (get_user db user)) [
        | inl e ↦ absurd (ground arith)
        | inr (row, e) ↦ elim (Option-cases (get_bts db src)) [
          | inl f ↦ absurd (ground arith)
          | inr (from, f) ↦ elim (Option-cases (get_bts db dst)) [
            | inl g ↦ absurd (ground arith)
            | inr (to, g) ↦
                elim (Result-cases
                  (find_handover_points row.a row.b (from.x, from.y) (to.x, to.y) hys)) [
                    | inr (x, k) ↦ absurd (ground arith)
                    | inl (none, k) ↦ absurd (ground arith)
                    | inl (some points, k) ↦ elim (Result-cases (remain_times row points)) [
                      | inr (x, l) ↦ absurd (ground arith)
                      | inl (times, l) ↦
                          let selected : select_time (sorted times) ≡ return (some t) =
                            (rw (get_handover_time, e, f, g, k, l) at h) in
                          let (ahead, earliest) =
                            select_time-Earliest (sorted times) t (sorted-IsSorted times)
                              selected in
                          let among =
                            select_time-among (λ u. Among u times) (sorted times) t
                              (All-sorted (λ u. Among u times) times (All-Among times)) selected in
                          (
                            row,
                            from,
                            to,
                            points,
                            times,
                            e,
                            f,
                            g,
                            k,
                            l,
                            among,
                            ahead,
                            sorted-All (Earliest t) times earliest,
                          )
                    ]
                  ]
          ]
        ]
      ]
