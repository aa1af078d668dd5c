-- ===== src/Planner/Differences.antt =====
-- diff_assign of the optimizing planner (optimization_planner.py): the plans that lead from one
-- assignment to another. The value of a variable, which is 0 or 1 before `solve` and is pulp's after
-- it, is of a type with a test for zero.
use mec_measurements.Prelude.{
  String, Bool, true, false, Option, none, some, List, [], ◌∷◌, ◌≡◌, refl, ◌==◌, ◌&&◌, ◌⊎◌, inl,
  inr, sym, is_some, not, ◌||◌, Option-cases, if◌then◌else◌, arith, eq_iff, eq_refl, All,
  Bool-cases, ◌∙◌,
}
use mec_measurements.Prelude.Dict.{Dict, empty, put}
use mec_measurements.Effects.{Result, return, raise, key_error}
use mec_measurements.Controller.State.{PlanResult}

-- The test `==` of two pairs that may be None.
abbrev pub same_pair : Option (String × String) → Option (String × String) → Bool
same_pair none none = true
same_pair (some a) (some b) = a.0 == b.0 && a.1 == b.1
same_pair _ _ = false

-- PlanResult(user, *pair)
abbrev plan_to : String → String × String → PlanResult
plan_to user (bts, server) = record { user = user; next_bts = bts; next_server = server }

-- The loop over the users, with the exception of next_dict[user].
unfoldable pub differences :
    Dict (String × String) → Dict (String × String) → List String → Result (List PlanResult)
differences cur next [] = return []
differences cur next (user ∷ rest) =
    let later = differences cur next rest in
    if same_pair (cur user) (next user) then later else elim (next user) [
      | none ↦ raise key_error
      | some pair ↦ elim later [
        | raise e ↦ raise e
        | return plans ↦ return (plan_to user pair ∷ plans)
      ]
    ]

-- A user, a server and a base station, with the value of their variable.
abbrev pub Variable : Type 0 → Type 0
Variable Value = (String × String × String) × Value

module _ {Value : Type 0} (is_zero : Value → Bool) where
  -- The loops that fill cur_dict and next_dict
  unfoldable pub assigned : List (Variable Value) → Dict (String × String) → Dict (String × String)
  assigned [] d = d
  assigned (((user, server, bts), value) ∷ rest) d =
      let filled = assigned rest (put d user (bts, server)) in
      let other = assigned rest d in if is_zero value then other else filled

  unfoldable pub diff_assign :
      List String → List (Variable Value) → List (Variable Value) → Result (List PlanResult)
  unfolding assigned differences
  diff_assign users cur_assign next_assign =
      differences (assigned cur_assign empty) (assigned next_assign empty) users

-- The assignment after the users were moved as the plans say.
abbrev pub follow : List PlanResult → Dict (String × String) → Dict (String × String)
follow [] d = d
follow (plan ∷ rest) d = follow rest (put d plan.user (plan.next_bts, plan.next_server))

same_pair_sound : (a b : Option (String × String)) → same_pair a b ≡ true → a ≡ b
same_pair_sound none none h = refl
same_pair_sound none (some b) h = absurd (ground arith)
same_pair_sound (some a) none h = absurd (ground arith)
same_pair_sound (some (a, b)) (some (c, d)) h = ground (arith, eq_iff a c, eq_iff b d)

missing :
    (a b : Option (String × String))
    → same_pair a b ≡ false
    → b ≡ none
    → (not (is_some a) || is_some b) ≡ true
    → ⊥
missing none none h e f = ground arith
missing none (some b) h e f = ground arith
missing (some a) b h e f = ground arith

module _ (cur next : Dict (String × String)) where
  -- Each user is where it was or where it is to be.
  abbrev Between : Dict (String × String) → Type 0
  Between d = (user : String) → (d user ≡ cur user) ⊎ (d user ≡ next user)

  -- The plan leads to where the user is to be, which is not where it was.
  abbrev pub Changes : PlanResult → Type 0
  Changes plan =
      (next plan.user ≡ some (plan.next_bts, plan.next_server))
      × (same_pair (cur plan.user) (next plan.user) ≡ false)

  -- A user who is assigned stays assigned.
  abbrev pub Stays : String → Type 0
  Stays user = (not (is_some (cur user)) || is_some (next user)) ≡ true

  put-next :
      (d : Dict (String × String)) (key : String) (pair : String × String) (user : String)
      → next key ≡ some pair
      → (put d key pair user ≡ next user) ⊎ (put d key pair user ≡ d user)
  put-next d key pair user h = elim (Bool-cases (key == user)) [
    | inl e ↦ inl (rw e (rw (← (eq_iff key user).0 e) (sym h)))
    | inr e ↦ inr (rw e refl)
  ]

  put-Between :
      (d : Dict (String × String)) (key : String) (pair : String × String)
      → next key ≡ some pair
      → Between d
      → Between (put d key pair)
  put-Between d key pair h between user = elim (put-next d key pair user h) [
    | inl e ↦ inr e
    | inr e ↦ rw e (between user)
  ]

  follow-next :
      (plans : List PlanResult) (d : Dict (String × String)) (user : String)
      → All Changes plans
      → d user ≡ next user
      → follow plans d user ≡ next user
  follow-next [] d user h e = e
  follow-next (plan ∷ rest) d user h e =
      let pair : String × String = (plan.next_bts, plan.next_server) in
      follow-next rest (put d plan.user pair) user h.1
        (elim (put-next d plan.user pair user h.0.0) [ inl f ↦ f | inr f ↦ f ∙ e ])

  -- The plans change users' assignments, and take each of the users to where it is to be.
  Leads : List String → List PlanResult → Type 0
  Leads users plans =
      All Changes plans
      × ((d : Dict (String × String))
          → Between d
          → All (λ user. follow plans d user ≡ next user) users)

  keep-Leads :
      (user : String) (users : List String) (plans : List PlanResult)
      → same_pair (cur user) (next user) ≡ true
      → Leads users plans
      → Leads (user ∷ users) plans
  unfolding Leads
  keep-Leads user users plans e h = (
    h.0,
    λ d between. (
      follow-next plans d user h.0 (elim (between user) [
        | inl f ↦ f ∙ same_pair_sound (cur user) (next user) e
        | inr f ↦ f
      ]),
      h.1 d between,
    ),
  )

  move-Leads :
      (user : String) (pair : String × String) (users : List String) (plans : List PlanResult)
      → same_pair (cur user) (next user) ≡ false
      → next user ≡ some pair
      → Leads users plans
      → Leads (user ∷ users) (plan_to user pair ∷ plans)
  unfolding Leads
  move-Leads user pair users plans e f h = (
    ((f, e), h.0),
    λ d between. (
      follow-next plans (put d user pair) user h.0 (rw (eq_refl user) (sym f)),
      h.1 (put d user pair) (put-Between d user pair f between),
    ),
  )

  differences-Leads :
      (users : List String)
      → All Stays users
      → (plans : List PlanResult) × (differences cur next users ≡ return plans) × Leads users plans
  unfolding differences Leads
  differences-Leads [] h = ([], refl, (tt, λ d between. tt))
  differences-Leads (user ∷ rest) h =
      let (plans, e, leads) = differences-Leads rest h.1 in
      elim (Bool-cases (same_pair (cur user) (next user))) [
        | inl f ↦ (plans, rw f e, keep-Leads user rest plans f leads)
        | inr f ↦ elim (Option-cases (next user)) [
          | inl g ↦ absurd (missing (cur user) (next user) f g h.0)
          | inr (pair, g) ↦ (
            plan_to user pair ∷ plans,
            rw (f, g, e) refl,
            move-Leads user pair rest plans f g leads,
          )
        ]
      ]

-- If no user who is assigned is without a next assignment, then diff_assign returns plans: each
-- leads a user to its next assignment, which is not its current one, and from the current
-- assignment they take each of the users to its next one.
pub diff_assign-leads :
    {Value : Type 0} (is_zero : Value → Bool) (users : List String)
    (cur_assign next_assign : List (Variable Value))
    → All (Stays (assigned is_zero cur_assign empty) (assigned is_zero next_assign empty)) users
    → (plans : List PlanResult) × (diff_assign is_zero users cur_assign next_assign ≡ return plans)
      × All (Changes (assigned is_zero cur_assign empty) (assigned is_zero next_assign empty)) plans
      × All
          (λ user.
            follow plans (assigned is_zero cur_assign empty) user
            ≡ assigned is_zero next_assign empty user)
          users
unfolding diff_assign Leads
diff_assign-leads is_zero users cur_assign next_assign h =
    let cur = assigned is_zero cur_assign empty in
    let (plans, e, (changes, reach)) =
      differences-Leads cur (assigned is_zero next_assign empty) users h in
    (plans, e, changes, reach cur (λ user. inl refl))
