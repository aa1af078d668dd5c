-- ===== src/Planner/Signals.antt =====
-- What the look-ups of stats_edge.py and central_database.py say of the signals of a user: which is
-- the strongest, and whether that of the user's base station is weak.
use mec_measurements.Prelude.{
  String, Bool, true, false, none, some, List, [], ◌∷◌, ◌≡◌, refl, ◌==◌, ◌⊎◌, inl, inr, find, All,
  Among, List-cases, if◌then◌else◌, arith, Bool-cases, Option-cases,
}
use mec_measurements.Platform.{Platform}
use mec_measurements.Effects.{return}
use mec_measurements.Database.Estimate.Laws.{IsOrdered}
use mec_measurements.Database.Rows.{EndUserInfo, BtsInfo, DbCentral}
use mec_measurements.Database.Queries.{bts_info_of}
use mec_measurements.Planner.Stats.{
  RssiMonitor, strongest, rssi_threshold, get_current_bts, query_newest_rssi_bts, get_max_rssi_bts,
  get_max_rssi_threshold_bts,
}

behind : {A : Type 0} (x y z : A) (ys : List A) → Among x (y ∷ ys) → Among x (y ∷ z ∷ ys)
behind x y z ys (inl e) = inl e
behind x y z ys (inr h) = inr (inr h)

if-elim :
    {A : Type 0} (P : A → Type 0) (b : Bool) (x y : A)
    → (b ≡ true → P x)
    → (b ≡ false → P y)
    → P (if b then x else y)
if-elim P true x y h k = h refl
if-elim P false x y h k = k refl

module _ ⦃p : Platform⦄ (order : IsOrdered) where
  open p use {of_ℕ, minus, lt, first}

  -- One of the signals, and none of them is stronger.
  abbrev pub IsStrongest : List RssiMonitor → RssiMonitor → Type 0
  IsStrongest signals best = Among best signals × All (λ r. lt best.rssi r.rssi ≡ false) signals

  strongest-IsStrongest :
      (best : RssiMonitor) (rest : List RssiMonitor)
      → IsStrongest (best ∷ rest) (strongest best rest)
  strongest-IsStrongest best [] = (inl refl, (order.lt_irrefl best.rssi, tt))
  strongest-IsStrongest best (r ∷ rest) =
      let (among, (first, others)) = strongest-IsStrongest r rest in
      let (same_among, (same_first, same_others)) = strongest-IsStrongest best rest in
      if-elim (IsStrongest (best ∷ r ∷ rest)) (lt best.rssi r.rssi) (strongest r rest)
        (strongest best rest)
        (λ e. (
          inr among,
          (
            order.le_trans best.rssi r.rssi (strongest r rest).rssi
                (order.lt_asymm best.rssi r.rssi e) first,
            (first, others),
          ),
        ))
        (λ e. (
          behind (strongest best rest) best r rest same_among,
          (
            same_first,
            (order.le_trans r.rssi best.rssi (strongest best rest).rssi e same_first, same_others),
          ),
        ))

  module _ (query_neighbor : DbCentral → String → List RssiMonitor) (db : DbCentral)
      (user : String) where
    -- The base station is that of the strongest of the user's signals.
    abbrev pub IsHeardBest : BtsInfo → Type 0
    IsHeardBest best =
        (signal : RssiMonitor) × IsStrongest (query_neighbor db user) signal
        × (first db.btss signal.bts ≡ some best)

    pub get_max_rssi_bts-IsHeardBest :
        (best : BtsInfo) → get_max_rssi_bts query_neighbor db user ≡ some best → IsHeardBest best
    unfolding get_max_rssi_bts
    get_max_rssi_bts-IsHeardBest best h = elim (List-cases (query_neighbor db user)) [
      | inl e ↦ absurd (ground arith)
      | inr (r, rest, e) ↦
          (strongest r rest, rw e (strongest-IsStrongest r rest), (rw (get_max_rssi_bts, e) at h))
    ]

    -- The user's base station is stored, and no signal of it was recorded or one below -76 dBm.
    pub record IsWeak : Type 0 where
      pub row : EndUserInfo
      pub cur_bts : BtsInfo
      pub is_user : first db.users user ≡ some row
      pub is_bts : first db.btss row.bts ≡ some cur_bts
      pub is_weak :
          (find (λ (r : RssiMonitor). r.bts == cur_bts.name) (query_neighbor db user) ≡ none)
          ⊎ ((signal : RssiMonitor) × (find
                  (λ (r : RssiMonitor). r.bts == cur_bts.name)
                  (query_neighbor db user)
                ≡ some signal)
              × (lt signal.rssi (minus (of_ℕ 0) (of_ℕ 76)) ≡ true))

    pub get_max_rssi_threshold_bts-IsWeak :
        (best : BtsInfo)
        → get_max_rssi_threshold_bts query_neighbor db user ≡ return (some best)
        → IsWeak × IsHeardBest best
    unfolding get_max_rssi_threshold_bts get_current_bts bts_info_of query_newest_rssi_bts
    get_max_rssi_threshold_bts-IsWeak best h = elim (Option-cases (first db.users user)) [
      | inl e ↦ absurd (ground arith)
      | inr (row, e) ↦ elim (Option-cases (first db.btss row.bts)) [
        | inl f ↦ absurd (ground arith)
        | inr (cur_bts, f) ↦
            elim (Option-cases
              (find (λ (r : RssiMonitor). r.bts == cur_bts.name) (query_neighbor db user))) [
                | inl g ↦ (
                  record { row = row; cur_bts = cur_bts; is_user = e; is_bts = f; is_weak = inl g },
                  get_max_rssi_bts-IsHeardBest best (ground arith),
                )
                | inr (signal, g) ↦ elim (Bool-cases (lt signal.rssi rssi_threshold)) [
                  | inl weak ↦ (
                    record {
                      row = row;
                      cur_bts = cur_bts;
                      is_user = e;
                      is_bts = f;
                      is_weak = inr (signal, g, weak);
                    },
                    get_max_rssi_bts-IsHeardBest best (ground arith),
                  )
                  | inr loud ↦ absurd (ground arith)
                ]
              ]
      ]
    ]
