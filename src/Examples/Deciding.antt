-- ===== src/Examples/Deciding.antt =====
-- The theorems on data rates and on the differences of two assignments, applied: signals as numbers
-- of dBm above -200, and a user who moves while another stays.
use mec_measurements.Prelude.{
  ℕ, ◌-◌, ◌≤◌, String, Bool, true, List, [], ◌∷◌, ◌≡◌, refl, ltb, eqb, All, arith,
}
use mec_measurements.Prelude.Dict.{empty}
use mec_measurements.Effects.{return}
use mec_measurements.Controller.State.{PlanResult}
use mec_measurements.Planner.DataRate.{
  wifi_rssi_to_bw, datarate_model, wifi_rssi_to_bw-datarate_model, wifi_rssi_to_bw-monotone,
}
use mec_measurements.Planner.Differences.{
  Variable, assigned, diff_assign, follow, Changes, diff_assign-leads,
}

abbrev dbm_below_zero : ℕ → ℕ
dbm_below_zero n = 200 - n

ltb_trans : (a b c : ℕ) → ltb a b ≡ true → ltb b c ≡ true → ltb a c ≡ true
ltb_trans a b c h k = ground arith

-- A signal of -70 dBm has 60 Mbit/s.
rate_at_70 : wifi_rssi_to_bw ltb dbm_below_zero 130 ≡ 6000000
unfolding wifi_rssi_to_bw
rate_at_70 = refl

wifi_rssi_to_bw-datarate_model_example :
    wifi_rssi_to_bw ltb dbm_below_zero 130 ≡ datarate_model ltb dbm_below_zero 130
wifi_rssi_to_bw-datarate_model_example = wifi_rssi_to_bw-datarate_model ltb dbm_below_zero 130

wifi_rssi_to_bw-monotone_example :
    (wifi_rssi_to_bw ltb dbm_below_zero 118 ≤ wifi_rssi_to_bw ltb dbm_below_zero 130)
    × (1 ≤ wifi_rssi_to_bw ltb dbm_below_zero 118)
    × (wifi_rssi_to_bw ltb dbm_below_zero 130 ≤ 15000000)
wifi_rssi_to_bw-monotone_example =
    wifi_rssi_to_bw-monotone ltb dbm_below_zero ltb_trans 118 130 refl

abbrev is_zero : ℕ → Bool
is_zero n = eqb n 0

abbrev two_users : List String
two_users = "u1" ∷ "u2" ∷ []

abbrev at_edge01 : List (Variable ℕ)
at_edge01 =
    (("u1", "edge01", "bts01"), 1)
    ∷ (("u1", "edge02", "bts02"), 0)
    ∷ (("u2", "edge01", "bts01"), 1)
    ∷ []

abbrev at_edge02 : List (Variable ℕ)
at_edge02 =
    (("u1", "edge01", "bts01"), 0)
    ∷ (("u1", "edge02", "bts02"), 1)
    ∷ (("u2", "edge01", "bts01"), 1)
    ∷ []

one_moves :
    diff_assign is_zero two_users at_edge01 at_edge02
    ≡ return (record { user = "u1"; next_bts = "bts02"; next_server = "edge02" } ∷ [])
unfolding diff_assign
one_moves = refl

diff_assign-leads_example :
    (plans : List PlanResult) × (diff_assign is_zero two_users at_edge01 at_edge02 ≡ return plans)
    × All (Changes (assigned is_zero at_edge01 empty) (assigned is_zero at_edge02 empty)) plans
    × All
        (λ user.
          follow plans (assigned is_zero at_edge01 empty) user
          ≡ assigned is_zero at_edge02 empty user)
        two_users
unfolding assigned
diff_assign-leads_example =
    diff_assign-leads is_zero two_users at_edge01 at_edge02 (refl, (refl, tt))
