-- ===== src/Migration/Names.antt =====
-- The names of the folders of a service's checkpoints (migrate_node.py) and of the files in them:
-- Python's `in` for texts, and the endings that a transfer selects by.
use Prim.Native.String.{String, ◌++◌}
use text.Mathlib.Text.{starts_with}
use text.Mathlib.TextLemmas.{append_cancel_left, append-nil}
use mec_measurements.Prelude.{
  ◌≡◌, refl, Bool, true, false, ◌||◌, ◌==◌, inl, inr, Bool-cases, arith, eq_iff,
}
use mec_measurements.Edge.MigrateNode.{MigrateNode}

Bool_or_true : (b : Bool) → (b || true) ≡ true
Bool_or_true true = refl
Bool_or_true false = refl

-- part in text
unfoldable pub contains : String → String → Bool
contains part String.[] = starts_with String.[] part
contains part (String.◌∷◌ c s) = starts_with (String.◌∷◌ c s) part || contains part s

unfoldable pub ends_with : String → String → Bool
ends_with part String.[] = String.[] == part
ends_with part (String.◌∷◌ c s) = (String.◌∷◌ c s) == part || ends_with part s

-- get_snapshot_name_pre, the number being the text of it
unfoldable pub get_snapshot_name_pre : String → MigrateNode → String
get_snapshot_name_pre number n = n.snapshot ++ ("_pre" ++ number)

-- The last component of get_snapshot_delta(old, new) and of get_snapshot_delta().
unfoldable pub get_snapshot_delta_between : String → String → MigrateNode → String
get_snapshot_delta_between old new n = n.snapshot ++ ("_delta_" ++ (old ++ ("_" ++ new)))

unfoldable pub get_snapshot_delta : MigrateNode → String
get_snapshot_delta n = n.snapshot ++ "_delta"

contains-of_full : (s : String) → s ≡ ".tar.gz.img" → contains "tar.gz.img" s ≡ true
unfolding contains
contains-of_full s e = rw e refl

pub contains-of_ends :
    (s : String) → ends_with ".tar.gz.img" s ≡ true → contains "tar.gz.img" s ≡ true
unfolding contains ends_with
contains-of_ends String.[] h = cc
contains-of_ends (String.◌∷◌ c s) h = elim (Bool-cases (ends_with ".tar.gz.img" s)) [
  | inl e ↦ rw (contains-of_ends s e) (Bool_or_true (starts_with (String.◌∷◌ c s) "tar.gz.img"))
  | inr e ↦
      contains-of_full (String.◌∷◌ c s) (ground (arith, eq_iff (String.◌∷◌ c s) ".tar.gz.img"))
]

-- Two folders of one service have different names where their endings differ.
pub suffix-ne : (s t u : String) → (t == u) ≡ false → ((s ++ t) == (s ++ u)) ≡ false
suffix-ne s t u h = ground (arith, eq_iff (s ++ t) (s ++ u), eq_iff t u, append_cancel_left s t u)

suffix-ne_self : (s u : String) → (String.[] == u) ≡ false → (s == (s ++ u)) ≡ false
suffix-ne_self s u h = rw (append-nil s) at (suffix-ne s String.[] u h)

eqb_sym : (s u : String) → (s == u) ≡ false → (u == s) ≡ false
eqb_sym s u h = ground (arith, eq_iff s u, eq_iff u s)

-- The folders of one service have different names.
pub record Distinct (n : MigrateNode) : Type 0 where
  pub pre2-pre3 : (get_snapshot_name_pre "2" n == get_snapshot_name_pre "3" n) ≡ false
  pub pre3-pre2 : (get_snapshot_name_pre "3" n == get_snapshot_name_pre "2" n) ≡ false
  pub pre2-between : (get_snapshot_name_pre "2" n == get_snapshot_delta_between "2" "3" n) ≡ false
  pub between-pre2 : (get_snapshot_delta_between "2" "3" n == get_snapshot_name_pre "2" n) ≡ false
  pub pre3-between : (get_snapshot_name_pre "3" n == get_snapshot_delta_between "2" "3" n) ≡ false
  pub between-pre3 : (get_snapshot_delta_between "2" "3" n == get_snapshot_name_pre "3" n) ≡ false
  pub pre2-snapshot : (get_snapshot_name_pre "2" n == n.snapshot) ≡ false
  pub pre3-snapshot : (get_snapshot_name_pre "3" n == n.snapshot) ≡ false
  pub snapshot-pre3 : (n.snapshot == get_snapshot_name_pre "3" n) ≡ false
  pub between-snapshot : (get_snapshot_delta_between "2" "3" n == n.snapshot) ≡ false
  pub pre2-delta : (get_snapshot_name_pre "2" n == get_snapshot_delta n) ≡ false
  pub pre3-delta : (get_snapshot_name_pre "3" n == get_snapshot_delta n) ≡ false
  pub delta-pre3 : (get_snapshot_delta n == get_snapshot_name_pre "3" n) ≡ false
  pub between-delta : (get_snapshot_delta_between "2" "3" n == get_snapshot_delta n) ≡ false
  pub snapshot-delta : (n.snapshot == get_snapshot_delta n) ≡ false
  pub delta-snapshot : (get_snapshot_delta n == n.snapshot) ≡ false

pub names-Distinct : (n : MigrateNode) → Distinct n
unfolding get_snapshot_name_pre get_snapshot_delta_between get_snapshot_delta
names-Distinct n =
    let s : String = n.snapshot in
    let other =
      λ (u : String) (h : (String.[] == u) ≡ false). eqb_sym s (s ++ u) (suffix-ne_self s u h) in
    record {
      pre2-pre3 = suffix-ne s "_pre2" "_pre3" refl;
      pre3-pre2 = suffix-ne s "_pre3" "_pre2" refl;
      pre2-between = suffix-ne s "_pre2" "_delta_2_3" refl;
      between-pre2 = suffix-ne s "_delta_2_3" "_pre2" refl;
      pre3-between = suffix-ne s "_pre3" "_delta_2_3" refl;
      between-pre3 = suffix-ne s "_delta_2_3" "_pre3" refl;
      pre2-snapshot = other "_pre2" refl;
      pre3-snapshot = other "_pre3" refl;
      snapshot-pre3 = suffix-ne_self s "_pre3" refl;
      between-snapshot = other "_delta_2_3" refl;
      pre2-delta = suffix-ne s "_pre2" "_delta" refl;
      pre3-delta = suffix-ne s "_pre3" "_delta" refl;
      delta-pre3 = suffix-ne s "_delta" "_pre3" refl;
      between-delta = suffix-ne s "_delta_2_3" "_delta" refl;
      snapshot-delta = suffix-ne_self s "_delta" refl;
      delta-snapshot = other "_delta" refl;
    }

-- The folders that measure the pages which a service writes.
pub record Measured (n : MigrateNode) : Type 0 where
  pub pre2-pre1 : (get_snapshot_name_pre "2" n == get_snapshot_name_pre "1" n) ≡ false
  pub between-pre1 : (get_snapshot_delta_between "1" "2" n == get_snapshot_name_pre "1" n) ≡ false
  pub between-pre2 : (get_snapshot_delta_between "1" "2" n == get_snapshot_name_pre "2" n) ≡ false

pub names-Measured : (n : MigrateNode) → Measured n
unfolding get_snapshot_name_pre get_snapshot_delta_between
names-Measured n = record {
  pre2-pre1 = suffix-ne n.snapshot "_pre2" "_pre1" refl;
  between-pre1 = suffix-ne n.snapshot "_delta_1_2" "_pre1" refl;
  between-pre2 = suffix-ne n.snapshot "_delta_1_2" "_pre2" refl;
}
