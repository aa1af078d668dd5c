-- ===== src/Database/Containers/Laws.antt =====
-- The estimates that a container's report leaves (update_container_monitor of central_database.py).
use mathlib.Core.Option
use mec_measurements.Prelude.{
  String, false, Option, some, List, [], ◌∷◌, ◌≡◌, refl, ◌∙◌, ap, ◌==◌, if◌then◌else◌, arith,
  eq_refl, All, All-mono, Option-cases, Bool-cases, inl, inr, sym,
}
use mec_measurements.Prelude.Dict.{put}
use mec_measurements.Platform.{Platform, Real}
use mec_measurements.Effects.{Result, return, Result-cases}
use mec_measurements.Database.Estimate.{
  EstimateTime, get_est_pre_mig_time, get_est_mig_time, update_time,
}
use mec_measurements.Database.Estimate.Laws.{get_est-update_time}
use mec_measurements.Database.Rows.{EdgeServerInfo, DbCentral}
use mec_measurements.Database.History.{query_bw, recent, between}
use mec_measurements.Database.Containers.{Sizes, estimate_to, estimate_all}

module _ ⦃p : Platform⦄ (user from : String) (t : Real) (s : Sizes) where
  -- The two stored estimates of the user's migration to a server.
  abbrev pub stored : DbCentral → String → Option (Option Real × Option Real)
  stored db name =
      Option.map
        (λ (e : EstimateTime). (get_est_pre_mig_time e from name, get_est_mig_time e from name))
        (db.est_time_users user)

  -- The server's name is neither the one that the service is at nor that of another server.
  abbrev pub Apart : List EdgeServerInfo → Type 0
  Apart [] = Unit
  Apart (e ∷ rest) =
      ((from == e.name) ≡ false)
      × All (λ (r : EdgeServerInfo). (r.name == e.name) ≡ false) rest
      × Apart rest

  -- What a completed round of estimates says of a server.
  pub record IsEstimated (db db' : DbCentral) (e : EdgeServerInfo) : Type 0 where
    pub pre_mig : Real
    pub mig : Real
    pub computed : estimate_to db from t s e ≡ return (pre_mig, mig)
    pub looked_up : stored db' e.name ≡ some (some pre_mig, some mig)

  -- One server of the round.
  record Stored (db db' : DbCentral) (e : EdgeServerInfo) (rest : List EdgeServerInfo)
      : Type 0 where
    pre_mig : Real
    mig : Real
    est : EstimateTime
    computed : estimate_to db from t s e ≡ return (pre_mig, mig)
    found : db.est_time_users user ≡ some est
    continues :
        estimate_all user from t s rest (record db {
          est_time_users = put db.est_time_users user (update_time est from e.name pre_mig mig);
        })
        ≡ (return tt, db')

  estimate_all-Stored :
      (e : EdgeServerInfo) (rest : List EdgeServerInfo) (db db' : DbCentral)
      → estimate_all user from t s (e ∷ rest) db ≡ (return tt, db')
      → Stored db db' e rest
  unfolding estimate_all
  estimate_all-Stored e rest db db' h = elim (Result-cases (estimate_to db from t s e)) [
    | inr (err, f) ↦ absurd (let bad = rw f at h in ground (arith, bad))
    | inl ((pre, mig), f) ↦ elim (Option-cases (db.est_time_users user)) [
      | inl g ↦ absurd (let bad = rw (f, g) at h in ground (arith, bad))
      | inr (est, g) ↦ record {
        pre_mig = pre;
        mig = mig;
        est = est;
        computed = f;
        found = g;
        continues = rw (f, g) at h;
      }
    ]
  ]

  abbrev next : EstimateTime → String → Real → Real → DbCentral → DbCentral
  next est name pre mig db = record db {
    est_time_users = put db.est_time_users user (update_time est from name pre mig);
  }

  stored-next :
      (est : EstimateTime) (name : String) (pre mig : Real) (db : DbCentral) (other : String)
      → db.est_time_users user ≡ some est
      → (from == other) ≡ false
      → stored (next est name pre mig db) other
        ≡ (if name == other then some (some pre, some mig) else stored db other)
  stored-next est name pre mig db other found apart =
      let g = get_est-update_time est from name pre mig from other in
      elim (Bool-cases (name == other)) [
        | inl e ↦ rw (eq_refl user, e, g.0, g.1, apart, eq_refl from, e) refl
        | inr e ↦ rw (eq_refl user, e, found, g.0, g.1, apart, eq_refl from, e) refl
      ]

  estimate_all-keeps :
      (rest : List EdgeServerInfo) (db db' : DbCentral) (name : String)
      → estimate_all user from t s rest db ≡ (return tt, db')
      → (from == name) ≡ false
      → All (λ (r : EdgeServerInfo). (r.name == name) ≡ false) rest
      → stored db' name ≡ stored db name
  unfolding estimate_all
  estimate_all-keeps [] db db' name h apart others =
      let same : db ≡ db' = ap (λ (r : Result (Unit {0}) × DbCentral). r.1) h in
      ap (λ d. stored d name) (sym same)
  estimate_all-keeps (e ∷ rest) db db' name h apart others =
      let k = estimate_all-Stored e rest db db' h in
      estimate_all-keeps rest (next k.est e.name k.pre_mig k.mig db) db' name k.continues apart
        others.1
      ∙ stored-next k.est e.name k.pre_mig k.mig db name k.found apart
      ∙ rw others.0 refl

  -- A round of estimates that ends without an exception leaves for each of the other servers the
  -- two times that are computed for it from the bandwidths of the start, if the servers have
  -- different names.
  pub estimate_all-IsEstimated :
      (servers : List EdgeServerInfo) (db db' : DbCentral)
      → Apart servers
      → estimate_all user from t s servers db ≡ (return tt, db')
      → All (IsEstimated db db') servers
  unfolding estimate_to query_bw recent between
  estimate_all-IsEstimated [] db db' apart h = tt
  estimate_all-IsEstimated (e ∷ rest) db db' apart h =
      let k = estimate_all-Stored e rest db db' h in
      (
        record {
          pre_mig = k.pre_mig;
          mig = k.mig;
          computed = k.computed;
          looked_up =
              estimate_all-keeps rest (next k.est e.name k.pre_mig k.mig db) db' e.name k.continues
                apart.0 apart.1
              ∙ stored-next k.est e.name k.pre_mig k.mig db e.name k.found apart.0
              ∙ rw (eq_refl e.name) refl;
        },
        All-mono _ _
            (λ r q. record {
              pre_mig = q.pre_mig;
              mig = q.mig;
              computed = q.computed;
              looked_up = q.looked_up;
            })
            rest
            (estimate_all-IsEstimated rest (next k.est e.name k.pre_mig k.mig db) db' apart.2
              k.continues),
      )
