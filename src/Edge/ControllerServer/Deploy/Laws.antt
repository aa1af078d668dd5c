-- ===== src/Edge/ControllerServer/Deploy/Laws.antt =====
-- What a deployment leaves behind (edge_controller.py).
use mec_measurements.Prelude.{
  ℕ, String, Bool, true, false, Option, none, some, [], ◌∷◌, ◌++◌, ◌≡◌, refl, ◌⊎◌, inl, inr,
  or_else, arith, eq_refl, Option-cases,
}
use mec_measurements.Effects.{return, raise, key_error}
use mec_measurements.Edge.MigrateNode.{MigrateNode, get_container_name, init}
use mec_measurements.Edge.EdgeServices.{get_service}
use mec_measurements.Edge.EdgeServices.Laws.{get_service-add_service}
use mec_measurements.Edge.ControllerServer.State.{
  Docker, DeployJson, allocated, subscribes, ControllerServer, send, report_services,
}
use mec_measurements.Edge.ControllerServer.Deploy.{
  new_service, run_container, remove_container, find_or_run, start_edge_service, process_deploy,
}

module _ {d : Docker} where
  open d use {status, status-remove, status-run, run, lists}

  -- What a deployment does for a service: if it gives one, the container runs, and a lookup finds
  -- what was registered before, and else the one that it gives.
  pub record Runs (service n : MigrateNode) (s s' : ControllerServer d) : Type 0 where
    pub running : status s'.containers (get_container_name service) ≡ some true
    pub registered :
        get_service s'.edge_services service.end_user service.service_name
        ≡ or_else (get_service s.edge_services service.end_user service.service_name) (some n)

  run_container-Runs :
      (service n : MigrateNode) (s s' : ControllerServer d)
      → run_container service s ≡ (some n, s')
      → Runs service n s s'
  unfolding run_container get_container_name
  run_container-Runs service n s s' h =
      elim (Option-cases (
        run s.containers service.container_img (get_container_name service) service.container_port
          service.port)) [
            | inl e ↦ absurd (ground arith)
            | inr (cs, e) ↦ record {
              running = ground (
                arith,
                status-run s.containers cs service.container_img (get_container_name service)
                    service.container_port service.port (get_container_name service) e,
                eq_refl (get_container_name service),
              );
              registered = ground (
                arith,
                get_service-add_service s.edge_services service service.end_user
                    service.service_name,
                eq_refl service.end_user,
                eq_refl service.service_name,
              );
            }
          ]

  find_or_run-Runs :
      (service n : MigrateNode) (s s' : ControllerServer d)
      → find_or_run service s ≡ (some n, s')
      → Runs service n s s'
  unfolding find_or_run remove_container
  find_or_run-Runs service n s s' h =
      elim (Option-cases (status s.containers (get_container_name service))) [
        | inl e ↦ run_container-Runs service n s s' (rw (find_or_run, e) at h)
        | inr (false, e) ↦
            let r =
              run_container-Runs service n (remove_container (get_container_name service) s) s'
                (rw (find_or_run, e) at h) in
            record { running = r.running; registered = r.registered }
        | inr (true, e) ↦
            elim (Option-cases
              (get_service s.edge_services service.end_user service.service_name)) [
                | inl f ↦
                    let r =
                      run_container-Runs service n (remove_container (get_container_name service) s)
                        s' (rw (find_or_run, e, f) at h) in
                    record { running = r.running; registered = r.registered }
                | inr (found, f) ↦ record { running = ground (arith); registered = ground arith }
              ]
      ]

  -- What is sent on the way: nothing, or the subscription to the user's reports.
  abbrev pub Subscribes : String → ControllerServer d → ControllerServer d → Type 0
  Subscribes user s s' = (s'.sent ≡ s.sent) ⊎ (s'.sent ≡ s.sent ++ subscribes user ∷ [])

  run_container-Subscribes :
      (service : MigrateNode) (s : ControllerServer d)
      → Subscribes service.end_user s (run_container service s).1
  unfolding run_container
  run_container-Subscribes service s =
      elim (Option-cases (
        run s.containers service.container_img (get_container_name service) service.container_port
          service.port)) [
            | inl e ↦ inl (rw (run_container, e) refl)
            | inr (cs, e) ↦ inr (rw (run_container, e) refl)
          ]

  find_or_run-Subscribes :
      (service : MigrateNode) (s : ControllerServer d)
      → Subscribes service.end_user s (find_or_run service s).1
  unfolding find_or_run remove_container
  find_or_run-Subscribes service s =
      let removed : ControllerServer d = remove_container (get_container_name service) s in
      elim (Option-cases (status s.containers (get_container_name service))) [
        | inl e ↦ rw (find_or_run, e) (run_container-Subscribes service s)
        | inr (false, e) ↦ rw (find_or_run, e) (run_container-Subscribes service removed)
        | inr (true, e) ↦
            elim (Option-cases
              (get_service s.edge_services service.end_user service.service_name)) [
                | inl f ↦ rw (find_or_run, e, f) (run_container-Subscribes service removed)
                | inr (found, f) ↦ inl (rw (find_or_run, e, f) refl)
              ]
      ]

  -- What an answer to a deployment promises: a description that is given is of a service that runs.
  abbrev pub Answers :
      MigrateNode → Option MigrateNode → ControllerServer d → ControllerServer d → Type 0
  Answers service none s s' = Unit
  Answers service (some n) s s' = Runs service n s s'

  find_or_run-Answers :
      (service : MigrateNode) (s s' : ControllerServer d) (answer : Option MigrateNode)
      → find_or_run service s ≡ (answer, s')
      → Answers service answer s s'
  find_or_run-Answers service s s' none h = tt
  find_or_run-Answers service s s' (some n) h = find_or_run-Runs service n s s' h

  -- What is sent and reported afterwards changes nothing in it.
  Answers-report :
      (service : MigrateNode) (s s' : ControllerServer d) (user : String)
      (answer : Option MigrateNode)
      → Answers service answer s s'
      → Answers service answer s (send (allocated user answer) (report_services s'))
  Answers-report service s s' user none h = tt
  Answers-report service s s' user (some n) h = record {
    running = h.running;
    registered = h.registered;
  }

  module _ (binds : ℕ → Bool) (json : DeployJson) (s : ControllerServer d) where
    -- A deployment whose request has a BSSID and a method is answered once: the last message is the
    -- allocation for the user, after at most the subscription to the user's reports. If the answer
    -- has a description, the container of the service runs, and a lookup of the service finds what
    -- was registered before, and else that description.
    pub process_deploy-Answers :
        (bssid migrate_method : String)
        → json.bssid ≡ some bssid
        → json.migrate_method ≡ some migrate_method
        → (answer : Option MigrateNode) × (between after : ControllerServer d) × (process_deploy
              binds json s
            ≡ (return tt, after))
          × Subscribes json.end_user s between
          × (after.sent ≡ between.sent ++ allocated json.end_user answer ∷ [])
          × Answers (new_service s.server_info binds json bssid migrate_method) answer s after
    unfolding process_deploy start_edge_service new_service init
    process_deploy-Answers bssid migrate_method e f =
        let service = new_service s.server_info binds json bssid migrate_method in
        let answer = (find_or_run service s).0 in
        let between = (find_or_run service s).1 in
        (
          answer,
          between,
          send (allocated json.end_user answer) (report_services between),
          rw (e, f) refl,
          find_or_run-Subscribes service s,
          refl,
          Answers-report service s between json.end_user answer
              (find_or_run-Answers service s between answer refl),
        )

    -- A request without a BSSID or without a method raises a key error and changes nothing.
    pub process_deploy_incomplete :
        (json.bssid ≡ none) ⊎ (json.migrate_method ≡ none)
        → process_deploy binds json s ≡ (raise key_error, s)
    unfolding process_deploy start_edge_service
    process_deploy_incomplete h = ground arith
