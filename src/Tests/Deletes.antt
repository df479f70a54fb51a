-- ===== src/Tests/Deletes.antt =====
-- The theorems about the deletion of an Incident and the answers of Observe, at inputs.
use incident_controller.Prelude.{All, ◌≡◌, refl, none, some, List, [], ◌∷◌, bytes}
use incident_controller.Api.Incident.{Script}
use incident_controller.Api.Pod.{Pod, ConfigMap}
use incident_controller.Server.{Server, found, not_found, ok, delete_pod, delete_config_map}
use incident_controller.CheckPod.Names.{selector}
use incident_controller.CheckPod.Sandbox.{check_config_map}
use incident_controller.Incident.LastRuns.{new_last_runs}
use incident_controller.Incident.Observe.{observe, list_objects}
use incident_controller.Incident.Update.{delete}
use incident_controller.Incident.Alone.{Gone}
use incident_controller.Incident.Deleted.{GoneMap, delete-Gone, Answers, observe-Answers}
use incident_controller.Tests.Library.{platform, server}
use incident_controller.Tests.Objects.{cfg, at_second, verifying, running, check_pods}

abbrev script_map : ConfigMap
script_map = check_config_map check_pods verifying running Script.verify

-- A server with a pod that is gone before it is deleted, and a ConfigMap.
abbrev filled : Server
filled = record server {
  list_pods = λ h namespace labels. found (running ∷ []);
  list_config_maps = λ h namespace labels. found (script_map ∷ []);
  write = λ h c. elim h [ [] ↦ some not_found | _ ↦ none ];
}

deletes :
    delete ⦃srv = filled⦄ (bytes "checks") verifying []
    ≡ (ok tt, delete_config_map script_map ∷ delete_pod running ∷ [])
unfolding delete list_objects
deletes = refl

delete-Gone_example :
    (pods : List Pod) × (cms : List ConfigMap) × (filled.list_pods []
        (bytes "checks")
        (selector verifying)
      ≡ found pods)
    × (filled.list_config_maps [] (bytes "checks") (selector verifying) ≡ found cms)
    × All (Gone ⦃srv = filled⦄) pods
    × All (GoneMap ⦃srv = filled⦄) cms
delete-Gone_example =
    delete-Gone ⦃srv = filled⦄ (bytes "checks") verifying
      (delete_config_map script_map ∷ delete_pod running ∷ []) deletes

observe-Answers_example :
    ((observe ⦃srv = filled⦄ cfg (bytes "checks") (at_second 9) verifying new_last_runs []).1 ≡ [])
    × Answers ⦃srv = filled⦄ cfg
        (bytes "checks")
        (at_second 9)
        verifying
        new_last_runs
        []
        check_pods
        (filled.list_pods [] (bytes "checks") (selector verifying))
        (filled.list_config_maps [] (bytes "checks") (selector verifying))
        (observe ⦃srv = filled⦄ cfg (bytes "checks") (at_second 9) verifying new_last_runs []).0
observe-Answers_example =
    observe-Answers ⦃srv = filled⦄ cfg (bytes "checks") (at_second 9) verifying new_last_runs []
      check_pods
