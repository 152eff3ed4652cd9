-- ===== src/Service/Register.antt =====
-- task-service.ts, `registerRunner` up to its look into the store: the tests of the request's body.
use task_hub.Shared.{Option, List, String}
use task_hub.Types.{TaskType, OsPlatform, Result, ok}
use task_hub.Types.Json.{
  Value, get, is_object, as_string, as_nonempty, as_nonblank, as_array_of, optional,
}
use task_hub.Types.Names.{as_task_type, as_platform}
use task_hub.Service.Submit.{◌>>=◌, ◌>>◌, require, narrow}

pub record Registration : Type 0 where
  pub runner_id : Option String
  pub name : Option String
  pub credential : String
  pub platform : OsPlatform
  pub labels : List String
  pub task_types : List TaskType
  pub capabilities : List String

unfoldable pub validate_registration : Value → Result Registration
validate_registration input = do
  require (is_object input) "invalid runner registration"
  credential ← narrow (as_nonempty (get "credential" input)) "runner credential is required"
  runner_id ← narrow (optional as_nonblank (get "runnerId" input)) "invalid runnerId"
  name ← narrow (optional as_string (get "name" input)) "invalid runner name"
  platform ← narrow (as_platform (get "platform" input)) "invalid runner platform"
  labels ← narrow (as_array_of as_string (get "labels" input)) "invalid runner capabilities"
  task_types ←
      narrow (as_array_of as_task_type (get "taskTypes" input)) "invalid runner capabilities"
  capabilities ←
      narrow (as_array_of as_string (get "capabilities" input)) "invalid runner capabilities"
  ok (record {
    runner_id = runner_id;
    name = name;
    credential = credential;
    platform = platform;
    labels = labels;
    task_types = task_types;
    capabilities = capabilities;
  })
