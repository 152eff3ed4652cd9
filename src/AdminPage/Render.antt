-- ===== src/AdminPage/Render.antt =====
-- What the administration page draws of its state (`renderRunners`, `renderRunnerFilter`,
-- `renderTasks` and `setConnection` of `src/worker/admin-page.ts`).
use task_hub.Shared.{Bool, some, List, ◌∷◌, String, map, any, length, ◌==◌, if◌then◌else◌}
use task_hub.Shared.Text.{is_empty}
use task_hub.Types.{RunnerView, TaskRecord}
use task_hub.Types.Names.{type_name, status_name, platform_name, runner_status_name}
use task_hub.AdminPage.View.{Browser, RunnerItem, TaskLine, badge_text, format_time}
use task_hub.AdminPage.State.{State, Tab, with_document}

-- `set.has(value)`
abbrev pub has : String → List String → Bool
has value = any (λ s. s == value)

-- Whether a runner is online, once the presence is known; the status it came with before.
unfoldable pub runner_status : State → RunnerView → String
runner_status state runner =
    if state.presence_loaded
    then if has runner.runner_id state.online_runner_ids then "online" else "offline"
    else runner_status_name runner.status

unfoldable pub runner_item : State → RunnerView → RunnerItem
unfolding runner_status badge_text
runner_item state runner = record {
  name = runner.name;
  runner_id = runner.runner_id;
  status = runner_status state runner;
  badges =
      badge_text (runner_status state runner)
      ∷ badge_text (platform_name runner.platform)
      ∷ map (λ type. badge_text (type_name type)) runner.task_types;
  is_selected = runner.runner_id == state.selected_runner_id;
}

unfoldable pub render_runners : Tab → Tab
unfolding runner_item
render_runners tab =
    let s = tab.state in
    with_document
      (record tab.document {
        runner_count = length s.runners;
        selfcheck_disabled = is_empty s.selected_runner_id;
        runner_list = map (runner_item s) s.runners;
      })
      tab

abbrev pub filter_option : RunnerView → String × String
filter_option runner = (runner.name, runner.runner_id)

-- `select.value = value`: no option is chosen if none has the value.
abbrev pub chosen : String → List (String × String) → String
chosen value options = if any (λ o. o.1 == value) options then value else ""

unfoldable pub render_runner_filter : Tab → Tab
render_runner_filter tab =
    let s = tab.state in
    let options : List (String × String) = ("All runners", "") ∷ map filter_option s.runners in
    with_document
      (record tab.document {
        filter_options = options;
        runner_filter = chosen s.selected_runner_id options;
      })
      tab

-- `document.getElementById("runner-filter").value = state.selectedRunnerId`
abbrev pub choose_runner : Tab → Tab
choose_runner tab =
    let d = tab.document in
    with_document
      (record d { runner_filter = chosen tab.state.selected_runner_id d.filter_options }) tab

module _ (browser : Browser) where
  unfoldable pub task_line : State → TaskRecord → TaskLine
  unfolding badge_text
  task_line state task = record {
    name = task.name;
    task_id = task.task_id;
    type = type_name task.type;
    badge = badge_text (status_name task.status);
    time = format_time browser (some task.updated_at);
    is_selected = task.task_id == state.selected_task_id;
  }

  unfoldable pub render_tasks : Tab → Tab
  unfolding task_line
  render_tasks tab =
      let s = tab.state in
      with_document
        (record tab.document { task_count = length s.tasks; task_rows = map (task_line s) s.tasks })
        tab

abbrev pub set_connection : Bool → String → Tab → Tab
set_connection connected label tab =
    with_document (record tab.document { is_connected = connected; connection_label = label }) tab

-- The banner over the tasks, with its text.
abbrev pub show_task_error : String → Tab → Tab
show_task_error message tab = with_document (record tab.document { task_error = some message }) tab
