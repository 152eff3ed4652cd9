-- ===== src/Tests.antt =====
-- A platform to run the model on, a scenario, and the theorems at concrete inputs.
mod Scenario
mod Witnesses
mod HubWitnesses
mod ListingWitnesses
mod TicketWitnesses
mod WorkerWitnesses
mod ReportWitnesses
mod DatabaseWitnesses
mod AdminPageWitnesses
use task_hub.Shared.{ℕ, Bool, not, Option, none, some, List, String, ◌==◌, if◌then◌else◌}
use task_hub.Shared.Text.{code_units, text_lt}
use task_hub.Types.Json.{Value, obj, no_fields, field, str}
use task_hub.Platform.{Platform}

-- Digests that are easy to compute with: the code units of the text.
abbrev pub cursor_value : Value
cursor_value = obj (field "runnerId" (str "r1") no_fields)

abbrev pub toy : Platform
toy = record {
  sha256 = code_units;
  hmac_sha256 = λ secret text. code_units text;
  stringify = λ value. "{}";
  parse_json = λ text. some cursor_value;
  btoa = λ text. some text;
  atob = λ text. some text;
  to_iso = λ instant. "now";
  parse_date = λ text. none;
  url_protocol = λ url. if url == "https://a.example/hook" then some "https:" else none;
  locale_le = λ a b. not (text_lt b a);
  decode_uri_component = λ text. some text;
}
