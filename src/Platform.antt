-- ===== src/Platform.antt =====
-- What the worker takes from its runtime: the digests of Web Crypto, JSON, base64, the text of a
-- date, the reading of a URL and the collation of texts. They are parameters of the model.
use task_hub.Shared.{ℕ, Bool, Option, List, String}
use task_hub.Types.{Instant}
use task_hub.Types.Json.{Value}

pub record Platform : Type 0 where
  -- `crypto.subtle.digest("SHA-256", ...)` of a text's UTF-8 bytes.
  pub sha256 : String → List ℕ
  -- `crypto.subtle.sign("HMAC", ...)` under a secret.
  pub hmac_sha256 : String → String → List ℕ
  -- `JSON.stringify`, and `JSON.parse`, `none` where it throws.
  pub stringify : Value → String
  pub parse_json : String → Option Value
  -- `btoa` and `atob`, `none` where they throw: `btoa` does on a character past U+00FF.
  pub btoa : String → Option String
  pub atob : String → Option String
  -- `new Date(instant).toISOString()`, and `new Date(text).getTime()`, `none` for NaN.
  pub to_iso : Instant → String
  pub parse_date : String → Option Instant
  -- `new URL(text).protocol`, `none` where the constructor throws.
  pub url_protocol : String → Option String
  -- `a.localeCompare(b) <= 0`
  pub locale_le : String → String → Bool
  -- `decodeURIComponent`, `none` where it throws.
  pub decode_uri_component : String → Option String
