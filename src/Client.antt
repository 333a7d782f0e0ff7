-- ===== src/Client.antt =====
-- frontend/src/api/client.ts: the requests of the dashboard and what it makes of the answers. The
-- browser's `fetch` is a parameter: for each request it is rejected (a refused connection or the
-- timeout), or it answers with a status and a body, which may fail to parse.
pub mod Uri
pub mod Requests
use cachestack.Base.{
  ℕ, Bool, true, false, ◌&&◌, List, [], ◌∷◌, ◌++◌, Option, none, some, leb, if◌then◌else◌,
}
use cachestack.Text.{Text, text}
use cachestack.Types.{ServerMetrics, ApiKeyInfo, ChannelInfo}
use cachestack.Client.Uri.{encode_uri_component}

pub data Method : Type 0 where
  get post delete : Method

-- The body of a request is the `cmd` of its JSON, if there is one.
pub record Request : Type 0 where
  pub url : Text
  pub method : Method
  pub cmd : Option Text
  pub timeout : ℕ

pub data Answer {ℓ} (A : Type ℓ) : Type ℓ where
  rejected : Answer A
  answered : (status : ℕ) → (json : Option A) → Answer A

-- `res.ok`
abbrev pub is_ok : ℕ → Bool
is_ok status = leb 200 status && leb status 299

-- `API_BASE`, from the variable VITE_API_BASE of the build.
unfoldable pub api_base : Option Text → Text
api_base none = text "http://127.0.0.1:6380"
api_base (some base) = base

-- `apiFetch`: no answer, an error status and a body that does not parse are all `null`.
unfoldable pub api_fetch {ℓ} : {A : Type ℓ} → Answer A → Option A
api_fetch rejected = none
api_fetch (answered status json) = if is_ok status then json else none

abbrev pub request : Option Text → Text → Method → Option Text → Request
request env path method cmd = record {
  url = api_base env ++ path;
  method = method;
  cmd = cmd;
  timeout = 1500;
}

-- The value that `/api/keys/value` answers; the server leaves fields out on an error.
pub record KeyValue : Type 0 where
  pub key : Option Text
  pub type : Option Text
  pub value : Option Text

-- The answer of `/api/exec`.
pub record ExecResult : Type 0 where
  pub result : Option Text
  pub error : Option Text

pub record Health : Type 0 where
  pub status : Text
  pub time : Text

-- The server behind `fetch`: one function for each endpoint's type of answer.
pub record Server : Type 0 where
  pub health : Request → Answer Health
  pub metrics : Request → Answer ServerMetrics
  pub keys : Request → Answer (List ApiKeyInfo)
  pub key_value : Request → Answer KeyValue
  pub delete_key : Request → Answer ℕ
  pub exec : Request → Answer ExecResult
  pub channels : Request → Answer (List ChannelInfo)

-- The requests of `api`. A key that is not well-formed UTF-16 makes `encodeURIComponent` throw.
module _ (env : Option Text) where
  unfoldable pub health_request : Request
  health_request = request env (text "/health") get none

  unfoldable pub metrics_request : Request
  metrics_request = request env (text "/api/metrics") get none

  unfoldable pub keys_request : Request
  keys_request = request env (text "/api/keys") get none

  unfoldable pub key_value_request : Text → Option Request
  key_value_request key = elim (encode_uri_component key) [
    | none ↦ none
    | some k ↦ some (request env (text "/api/keys/value?key=" ++ k) get none)
  ]

  unfoldable pub delete_key_request : Text → Option Request
  delete_key_request key = elim (encode_uri_component key) [
    | none ↦ none
    | some k ↦ some (request env (text "/api/keys?key=" ++ k) delete none)
  ]

  unfoldable pub exec_request : Text → Request
  exec_request cmd = request env (text "/api/exec") post (some cmd)

  unfoldable pub channels_request : Request
  channels_request = request env (text "/api/pubsub/channels") get none
