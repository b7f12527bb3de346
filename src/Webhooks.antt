-- ===== src/Webhooks.antt =====
-- src/http/webhooks_handler.cpp. The managers, HMAC-SHA1 and the parser of query strings, a loop
-- over std::regex, are parameters. The handler is given the whole request, the body too, which it
-- reads in a callback after its checks of the headers.
pub mod Unsigned
pub mod Authorised
use Prim.Native.String
use cis1_webui_native_srv_cp.Prelude.{
  ℕ, ◌/◌, ◌%◌, Bool, true, false, ◌||◌, not, List, [], ◌∷◌, map, Option, none, some, String, str_eq,
  ltb, if◌then◌else◌, get_or,
}
use cis1_webui_native_srv_cp.Managers.{UserInfo, ProjectRights, ClientInfo, Context}
use cis1_webui_native_srv_cp.RequestUtil.{unescape_uri}

pub data Api : Type 0 where
  github gitlab plain : Api

pub data HookEvent : Type 0 where
  ping push tag_push issue note merge_request wiki_page pipeline build unknown : HookEvent

-- `find` on a mapping, with `unknown` at its end.
unfoldable pub event_at : String → List (String × HookEvent) → HookEvent
event_at name [] = unknown
event_at name ((key, ev) ∷ rest) = if str_eq key name then ev else event_at name rest

unfoldable pub github_mapping : List (String × HookEvent)
github_mapping =
    ("ping", ping)
    ∷ ("push", push)
    ∷ ("issues", issue)
    ∷ ("pull_request", merge_request)
    ∷ ("gollum", wiki_page)
    ∷ []

unfoldable pub gitlab_mapping : List (String × HookEvent)
gitlab_mapping =
    ("Push Hook", push)
    ∷ ("Tag Push Hook", tag_push)
    ∷ ("Issue Hook", issue)
    ∷ ("Note Hook", note)
    ∷ ("Merge Request Hook", merge_request)
    ∷ ("Wiki Page Hook", wiki_page)
    ∷ ("Pipeline Hook", pipeline)
    ∷ ("Job Hook", build)
    ∷ []

pub plain_mapping : List (String × HookEvent)
plain_mapping =
    ("ping", ping)
    ∷ ("push", push)
    ∷ ("tag_push", tag_push)
    ∷ ("issue", issue)
    ∷ ("note", note)
    ∷ ("merge_request", merge_request)
    ∷ ("wiki_page", wiki_page)
    ∷ ("pipeline", pipeline)
    ∷ ("build", build)
    ∷ []

abbrev pub ev_to_string : HookEvent → String
ev_to_string ping = "ping"
ev_to_string push = "push"
ev_to_string tag_push = "tag_push"
ev_to_string issue = "issue"
ev_to_string note = "note"
ev_to_string merge_request = "merge_request"
ev_to_string wiki_page = "wiki_page"
ev_to_string pipeline = "pipeline"
ev_to_string build = "build"
ev_to_string unknown = "unknown"

abbrev pub is_ping : HookEvent → Bool
is_ping ping = true
is_ping _ = false

-- A query string is the list of its codes, as in `unescape_uri`.
pub data Value : Type 0 where
  text : String → Value
  codes : List ℕ → Value

pub record Request : Type 0 where
  pub is_post : Bool
  pub find : String → Option String
  pub body : String

-- A response by its status; or the chain that runs a job and then removes the saved body.
pub data Effect : Type 0 where
  respond : ℕ → Effect
  run_job : String → String → List (String × Value) → String → String → Effect

-- `handle_result::error` with the status of the context, or `done` and what the callback does.
pub data Handled : Type 0 where
  error : ℕ → Handled
  done : List Effect → Handled

pub record Services (W : Type 0) : Type 0 where
  pub get_user_info : String → W → Option UserInfo × Bool
  pub check_project_right : String → String → W → Option ProjectRights × Bool
  pub job_params : String → String → W → Option (List String)
  pub hmac_sha1 : String → String → List ℕ
  pub parse_request_query : List ℕ → String → Option String

abbrev hex_digit : ℕ → String
hex_digit n =
    get_or
      ("0" ∷ "1" ∷ "2" ∷ "3" ∷ "4" ∷ "5" ∷ "6" ∷ "7" ∷ "8" ∷ "9" ∷ "a" ∷ "b" ∷ "c" ∷ "d" ∷ "e" ∷ "f"
        ∷ [])
      n ""

-- The stream of two digits for each byte.
unfoldable pub hex : List ℕ → String
hex [] = ""
hex (v ∷ vs) = String.◌++◌ (String.◌++◌ (hex_digit (v / 16)) (hex_digit (v % 16))) (hex vs)

module _ {W : Type 0} (services : Services W) (w : W) where
  -- The entry of one parameter of the job; empty where none of the cases fits.
  pub param_entry : List ℕ → String → String → HookEvent → String → String × Value
  param_entry query_string body_file raw_event ev name =
      elim (services.parse_request_query query_string name) [
        | some value ↦ (name, text value)
        | none ↦
            if str_eq name "webhook_query_string"
            then (name, codes query_string)
            else if str_eq name "webhook_request_body"
            then (name, text body_file)
            else if str_eq name "webhook_event_type"
            then (name, text (ev_to_string ev))
            else if str_eq name "webhook_raw_event_type"
            then (name, text raw_event)
            else ("", text "")
      ]

  pub prepare_params :
      String → String → List ℕ → String → String → HookEvent → List (String × Value)
  unfolding param_entry
  prepare_params project job query_string body_file raw_event ev =
      elim (services.job_params project job w) [
        | none ↦ []
        | some names ↦ map (param_entry query_string body_file raw_event ev) names
      ]

  -- `file_path` is the name that `save_body` ends with, a random one that is not there.
  unfoldable pub finish :
      String → String → String → String → List ℕ → String → HookEvent → String → List Effect
  finish file_path email project job query_string raw_event ev body =
      let ok = respond 200 ∷ [] in
      if is_ping ev
      then ok
      else run_job project job (prepare_params project job query_string file_path raw_event ev)
          email file_path
        ∷ ok

  -- The source asserts that a client is there.
  unfoldable pub handle_github_signature :
      String
      → Context
      → String
      → String
      → List ℕ
      → String
      → HookEvent
      → String
      → String
      → List Effect
  unfolding finish
  handle_github_signature file_path ctx project job query_string raw_event ev signature body =
      elim ctx.client_info [
        | none ↦ []
        | some cln_info ↦
            let hex_hmac = hex (services.hmac_sha1 cln_info.api_access_key body) in
            let rest = finish file_path cln_info.email project job query_string raw_event ev body in
            if str_eq hex_hmac signature then rest else respond 403 ∷ rest
      ]

  unfoldable pub handle_github_headers :
      String → Request → Context → String → String → List ℕ → Handled
  unfolding handle_github_signature
  handle_github_headers file_path req ctx project job query_string =
      elim (req.find "X-Hub-Signature") [
        | none ↦ error 403
        | some signature ↦ elim (req.find "X-GitHub-Event") [
          | none ↦ error 403
          | some event ↦
              if ltb (String.len signature) 5
              then error 403
              else done (
                  handle_github_signature file_path ctx project job query_string event
                    (event_at event github_mapping)
                    (String.slice signature 5 (String.len signature)) req.body)
        ]
      ]

  -- `handle_gitlab_headers` and `handle_plain_headers`, which differ in the names of the headers
  -- and the mapping.
  unfoldable pub handle_token_headers :
      String
      → String
      → List (String × HookEvent)
      → String
      → Request
      → Context
      → String
      → String
      → List ℕ
      → Handled
  unfolding finish
  handle_token_headers token_name event_name mapping file_path req ctx project job query_string =
      let api_access_key : String = elim ctx.client_info [
        | none ↦ ""
        | some cln_info ↦ cln_info.api_access_key
      ] in
      let email : String = elim ctx.client_info [ none ↦ "" | some cln_info ↦ cln_info.email ] in
      elim (req.find token_name) [
        | none ↦ error 403
        | some token ↦ elim (req.find event_name) [
          | none ↦ error 403
          | some event ↦
              if str_eq token api_access_key
              then done (
                  finish file_path email project job query_string event (event_at event mapping)
                    req.body)
              else error 403
        ]
      ]

  unfoldable pub by_api : Api → String → Request → Context → String → String → List ℕ → Handled
  by_api github = handle_github_headers
  by_api gitlab = handle_token_headers "X-Gitlab-Token" "X-Gitlab-Event" gitlab_mapping
  by_api plain = handle_token_headers "X-Plain-Token" "X-Plain-Event" plain_mapping

  unfoldable pub webhook :
      Api → String → Request → Context → String → String → String → List ℕ → Context × Handled
  unfolding by_api
  webhook api file_path req ctx email project job escaped_query_string =
      if not req.is_post
      then (ctx, error 405)
      else let (user, ec) = services.get_user_info email w in
        if ec then (ctx, error 500) else elim user [
          | none ↦ (ctx, error 404)
          | some info ↦ elim info.api_access_key [
            | none ↦ (ctx, error 403)
            | some key ↦
                let active_token : String = elim ctx.client_info [
                  | none ↦ ""
                  | some i ↦ i.active_token
                ] in
                let ctx' : Context = record ctx {
                  client_info =
                      some (record {
                        email = email;
                        active_token = active_token;
                        api_access_key = key;
                      });
                } in
                let (project_rights, failed) = services.check_project_right email project w in
                if failed then (ctx', error 500) else elim project_rights [
                  | none ↦ (ctx', error 403)
                  | some r ↦
                      if r.write
                      then (
                        ctx',
                        by_api api file_path req ctx' project job
                            (unescape_uri escaped_query_string),
                      )
                      else (ctx', error 403)
                ]
          ]
        ]
