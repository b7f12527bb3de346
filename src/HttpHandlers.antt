-- ===== src/HttpHandlers.antt =====
-- The handlers of HTTP requests: src/http/handlers_chain.cpp, common_handlers.cpp, cookie_parser.cpp,
-- error_handler.cpp, file_handler.cpp, download_handler.cpp and multipart_form_handler.cpp, with the
-- chain and the routes that src/application.cpp puts them in. std::regex, by which the cookies and the
-- target are split, and the disk are parameters.
pub mod Router
pub mod Access
use Prim.Native.String
use cis1_webui_native_srv_cp.Prelude.{
  ℕ, ◌==◌, Bool, true, false, ◌&&◌, not, List, [], ◌∷◌, ◌++◌, Option, none, some, String,
  if◌then◌else◌,
}
use cis1_webui_native_srv_cp.Managers.{ProjectRights, ClientInfo, AuthManager, RightsManager}

pub data Verb : Type 0 where
  get post other : Verb

pub data Status : Type 0 where
  unknown ok not_found conflict forbidden bad_request method_not_allowed : Status
  internal_server_error : Status

pub record Request : Type 0 where
  pub method : Verb
  pub content_type : String
  pub target : String

-- The part of `request_context` that these handlers use; of the cookies the one that is read.
pub record HttpContext : Type 0 where
  pub client_info : Option ClientInfo
  pub auth_token : Option String
  pub res_status : Status
  pub allowed_verbs : List Verb

-- `multipart_form_body::value_type::mode`, but for `ignore`.
pub data Mode : Type 0 where
  add replace : Mode

-- What a handler does on the queue and the request reader: a response of a status, with the verbs that
-- are allowed, a file of the page or of a project, or the reading of an upload.
pub data Event : Type 0 where
  response : Status → List Verb → Event
  page_file : String → Event
  project_file : String → String → Event
  upload_body : Mode → String → String → Event

pub data HandleResult : Type 0 where
  next done error : HandleResult

pub record Verdict (W : Type 0) : Type 0 where
  pub world : W
  pub ctx : HttpContext
  pub events : List Event
  pub result : HandleResult

abbrev pub Handler : Type 0 → Type 0
Handler W = Request → HttpContext → W → Verdict W

-- What opening a file gives.
pub data Opened : Type 0 where
  opened no_such_file failed : Opened

-- The routes, by what the regular expressions take out of the target.
pub data Target : Type 0 where
  upload_route replace_route download_route : String → String → Target
  webhooks_route : Target
  root_route : Target
  page_route : String → Target

pub record Site (W : Type 0) : Type 0 where
  pub auth_cookie : Request → Option String
  pub route : String → Option Target
  pub open_page : String → Opened
  pub open_project_file : String → String → Opened
  pub webhooks : Handler W

-- The client is known by the email only.
abbrev pub known : String → ClientInfo
known email = record { email = email; active_token = ""; api_access_key = "" }

abbrev pub has_right : (ProjectRights → Bool) → Option ProjectRights → Bool
has_right right none = false
has_right right (some r) = right r

abbrev pub is_form : String → Bool
is_form content_type = String.begins content_type "multipart/form-data" 1 0 == 1

module _ {W : Type 0} where
  abbrev pub fail_with : Status → HttpContext → W → Verdict W
  fail_with status ctx w = record {
    world = w;
    ctx = record ctx { res_status = status };
    events = [];
    result = error;
  }

  abbrev pub only : Verb → HttpContext → W → Verdict W
  only verb ctx w = fail_with method_not_allowed (record ctx { allowed_verbs = verb ∷ [] }) w

  abbrev pub done_with : Event → HttpContext → W → Verdict W
  done_with event ctx w = record { world = w; ctx = ctx; events = event ∷ []; result = done }

  abbrev pub go_on : HttpContext → W → Verdict W
  go_on ctx w = record { world = w; ctx = ctx; events = []; result = next }

  abbrev pub cookie_parser : (Request → Option String) → Handler W
  cookie_parser auth_cookie req ctx w = go_on (record ctx { auth_token = auth_cookie req }) w

  abbrev pub handle_authenticate : AuthManager W → Handler W
  handle_authenticate auth req ctx w = elim ctx.auth_token [
    | none ↦ go_on ctx w
    | some token ↦
        let (w', email, ec) = auth.authenticate_token token w in
        if ec then fail_with internal_server_error ctx w' else elim email [
          | none ↦ go_on ctx w'
          | some e ↦ go_on (record ctx { client_info = some (known e) }) w'
        ]
  ]

  -- `file_handler::single_file`, with the event of the file.
  abbrev pub single_file : Opened → Event → Handler W
  single_file file event req ctx w = elim req.method [
    | get ↦ elim file [
      | opened ↦ done_with event ctx w
      | no_such_file ↦ fail_with not_found ctx w
      | failed ↦ fail_with internal_server_error ctx w
    ]
    | post ↦ only get ctx w
    | other ↦ only get ctx w
  ]

  -- What the handlers of a project's files ask for, in front of the rest.
  abbrev pub entitled :
      RightsManager W → (ProjectRights → Bool) → String → HttpContext → W → Verdict W → Verdict W
  entitled rights right project ctx w rest = elim ctx.client_info [
    | none ↦ fail_with forbidden ctx w
    | some info ↦
        let (project_rights, ec) = rights.check_project_right info.email project w in
        if ec
        then fail_with internal_server_error ctx w
        else if not (has_right right project_rights)
        then fail_with forbidden ctx w
        else rest
  ]

  unfoldable pub download_handler : RightsManager W → Opened → String → String → Handler W
  download_handler rights opened_file project path req ctx w = elim req.method [
    | get ↦
        entitled rights (λ r. r.read) project ctx w
          (single_file opened_file (project_file project path) req ctx w)
    | post ↦ only get ctx w
    | other ↦ only get ctx w
  ]

  -- `upload` and `replace` of multipart_form_handler.cpp, by the mode and the verb that is named as
  -- allowed.
  unfoldable pub upload_handler : RightsManager W → Mode → Verb → String → String → Handler W
  upload_handler rights mode allowed project dir req ctx w = elim req.method [
    | post ↦
        if not (is_form req.content_type)
        then fail_with bad_request ctx w
        else entitled rights (λ r. r.write) project ctx w
            (done_with (upload_body mode project dir) ctx w)
    | get ↦ only allowed ctx w
    | other ↦ only allowed ctx w
  ]

  abbrev pub upload : RightsManager W → String → String → Handler W
  upload rights project dir = upload_handler rights add get project dir

  abbrev pub replace_files : RightsManager W → String → String → Handler W
  replace_files rights project dir = upload_handler rights replace post project dir

-- `handle_body` of multipart_form_handler.cpp: the status by the parts of the form, each with whether
-- it is a file and whether it was written. The last part that was not written counts.
pub body_status : Mode → List (Bool × Bool) → Status → Status
body_status mode [] status = status
body_status mode ((is_file, written) ∷ parts) status =
    if is_file && not written
    then body_status mode parts (elim mode [ replace ↦ not_found | add ↦ conflict ])
    else body_status mode parts status

-- `error_handler::operator()`: a status that it does not know is answered as an error of the server.
abbrev pub error_handler : HttpContext → Event
error_handler ctx = elim ctx.res_status [
  | not_found ↦ response not_found []
  | forbidden ↦ response forbidden []
  | method_not_allowed ↦ response method_not_allowed ctx.allowed_verbs
  | _ ↦ response internal_server_error []
]

module _ {W : Type 0} where
  -- By the verdict of a handler: the rest of the chain, and what is done at its end.
  pub after : Verdict W → (HttpContext → W → W × List Event × Bool) → W × List Event × Bool
  after v rest = elim v.result [
    | next ↦ let (w', events, reads) = rest v.ctx v.world in (w', v.events ++ events, reads)
    | done ↦ (v.world, v.events, true)
    | error ↦ (v.world, v.events ++ error_handler v.ctx ∷ [], true)
  ]

  -- `handlers_chain::handle_header`: the state, the events, and whether `done` of the reader is called.
  pub handle_header : List (Handler W) → Request → HttpContext → W → W × List Event × Bool
  unfolding after
  handle_header [] req ctx w = (w, error_handler ctx ∷ [], false)
  handle_header (handler ∷ handlers) req ctx w =
      after (handler req ctx w) (λ ctx' w'. handle_header handlers req ctx' w')

abbrev pub empty_context : HttpContext
empty_context = record {
  client_info = none;
  auth_token = none;
  res_status = unknown;
  allowed_verbs = [];
}

module _ {W : Type 0} (auth : AuthManager W) (rights : RightsManager W) (site : Site W) where
  -- `make_http_router`, and the routers' operator: a target without a route is an error.
  pub http_router : Handler W
  unfolding download_handler upload_handler
  http_router req ctx w = elim (site.route req.target) [
    | none ↦ record { world = w; ctx = ctx; events = []; result = error }
    | some target ↦ elim target [
      | upload_route project dir ↦ upload rights project dir req ctx w
      | replace_route project dir ↦ replace_files rights project dir req ctx w
      | download_route project path ↦
          download_handler rights (site.open_project_file project path) project path req ctx w
      | webhooks_route ↦ site.webhooks req ctx w
      | root_route ↦ single_file (site.open_page "/index.html") (page_file "/index.html") req ctx w
      | page_route path ↦ single_file (site.open_page path) (page_file path) req ctx w
    ]
  ]

  -- `init_public_app`: the chain of the public server.
  pub public_app : Request → W → W × List Event × Bool
  unfolding handle_header http_router
  public_app req w =
      handle_header (cookie_parser site.auth_cookie ∷ handle_authenticate auth ∷ http_router ∷ [])
        req empty_context w
