-- ===== src/HttpHandlers/Router.antt =====
-- What the router of src/application.cpp lets a client have.
use cis1_webui_native_srv_cp.Prelude.{
  ◌≡◌, ◌≢◌, refl, Bool, true, false, Option, none, some, String, All, Option-cases, inl, inr,
  Bool-cases,
}
use cis1_webui_native_srv_cp.Managers.{ProjectRights, ClientInfo, AuthManager, RightsManager}
use cis1_webui_native_srv_cp.HttpHandlers.{
  Verb, Mode, add, replace, Target, upload_route, replace_route, download_route, root_route,
  page_route, download_handler, upload_handler, is_form, done_with, Request, HttpContext, Event,
  response, page_file, project_file, upload_body, webhooks_route, Site, Verdict, Opened, opened,
  no_such_file, failed, get, post, other, entitled, single_file, http_router,
}

module _ {W : Type 0} (auth : AuthManager W) (rights : RightsManager W) (site : Site W) where
  -- The same for the router, of a context with a client who was let in.
  abbrev pub Allows : HttpContext → W → Event → Type 0
  Allows ctx w (response status verbs) = Unit
  Allows ctx w (page_file path) = Unit
  Allows ctx w (project_file project path) =
      (info : ClientInfo) × (r : ProjectRights) × (ctx.client_info ≡ some info)
      × (rights.check_project_right info.email project w ≡ (some r, false))
      × (r.read ≡ true)
  Allows ctx w (upload_body mode project dir) =
      (info : ClientInfo) × (r : ProjectRights) × (ctx.client_info ≡ some info)
      × (rights.check_project_right info.email project w ≡ (some r, false))
      × (r.write ≡ true)

  -- The guard of a project's files lets only such a client on.
  entitled-All :
      (P : Event → Type 0) (right : ProjectRights → Bool) (project : String) (ctx : HttpContext)
      (w : W) (rest : Verdict W)
      → ((info : ClientInfo) (r : ProjectRights)
          → ctx.client_info ≡ some info
          → rights.check_project_right info.email project w ≡ (some r, false)
          → right r ≡ true
          → All P rest.events)
      → All P (entitled rights right project ctx w rest).events
  entitled-All P right project ctx w rest k = elim (Option-cases ctx.client_info) [
    | inl e ↦ rw e tt
    | inr (info, e) ↦
        let check = rights.check_project_right info.email project w in
        elim (Bool-cases check.1) [
          | inl ec ↦ rw (e, ec) tt
          | inr no_ec ↦ elim (Option-cases check.0) [
            | inl no_rights ↦ rw (e, no_ec, no_rights) tt
            | inr (r, found) ↦ elim (Bool-cases (right r)) [
              | inr refused ↦ rw (e, no_ec, found, refused) tt
              | inl allowed ↦
                  let is : check ≡ (some r, false) = λ i. (found i, no_ec i) in
                  rw (e, no_ec, found, allowed) (k info r e is allowed)
            ]
          ]
        ]
  ]

  -- By the verb of a request.
  abbrev with_verb : Verb → Request → Request
  with_verb verb req = record req { method = verb }

  single_file-All :
      (P : Event → Type 0) (verb : Verb) (file : Opened) (event : Event) (req : Request)
      (ctx : HttpContext) (w : W)
      → P event
      → All P (single_file file event (with_verb verb req) ctx w).events
  single_file-All P get opened event req ctx w h = (h, tt)
  single_file-All P get no_such_file event req ctx w h = tt
  single_file-All P get failed event req ctx w h = tt
  single_file-All P post file event req ctx w h = tt
  single_file-All P other file event req ctx w h = tt

  download_handler-All :
      (verb : Verb) (file : Opened) (project path : String) (req : Request) (ctx : HttpContext)
      (w : W)
      → All
          (Allows ctx w)
          (download_handler rights file project path (with_verb verb req) ctx w).events
  unfolding download_handler
  download_handler-All get file project path req ctx w =
      entitled-All (Allows ctx w) (λ r. r.read) project ctx w
        (single_file file (project_file project path) (with_verb get req) ctx w)
        (λ info r e is can.
          single_file-All (Allows ctx w) get file (project_file project path) req ctx w
            (info, r, e, is, can))
  download_handler-All post file project path req ctx w = tt
  download_handler-All other file project path req ctx w = tt

  upload_handler-All :
      (verb : Verb) (mode : Mode) (allowed : Verb) (project dir : String) (req : Request)
      (ctx : HttpContext) (w : W)
      → All
          (Allows ctx w)
          (upload_handler rights mode allowed project dir (with_verb verb req) ctx w).events
  unfolding upload_handler
  upload_handler-All get mode allowed project dir req ctx w = tt
  upload_handler-All other mode allowed project dir req ctx w = tt
  upload_handler-All post mode allowed project dir req ctx w =
      elim (Bool-cases (is_form req.content_type)) [
        | inr unlike ↦ rw (upload_handler, unlike) tt
        | inl form ↦
            rw (upload_handler, form)
              (entitled-All (Allows ctx w) (λ r. r.write) project ctx w
                (done_with (upload_body mode project dir) ctx w)
                (λ info r e is can. ((info, r, e, is, can), tt)))
      ]

  pub http_router-Allows :
      (req : Request) (ctx : HttpContext) (w : W) (target : Option Target)
      → site.route req.target ≡ target
      → target ≢ some webhooks_route
      → All (Allows ctx w) (http_router auth rights site req ctx w).events
  unfolding http_router
  http_router-Allows req ctx w none e h = rw (http_router, e) tt
  http_router-Allows req ctx w (some (upload_route project dir)) e h =
      rw (http_router, e) (upload_handler-All req.method add get project dir req ctx w)
  http_router-Allows req ctx w (some (replace_route project dir)) e h =
      rw (http_router, e) (upload_handler-All req.method replace post project dir req ctx w)
  http_router-Allows req ctx w (some (download_route project path)) e h =
      rw (http_router, e)
        (download_handler-All req.method (site.open_project_file project path) project path req ctx
          w)
  http_router-Allows req ctx w (some webhooks_route) e h = absurd (h refl)
  http_router-Allows req ctx w (some root_route) e h =
      rw (http_router, e)
        (single_file-All (Allows ctx w) req.method (site.open_page "/index.html")
          (page_file "/index.html") req ctx w tt)
  http_router-Allows req ctx w (some (page_route path)) e h =
      rw (http_router, e)
        (single_file-All (Allows ctx w) req.method (site.open_page path) (page_file path) req ctx w
          tt)
