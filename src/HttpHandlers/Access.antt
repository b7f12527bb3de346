-- ===== src/HttpHandlers/Access.antt =====
-- Who gets a file of a project over HTTP, and who puts one there.
use mathlib.Core.Option.{some-injective}
use cis1_webui_native_srv_cp.Prelude.{
  ◌≡◌, ◌≢◌, ◌⊎◌, refl, sym, ◌∙◌, ap, subst, Bool, true, false, List, [], ◌∷◌, ◌++◌, none, some,
  String, All, arith, Option-cases, inl, inr, Bool-cases,
}
use cis1_webui_native_srv_cp.Managers.{ProjectRights, ClientInfo, AuthManager, RightsManager}
use cis1_webui_native_srv_cp.HttpHandlers.{
  after, handle_authenticate, handle_header, error_handler, HandleResult, next, done, error, Status,
  unknown, ok, not_found, conflict, forbidden, bad_request, method_not_allowed,
  internal_server_error, Verb, Request, HttpContext, Event, response, page_file, project_file,
  upload_body, webhooks_route, Site, Verdict, http_router, public_app, known, empty_context,
}
use cis1_webui_native_srv_cp.HttpHandlers.Router.{Allows, http_router-Allows}

module _ {W : Type 0} (auth : AuthManager W) (rights : RightsManager W) (site : Site W) where
  -- The cookie of the request holds a token, which lets a user in whose rights to the project are so.
  abbrev pub Entitles : Request → W → String → (ProjectRights → Bool) → Type 0
  Entitles req w project right =
      (token email : String) × (w' : W) × (r : ProjectRights) × (site.auth_cookie req ≡ some token)
      × (auth.authenticate_token token w ≡ (w', some email, false))
      × (rights.check_project_right email project w' ≡ (some r, false))
      × (right r ≡ true)

  abbrev pub IsEntitled : Request → W → Event → Type 0
  IsEntitled req w (response status verbs) = Unit
  IsEntitled req w (page_file path) = Unit
  IsEntitled req w (project_file project path) = Entitles req w project (λ r. r.read)
  IsEntitled req w (upload_body mode project dir) = Entitles req w project (λ r. r.write)

  -- An error is answered by a response.
  error_handler-All :
      (P : Event → Type 0) (status : Status) (ctx : HttpContext)
      → ((s : Status) (verbs : List Verb) → P (response s verbs))
      → P (error_handler (record ctx { res_status = status }))
  error_handler-All P unknown ctx h = h _ _
  error_handler-All P ok ctx h = h _ _
  error_handler-All P not_found ctx h = h _ _
  error_handler-All P conflict ctx h = h _ _
  error_handler-All P forbidden ctx h = h _ _
  error_handler-All P bad_request ctx h = h _ _
  error_handler-All P method_not_allowed ctx h = h _ _
  error_handler-All P internal_server_error ctx h = h _ _

  All-append : (P : Event → Type 0) (xs ys : List Event) → All P xs → All P ys → All P (xs ++ ys)
  All-append P [] ys h k = k
  All-append P (x ∷ xs) ys (first, h) k = (first, All-append P xs ys h k)

  All-imp :
      (P Q : Event → Type 0) (xs : List Event) → ((x : Event) → P x → Q x) → All P xs → All Q xs
  All-imp P Q [] f h = tt
  All-imp P Q (x ∷ xs) f (first, h) = (f x first, All-imp P Q xs f h)

  -- The events of a chain, by the result of its first handler.
  after-All :
      (P : Event → Type 0) (result : HandleResult) (v : Verdict W)
      (rest : HttpContext → W → W × List Event × Bool)
      → ((s : Status) (verbs : List Verb) → P (response s verbs))
      → All P v.events
      → All P (rest v.ctx v.world).1
      → All P (after (record v { result = result }) rest).1
  unfolding after
  after-All P next v rest h es more = All-append P v.events (rest v.ctx v.world).1 es more
  after-All P done v rest h es more = es
  after-All P error v rest h es more =
      All-append P v.events (error_handler v.ctx ∷ []) es
        (error_handler-All P v.ctx.res_status v.ctx h, tt)

  -- What the authentication makes of a context without a client.
  abbrev Authenticated : HttpContext → W → Verdict W → Type 0
  Authenticated ctx w v =
      (v.events ≡ [])
      × ((v.ctx.client_info ≡ none)
          ⊎ ((token email : String) × (ctx.auth_token ≡ some token)
              × (auth.authenticate_token token w ≡ (v.world, some email, false))
              × (v.ctx.client_info ≡ some (known email))))

  authenticated :
      (req : Request) (ctx : HttpContext) (w : W)
      → ctx.client_info ≡ none
      → Authenticated ctx w (handle_authenticate auth req ctx w)
  authenticated req ctx w h = elim (Option-cases ctx.auth_token) [
    | inl e ↦ rw e (refl, inl h)
    | inr (token, e) ↦
        let answer = auth.authenticate_token token w in
        elim (Bool-cases answer.2) [
          | inl ec ↦ rw (e, ec) (refl, inl h)
          | inr no_ec ↦ elim (Option-cases answer.1) [
            | inl nobody ↦ rw (e, no_ec, nobody) (refl, inl h)
            | inr (email, found) ↦
                let is : answer ≡ (answer.0, some email, false) =
                  λ i. (answer.0, found i, no_ec i) in
                rw (e, no_ec, found) (refl, inr (token, email, refl, is, refl))
          ]
        ]
  ]

  entitles :
      (req : Request) (ctx : HttpContext) (w : W) (v : Verdict W) (project : String)
      (right : ProjectRights → Bool)
      → ctx.auth_token ≡ site.auth_cookie req
      → (token email : String) → ctx.auth_token ≡ some token
      → auth.authenticate_token token w ≡ (v.world, some email, false)
      → v.ctx.client_info ≡ some (known email)
      → (info : ClientInfo) (r : ProjectRights) → v.ctx.client_info ≡ some info
      → rights.check_project_right info.email project v.world ≡ (some r, false)
      → right r ≡ true
      → Entitles req w project right
  entitles req ctx w v project right cookie token email t let_in known_as info r c is can =
      let same : email ≡ info.email =
        ap (λ (i : ClientInfo). i.email) (some-injective _ _ (sym known_as ∙ c)) in
      (
        token,
        email,
        v.world,
        r,
        sym cookie ∙ t,
        let_in,
        subst (λ x. rights.check_project_right x project v.world ≡ (some r, false)) (sym same) is,
        can,
      )

  -- A client who was let in by the cookie.
  Allows-IsEntitled :
      (req : Request) (ctx : HttpContext) (w : W) (v : Verdict W)
      → ctx.auth_token ≡ site.auth_cookie req
      → Authenticated ctx w v
      → (event : Event) → Allows auth rights site v.ctx v.world event
      → IsEntitled req w event
  Allows-IsEntitled req ctx w v cookie a (response status verbs) h = tt
  Allows-IsEntitled req ctx w v cookie a (page_file path) h = tt
  Allows-IsEntitled req ctx w v cookie (es, inl e) (project_file project path)
        (info, r, c, is, can) =
      absurd (ground (arith, e, c))
  Allows-IsEntitled req ctx w v cookie (es, inr (token, email, t, let_in, known_as))
        (project_file project path) (info, r, c, is, can) =
      entitles req ctx w v project (λ r. r.read) cookie token email t let_in known_as info r c is
        can
  Allows-IsEntitled req ctx w v cookie (es, inl e) (upload_body mode project dir)
        (info, r, c, is, can) =
      absurd (ground (arith, e, c))
  Allows-IsEntitled req ctx w v cookie (es, inr (token, email, t, let_in, known_as))
        (upload_body mode project dir) (info, r, c, is, can) =
      entitles req ctx w v project (λ r. r.write) cookie token email t let_in known_as info r c is
        can

  -- Through the chain of the public server, a request to download by the name of a project is answered
  -- with a file, and one to upload by it is read, only where the cookie holds a token that lets a user in
  -- who may read, or write to, the project of that name. Where the file of this name and the rest of the
  -- target lies is not looked at: with two dots it may be outside of the project. The files of the page,
  -- of which the same is true, are sent to everyone, and the webhooks, which have a guard of their own,
  -- are left out.
  pub public_app-IsEntitled :
      (req : Request) (w : W)
      → site.route req.target ≢ some webhooks_route
      → All (IsEntitled req w) (public_app auth rights site req w).1
  unfolding public_app handle_header
  public_app-IsEntitled req w h =
      let ctx = record empty_context { auth_token = site.auth_cookie req } in
      let v = handle_authenticate auth req ctx w in
      let let_in = authenticated req ctx w refl in
      let respond : (s : Status) (verbs : List Verb) → IsEntitled req w (response s verbs) =
        λ s verbs. tt in
      let routed = http_router auth rights site req v.ctx v.world in
      after-All (IsEntitled req w) v.result v
        (λ c w'. handle_header (http_router auth rights site ∷ []) req c w') respond
        (subst (λ es. All (IsEntitled req w) es) (sym let_in.0) tt)
        (after-All (IsEntitled req w) routed.result routed (λ c w'. handle_header [] req c w')
          respond
          (All-imp (Allows auth rights site v.ctx v.world) (IsEntitled req w) routed.events
            (Allows-IsEntitled req ctx w v refl let_in)
            (http_router-Allows auth rights site req v.ctx v.world (site.route req.target) refl h))
          (error_handler-All (IsEntitled req w) routed.ctx.res_status routed.ctx respond, tt))
