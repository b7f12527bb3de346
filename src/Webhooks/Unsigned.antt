-- ===== src/Webhooks/Unsigned.antt =====
-- What the signature of a request is worth in src/http/webhooks_handler.cpp.
use Prim.Native.String
use cis1_webui_native_srv_cp.Prelude.{
  ℕ, ◌≡◌, refl, List, [], ◌∷◌, some, String, str_eq, ltb, if◌then◌else◌, Bool-cases, Option-cases,
  inl, inr, arith,
}
use cis1_webui_native_srv_cp.Managers.{Context}
use cis1_webui_native_srv_cp.RequestUtil.{unescape_uri}
use cis1_webui_native_srv_cp.Webhooks.{
  by_api, handle_github_headers, handle_github_signature, github, Request, Services, Effect,
  respond, run_job, Handled, error, done, webhook, HookEvent,
}

-- The request with another signature, which may be a new one.
abbrev pub sign : String → Request → Request
sign signature req = record req {
  find = λ name. if str_eq name "X-Hub-Signature" then some signature else req.find name;
}

-- The chains that run a job, with all that they are given.
abbrev pub chains_in : List Effect → List Effect
chains_in [] = []
chains_in (respond status ∷ es) = chains_in es
chains_in (run_job project job params email file_path ∷ es) =
    run_job project job params email file_path ∷ chains_in es

abbrev pub chains : Handled → List Effect
chains (error status) = []
chains (done es) = chains_in es

module _ {W : Type 0} (services : Services W) (w : W) where
  chains-signature :
      (file_path : String) (ctx : Context) (project job : String) (query : List ℕ) (event : String)
      (ev : HookEvent) (signature other body : String)
      → chains_in (
          handle_github_signature services w file_path ctx project job query event ev signature
            body)
        ≡ chains_in
            (handle_github_signature services w file_path ctx project job query event ev other body)
  unfolding handle_github_signature
  chains-signature file_path ctx project job query event ev signature other body = ground arith

  chains-headers :
      (file_path : String) (req : Request) (ctx : Context) (project job : String) (query : List ℕ)
      (signature other : String)
      → ltb (String.len signature) 5 ≡ ltb (String.len other) 5
      → chains
          (handle_github_headers services w file_path (sign signature req) ctx project job query)
        ≡ chains (handle_github_headers services w file_path (sign other req) ctx project job query)
  unfolding handle_github_headers
  chains-headers file_path req ctx project job query signature other h =
      elim (Option-cases (req.find "X-GitHub-Event")) [
        | inl e ↦ rw e refl
        | inr (event, e) ↦ elim (Bool-cases (ltb (String.len other) 5)) [
          | inl f ↦ rw (e, h, f) refl
          | inr f ↦
              rw (e, h, f)
                (chains-signature file_path ctx project job query event _
                  (String.slice signature 5 (String.len signature))
                  (String.slice other 5 (String.len other)) req.body)
        ]
      ]

  -- What a request to the GitHub hook has run does not depend on its signature, but for whether that
  -- has five characters at least: with a forged one, the same jobs are run, with the same parameters
  -- and in the same name, as with that of the body.
  pub webhook-ignores_signature :
      (file_path : String) (req : Request) (ctx : Context) (email project job : String)
      (query : List ℕ) (signature other : String)
      → ltb (String.len signature) 5 ≡ ltb (String.len other) 5
      → chains
          (webhook services w github file_path (sign signature req) ctx email project job query).1
        ≡ chains
            (webhook services w github file_path (sign other req) ctx email project job query).1
  unfolding webhook by_api
  webhook-ignores_signature file_path req ctx email project job query signature other h =
      elim (Bool-cases req.is_post) [
        | inr e ↦ rw e refl
        | inl e ↦ elim (Bool-cases (services.get_user_info email w).1) [
          | inl f ↦ rw (e, f) refl
          | inr f ↦ elim (Option-cases (services.get_user_info email w).0) [
            | inl g ↦ rw (e, f, g) refl
            | inr (info, g) ↦ elim (Option-cases info.api_access_key) [
              | inl k ↦ rw (e, f, g, k) refl
              | inr (key, k) ↦ elim (Bool-cases (services.check_project_right email project w).1) [
                | inl l ↦ rw (e, f, g, k, l) refl
                | inr l ↦ elim (Option-cases (services.check_project_right email project w).0) [
                  | inl n ↦ rw (e, f, g, k, l, n) refl
                  | inr (r, n) ↦ elim (Bool-cases r.write) [
                    | inl o ↦
                        rw (e, f, g, k, l, n, o)
                          (chains-headers file_path req _ project job (unescape_uri query) signature
                            other h)
                    | inr o ↦ rw (e, f, g, k, l, n, o) refl
                  ]
                ]
              ]
            ]
          ]
        ]
      ]
