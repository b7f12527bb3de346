-- ===== src/Webhooks/Authorised.antt =====
-- Whose jobs src/http/webhooks_handler.cpp runs.
use cis1_webui_native_srv_cp.Prelude.{
  ℕ, ◌≡◌, Bool, true, false, List, [], ◌∷◌, none, some, String, eq_iff, arith, Option-cases, inl,
  inr,
}
use cis1_webui_native_srv_cp.Managers.{UserInfo, ProjectRights, Context}
use cis1_webui_native_srv_cp.RequestUtil.{unescape_uri}
use cis1_webui_native_srv_cp.Webhooks.{
  Api, github, gitlab, plain, Request, Services, Effect, respond, run_job, Handled, error, done,
  handle_token_headers, handle_github_headers, handle_github_signature, finish, by_api, webhook,
  HookEvent, gitlab_mapping, plain_mapping,
}

abbrev pub has_run_job : List Effect → Bool
has_run_job [] = false
has_run_job (respond status ∷ es) = has_run_job es
has_run_job (run_job project job params email file_path ∷ es) = true

abbrev pub runs_job : Handled → Bool
runs_job (error status) = false
runs_job (done es) = has_run_job es

-- The project, the job and the email of each run.
abbrev pub runs_in : List Effect → List (String × String × String)
runs_in [] = []
runs_in (respond status ∷ es) = runs_in es
runs_in (run_job project job params email file_path ∷ es) = (project, job, email) ∷ runs_in es

abbrev pub runs : Handled → List (String × String × String)
runs (error status) = []
runs (done es) = runs_in es

-- What a request shows of the user's key: all of it, but for GitHub, whose signature does not count.
abbrev pub Presents : Api → Request → String → Type 0
Presents github req key = Unit
Presents gitlab req key = req.find "X-Gitlab-Token" ≡ some key
Presents plain req key = req.find "X-Plain-Token" ≡ some key

module _ {W : Type 0} (services : Services W) (w : W) where
  -- The user is found, with a key and with the right to write to the project; the request shows the
  -- key.
  abbrev pub IsEntitled : Api → Request → String → String → Type 0
  IsEntitled api req email project =
      (info : UserInfo) × (key : String) × (r : ProjectRights) × ((services.get_user_info email w).0
        ≡ some info)
      × (info.api_access_key ≡ some key)
      × ((services.check_project_right email project w).0 ≡ some r)
      × (r.write ≡ true)
      × Presents api req key

  token-Presents :
      (token_name event_name : String) (mapping : List (String × HookEvent)) (file_path : String)
      (req : Request) (email token key project job : String) (query : List ℕ)
      → runs_job (
          handle_token_headers services w token_name event_name mapping file_path req
            (record {
              client_info =
                  some (record { email = email; active_token = token; api_access_key = key });
            })
            project
            job
            query)
        ≡ true
      → req.find token_name ≡ some key
  unfolding handle_token_headers
  token-Presents token_name event_name mapping file_path req email token key project job query h =
      elim (Option-cases (req.find token_name)) [
        | inl e ↦ ground arith
        | inr (shown, e) ↦ ground (arith, eq_iff shown key)
      ]

  api-Presents :
      (api : Api) (file_path : String) (req : Request) (email token key project job : String)
      (query : List ℕ)
      → runs_job (
          by_api services w api file_path req
            (record {
              client_info =
                  some (record { email = email; active_token = token; api_access_key = key });
            })
            project
            job
            query)
        ≡ true
      → Presents api req key
  unfolding by_api
  api-Presents github file_path req email token key project job query h = tt
  api-Presents gitlab file_path req email token key project job query h =
      token-Presents "X-Gitlab-Token" "X-Gitlab-Event" gitlab_mapping file_path req email token key
        project job query h
  api-Presents plain file_path req email token key project job query h =
      token-Presents "X-Plain-Token" "X-Plain-Event" plain_mapping file_path req email token key
        project job query h

  -- Of all that a request can have run, there is one run at most.
  token-runs :
      (token_name event_name : String) (mapping : List (String × HookEvent)) (file_path : String)
      (req : Request) (email token key project job : String) (query : List ℕ)
      → runs_job (
          handle_token_headers services w token_name event_name mapping file_path req
            (record {
              client_info =
                  some (record { email = email; active_token = token; api_access_key = key });
            })
            project
            job
            query)
        ≡ true
      → runs (
          handle_token_headers services w token_name event_name mapping file_path req
            (record {
              client_info =
                  some (record { email = email; active_token = token; api_access_key = key });
            })
            project
            job
            query)
        ≡ (project, job, email) ∷ []
  unfolding handle_token_headers finish
  token-runs token_name event_name mapping file_path req email token key project job query h =
      ground arith

  api-runs :
      (api : Api) (file_path : String) (req : Request) (email token key project job : String)
      (query : List ℕ)
      → runs_job (
          by_api services w api file_path req
            (record {
              client_info =
                  some (record { email = email; active_token = token; api_access_key = key });
            })
            project
            job
            query)
        ≡ true
      → runs (
          by_api services w api file_path req
            (record {
              client_info =
                  some (record { email = email; active_token = token; api_access_key = key });
            })
            project
            job
            query)
        ≡ (project, job, email) ∷ []
  unfolding by_api handle_github_headers handle_github_signature finish
  api-runs github file_path req email token key project job query h = ground arith
  api-runs gitlab file_path req email token key project job query h =
      token-runs "X-Gitlab-Token" "X-Gitlab-Event" gitlab_mapping file_path req email token key
        project job query h
  api-runs plain file_path req email token key project job query h =
      token-runs "X-Plain-Token" "X-Plain-Event" plain_mapping file_path req email token key project
        job query h

  -- A request that has something run has one job run, that of its project and its name, in the name of
  -- its user; this user is found, has a key and may write to the project; and for a request to the hook
  -- of GitLab or to the plain one, the request shows the key.
  pub webhook-IsEntitled :
      (api : Api) (file_path : String) (req : Request) (ctx : Context) (email project job : String)
      (query : List ℕ)
      → runs_job (webhook services w api file_path req ctx email project job query).1 ≡ true
      → IsEntitled api req email project
        × (runs (webhook services w api file_path req ctx email project job query).1
            ≡ (project, job, email) ∷ [])
  unfolding webhook
  webhook-IsEntitled api file_path req ctx email project job query h =
      elim (Option-cases (services.get_user_info email w).0) [
        | inl e ↦ absurd (ground arith)
        | inr (info, e) ↦ elim (Option-cases info.api_access_key) [
          | inl f ↦ absurd (ground arith)
          | inr (key, f) ↦ elim (Option-cases (services.check_project_right email project w).0) [
            | inl g ↦ absurd (ground arith)
            | inr (r, g) ↦
                let token : String = elim ctx.client_info [ none ↦ "" | some i ↦ i.active_token ] in
                let one_run =
                  api-runs api file_path req email token key project job (unescape_uri query)
                    (ground arith) in
                (
                  (
                    info,
                    key,
                    r,
                    e,
                    f,
                    g,
                    ground arith,
                    api-Presents api file_path req email token key project job (unescape_uri query)
                        (ground arith),
                  ),
                  ground (arith, one_run),
                )
          ]
        ]
      ]
