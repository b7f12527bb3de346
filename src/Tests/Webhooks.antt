-- ===== src/Tests/Webhooks.antt =====
-- Requests to src/http/webhooks_handler.cpp, with a digest that is always the bytes 1 and 2.
use cis1_webui_native_srv_cp.Prelude.{
  ◌≡◌, refl, true, false, [], ◌∷◌, none, some, str_eq, if◌then◌else◌,
}
use cis1_webui_native_srv_cp.Managers.{UserInfo, ProjectRights}
use cis1_webui_native_srv_cp.Webhooks.{
  github, gitlab, push, Request, respond, run_job, done, Services, prepare_params, webhook, hex,
  event_at, github_mapping, gitlab_mapping, by_api, handle_token_headers, handle_github_headers,
  handle_github_signature, finish,
}
use cis1_webui_native_srv_cp.RequestUtil.{unescape_uri}
use cis1_webui_native_srv_cp.Webhooks.Unsigned.{sign, chains, webhook-ignores_signature}
use cis1_webui_native_srv_cp.Webhooks.Authorised.{IsEntitled, runs, webhook-IsEntitled}

abbrev ann : UserInfo
ann = record { email = "ann"; api_access_key = some "key"; is_admin = false }

abbrev all_rights : ProjectRights
all_rights = record { read = true; write = true; execute = true }

abbrev site : Services (Unit {0})
site = record {
  get_user_info = λ email w. (some ann, false);
  check_project_right = λ email project w. (some all_rights, false);
  job_params = λ project job w. some ("webhook_event_type" ∷ []);
  hmac_sha1 = λ key body. 1 ∷ 2 ∷ [];
  parse_request_query = λ query name. none;
}

abbrev forged : Request
forged = record {
  is_post = true;
  find = λ name.
      if str_eq name "X-Hub-Signature"
      then some "sha1=ffff"
      else if str_eq name "X-GitHub-Event"
      then some "push"
      else none;
  body = "body";
}

-- The job runs, behind the answer that the signature is not the one of the body.
runs_forged :
    (webhook site tt github "tmp" forged (record { client_info = none }) "ann" "p" "j" []).1
    ≡ done (
        respond 403
        ∷ run_job "p" "j"
            (prepare_params site tt "p" "j" (unescape_uri []) "tmp" "push" push)
            "ann"
            "tmp"
        ∷ respond 200
        ∷ [])
unfolding webhook by_api handle_github_headers handle_github_signature finish hex event_at
    github_mapping
runs_forged = refl

webhook-ignores_signature_example :
    chains
      (webhook site tt github "tmp"
        (sign "sha1=0102" forged)
        (record { client_info = none })
        "ann"
        "p"
        "j"
        []).1
    ≡ chains
        (webhook site tt github "tmp"
          (sign "sha1=ffff" forged)
          (record { client_info = none })
          "ann"
          "p"
          "j"
          []).1
webhook-ignores_signature_example =
    webhook-ignores_signature site tt "tmp" forged (record { client_info = none }) "ann" "p" "j" []
      "sha1=0102" "sha1=ffff" refl

abbrev shown : Request
shown = record {
  is_post = true;
  find = λ name.
      if str_eq name "X-Gitlab-Token"
      then some "key"
      else if str_eq name "X-Gitlab-Event"
      then some "Push Hook"
      else none;
  body = "body";
}

webhook-IsEntitled_example :
    IsEntitled site tt gitlab shown "ann" "p"
    × (runs (webhook site tt gitlab "tmp" shown (record { client_info = none }) "ann" "p" "j" []).1
        ≡ ("p", "j", "ann") ∷ [])
unfolding webhook by_api handle_token_headers finish event_at gitlab_mapping
webhook-IsEntitled_example =
    webhook-IsEntitled site tt gitlab "tmp" shown (record { client_info = none }) "ann" "p" "j" []
      refl
