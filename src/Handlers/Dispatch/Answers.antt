-- ===== src/Handlers/Dispatch/Answers.antt =====
-- How the handlers of src/websocket/handlers answer, and when they change the client of a websocket.
use cis1_webui_native_srv_cp.Prelude.{
  ◌≡◌, Bool, true, false, ◌&&◌, not, Option, none, some, String, str_eq, arith, ◌⊎◌, inl, inr,
  if◌then◌else◌, length, Bool-cases, Option-cases, eq_iff,
}
use cis1_webui_native_srv_cp.Managers.{ClientInfo, Context, AuthManager, RightsManager, CisManager}
use cis1_webui_native_srv_cp.Handlers.Permissions.Loop.{set_permissions-once, set_permissions-ctx}
use cis1_webui_native_srv_cp.Handlers.Dispatch.{
  Request, auth_login_pass, auth_login_token, auth_logout, user_change_pass,
  admin_user_permission_set, dispatch,
}

module _ {W : Type 0} (auth : AuthManager W) (rights : RightsManager W) (cis : CisManager W) where
  -- Whether the client may have the password changed: as an administrator, or as the user itself
  -- with the old password; never where its status cannot be read.
  abbrev pub may_change : String → String → ClientInfo → W → Bool
  may_change email old info w =
      let (is_admin, ec) = rights.is_admin info.email w in
      if ec
      then false
      else if is_admin
      then true
      else str_eq info.email email && auth.check_pass info.email old w

  -- Whether the manager turns down a change of password that the client may make, without an error
  -- code.
  abbrev pub turns_down : Request → Context → W → Bool
  turns_down (user_change_pass email old new) ctx w = elim ctx.client_info [
    | none ↦ false
    | some info ↦
        let (w', changed, ec) = auth.change_pass email new w in
        may_change email old info w && (not changed && not ec)
  ]
  turns_down _ ctx w = false

  -- Every request is answered by one message, but for a change of password that the client may make
  -- and the manager turns down without an error code: that one is answered by two.
  pub dispatch-answers_count :
      (r : Request) (ctx : Context) (w : W)
      → length (dispatch auth rights cis r ctx w).sent ≡ (if turns_down r ctx w then 2 else 1)
  unfolding dispatch
  dispatch-answers_count (admin_user_permission_set email ps) ctx w =
      ground (arith, set_permissions-once cis rights email ps ctx w)
  dispatch-answers_count r ctx w = ground arith

  -- A change of password by a client that is neither granted as an administrator nor the user itself
  -- with the old password, or whose status cannot be read, leaves the state as it is.
  pub change_pass-guarded :
      (email old new : String) (ctx : Context) (w : W) (info : ClientInfo)
      → ctx.client_info ≡ some info
      → may_change email old info w ≡ false
      → (dispatch auth rights cis (user_change_pass email old new) ctx w).world ≡ w
  unfolding dispatch
  change_pass-guarded email old new ctx w info h m = ground arith

  -- What a request may make of the client of its websocket: leave it, log it in as the user that the
  -- manager authenticates, or log it out under its own active token.
  abbrev pub ClientMove : Request → Context → W → Option ClientInfo → Type 0
  ClientMove (auth_login_pass email pass) ctx w c =
      (c ≡ ctx.client_info)
      ⊎ ((token : String) × ((auth.authenticate email pass w).1 ≡ some token)
          × (c ≡ some (record { email = email; active_token = token; api_access_key = "" })))
  ClientMove (auth_login_token token) ctx w c =
      (c ≡ ctx.client_info)
      ⊎ ((email : String) × ((auth.authenticate_token token w).1 ≡ some email)
          × (c ≡ some (record { email = email; active_token = token; api_access_key = "" })))
  ClientMove (auth_logout token) ctx w c =
      (c ≡ ctx.client_info)
      ⊎ ((info : ClientInfo) × (ctx.client_info ≡ some info)
          × ((auth.authenticate_token token w).1 ≡ some info.email)
          × (info.active_token ≡ token)
          × (c ≡ none))
  ClientMove r ctx w c = c ≡ ctx.client_info

  -- A request leaves the client of its websocket as it is, but for a login, which may make it the
  -- user that the manager authenticates, and a logout, which may log it out where the token is the
  -- client's active one and the manager authenticates it as the client's email.
  pub dispatch-ClientMove :
      (r : Request) (ctx : Context) (w : W)
      → ClientMove r ctx w (dispatch auth rights cis r ctx w).ctx.client_info
  unfolding dispatch
  dispatch-ClientMove (auth_login_pass email pass) ctx w =
      let call = auth.authenticate email pass w in
      elim (Option-cases call.1) [
        | inl e ↦ inl (ground arith)
        | inr (token, e) ↦ elim (Bool-cases call.2) [
          | inl failed ↦ inl (ground arith)
          | inr fine ↦ inr (token, e, ground arith)
        ]
      ]
  dispatch-ClientMove (auth_login_token token) ctx w =
      let call = auth.authenticate_token token w in
      elim (Option-cases call.1) [
        | inl e ↦ inl (ground arith)
        | inr (email, e) ↦ elim (Bool-cases call.2) [
          | inl failed ↦ inl (ground arith)
          | inr fine ↦ inr (email, e, ground arith)
        ]
      ]
  dispatch-ClientMove (auth_logout token) ctx w =
      let call = auth.authenticate_token token w in
      elim (Option-cases ctx.client_info) [
        | inl e ↦ inl (ground arith)
        | inr (info, e) ↦ elim (Option-cases call.1) [
          | inl f ↦ inl (ground arith)
          | inr (email, f) ↦
              elim (Bool-cases
                (not call.2 && str_eq email info.email && str_eq token info.active_token)) [
                  | inl hit ↦ inr (
                    info,
                    e,
                    ground (arith, eq_iff email info.email),
                    ground (arith, eq_iff token info.active_token),
                    ground arith,
                  )
                  | inr miss ↦ inl (ground arith)
                ]
        ]
      ]
  dispatch-ClientMove (admin_user_permission_set email ps) ctx w =
      ground (arith, set_permissions-ctx cis rights email ps ctx w)
  dispatch-ClientMove r ctx w = ground arith
