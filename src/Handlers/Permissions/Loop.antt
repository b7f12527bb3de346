-- ===== src/Handlers/Permissions/Loop.antt =====
-- The loop of src/websocket/handlers/set_user_permissions.cpp.
use cis1_webui_native_srv_cp.Prelude.{◌≡◌, refl, List, [], ◌∷◌, String, arith, length}
use cis1_webui_native_srv_cp.Managers.{ProjectRights, Context, RightsManager, CisManager}
use cis1_webui_native_srv_cp.Handlers.Permissions.{set_permissions}

module _ {W : Type 0} (cis : CisManager W) (rights : RightsManager W) (email : String) where
  pub set_permissions-once :
      (ps : List (String × ProjectRights)) (ctx : Context) (w : W)
      → length (set_permissions cis rights email ps ctx w).sent ≡ 1
  unfolding set_permissions
  set_permissions-once [] ctx w = refl
  set_permissions-once ((project, perm) ∷ ps) ctx w =
      let w' = (rights.set_user_project_permissions email project perm w).0 in
      ground (arith, set_permissions-once ps ctx w')

  pub set_permissions-ctx :
      (ps : List (String × ProjectRights)) (ctx : Context) (w : W)
      → (set_permissions cis rights email ps ctx w).ctx ≡ ctx
  unfolding set_permissions
  set_permissions-ctx [] ctx w = refl
  set_permissions-ctx ((project, perm) ∷ ps) ctx w =
      let w' = (rights.set_user_project_permissions email project perm w).0 in
      ground (arith, set_permissions-ctx ps ctx w')
