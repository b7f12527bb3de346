-- ===== src/Rights/Admin.antt =====
-- The methods of src/rights_manager.cpp on administrators implement the map of accounts.
use cis1_webui_native_srv_cp.Prelude.{◌≡◌, refl, ap, Bool, true, false, String}
use cis1_webui_native_srv_cp.Database.{meaning}
use cis1_webui_native_srv_cp.Database.Accounts.{is_keyed}
use cis1_webui_native_srv_cp.Database.Accounts.Changes.{is_keyed-update, updating-row}
use cis1_webui_native_srv_cp.Database.Transaction.{Storage, IsSqlite}
use cis1_webui_native_srv_cp.Database.Transaction.Outcome.{Returns, execute-Ends, commit-Ends}
use cis1_webui_native_srv_cp.Auth.Users.Accounts.{has_admin, set_admin, Follows, accounts-update}
use cis1_webui_native_srv_cp.Auth.Users.Refinement.{no_rows, one_row, by_account, unchanged}
use cis1_webui_native_srv_cp.Rights.{is_admin, set_admin_status}

module _ {S : Storage} (sqlite : IsSqlite S) (d : S.Db)
    (k : is_keyed (S.tables d).users ≡ true) where
  pub is_admin-Follows :
      (email : String)
      → Returns sqlite false (Follows (has_admin email) (S.tables d)) d (is_admin S email d)
  unfolding is_admin
  is_admin-Follows email =
      by_account sqlite d k (has_admin email) _ _ email false
        (λ e g o.
          rw (no_rows (S.tables d) email k e)
            (unchanged sqlite d k (has_admin email) false g o (rw (has_admin, e) refl)))
        (λ u e g o.
          rw (one_row (S.tables d) email k u e)
            (unchanged sqlite d k (has_admin email) u.admin g o (rw (has_admin, e) refl)))

  pub set_admin_status-Follows :
      (email : String) (admin : Bool)
      → Returns sqlite false
          (Follows (set_admin email admin) (S.tables d))
          d
          (set_admin_status S email admin d)
  unfolding set_admin_status Follows meaning
  set_admin_status-Follows email admin =
      by_account sqlite d k (set_admin email admin) _ _ email false
        (λ e g o.
          rw (no_rows (S.tables d) email k e)
            (unchanged sqlite d k (set_admin email admin) false g o (rw (set_admin, e) refl)))
        (λ u e g o. rw (one_row (S.tables d) email k u e) (
          execute-Ends sqlite _ _ g o (λ id g' o' h. commit-Ends sqlite true g' o' (
            rw (updating-row email u (λ v. record v { admin = admin }) (S.tables d).users k e) (
              is_keyed-update u.id (λ v. record v { admin = admin }) (S.tables d).users
                  (λ v. (refl, refl)) k,
              rw (set_admin, e)
                  (ap (λ m. (true, m))
                    (accounts-update email u (λ v. record v { admin = admin }) (S.tables d).users
                      (λ v. (refl, refl)) k e)),
            )))))
