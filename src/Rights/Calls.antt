-- ===== src/Rights/Calls.antt =====
-- Every method of src/auth_manager.cpp and src/rights_manager.cpp about accounts, as one operation
-- of the map of accounts, and what a sequence of calls keeps.
use cis1_webui_native_srv_cp.Prelude.{
  ◌≡◌, Bool, true, false, List, [], ◌∷◌, String, inl, inr, ap, ◌∙◌,
}
use cis1_webui_native_srv_cp.Database.{Tables}
use cis1_webui_native_srv_cp.Database.Accounts.{is_keyed}
use cis1_webui_native_srv_cp.Database.Transaction.{Storage, IsSqlite}
use cis1_webui_native_srv_cp.Database.Transaction.Outcome.{Returns}
use cis1_webui_native_srv_cp.Auth.Users.{has_user, add_user, change_pass, delete_user}
use cis1_webui_native_srv_cp.Auth.Users.Accounts.{
  Accounts, add_account, set_pass, drop_account, has_account, has_admin, set_admin, Follows,
}
use cis1_webui_native_srv_cp.Auth.Users.Refinement.{
  has_user-Follows, add_user-Follows, change_pass-Follows, delete_user-Follows,
}
use cis1_webui_native_srv_cp.Rights.{is_admin, set_admin_status}
use cis1_webui_native_srv_cp.Rights.Admin.{is_admin-Follows, set_admin_status-Follows}

pub data Call : Type 0 where
  to_has_user to_delete_user to_is_admin : String → Call
  to_add_user : String → String → Bool → Call
  to_change_pass : String → String → Call
  to_set_admin_status : String → Bool → Call

abbrev pub call : (S : Storage) → Call → S.Db → S.Db × Bool × Bool
call S (to_has_user email) = has_user S email
call S (to_delete_user email) = delete_user S email
call S (to_is_admin email) = is_admin S email
call S (to_add_user email pass admin) = add_user S email pass admin
call S (to_change_pass email pass) = change_pass S email pass
call S (to_set_admin_status email admin) = set_admin_status S email admin

abbrev pub on_accounts : Call → Accounts → Bool × Accounts
on_accounts (to_has_user email) = has_account email
on_accounts (to_delete_user email) = drop_account email
on_accounts (to_is_admin email) = has_admin email
on_accounts (to_add_user email pass admin) = add_account email pass admin
on_accounts (to_change_pass email pass) = set_pass email pass
on_accounts (to_set_admin_status email admin) = set_admin email admin

abbrev pub call_all : (S : Storage) → List Call → S.Db → S.Db
call_all S [] d = d
call_all S (c ∷ cs) d = call_all S cs (call S c d).0

module _ {S : Storage} (sqlite : IsSqlite S) where
  -- A call on a database whose users are keyed by email and id either sets the error code, answers
  -- false and leaves the tables as they are; or it answers, and makes of the accounts, what the
  -- operation of the map does, and the users are keyed again.
  pub call-Follows :
      (c : Call) (d : S.Db)
      → is_keyed (S.tables d).users ≡ true
      → Returns sqlite false (Follows (on_accounts c) (S.tables d)) d (call S c d)
  call-Follows (to_has_user email) d k = has_user-Follows sqlite d k email
  call-Follows (to_delete_user email) d k = delete_user-Follows sqlite d k email
  call-Follows (to_is_admin email) d k = is_admin-Follows sqlite d k email
  call-Follows (to_add_user email pass admin) d k = add_user-Follows sqlite d k email pass admin
  call-Follows (to_change_pass email pass) d k = change_pass-Follows sqlite d k email pass
  call-Follows (to_set_admin_status email admin) d k =
      set_admin_status-Follows sqlite d k email admin

  keyed_after :
      (c : Call) (d : S.Db) (out : S.Db × Bool × Bool)
      → is_keyed (S.tables d).users ≡ true
      → Returns sqlite false (Follows (on_accounts c) (S.tables d)) d out
      → is_keyed (S.tables out.0).users ≡ true
  unfolding Follows
  keyed_after c d out k (inl (ec, default, same)) = ap (λ (t : Tables). is_keyed t.users) same ∙ k
  keyed_after c d out k (inr (ec, q)) = q.0

  -- After any sequence of calls, failed ones included, no two users share an email or an id.
  pub is_keyed-call_all :
      (cs : List Call) (d : S.Db)
      → is_keyed (S.tables d).users ≡ true
      → is_keyed (S.tables (call_all S cs d)).users ≡ true
  is_keyed-call_all [] d k = k
  is_keyed-call_all (c ∷ cs) d k =
      is_keyed-call_all cs (call S c d).0 (keyed_after c d (call S c d) k (call-Follows c d k))
