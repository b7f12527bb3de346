-- ===== src/Auth/Users/Accounts.antt =====
-- What the methods of src/auth_manager.cpp on users promise: a map from emails to passwords and
-- administrators, that the table of users implements.
use cis1_webui_native_srv_cp.Prelude.{
  not, ◌==◌, List, ◌++◌, ◌≡◌, sym, ap, ◌∙◌, fun_ext, Bool, true, false, Option, none, some, String,
  str_eq, eq_iff, if◌then◌else◌, arith, ◌∷◌, [],
}
use cis1_webui_native_srv_cp.Database.{User, Tables, matching, updating}
use cis1_webui_native_srv_cp.Database.Accounts.{as_list, is_keyed, account, matching-account}
use cis1_webui_native_srv_cp.Database.Accounts.Changes.{
  account-append, account-remove, account-update,
}
use cis1_webui_native_srv_cp.Auth.Users.{users_with}

-- The password of an account, and whether it is an administrator's.
abbrev pub Accounts : Type 0
Accounts = String → Option (String × Bool)

abbrev pub view : Option User → Option (String × Bool)
view none = none
view (some u) = some (u.pass, u.admin)

abbrev pub accounts : Tables → Accounts
accounts t email = view (account email t.users)

abbrev pub put : String → String × Bool → Accounts → Accounts
put email entry m e = if str_eq email e then some entry else m e

abbrev pub delete : String → Accounts → Accounts
delete email m e = if str_eq email e then none else m e

-- What the methods do with the map, and what they answer.
abbrev pub add_account : String → String → Bool → Accounts → Bool × Accounts
add_account email pass admin m = elim (m email) [
  | none ↦ (true, put email (pass, admin) m)
  | some _ ↦ (false, m)
]

abbrev pub set_pass : String → String → Accounts → Bool × Accounts
set_pass email pass m =
    if str_eq pass ""
    then (false, m)
    else elim (m email) [ none ↦ (false, m) | some (_, admin) ↦ (true, put email (pass, admin) m) ]

abbrev pub set_admin : String → Bool → Accounts → Bool × Accounts
set_admin email admin m = elim (m email) [
  | none ↦ (false, m)
  | some (pass, _) ↦ (true, put email (pass, admin) m)
]

abbrev pub drop_account : String → Accounts → Bool × Accounts
drop_account email m = elim (m email) [ none ↦ (false, m) | some _ ↦ (true, delete email m) ]

abbrev pub has_account : String → Accounts → Bool × Accounts
has_account email m = elim (m email) [ none ↦ (false, m) | some _ ↦ (true, m) ]

abbrev pub has_pass : String → String → Accounts → Option Bool × Accounts
has_pass email pass m = elim (m email) [
  | none ↦ (some false, m)
  | some (p, _) ↦ (some (str_eq p pass), m)
]

abbrev pub has_admin : String → Accounts → Bool × Accounts
has_admin email m = elim (m email) [ none ↦ (false, m) | some (_, admin) ↦ (admin, m) ]

-- The answer and the tables are those of an operation of the map, and the table is keyed.
unfoldable pub Follows : {A : Type 0} → (Accounts → A × Accounts) → Tables → A → Tables → Type 0
Follows spec t a t' = (is_keyed t'.users ≡ true) × ((a, accounts t') ≡ spec (accounts t))

module _ (t : Tables) (email : String) (k : is_keyed t.users ≡ true) where
  no_rows : account email t.users ≡ none → users_with email t ≡ []
  no_rows e = matching-account email t.users k ∙ ap as_list e

  one_row : (u : User) → account email t.users ≡ some u → users_with email t ≡ u ∷ []
  one_row u e = matching-account email t.users k ∙ ap as_list e

-- Tables that an operation leaves as they are.
pub Follows-stay :
    {A : Type 0} (spec : Accounts → A × Accounts) (t : Tables) (a : A)
    → is_keyed t.users ≡ true
    → spec (accounts t) ≡ (a, accounts t)
    → Follows spec t a t
unfolding Follows
Follows-stay spec t a k e = (k, sym e)

pub accounts-append :
    (u : User) (us : List User)
    → account u.email us ≡ none
    → (λ e. view (account e (us ++ u ∷ [])))
      ≡ put u.email (u.pass, u.admin) (λ e. view (account e us))
accounts-append u us e =
    fun_ext (λ other. ground (arith, account-append other us u, eq_iff u.email other, e))

pub accounts-remove :
    (email : String) (u : User) (us : List User)
    → is_keyed us ≡ true
    → account email us ≡ some u
    → (λ e. view (account e (matching (λ v. not (v.id == u.id)) us)))
      ≡ delete email (λ e. view (account e us))
accounts-remove email u us k e =
    fun_ext (λ other. ground (arith, account-remove email other u us k e))

pub accounts-update :
    (email : String) (u : User) (f : User → User) (us : List User)
    → ((v : User) → ((f v).email ≡ v.email) × ((f v).id ≡ v.id))
    → is_keyed us ≡ true
    → account email us ≡ some u
    → (λ e. view (account e (updating (λ v. v.id == u.id) f us)))
      ≡ put email ((f u).pass, (f u).admin) (λ e. view (account e us))
accounts-update email u f us c k e = fun_ext (λ other.
    ground (arith, account-update email other u f us (λ v. ap (λ m. str_eq m other) (c v).0) k e))
