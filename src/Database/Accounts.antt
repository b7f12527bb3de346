-- ===== src/Database/Accounts.antt =====
-- The table of users as a map from emails to rows, which is how src/auth_manager.cpp and
-- src/rights_manager.cpp use it.
pub mod Changes
use cis1_webui_native_srv_cp.Prelude.{
  ℕ, ◌≡◌, refl, sym, ap, ◌∙◌, inl, inr, Bool-cases, Bool, true, false, ◌&&◌, ◌||◌, not, List, [],
  ◌∷◌, ◌++◌, Option, none, some, String, str_eq, eq_iff, eq_refl, ◌==◌, if◌then◌else◌, arith,
}
use cis1_webui_native_srv_cp.Database.{User, matching, updating, none_with}

-- Emails and ids are each one row's only.
unfoldable pub is_keyed : List User → Bool
is_keyed [] = true
is_keyed (u ∷ us) = none_with (λ v. str_eq v.email u.email || v.id == u.id) us && is_keyed us

unfoldable pub account : String → List User → Option User
account email [] = none
account email (u ∷ us) = if str_eq u.email email then some u else account email us

abbrev pub as_list {ℓ} : {A : Type ℓ} → Option A → List A
as_list none = []
as_list (some a) = a ∷ []

abbrev pub with_pass : String → Option User → Option User
with_pass pass none = none
with_pass pass (some u) = if str_eq u.pass pass then some u else none

pub none_with-account :
    (email : String) (id : ℕ) (us : List User)
    → none_with (λ v. str_eq v.email email || v.id == id) us ≡ true
    → account email us ≡ none
unfolding none_with account
none_with-account email id [] h = refl
none_with-account email id (u ∷ us) h = ground (arith, none_with-account email id us)

-- Emails that are equal have one account.
pub account-same : (a b : String) (us : List User) → str_eq a b ≡ true → account a us ≡ account b us
account-same a b us h = ap (λ e. account e us) ((eq_iff a b).0 h)

account-none-matching :
    (email : String) (us : List User)
    → account email us ≡ none
    → matching (λ u. str_eq u.email email) us ≡ []
unfolding account matching
account-none-matching email [] h = refl
account-none-matching email (u ∷ us) h = ground (arith, account-none-matching email us)

-- The rows with an email, in a table that is keyed.
pub matching-account :
    (email : String) (us : List User)
    → is_keyed us ≡ true
    → matching (λ u. str_eq u.email email) us ≡ as_list (account email us)
unfolding account matching is_keyed
matching-account email [] h = refl
matching-account email (u ∷ us) h = ground (
  arith,
  matching-account email us,
  none_with-account u.email u.id us,
  account-same u.email email us,
  account-none-matching email us,
)

account-none-pass :
    (email pass : String) (us : List User)
    → account email us ≡ none
    → matching (λ u. str_eq u.email email && str_eq u.pass pass) us ≡ []
unfolding account matching
account-none-pass email pass [] h = refl
account-none-pass email pass (u ∷ us) h = ground (arith, account-none-pass email pass us)

-- The rows with an email and a password.
pub matching-account-pass :
    (email pass : String) (us : List User)
    → is_keyed us ≡ true
    → matching (λ u. str_eq u.email email && str_eq u.pass pass) us
      ≡ as_list (with_pass pass (account email us))
unfolding account matching is_keyed
matching-account-pass email pass [] h = refl
matching-account-pass email pass (u ∷ us) h = ground (
  arith,
  matching-account-pass email pass us,
  none_with-account u.email u.id us,
  account-same u.email email us,
  account-none-pass email pass us,
)
