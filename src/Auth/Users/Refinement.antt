-- ===== src/Auth/Users/Refinement.antt =====
-- The methods of src/auth_manager.cpp on users implement the map of accounts.
use cis1_webui_native_srv_cp.Prelude.{
  ◌==◌, length, map, ◌≡◌, refl, ap, ◌∙◌, Bool, true, false, Option, none, some, String, str_eq,
  Option-cases, if◌then◌else◌, arith, inl, inr, ◌∷◌, [],
}
use cis1_webui_native_srv_cp.Database.{User, Tables, meaning, admissible}
use cis1_webui_native_srv_cp.Database.Accounts.{
  as_list, with_pass, is_keyed, account, matching-account, matching-account-pass,
}
use cis1_webui_native_srv_cp.Database.Accounts.Changes.{
  is_keyed-append, is_keyed-update, is_keyed-remove,
}
use cis1_webui_native_srv_cp.Database.Transaction.{
  Storage, IsSqlite, Guard, Tx, pure, ◌>>=◌, select, transaction,
}
use cis1_webui_native_srv_cp.Database.Transaction.Outcome.{
  IsOpen, Ends, Returns, select-Ends, execute-Ends, commit-Ends, pure-Ends, transaction-Returns,
}
use cis1_webui_native_srv_cp.Auth.Users.{
  users_with, users_with_pass, has_user, check_pass, add_user, change_pass, delete_user,
}
use cis1_webui_native_srv_cp.Auth.Users.Accounts.{
  Accounts, accounts, add_account, set_pass, drop_account, has_account, has_pass, Follows,
  Follows-stay, accounts-append, accounts-remove, accounts-update,
}

module _ (t : Tables) (email : String) (k : is_keyed t.users ≡ true) where
  pub no_rows : account email t.users ≡ none → users_with email t ≡ []
  no_rows e = matching-account email t.users k ∙ ap as_list e

  pub one_row : (u : User) → account email t.users ≡ some u → users_with email t ≡ u ∷ []
  one_row u e = matching-account email t.users k ∙ ap as_list e

  pass_rows :
      (pass : String) (o : Option User)
      → account email t.users ≡ o
      → users_with_pass email pass t ≡ as_list (with_pass pass o)
  pass_rows pass o e =
      matching-account-pass email pass t.users k ∙ ap (λ a. as_list (with_pass pass a)) e

count_one :
    (u : User) (pass : String)
    → str_eq u.pass pass
      ≡ (length (map (λ (v : User). v.id) (as_list (with_pass pass (some u)))) == 1)
count_one u pass = ground arith

module _ {S : Storage} (sqlite : IsSqlite S) {A : Type 0} (Q : A → Tables → Type 0) (d : S.Db) where
  if-Returns :
      {default a : A} (b : Bool) {r : S.Db × A × Bool}
      → (b ≡ true → Returns sqlite default Q d (d, a, false))
      → (b ≡ false → Returns sqlite default Q d r)
      → Returns sqlite default Q d (if b then (d, a, false) else r)
  if-Returns true y n = y refl
  if-Returns false y n = n refl

module _ {S : Storage} (sqlite : IsSqlite S) (d : S.Db)
    (k : is_keyed (S.tables d).users ≡ true) where
  -- A body that begins with a query by email, by the account that it finds. Where there is none, or
  -- where nothing is to change, it leaves the tables.
  module _ {A B : Type 0} (spec : Accounts → A × Accounts) (f : Tables → B)
      (body : B → Tx S A) where
    pub by_account :
        (email : String) (default : A)
        → (account email (S.tables d).users ≡ none
            → (g : Guard S) → IsOpen sqlite (S.tables d) (S.tables d) g
            → Ends sqlite (S.tables d) (Follows spec (S.tables d)) (body (f (S.tables d)) g))
        → ((u : User)
            → account email (S.tables d).users ≡ some u
            → (g : Guard S) → IsOpen sqlite (S.tables d) (S.tables d) g
            → Ends sqlite (S.tables d) (Follows spec (S.tables d)) (body (f (S.tables d)) g))
        → Returns sqlite default
            (Follows spec (S.tables d))
            d
            (transaction default (select f >>= body) d)
    by_account email default absent present =
        transaction-Returns sqlite (Follows spec (S.tables d)) default _ d (λ g o.
          select-Ends sqlite f body g o (λ g' o'.
            elim (Option-cases (account email (S.tables d).users)) [
              | inl e ↦ absent e g' o'
              | inr (u, e) ↦ present u e g' o'
            ]))

  -- Without a commit the tables are as before.
  pub unchanged :
      {A : Type 0} (spec : Accounts → A × Accounts) (a : A) (g : Guard S)
      → IsOpen sqlite (S.tables d) (S.tables d) g
      → spec (accounts (S.tables d)) ≡ (a, accounts (S.tables d))
      → Ends sqlite (S.tables d) (Follows spec (S.tables d)) (pure a g)
  unchanged spec a g o e = pure-Ends sqlite a g o (Follows-stay spec (S.tables d) a k e)

  pub has_user-Follows :
      (email : String)
      → Returns sqlite false (Follows (has_account email) (S.tables d)) d (has_user S email d)
  unfolding has_user
  has_user-Follows email =
      by_account (has_account email) _ _ email false
        (λ e g o.
          rw (no_rows (S.tables d) email k e)
            (unchanged (has_account email) false g o (rw (has_account, e) refl)))
        (λ u e g o. rw (one_row (S.tables d) email k u e) (
          commit-Ends sqlite true g o
            (Follows-stay (has_account email) (S.tables d) true k (rw (has_account, e) refl))))

  -- The check of a password says whether the account exists and has the password, and leaves the
  -- tables as they are, or it throws and leaves them too.
  pub check_pass-Follows :
      (email pass : String)
      → Returns sqlite none
          (Follows (has_pass email pass) (S.tables d))
          d
          (check_pass S email pass d)
  unfolding check_pass
  check_pass-Follows email pass =
      by_account (has_pass email pass) _ _ email none
        (λ e g o.
          rw (pass_rows (S.tables d) email k pass none e)
            (unchanged (has_pass email pass) (some false) g o (rw (has_pass, e) refl)))
        (λ u e g o. rw (pass_rows (S.tables d) email k pass (some u) e) (
          unchanged (has_pass email pass) _ g o
            (rw (has_pass, e) (ap (λ b. (some b, accounts (S.tables d))) (count_one u pass)))))

  pub add_user-Follows :
      (email pass : String) (admin : Bool)
      → Returns sqlite false
          (Follows (add_account email pass admin) (S.tables d))
          d
          (add_user S email pass admin d)
  unfolding add_user Follows admissible meaning
  add_user-Follows email pass admin =
      by_account (add_account email pass admin) _ _ email false
        (λ e g o. rw (no_rows (S.tables d) email k e) (
          execute-Ends sqlite _ _ g o (λ id g' o' h. commit-Ends sqlite true g' o' (
            is_keyed-append (S.tables d).users _ k h,
            rw (add_account, e) (ap (λ m. (true, m)) (accounts-append _ (S.tables d).users e)),
          ))))
        (λ u e g o.
          rw (one_row (S.tables d) email k u e)
            (unchanged (add_account email pass admin) false g o (rw (add_account, e) refl)))

  pub delete_user-Follows :
      (email : String)
      → Returns sqlite false (Follows (drop_account email) (S.tables d)) d (delete_user S email d)
  unfolding delete_user Follows meaning
  delete_user-Follows email =
      by_account (drop_account email) _ _ email false
        (λ e g o.
          rw (no_rows (S.tables d) email k e)
            (unchanged (drop_account email) false g o (rw (drop_account, e) refl)))
        (λ u e g o. rw (one_row (S.tables d) email k u e) (
          execute-Ends sqlite _ _ g o (λ id g' o' h. commit-Ends sqlite true g' o' (
            is_keyed-remove u.id (S.tables d).users k,
            rw (drop_account, e)
                (ap (λ m. (true, m)) (accounts-remove email u (S.tables d).users k e)),
          ))))

  pub change_pass-Follows :
      (email pass : String)
      → Returns sqlite false
          (Follows (set_pass email pass) (S.tables d))
          d
          (change_pass S email pass d)
  unfolding change_pass Follows meaning
  change_pass-Follows email pass =
      if-Returns sqlite (Follows (set_pass email pass) (S.tables d)) d (str_eq pass "")
        (λ e.
          inr
            (refl, Follows-stay (set_pass email pass) (S.tables d) false k (rw (set_pass, e) refl)))
        (λ e.
          by_account (set_pass email pass) _ _ email false
            (λ e' g o.
              rw (no_rows (S.tables d) email k e')
                (unchanged (set_pass email pass) false g o (rw (set_pass, e, e') refl)))
            (λ u e' g o. rw (one_row (S.tables d) email k u e') (
              execute-Ends sqlite _ _ g o (λ id g' o' h. commit-Ends sqlite true g' o' (
                is_keyed-update u.id (λ v. record v { pass = pass }) (S.tables d).users
                    (λ v. (refl, refl)) k,
                rw (set_pass, e, e')
                    (ap (λ m. (true, m))
                      (accounts-update email u (λ v. record v { pass = pass }) (S.tables d).users
                        (λ v. (refl, refl)) k e')),
              )))))
