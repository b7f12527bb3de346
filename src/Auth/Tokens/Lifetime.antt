-- ===== src/Auth/Tokens/Lifetime.antt =====
-- How long a token of src/auth_manager.cpp lets its user in.
use cis1_webui_native_srv_cp.Prelude.{
  ℕ, ◌+◌, ◌*◌, ◌≤◌, ◌<◌, ◌^◌, ◌==◌, ltb, List, ◌++◌, ◌≡◌, refl, ap, ◌∙◌, subst, Bool, true, false,
  Option, none, some, String, str_eq, eq_refl, Option-cases, arith, inl, inr, ◌∷◌, [], not,
}
use cis1_webui_native_srv_cp.Database.{User, Token, Tables, matching, none_with, meaning}
use cis1_webui_native_srv_cp.Database.Accounts.{with_pass, is_keyed, account}
use cis1_webui_native_srv_cp.Database.Accounts.Changes.{matching-account-id, account-email}
use cis1_webui_native_srv_cp.Database.Transaction.{Storage, IsSqlite}
use cis1_webui_native_srv_cp.Database.Transaction.Outcome.{
  Returns, select-Ends, execute-Ends, commit-Ends, transaction-Returns,
}
use cis1_webui_native_srv_cp.Auth.Tokens.{tokens_with, expiry, authenticate, authenticate_token}
use cis1_webui_native_srv_cp.Auth.Tokens.Login.{LoggedIn, authenticate-LoggedIn}

matching-fresh :
    (k : Token) (ks : List Token)
    → none_with (λ j. str_eq j.value k.value) ks ≡ true
    → matching (λ j. str_eq j.value k.value) (ks ++ k ∷ []) ≡ k ∷ []
unfolding none_with matching
matching-fresh k [] h = ground (arith, eq_refl k.value)
matching-fresh k (j ∷ ks) h = ground (arith, matching-fresh k ks)

matching-gone :
    (value : String) (ks : List Token)
    → matching (λ k. str_eq k.value value) (matching (λ k. not (str_eq k.value value)) ks) ≡ []
unfolding matching
matching-gone value [] = refl
matching-gone value (k ∷ ks) = ground (arith, matching-gone value ks)

-- The account of a user with a password, as a row.
with_pass-row :
    (email pass : String) (u : User) (us : List User)
    → with_pass pass (account email us) ≡ some u
    → account email us ≡ some u
with_pass-row email pass u us e = elim (Option-cases (account email us)) [
  | inl f ↦ ground (arith, e, f)
  | inr (v, f) ↦ ground (arith, e, f)
]

-- A token that lets a user in, with nothing changed; one that does not, and is not there any more.
abbrev pub LetsIn : String → Tables → Option String → Tables → Type 0
LetsIn email t a t' = (a ≡ some email) × (t' ≡ t)

abbrev pub IsExpired : String → Option String → Tables → Type 0
IsExpired token a t' = (a ≡ none) × (tokens_with token t' ≡ [])

module _ {S : Storage} (sqlite : IsSqlite S) (d : S.Db) where
  -- The token of a row, asked for before and after its end.
  module _ (k : Token) (rows : tokens_with k.value (S.tables d) ≡ k ∷ []) where
    live-Returns :
        (u : User) (now : ℕ)
        → matching (λ v. v.id == k.user_id) (S.tables d).users ≡ u ∷ []
        → ltb k.expiration_time now ≡ false
        → Returns sqlite none (LetsIn u.email (S.tables d)) d (authenticate_token S now k.value d)
    unfolding authenticate_token
    live-Returns u now owner live =
        transaction-Returns sqlite (LetsIn u.email (S.tables d)) none _ d (λ g o.
          select-Ends sqlite _ _ g o (λ g' o'.
            rw (rows, live)
              (select-Ends sqlite _ _ g' o'
                (λ g'' o''. rw owner (commit-Ends sqlite (some u.email) g'' o'' (refl, refl))))))

    late-Returns :
        (now : ℕ)
        → ltb k.expiration_time now ≡ true
        → Returns sqlite none (IsExpired k.value) d (authenticate_token S now k.value d)
    unfolding authenticate_token meaning
    late-Returns now late = transaction-Returns sqlite (IsExpired k.value) none _ d (λ g o.
        select-Ends sqlite _ _ g o (λ g' o'.
          rw (rows, late)
            (execute-Ends sqlite _ _ g' o' (λ id g'' o'' h.
              commit-Ends sqlite none g'' o'' (refl, matching-gone k.value (S.tables d).tokens)))))

abbrev row : ℕ → ℕ → String → ℕ → Token
row id user token time = record { id = id; user_id = user; value = token; expiration_time = time }

module _ {S : Storage} (sqlite : IsSqlite S) (d : S.Db) (k : is_keyed (S.tables d).users ≡ true)
    (draws : List String) (now : ℕ) (email pass token : String) where
  -- The tables behind a login that gave a token.
  issued :
      (out : S.Db × Option (Option String) × Bool)
      → Returns sqlite (some none) (LoggedIn now email pass (S.tables d)) d out
      → out.1 ≡ some (some token)
      → (u : User) × (id : ℕ) × (u.email ≡ email)
        × (tokens_with token (S.tables out.0) ≡ row id u.id token (expiry now) ∷ [])
        × (matching (λ v. v.id == u.id) (S.tables out.0).users ≡ u ∷ [])
  unfolding LoggedIn meaning
  issued out (inl (ec, default, same)) e = absurd (ground (arith, default, e))
  issued out (inr (ec, q)) e =
      let (u, id, fits, fresh, made) =
        subst (λ a. LoggedIn now email pass (S.tables d) a (S.tables out.0)) e q in
      let found = with_pass-row email pass u (S.tables d).users fits in
      (
        u,
        id,
        account-email email u (S.tables d).users found,
        ap (tokens_with token) made
            ∙ matching-fresh (row id u.id token (expiry now)) (S.tables d).tokens fresh,
        ap (λ (t : Tables). matching (λ v. v.id == u.id) t.users) made
            ∙ matching-account-id email u (S.tables d).users k found,
      )

  module _ (later : ℕ) (bound : now + 24 * 7 * 3600 < 2 ^ 64)
      (e : (authenticate S draws now email pass d).1 ≡ some (some token)) where
    abbrev after : S.Db
    after = (authenticate S draws now email pass d).0

    -- On the database that the login left, the token of a login lets its user in, without a change to
    -- the tables, up to seven days later, or the error code is set and nothing is changed.
    pub authenticate_token-LetsIn :
        later ≤ now + 24 * 7 * 3600
        → Returns sqlite none
            (LetsIn email (S.tables after))
            after
            (authenticate_token S later token after)
    authenticate_token-LetsIn h =
        let (u, id, own, rows, owner) =
          issued _ (authenticate-LoggedIn sqlite d k draws now email pass) e in
        subst
          (λ m.
            Returns sqlite none (LetsIn m (S.tables after)) after
              (authenticate_token S later token after))
          own
          (live-Returns sqlite after (row id u.id token (expiry now)) rows u later owner
            (ground arith))

    -- More than seven days later the token of a login does not let anybody in, and no row has it any
    -- more, or the error code is set and nothing is changed.
    pub authenticate_token-IsExpired :
        now + 24 * 7 * 3600 < later
        → Returns sqlite none (IsExpired token) after (authenticate_token S later token after)
    authenticate_token-IsExpired h =
        let (u, id, own, rows, owner) =
          issued _ (authenticate-LoggedIn sqlite d k draws now email pass) e in
        late-Returns sqlite after (row id u.id token (expiry now)) rows later (ground arith)
