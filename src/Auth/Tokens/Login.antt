-- ===== src/Auth/Tokens/Login.antt =====
-- What a login of src/auth_manager.cpp does to the tokens.
use cis1_webui_native_srv_cp.Prelude.{
  ℕ, List, ◌≡◌, refl, subst, true, Option, none, some, String, str_eq, Option-cases, inl, inr, ◌∷◌,
  [],
}
use cis1_webui_native_srv_cp.Database.{User, Tables, none_with, meaning, insert_token, admissible}
use cis1_webui_native_srv_cp.Database.Accounts.{with_pass, is_keyed, account, matching-account-pass}
use cis1_webui_native_srv_cp.Database.Transaction.{Storage, IsSqlite, Guard, Tx, pure, ◌>>◌, commit}
use cis1_webui_native_srv_cp.Database.Transaction.Outcome.{
  IsOpen, Meets, finished, Ends, Returns, select-Ends, commit-Ends, pure-Ends, transaction-Returns,
  bind-Meets, bind-Ends, attempt-Meets, Attempted,
}
use cis1_webui_native_srv_cp.Auth.Tokens.{expiry, draw_token, authenticate}

-- A row for a user with a value that no row had.
Inserted : ℕ → ℕ → Tables → Option String → Tables → Type 0
Inserted user time t none t' = t' ≡ t
Inserted user time t (some token) t' =
    (id : ℕ) × (none_with (λ k. str_eq k.value token) t.tokens ≡ true)
    × (t' ≡ meaning id (insert_token user token time) t)

-- What a login does: no account with the password, or a new token with its time, whose value no
-- token has; nothing where the draws did not do.
unfoldable pub LoggedIn : ℕ → String → String → Tables → Option (Option String) → Tables → Type 0
LoggedIn now email pass t none t' = t' ≡ t
LoggedIn now email pass t (some none) t' =
    (t' ≡ t) × (with_pass pass (account email t.users) ≡ none)
LoggedIn now email pass t (some (some token)) t' =
    (u : User) × (id : ℕ) × (with_pass pass (account email t.users) ≡ some u)
    × (none_with (λ k. str_eq k.value token) t.tokens ≡ true)
    × (t' ≡ meaning id (insert_token u.id token (expiry now)) t)

module _ {S : Storage} (sqlite : IsSqlite S) where
  -- What follows an attempt to insert a drawn token.
  after_draw :
      {t0 t : Tables} (token : String) (draws : List String) (user time : ℕ)
      → ((g : Guard S)
          → IsOpen sqlite t0 t g
          → Meets sqlite t0 (Inserted user time t) (draw_token S draws user time g))
      → (a : Option ℕ) (t' : Tables) (g : Guard S) → IsOpen sqlite t0 t' g
      → Attempted sqlite (insert_token user token time) t a t'
      → Meets sqlite t0 (Inserted user time t) (
          (elim a as (λ _. Tx S (Option String)) [
            | none ↦ draw_token S draws user time
            | some _ ↦ pure (some token)
          ])
            g)
  unfolding Inserted admissible
  after_draw {t0 = t0} token draws user time rest none t' g o q =
      rest g (subst (λ x. IsOpen sqlite t0 x g) q o)
  after_draw token draws user time rest (some id) t' g o q = finished o (id, q.1, q.0)

  draw_token-Inserted :
      {t0 t : Tables} (draws : List String) (user time : ℕ) (g : Guard S)
      → IsOpen sqlite t0 t g
      → Meets sqlite t0 (Inserted user time t) (draw_token S draws user time g)
  unfolding draw_token Inserted
  draw_token-Inserted [] user time g o = finished o refl
  draw_token-Inserted (token ∷ draws) user time g o =
      bind-Meets sqlite _ _ (attempt-Meets sqlite (insert_token user token time) g o)
        (after_draw token draws user time (draw_token-Inserted draws user time))

  module _ (d : S.Db) (k : is_keyed (S.tables d).users ≡ true) where
    -- The end of a login, by what the draws gave.
    after_token :
        (now : ℕ) (email pass : String) (u : User)
        → with_pass pass (account email (S.tables d).users) ≡ some u
        → (a : Option String) (t : Tables) (g : Guard S) → IsOpen sqlite (S.tables d) t g
        → Inserted u.id (expiry now) (S.tables d) a t
        → Ends sqlite (S.tables d) (LoggedIn now email pass (S.tables d)) (
            (elim a as (λ _. Tx S (Option (Option String))) [
              | none ↦ pure none
              | some token ↦ commit >> pure (some (some token))
            ])
              g)
    unfolding LoggedIn Inserted
    after_token now email pass u e none t g o q = pure-Ends sqlite none g o refl
    after_token now email pass u e (some token) t g o (id, fresh, made) =
        commit-Ends sqlite (some (some token)) g o (u, id, e, fresh, made)

    -- A login answers with no token, as the account and the password do not fit, or with a new one
    -- that is stored for the account with the time of its end; or it does not answer, as no drawn
    -- token could be stored.
    pub authenticate-LoggedIn :
        (draws : List String) (now : ℕ) (email pass : String)
        → Returns sqlite
            (some none)
            (LoggedIn now email pass (S.tables d))
            d
            (authenticate S draws now email pass d)
    unfolding authenticate LoggedIn Inserted
    authenticate-LoggedIn draws now email pass =
        transaction-Returns sqlite (LoggedIn now email pass (S.tables d)) (some none) _ d (λ g o.
          select-Ends sqlite _ _ g o (λ g' o'.
            elim (Option-cases (with_pass pass (account email (S.tables d).users))) [
              | inl e ↦
                  rw (matching-account-pass email pass (S.tables d).users k, e)
                    (pure-Ends sqlite (some none) g' o' (refl, e))
              | inr (u, e) ↦
                  rw (matching-account-pass email pass (S.tables d).users k, e)
                    (bind-Ends sqlite _ _ (draw_token-Inserted draws u.id (expiry now) g' o')
                      (after_token now email pass u e))
            ]))
