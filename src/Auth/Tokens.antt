-- ===== src/Auth/Tokens.antt =====
-- src/auth_manager.cpp, the tokens of logins. A time is in seconds.
pub mod Login
pub mod Answering
pub mod Lifetime
use cis1_webui_native_srv_cp.Prelude.{
  ℕ, ◌+◌, ◌*◌, ◌%◌, ◌^◌, Bool, true, false, List, [], ◌∷◌, map, Option, none, some, String, str_eq,
  ltb, ◌==◌, if◌then◌else◌,
}
use cis1_webui_native_srv_cp.Database.{
  User, Token, Tables, matching, insert_token, remove_tokens_with, remove_tokens_before,
}
use cis1_webui_native_srv_cp.Database.Transaction.{
  Storage, only, Tx, pure, ◌>>=◌, ◌>>◌, select, execute, attempt, commit, transaction,
}
use cis1_webui_native_srv_cp.Auth.Users.{users_with_pass}

abbrev pub tokens_with : String → Tables → List Token
tokens_with value t = matching (λ k. str_eq k.value value) t.tokens

-- `std::chrono::hours(24*7)` from now, as a uint64_t.
abbrev pub expiry : ℕ → ℕ
expiry now = (now + 24 * 7 * 3600) % 2 ^ 64

-- `users[0]`; none where the source would read past the end.
abbrev pub first : {A : Type 0} → List A → Option A
first [] = none
first (a ∷ rest) = some a

module _ (S : Storage) where
  -- The loop that draws a token until one is inserted. `draws` are the encodings of the random bytes
  -- that it will get; none where it would draw on.
  pub draw_token : List String → ℕ → ℕ → Tx S (Option String)
  draw_token [] user time = pure none
  draw_token (token_str ∷ draws) user time = do
    generated ← attempt (execute (insert_token user token_str time))
    elim generated [ none ↦ draw_token draws user time | some _ ↦ pure (some token_str) ]

  -- The outer none is that of `draw_token`.
  unfoldable pub authenticate :
      List String → ℕ → String → String → S.Db → S.Db × Option (Option String) × Bool
  unfolding draw_token
  authenticate draws now email pass = transaction {S = S} (some none) (do
    ids ← select (λ t. map (λ (u : User). u.id) (users_with_pass email pass t))
    elim (only ids) [
      | none ↦ pure (some none)
      | some id ↦ do
        token_str ← draw_token draws id (expiry now)
        elim token_str [ none ↦ pure none | some token ↦ commit >> pure (some (some token)) ]
    ])

  unfoldable pub authenticate_token : ℕ → String → S.Db → S.Db × Option String × Bool
  authenticate_token current_time token_value = transaction {S = S} none (do
    ids ← select (λ t. tokens_with token_value t)
    elim (only ids) [
      | none ↦ pure none
      | some k ↦
          if ltb k.expiration_time current_time
          then (do execute (remove_tokens_with token_value); commit; pure none)
          else do
            users ←
                select
                  (λ t. map (λ (u : User). u.email) (matching (λ u. u.id == k.user_id) t.users))
            commit
            pure (first users)
    ])

  unfoldable pub delete_token : String → S.Db → S.Db × Bool × Bool
  delete_token token_value =
      transaction {S = S} false (do execute (remove_tokens_with token_value); commit; pure true)

  -- `cleanup` has no try; the last component is whether the exception goes on. It comes again after
  -- twelve hours.
  unfoldable pub cleanup : ℕ → S.Db → S.Db × Bool × Bool
  cleanup current_time =
      transaction {S = S} false (do execute (remove_tokens_before current_time); commit; pure true)
