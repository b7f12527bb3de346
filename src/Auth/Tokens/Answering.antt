-- ===== src/Auth/Tokens/Answering.antt =====
-- That the loop of src/auth_manager.cpp which draws tokens ends.
use cis1_webui_native_srv_cp.Prelude.{
  ℕ, ◌≡◌, refl, sym, ap, ◌∙◌, subst, Bool, true, false, ◌||◌, ◌&&◌, List, [], ◌∷◌, none, some,
  String, str_eq, arith, Option-cases, Bool-cases, inl, inr,
}
use cis1_webui_native_srv_cp.Database.{
  User, Tables, Statement, matching, none_with, insert_token, admissible,
}
use cis1_webui_native_srv_cp.Database.Accounts.{
  as_list, with_pass, is_keyed, account, matching-account-pass,
}
use cis1_webui_native_srv_cp.Database.Transaction.{
  Storage, IsSqlite, Guard, done, select, execute, attempt, commit, leave, transaction,
}
use cis1_webui_native_srv_cp.Auth.Tokens.{draw_token, authenticate, expiry}

-- A storage that does not fail, but for the keys of a statement.
pub record IsReliable (S : Storage) : Type 0 where
  pub begins : (d : S.Db) → (S.begin_transaction d).1 ≡ true
  pub queries : (d : S.Db) → (S.query d).1 ≡ true
  pub commits : (d : S.Db) → (S.commit d).1 ≡ true
  pub executes :
      (s : Statement) (d : S.Db)
      → ((id : ℕ) → admissible id s (S.tables d) ≡ true)
      → (id : ℕ) × ((S.execute s d).1 ≡ some id)

-- Whether a text is the value of no token, and whether one of the drawn texts is.
abbrev pub is_fresh : String → Tables → Bool
is_fresh value t = none_with (λ k. str_eq k.value value) t.tokens

abbrev pub any_fresh : List String → Tables → Bool
any_fresh [] t = false
any_fresh (value ∷ draws) t = is_fresh value t || any_fresh draws t

module _ {S : Storage} (sqlite : IsSqlite S) (reliable : IsReliable S) where
  failed-not_fresh :
      (value : String) (user time : ℕ) (d : S.Db)
      → (S.execute (insert_token user value time) d).1 ≡ none
      → is_fresh value (S.tables d) ≡ false
  unfolding admissible
  failed-not_fresh value user time d e = elim (Bool-cases (is_fresh value (S.tables d))) [
    | inl fresh ↦
        let (id, made) = reliable.executes (insert_token user value time) d (λ id. fresh) in
        absurd (ground (arith, made, e))
    | inr taken ↦ taken
  ]

  draw_token-answers :
      (draws : List String) (user time : ℕ) (g : Guard S)
      → any_fresh draws (S.tables g.db) ≡ true
      → (token : String) × (g' : Guard S) × (draw_token S draws user time g ≡ done (some token) g')
        × (g'.rollback_ ≡ g.rollback_)
  unfolding draw_token attempt execute
  draw_token-answers [] user time g h = absurd (ground arith)
  draw_token-answers (value ∷ draws) user time g h =
      let d' : S.Db = (S.execute (insert_token user value time) g.db).0 in
      elim (Option-cases (S.execute (insert_token user value time) g.db).1) [
        | inl e ↦
            let same = sqlite.execute_failed (insert_token user value time) g.db e in
            let (token, g', run, open_) =
              draw_token-answers draws user time (record g { db = d' })
                (subst (λ t. any_fresh draws t ≡ true) (sym same)
                  (ground (arith, failed-not_fresh value user time g.db e, h))) in
            (token, g', rw (attempt, execute, e) run, open_)
        | inr (id, e) ↦ (value, record g { db = d' }, rw (attempt, execute, e) refl, refl)
      ]

  -- On a storage that does not fail but for the keys of a statement, a login with the password of an
  -- account is answered with a token where one of the drawn texts is no token's value.
  pub authenticate-answers :
      (d : S.Db) (draws : List String) (now : ℕ) (email pass : String) (u : User)
      → is_keyed (S.tables d).users ≡ true
      → with_pass pass (account email (S.tables d).users) ≡ some u
      → any_fresh draws (S.tables d) ≡ true
      → (token : String) × ((authenticate S draws now email pass d).1 ≡ some (some token))
  unfolding authenticate transaction select commit leave
  authenticate-answers d draws now email pass u k fits h =
      let d1 : S.Db = (S.begin_transaction d).0 in
      let d2 : S.Db = (S.query d1).0 in
      let begun = sqlite.begin_tables d in
      let rows =
        ap (λ (t : Tables). matching (λ v. str_eq v.email email && str_eq v.pass pass) t.users)
          begun
        ∙ matching-account-pass email pass (S.tables d).users k
        ∙ ap as_list fits in
      let (token, g', run, open_) =
        draw_token-answers draws u.id (expiry now) (record { db = d2; rollback_ = true })
          (subst (λ t. any_fresh draws t ≡ true) (sym (sqlite.query_tables d1 ∙ begun)) h) in
      (
        token,
        rw
            (
              reliable.begins d,
              reliable.queries d1,
              rows,
              run,
              commit,
              open_,
              reliable.commits g'.db,
            )
            refl,
      )
