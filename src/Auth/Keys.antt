-- ===== src/Auth/Keys.antt =====
-- src/auth_manager.cpp, the access keys, and the lists of users with them.
use cis1_webui_native_srv_cp.Prelude.{
  ℕ, Bool, true, false, ◌&&◌, List, [], ◌∷◌, ◌++◌, map, Option, none, some, String, str_eq, ◌==◌,
  if◌then◌else◌,
}
use cis1_webui_native_srv_cp.Managers.{UserInfo}
use cis1_webui_native_srv_cp.Database.{User, ApiAccessKey, Tables, matching, insert_key, remove_key}
use cis1_webui_native_srv_cp.Database.Transaction.{
  Storage, only, Tx, pure, ◌>>=◌, ◌>>◌, select, execute, attempt, commit, transaction,
}
use cis1_webui_native_srv_cp.Auth.Users.{users_with}

-- The inner join of a key with the users, by an email.
abbrev pub owners : String → List User → ApiAccessKey → List ApiAccessKey
owners email [] k = []
owners email (u ∷ us) k =
    let rest = owners email us k in
    if (u.id == k.user_id) && str_eq u.email email then k ∷ rest else rest

abbrev pub joined_keys : String → List User → List ApiAccessKey → List ApiAccessKey
joined_keys email us [] = []
joined_keys email us (k ∷ ks) = owners email us k ++ joined_keys email us ks

abbrev pub keys_with : String → Tables → List ApiAccessKey
keys_with email t = joined_keys email t.users t.api_access_keys

abbrev pub keys_of : ℕ → Tables → List String
keys_of user t =
    map (λ (k : ApiAccessKey). k.value) (matching (λ k. k.user_id == user) t.api_access_keys)

module _ (S : Storage) where
  -- `draw` is the encoding of the random bytes.
  unfoldable pub generate_api_key : String → String → S.Db → S.Db × Option String × Bool
  generate_api_key draw email = transaction {S = S} none (do
    ids ← select (λ t. map (λ (u : User). u.id) (users_with email t))
    elim (only ids) [
      | none ↦ pure none
      | some id ↦ do
        inserted ← attempt (execute (insert_key id draw))
        elim inserted [ none ↦ pure none | some _ ↦ commit >> pure (some draw) ]
    ])

  unfoldable pub get_api_key : String → S.Db → S.Db × Option String × Bool
  get_api_key email = transaction {S = S} none (do
    values ← select (λ t. map (λ (k : ApiAccessKey). k.value) (keys_with email t))
    elim (only values) [ none ↦ pure none | some v ↦ commit >> pure (some v) ])

  unfoldable pub remove_api_key : String → S.Db → S.Db × Bool × Bool
  remove_api_key email = transaction {S = S} false (do
    ids ← select (λ t. map (λ (k : ApiAccessKey). k.id) (keys_with email t))
    elim (only ids) [ none ↦ pure false | some id ↦ do execute (remove_key id); commit; pure true ])

  unfoldable pub get_user_info : String → S.Db → S.Db × Option UserInfo × Bool
  get_user_info email = transaction {S = S} none (do
    users ← select (λ t. users_with email t)
    elim (only users) [
      | none ↦ pure none
      | some u ↦ do
        api_access_keys ← select (λ t. keys_of u.id t)
        commit
        pure (
            some
              (record { email = email; api_access_key = only api_access_keys; is_admin = u.admin }))
    ])

  -- The loop over the users.
  pub user_infos : List User → Tx S (List UserInfo)
  user_infos [] = pure []
  user_infos (u ∷ us) = do
    api_access_keys ← select (λ t. keys_of u.id t)
    rest ← user_infos us
    pure (
        record { email = u.email; api_access_key = only api_access_keys; is_admin = u.admin }
        ∷ rest)

  unfoldable pub get_user_infos : S.Db → S.Db × List UserInfo × Bool
  unfolding user_infos
  get_user_infos =
      transaction {S = S} []
        (do users ← select (λ t. t.users); result ← user_infos users; commit; pure result)
