-- ===== src/Database/Accounts/Changes.antt =====
-- How the statements of src/auth_manager.cpp and src/rights_manager.cpp change the map of users, and
-- that they keep it keyed.
use cis1_webui_native_srv_cp.Prelude.{
  ℕ, ◌≡◌, refl, sym, ◌∙◌, inl, inr, Bool-cases, true, false, ◌||◌, not, List, [], ◌∷◌, ◌++◌, none,
  some, String, str_eq, eq_iff, eq_refl, ◌==◌, if◌then◌else◌, arith,
}
use cis1_webui_native_srv_cp.Database.{User, matching, updating, none_with}
use cis1_webui_native_srv_cp.Database.Accounts.{is_keyed, account, none_with-account, account-same}

-- A new row.
pub account-append :
    (email : String) (us : List User) (u : User)
    → account email (us ++ u ∷ []) ≡ elim (account email us) [
      | none ↦ if str_eq u.email email then some u else none
      | some v ↦ some v
    ]
unfolding account
account-append email [] u = refl
account-append email (v ∷ us) u = ground (arith, account-append email us u)

none_with-append :
    (email : String) (id : ℕ) (us : List User) (u : User)
    → none_with (λ v. str_eq v.email email || v.id == id) us ≡ true
    → (str_eq u.email email || u.id == id) ≡ false
    → none_with (λ v. str_eq v.email email || v.id == id) (us ++ u ∷ []) ≡ true
unfolding none_with
none_with-append email id [] u h k = ground arith
none_with-append email id (v ∷ us) u h k = ground (arith, none_with-append email id us u)

pub str_eq-sym : (a b : String) → str_eq a b ≡ str_eq b a
str_eq-sym a b = elim (Bool-cases (str_eq a b)) [
  | inl e ↦ ground (arith, eq_iff a b, eq_refl a)
  | inr e ↦ elim (Bool-cases (str_eq b a)) [
    | inl f ↦ ground (arith, eq_iff b a, eq_refl b)
    | inr f ↦ e ∙ sym f
  ]
]

pub is_keyed-append :
    (us : List User) (u : User)
    → is_keyed us ≡ true
    → none_with (λ v. str_eq v.email u.email || v.id == u.id) us ≡ true
    → is_keyed (us ++ u ∷ []) ≡ true
unfolding is_keyed none_with
is_keyed-append [] u k h = refl
is_keyed-append (v ∷ us) u k h =
    ground
      (arith, is_keyed-append us u, none_with-append v.email v.id us u, str_eq-sym u.email v.email)

-- The row of an account is none of those that have neither its email nor its id.
account-id :
    (email other : String) (id : ℕ) (u : User) (us : List User)
    → none_with (λ v. str_eq v.email other || v.id == id) us ≡ true
    → account email us ≡ some u
    → (id == u.id) ≡ false
unfolding none_with account
account-id email other id u [] h e = ground arith
account-id email other id u (v ∷ us) h e = ground (arith, account-id email other id u us)

matching-other_id :
    (email : String) (id : ℕ) (us : List User)
    → none_with (λ v. str_eq v.email email || v.id == id) us ≡ true
    → matching (λ v. not (v.id == id)) us ≡ us
unfolding none_with matching
matching-other_id email id [] h = refl
matching-other_id email id (u ∷ us) h = ground (arith, matching-other_id email id us)

updating-other_id :
    (email : String) (id : ℕ) (f : User → User) (us : List User)
    → none_with (λ v. str_eq v.email email || v.id == id) us ≡ true
    → updating (λ v. v.id == id) f us ≡ us
unfolding none_with updating
updating-other_id email id f [] h = refl
updating-other_id email id f (u ∷ us) h = ground (arith, updating-other_id email id f us)

-- Without the row of an account the others are what they were.
pub account-remove :
    (email other : String) (u : User) (us : List User)
    → is_keyed us ≡ true
    → account email us ≡ some u
    → account other (matching (λ v. not (v.id == u.id)) us)
      ≡ (if str_eq email other then none else account other us)
unfolding account matching is_keyed
account-remove email other u [] k h = ground arith
account-remove email other u (v ∷ us) k h = elim (Bool-cases (str_eq v.email email)) [
  | inl e ↦ ground (
    arith,
    eq_iff v.email email,
    matching-other_id v.email v.id us,
    none_with-account v.email v.id us,
    account-same email other us,
  )
  | inr e ↦ ground (
    arith,
    account-remove email other u us,
    account-id email v.email v.id u us,
    eq_iff email other,
  )
]

-- A row changed by its id, in columns that are no keys.
pub account-update :
    (email other : String) (u : User) (f : User → User) (us : List User)
    → ((v : User) → str_eq (f v).email other ≡ str_eq v.email other)
    → is_keyed us ≡ true
    → account email us ≡ some u
    → account other (updating (λ v. v.id == u.id) f us)
      ≡ (if str_eq email other then some (f u) else account other us)
unfolding account updating is_keyed
account-update email other u f [] c k h = ground arith
account-update email other u f (v ∷ us) c k h = elim (Bool-cases (str_eq v.email email)) [
  | inl e ↦ ground (arith, c v, eq_iff v.email email, updating-other_id v.email v.id f us)
  | inr e ↦ ground (
    arith,
    account-update email other u f us,
    account-id email v.email v.id u us,
    eq_iff email other,
  )
]

none_with-update :
    (email : String) (id key : ℕ) (f : User → User) (us : List User)
    → ((v : User) → ((f v).email ≡ v.email) × ((f v).id ≡ v.id))
    → none_with (λ v. str_eq v.email email || v.id == id) us ≡ true
    → none_with (λ v. str_eq v.email email || v.id == id) (updating (λ v. v.id == key) f us) ≡ true
unfolding none_with updating
none_with-update email id key f [] c h = refl
none_with-update email id key f (v ∷ us) c h =
    ground (arith, none_with-update email id key f us c, (c v).0, (c v).1)

pub is_keyed-update :
    (key : ℕ) (f : User → User) (us : List User)
    → ((v : User) → ((f v).email ≡ v.email) × ((f v).id ≡ v.id))
    → is_keyed us ≡ true
    → is_keyed (updating (λ v. v.id == key) f us) ≡ true
unfolding is_keyed updating
is_keyed-update key f [] c h = refl
is_keyed-update key f (v ∷ us) c h =
    ground (
      arith,
      is_keyed-update key f us c,
      none_with-update v.email v.id key f us c,
      (c v).0,
      (c v).1,
    )

none_with-remove :
    (email : String) (id key : ℕ) (us : List User)
    → none_with (λ v. str_eq v.email email || v.id == id) us ≡ true
    → none_with (λ v. str_eq v.email email || v.id == id) (matching (λ v. not (v.id == key)) us)
      ≡ true
unfolding none_with matching
none_with-remove email id key [] h = refl
none_with-remove email id key (v ∷ us) h = ground (arith, none_with-remove email id key us)

pub is_keyed-remove :
    (key : ℕ) (us : List User)
    → is_keyed us ≡ true
    → is_keyed (matching (λ v. not (v.id == key)) us) ≡ true
unfolding is_keyed matching
is_keyed-remove key [] h = refl
is_keyed-remove key (v ∷ us) h =
    ground (arith, is_keyed-remove key us, none_with-remove v.email v.id key us)

-- The row of an account, written back, is that row changed in its place.
pub updating-row :
    (email : String) (u : User) (f : User → User) (us : List User)
    → is_keyed us ≡ true
    → account email us ≡ some u
    → updating (λ v. v.id == u.id) (λ _. f u) us ≡ updating (λ v. v.id == u.id) f us
unfolding account updating is_keyed
updating-row email u f [] k h = refl
updating-row email u f (v ∷ us) k h = elim (Bool-cases (str_eq v.email email)) [
  | inl e ↦
      ground
        (arith, updating-other_id v.email v.id (λ _. f u) us, updating-other_id v.email v.id f us)
  | inr e ↦ ground (arith, updating-row email u f us, account-id email v.email v.id u us)
]

no_other_id :
    (email : String) (id : ℕ) (us : List User)
    → none_with (λ v. str_eq v.email email || v.id == id) us ≡ true
    → matching (λ v. v.id == id) us ≡ []
unfolding none_with matching
no_other_id email id [] h = refl
no_other_id email id (u ∷ us) h = ground (arith, no_other_id email id us)

-- The rows with the id of an account.
pub matching-account-id :
    (email : String) (u : User) (us : List User)
    → is_keyed us ≡ true
    → account email us ≡ some u
    → matching (λ v. v.id == u.id) us ≡ u ∷ []
unfolding account matching is_keyed
matching-account-id email u [] k h = ground arith
matching-account-id email u (v ∷ us) k h = elim (Bool-cases (str_eq v.email email)) [
  | inl e ↦ ground (arith, no_other_id v.email v.id us)
  | inr e ↦ ground (arith, matching-account-id email u us, account-id email v.email v.id u us)
]

pub account-email :
    (email : String) (u : User) (us : List User) → account email us ≡ some u → u.email ≡ email
unfolding account
account-email email u [] h = ground arith
account-email email u (v ∷ us) h = ground (arith, account-email email u us, eq_iff v.email email)
