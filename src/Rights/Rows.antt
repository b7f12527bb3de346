-- ===== src/Rights/Rows.antt =====
-- The rows of the rights: src/rights_manager.cpp keeps one at most for a user and a project, though the
-- schema does not ask for it.
use cis1_webui_native_srv_cp.Prelude.{
  ℕ, ◌≡◌, refl, Bool, true, false, ◌&&◌, ◌||◌, ◌==◌, List, [], ◌∷◌, ◌++◌, none, some, Option, arith,
  inl, inr, Bool-cases,
}
use cis1_webui_native_srv_cp.Database.{ProjectUserRight, matching, updating, none_with}
use cis1_webui_native_srv_cp.Database.Accounts.{as_list}

-- A test on the user and the project of a row.
abbrev pub is_right : ℕ → ℕ → ProjectUserRight → Bool
is_right user project r = (r.user_id == user) && (r.project_id == project)

-- No two rows have one id, or one user and one project.
unfoldable pub has_row_keys : List ProjectUserRight → Bool
has_row_keys [] = true
has_row_keys (r ∷ rs) =
    none_with (λ s. s.id == r.id || is_right r.user_id r.project_id s) rs && has_row_keys rs

no_other_right :
    (user project : ℕ) (r : ProjectUserRight) (rs : List ProjectUserRight)
    → none_with (λ s. s.id == r.id || is_right r.user_id r.project_id s) rs ≡ true
    → is_right user project r ≡ true
    → matching (is_right user project) rs ≡ []
unfolding matching none_with
no_other_right user project r [] h e = refl
no_other_right user project r (s ∷ rs) h e = ground (arith, no_other_right user project r rs)

-- The rows of a user and a project are one at most.
pub one_right :
    (user project : ℕ) (rs : List ProjectUserRight)
    → has_row_keys rs ≡ true
    → (o : Option ProjectUserRight) × (matching (is_right user project) rs ≡ as_list o)
unfolding matching has_row_keys
one_right user project [] k = (none, refl)
one_right user project (r ∷ rs) k = elim (Bool-cases (is_right user project r)) [
  | inl hit ↦ (some r, ground (arith, no_other_right user project r rs))
  | inr miss ↦ let (o, e) = one_right user project rs (ground (arith, k)) in (o, ground (arith, e))
]

pub matching-insert :
    (user project : ℕ) (row : ProjectUserRight) (rs : List ProjectUserRight)
    → is_right user project row ≡ true
    → matching (is_right user project) rs ≡ []
    → matching (is_right user project) (rs ++ row ∷ []) ≡ row ∷ []
unfolding matching
matching-insert user project row [] h e = ground arith
matching-insert user project row (r ∷ rs) h e = ground (arith, matching-insert user project row rs)

none_with-insert :
    (r row : ProjectUserRight) (rs : List ProjectUserRight)
    → none_with (λ s. s.id == r.id || is_right r.user_id r.project_id s) rs ≡ true
    → (row.id == r.id || is_right r.user_id r.project_id row) ≡ false
    → none_with (λ s. s.id == r.id || is_right r.user_id r.project_id s) (rs ++ row ∷ []) ≡ true
unfolding none_with
none_with-insert r row [] h e = ground arith
none_with-insert r row (s ∷ rs) h e = ground (arith, none_with-insert r row rs)

pub has_row_keys-insert :
    (row : ProjectUserRight) (rs : List ProjectUserRight)
    → has_row_keys rs ≡ true
    → none_with (λ s. s.id == row.id) rs ≡ true
    → matching (is_right row.user_id row.project_id) rs ≡ []
    → has_row_keys (rs ++ row ∷ []) ≡ true
unfolding has_row_keys none_with matching
has_row_keys-insert row [] k h e = refl
has_row_keys-insert row (r ∷ rs) k h e =
    ground (arith, has_row_keys-insert row rs, none_with-insert r row rs)

other_row :
    (user project : ℕ) (r old : ProjectUserRight) (rs : List ProjectUserRight)
    → none_with (λ s. s.id == r.id || is_right r.user_id r.project_id s) rs ≡ true
    → matching (is_right user project) rs ≡ old ∷ []
    → (r.id == old.id) ≡ false
unfolding matching none_with
other_row user project r old [] h e = ground arith
other_row user project r old (s ∷ rs) h e = ground (arith, other_row user project r old rs)

untouched :
    (r row : ProjectUserRight) (rs : List ProjectUserRight)
    → none_with (λ s. s.id == r.id || is_right r.user_id r.project_id s) rs ≡ true
    → updating (λ s. s.id == r.id) (λ _. row) rs ≡ rs
unfolding updating none_with
untouched r row [] h = refl
untouched r row (s ∷ rs) h = ground (arith, untouched r row rs)

pub matching-replace :
    (user project : ℕ) (row old : ProjectUserRight) (rs : List ProjectUserRight)
    → is_right user project row ≡ true
    → has_row_keys rs ≡ true
    → matching (is_right user project) rs ≡ old ∷ []
    → matching (is_right user project) (updating (λ s. s.id == old.id) (λ _. row) rs) ≡ row ∷ []
unfolding matching updating has_row_keys
matching-replace user project row old [] h k e = ground arith
matching-replace user project row old (r ∷ rs) h k e = elim (Bool-cases (is_right user project r)) [
  | inl hit ↦ ground (arith, untouched r row rs)
  | inr miss ↦
      ground (arith, matching-replace user project row old rs, other_row user project r old rs)
]

none_with-replace :
    (id : ℕ) (r row : ProjectUserRight) (rs : List ProjectUserRight)
    → none_with (λ s. s.id == r.id || is_right r.user_id r.project_id s) rs ≡ true
    → (row.id == r.id || is_right r.user_id r.project_id row) ≡ false
    → none_with
        (λ s. s.id == r.id || is_right r.user_id r.project_id s)
        (updating (λ s. s.id == id) (λ _. row) rs)
      ≡ true
unfolding none_with updating
none_with-replace id r row [] h e = refl
none_with-replace id r row (s ∷ rs) h e = ground (arith, none_with-replace id r row rs)

-- A row whose keys are another's.
none_with-same :
    (r row : ProjectUserRight) (rs : List ProjectUserRight)
    → none_with (λ s. s.id == r.id || is_right r.user_id r.project_id s) rs ≡ true
    → row.id ≡ r.id
    → is_right r.user_id r.project_id row ≡ true
    → none_with (λ s. s.id == row.id || is_right row.user_id row.project_id s) rs ≡ true
unfolding none_with
none_with-same r row [] h e f = refl
none_with-same r row (s ∷ rs) h e f = ground (arith, none_with-same r row rs)

pub has_row_keys-replace :
    (user project : ℕ) (row old : ProjectUserRight) (rs : List ProjectUserRight)
    → is_right user project row ≡ true
    → row.id ≡ old.id
    → has_row_keys rs ≡ true
    → matching (is_right user project) rs ≡ old ∷ []
    → has_row_keys (updating (λ s. s.id == old.id) (λ _. row) rs) ≡ true
unfolding matching updating has_row_keys
has_row_keys-replace user project row old [] h same k e = ground arith
has_row_keys-replace user project row old (r ∷ rs) h same k e =
    elim (Bool-cases (is_right user project r)) [
      | inl hit ↦ ground (arith, untouched r row rs, none_with-same r row rs)
      | inr miss ↦ ground (
        arith,
        has_row_keys-replace user project row old rs,
        other_row user project r old rs,
        none_with-replace old.id r row rs,
      )
    ]
