-- ===== src/Cis/Projects/Rows.antt =====
-- The table of projects as a map from names to rows, as src/cis/cis_manager.cpp uses it.
use cis1_webui_native_srv_cp.Prelude.{
  ℕ, ◌≡◌, refl, inl, inr, Bool-cases, Bool, true, false, ◌&&◌, ◌||◌, List, [], ◌∷◌, ◌++◌, Option,
  none, some, String, str_eq, eq_iff, ◌==◌, if◌then◌else◌, arith,
}
use cis1_webui_native_srv_cp.Database.{Project, matching, updating, none_with}
use cis1_webui_native_srv_cp.Database.Accounts.{as_list}
use cis1_webui_native_srv_cp.Database.Accounts.Changes.{str_eq-sym}

-- Names and ids are each one row's only.
unfoldable pub has_keys : List Project → Bool
has_keys [] = true
has_keys (p ∷ ps) = none_with (λ q. str_eq q.name p.name || q.id == p.id) ps && has_keys ps

unfoldable pub named : String → List Project → Option Project
named name [] = none
named name (p ∷ ps) = if str_eq p.name name then some p else named name ps

none_with-named :
    (name : String) (id : ℕ) (ps : List Project)
    → none_with (λ q. str_eq q.name name || q.id == id) ps ≡ true
    → matching (λ q. str_eq q.name name) ps ≡ []
unfolding none_with matching
none_with-named name id [] h = refl
none_with-named name id (p ∷ ps) h = ground (arith, none_with-named name id ps)

named-none :
    (name : String) (ps : List Project)
    → named name ps ≡ none
    → matching (λ q. str_eq q.name name) ps ≡ []
unfolding named matching
named-none name [] h = refl
named-none name (p ∷ ps) h = ground (arith, named-none name ps)

-- The rows with a name, in a table that is keyed.
pub matching-named :
    (name : String) (ps : List Project)
    → has_keys ps ≡ true
    → matching (λ q. str_eq q.name name) ps ≡ as_list (named name ps)
unfolding named matching has_keys
matching-named name [] h = refl
matching-named name (p ∷ ps) h =
    ground (arith, matching-named name ps, none_with-named p.name p.id ps, eq_iff p.name name)

pub named-append :
    (name : String) (ps : List Project) (p : Project)
    → named name (ps ++ p ∷ []) ≡ elim (named name ps) [
      | none ↦ if str_eq p.name name then some p else none
      | some q ↦ some q
    ]
unfolding named
named-append name [] p = refl
named-append name (q ∷ ps) p = ground (arith, named-append name ps p)

none_with-append :
    (name : String) (id : ℕ) (ps : List Project) (p : Project)
    → none_with (λ q. str_eq q.name name || q.id == id) ps ≡ true
    → (str_eq p.name name || p.id == id) ≡ false
    → none_with (λ q. str_eq q.name name || q.id == id) (ps ++ p ∷ []) ≡ true
unfolding none_with
none_with-append name id [] p h k = ground arith
none_with-append name id (q ∷ ps) p h k = ground (arith, none_with-append name id ps p)

pub has_keys-append :
    (ps : List Project) (p : Project)
    → has_keys ps ≡ true
    → none_with (λ q. str_eq q.name p.name || q.id == p.id) ps ≡ true
    → has_keys (ps ++ p ∷ []) ≡ true
unfolding has_keys none_with
has_keys-append [] p k h = refl
has_keys-append (q ∷ ps) p k h =
    ground
      (arith, has_keys-append ps p, none_with-append q.name q.id ps p, str_eq-sym p.name q.name)

-- Rows that are changed in the last column keep the keys.
abbrev pub set_deleted : Bool → Project → Project
set_deleted b p = record p { deleted = b }

none_with-update :
    (name : String) (id : ℕ) (chosen : Project → Bool) (b : Bool) (ps : List Project)
    → none_with (λ q. str_eq q.name name || q.id == id) ps ≡ true
    → none_with (λ q. str_eq q.name name || q.id == id) (updating chosen (set_deleted b) ps) ≡ true
unfolding none_with updating
none_with-update name id chosen b [] h = refl
none_with-update name id chosen b (p ∷ ps) h = ground (arith, none_with-update name id chosen b ps)

pub has_keys-update :
    (chosen : Project → Bool) (b : Bool) (ps : List Project)
    → has_keys ps ≡ true
    → has_keys (updating chosen (set_deleted b) ps) ≡ true
unfolding has_keys updating
has_keys-update chosen b [] h = refl
has_keys-update chosen b (p ∷ ps) h =
    ground (arith, has_keys-update chosen b ps, none_with-update p.name p.id chosen b ps)

abbrev pub with_deleted : Bool → Option Project → Option Project
with_deleted b none = none
with_deleted b (some p) = some (set_deleted b p)

pub named-update_all :
    (name : String) (b : Bool) (ps : List Project)
    → named name (updating (λ _. true) (set_deleted b) ps) ≡ with_deleted b (named name ps)
unfolding named updating
named-update_all name b [] = refl
named-update_all name b (p ∷ ps) = ground (arith, named-update_all name b ps)

pub named-update :
    (name other : String) (b : Bool) (ps : List Project)
    → named other (updating (λ q. str_eq q.name name) (set_deleted b) ps)
      ≡ (if str_eq other name then with_deleted b (named other ps) else named other ps)
unfolding named updating
named-update name other b [] = ground arith
named-update name other b (p ∷ ps) =
    ground (arith, named-update name other b ps, eq_iff p.name other)

other_name :
    (name other : String) (id : ℕ) (p : Project) (ps : List Project)
    → none_with (λ q. str_eq q.name other || q.id == id) ps ≡ true
    → named name ps ≡ some p
    → (id == p.id) ≡ false
unfolding none_with named
other_name name other id p [] h e = ground arith
other_name name other id p (q ∷ ps) h e = ground (arith, other_name name other id p ps)

no_other :
    (name : String) (id : ℕ) (row : Project) (b : Bool) (ps : List Project)
    → none_with (λ q. str_eq q.name name || q.id == id) ps ≡ true
    → (updating (λ q. q.id == id) (λ _. row) ps ≡ ps)
      × (updating (λ q. str_eq q.name name) (set_deleted b) ps ≡ ps)
unfolding none_with updating
no_other name id row b [] h = (refl, refl)
no_other name id row b (p ∷ ps) h = ground (arith, no_other name id row b ps)

-- A row that was read by its name, and is written back by its id.
pub updating-row :
    (name : String) (p : Project) (b : Bool) (ps : List Project)
    → has_keys ps ≡ true
    → named name ps ≡ some p
    → updating (λ q. q.id == p.id) (λ _. set_deleted b p) ps
      ≡ updating (λ q. str_eq q.name name) (set_deleted b) ps
unfolding named updating has_keys
updating-row name p b [] k e = refl
updating-row name p b (q ∷ ps) k e = elim (Bool-cases (str_eq q.name name)) [
  | inl same ↦ ground (arith, no_other q.name q.id (set_deleted b p) b ps, eq_iff q.name name)
  | inr differs ↦ ground (arith, updating-row name p b ps, other_name name q.name q.id p ps)
]
