-- ===== src/Cis/Projects/Listing.antt =====
-- What the calls of src/cis/cis_manager.cpp about projects make of their table.
use cis1_webui_native_srv_cp.Prelude.{
  ℕ, ◌≡◌, refl, sym, ap, ◌∙◌, subst, inl, inr, Bool-cases, Option-cases, Bool, true, false, ◌||◌,
  List, [], ◌∷◌, ◌++◌, Option, none, some, String, str_eq, eq_iff, eq_refl, arith,
}
use cis1_webui_native_srv_cp.Database.{
  Project, Tables, insert_project, update_project, delete_projects, delete_projects_with, meaning,
  admissible,
}
use cis1_webui_native_srv_cp.Database.Accounts.{as_list}
use cis1_webui_native_srv_cp.Database.Transaction.{Storage, IsSqlite, Guard, select, execute}
use cis1_webui_native_srv_cp.Database.Transaction.Outcome.{
  IsOpen, Meets, finished, map-Meets, Returns, select-Meets, execute-Meets, bind-Meets, bind-Ends,
  execute-Ends, commit-Ends, transaction-Returns,
}
use cis1_webui_native_srv_cp.Cis.Structs.{Entries}
use cis1_webui_native_srv_cp.Cis.Projects.{
  rows_with, enlist, enlist_all, names_of, refresh_projects, create_project, remove_project,
}
use cis1_webui_native_srv_cp.Cis.Projects.Rows.{
  has_keys, named, matching-named, named-append, has_keys-append, set_deleted, has_keys-update,
  with_deleted, named-update_all, named-update, updating-row,
}

-- What becomes of the row with a name, for each name.
abbrev pub Rows : Type 1
Rows = String → Option Project → Option Project → Type 0

abbrev pub Choose : Bool → Type 0 → Type 0 → Type 0
Choose true A B = A
Choose false A B = B

-- The row is listed: it is the one that was there, or a new one.
abbrev pub Listed : Rows
Listed name (some p) q = q ≡ some (set_deleted false p)
Listed name none q = (id : ℕ) × (q ≡ some (record { id = id; name = name; deleted = false }))

unfoldable pub is_among : String → List String → Bool
is_among name [] = false
is_among name (other ∷ names) = str_eq name other || is_among name names

abbrev pub ListsOnly : List String → Rows
ListsOnly names n before after = Choose (is_among n names) (Listed n before after) (after ≡ before)

-- Only the names of the list are listed, and no row is lost.
abbrev pub Refreshes : List String → Rows
Refreshes names n before after =
    Choose (is_among n names) (Listed n before after) (after ≡ with_deleted true before)

abbrev pub Unlists : String → Rows
Unlists name n before after =
    Choose (str_eq n name) (after ≡ with_deleted true before) (after ≡ before)

-- The projects are keyed, the rows are as `rows` says, and the other tables are as before.
pub record Becomes (rows : Rows) (t t' : Tables) : Type 0 where
  pub keyed : has_keys t'.projects ≡ true
  pub row : (name : String) → rows name (named name t.projects) (named name t'.projects)
  pub rest : t' ≡ record t { projects = t'.projects }

Listed-again :
    (name : String) (a b c : Option Project) → Listed name a b → Listed name b c → Listed name a c
Listed-again name (some p) b c x y = subst (λ o. Listed name o c) x y
Listed-again name none b c (id, x) y = (id, subst (λ o. Listed name o c) x y)

ListsOnly-one :
    (name n : String) (before after : Option Project)
    → (str_eq n name ≡ true → Listed n before after)
    → (str_eq n name ≡ false → after ≡ before)
    → ListsOnly (name ∷ []) n before after
unfolding is_among
ListsOnly-one name n before after among apart = elim (Bool-cases (str_eq n name)) [
  | inl e ↦ rw e (among e)
  | inr e ↦ rw e (apart e)
]

Becomes-insert :
    (name : String) (id : ℕ) (t : Tables)
    → has_keys t.projects ≡ true
    → named name t.projects ≡ none
    → admissible id (insert_project name) t ≡ true
    → Becomes (ListsOnly (name ∷ [])) t (meaning id (insert_project name) t)
unfolding meaning admissible
Becomes-insert name id t k e fresh = record {
  keyed = has_keys-append t.projects (record { id = id; name = name; deleted = false }) k fresh;
  row = λ n.
      let row : Project = record { id = id; name = name; deleted = false } in
      ListsOnly-one name n (named n t.projects) (named n (t.projects ++ row ∷ []))
        (λ same.
          let is_name = (eq_iff n name).0 same in
          rw (is_name, named-append name t.projects row, e, eq_refl name) (id, refl))
        (λ differs.
          ground (arith, named-append n t.projects row, differs, eq_iff name n, eq_refl n));
  rest = refl;
}

Becomes-update :
    (name : String) (id : ℕ) (p : Project) (t : Tables)
    → has_keys t.projects ≡ true
    → named name t.projects ≡ some p
    → Becomes (ListsOnly (name ∷ [])) t (meaning id (update_project (set_deleted false p)) t)
unfolding meaning
Becomes-update name id p t k e = record {
  keyed = rw (updating-row name p false t.projects k e) (has_keys-update _ false t.projects k);
  row = λ n.
      rw (updating-row name p false t.projects k e, named-update name n false t.projects)
        (ListsOnly-one name n (named n t.projects) _
          (λ same. rw (same, (eq_iff n name).0 same, e) refl) (λ differs. rw differs refl));
  rest = refl;
}

Becomes-none : (t : Tables) → has_keys t.projects ≡ true → Becomes (ListsOnly []) t t
unfolding is_among
Becomes-none t k = record { keyed = k; row = λ n. refl; rest = refl }

Becomes-more :
    (name : String) (names : List String) (t t1 t2 : Tables)
    → Becomes (ListsOnly (name ∷ [])) t t1
    → Becomes (ListsOnly names) t1 t2
    → Becomes (ListsOnly (name ∷ names)) t t2
unfolding is_among
Becomes-more name names t t1 t2 first later = record {
  keyed = later.keyed;
  row = λ n.
      let one = first.row n in
      let more = later.row n in
      elim (Bool-cases (str_eq n name)) [
        | inl e ↦ elim (Bool-cases (is_among n names)) [
          | inl f ↦ rw e (Listed-again n _ _ _ (rw e at one) (rw f at more))
          | inr f ↦ rw e (subst (Listed n (named n t.projects)) (sym (rw f at more)) (rw e at one))
        ]
        | inr e ↦ elim (Bool-cases (is_among n names)) [
          | inl f ↦
              rw (e, f) (subst (λ o. Listed n o (named n t2.projects)) (rw e at one) (rw f at more))
          | inr f ↦ rw (e, f) ((rw f at more) ∙ (rw e at one))
        ]
      ];
  rest = later.rest ∙ ap (λ (u : Tables). record u { projects = t2.projects }) first.rest;
}

Becomes-Refreshes :
    (names : List String) (id : ℕ) (t t2 : Tables)
    → Becomes (ListsOnly names) (meaning id delete_projects t) t2
    → Becomes (Refreshes names) t t2
unfolding meaning
Becomes-Refreshes names id t t2 h = record {
  keyed = h.keyed;
  row = λ n.
      let old = named-update_all n true t.projects in
      let row = subst (λ o. ListsOnly names n o (named n t2.projects)) old (h.row n) in
      elim (Bool-cases (is_among n names)) [
        | inl e ↦ rw e (Listed-deleted n (named n t.projects) _ (rw e at row))
        | inr e ↦ rw e (rw e at row)
      ];
  rest = h.rest;
}
  where
    Listed-deleted :
        (n : String) (o q : Option Project) → Listed n (with_deleted true o) q → Listed n o q
    Listed-deleted n none q x = x
    Listed-deleted n (some p) q x = x

Becomes-Unlists :
    (name : String) (id : ℕ) (t : Tables)
    → has_keys t.projects ≡ true
    → Becomes (Unlists name) t (meaning id (delete_projects_with name) t)
unfolding meaning
Becomes-Unlists name id t k = record {
  keyed = has_keys-update _ true t.projects k;
  row = λ n.
      rw (named-update name n true t.projects)
        (elim (Bool-cases (str_eq n name)) [ inl e ↦ rw e refl | inr e ↦ rw e refl ]);
  rest = refl;
}

module _ {S : Storage} (sqlite : IsSqlite S) where
  enlist-Meets :
      {t0 t : Tables} (name : String) (g : Guard S)
      → IsOpen sqlite t0 t g
      → has_keys t.projects ≡ true
      → Meets sqlite t0 (λ _ t'. Becomes (ListsOnly (name ∷ [])) t t') (enlist name g)
  unfolding enlist
  enlist-Meets {t0} {t} name g o k =
      bind-Meets sqlite (select (rows_with name) g) _ (select-Meets sqlite (rows_with name) g o)
        (λ found t' g' o' (is_found, same). elim (Option-cases (named name t.projects)) [
          | inl e ↦ rw (is_found ∙ matching-named name t.projects k ∙ ap as_list e) (
              bind-Meets sqlite (execute (insert_project name) g') _
                (execute-Meets sqlite (insert_project name) g' o')
                (λ id t'' g'' o'' (is_t'', fresh).
                  let made = Becomes-insert name id t k e (rw same at fresh) in
                  finished o'' (rw (is_t'', same) made)))
          | inr (p, e) ↦
              let row = set_deleted false p in
              rw (is_found ∙ matching-named name t.projects k ∙ ap as_list e) (
                bind-Meets sqlite (execute (update_project row) g') _
                  (execute-Meets sqlite (update_project row) g' o')
                  (λ id t'' g'' o'' (is_t'', fine).
                    finished o'' (rw (is_t'', same) (Becomes-update name id p t k e))))
        ])

  enlist_all-Meets :
      {t0 t : Tables} (names : List String) (g : Guard S)
      → IsOpen sqlite t0 t g
      → has_keys t.projects ≡ true
      → Meets sqlite t0 (λ _ t'. Becomes (ListsOnly names) t t') (enlist_all names g)
  unfolding enlist_all
  enlist_all-Meets {t0} {t} [] g o k = finished o (Becomes-none t k)
  enlist_all-Meets {t0} {t} (name ∷ names) g o k =
      bind-Meets sqlite (enlist name g) _ (enlist-Meets name g o k) (λ _ t1 g1 o1 first.
        map-Meets sqlite (enlist_all names g1)
          (λ _ t2 later. Becomes-more name names t t1 t2 first later)
          (enlist_all-Meets names g1 o1 first.keyed))

pub data Call (I : Type 0) : Type 0 where
  refreshing : List I → Call I
  creating : Bool → String → Call I
  removing : String → Call I

module _ {I : Type 0} (fs : Entries I) (name : I → String) where
  unfoldable pub call : (S : Storage) → Call I → S.Db → S.Db × Unit {0} × Bool
  unfolding refresh_projects create_project remove_project
  call S (refreshing entries) = refresh_projects S fs name entries
  call S (creating ec project) = create_project S ec project
  call S (removing project) = remove_project S project

  abbrev pub RowsAfter : Call I → Rows
  RowsAfter (refreshing entries) = Refreshes (names_of fs name entries)
  RowsAfter (creating ec project) = ListsOnly (project ∷ [])
  RowsAfter (removing project) = Unlists project

  abbrev pub After : Call I → Tables → Unit {0} → Tables → Type 0
  After c t _ t' = Becomes (RowsAfter c) t t'

  -- On a database whose projects are keyed by name and id, a call either fails and leaves the tables as
  -- they are, or: a refresh lists the projects of the directory, in the rows that their names have or in
  -- new ones, and marks all others as deleted; a creation lists its project; a removal marks its project
  -- as deleted; no other row changes, no row is lost or gets another id, and the projects are keyed again.
  pub call-Becomes :
      {S : Storage} (sqlite : IsSqlite S) (c : Call I) (d : S.Db)
      → has_keys (S.tables d).projects ≡ true
      → Returns sqlite tt (After c (S.tables d)) d (call S c d)
  unfolding call refresh_projects create_project remove_project meaning
  call-Becomes {S} sqlite (refreshing entries) d k =
      let names = names_of fs name entries in
      transaction-Returns sqlite (After (refreshing entries) (S.tables d)) tt _ d (λ g o.
        execute-Ends sqlite delete_projects _ g o (λ id g1 o1 fine.
          bind-Ends sqlite (enlist_all names g1) _
            (enlist_all-Meets sqlite names g1 o1
              (has_keys-update (λ p. true) true (S.tables d).projects k))
            (λ _ t2 g2 o2 listed.
              commit-Ends sqlite tt g2 o2 (Becomes-Refreshes names id (S.tables d) t2 listed))))
  call-Becomes sqlite (creating true project) d k = inl (refl, refl, refl)
  call-Becomes {S} sqlite (creating false project) d k =
      transaction-Returns sqlite (After (creating false project) (S.tables d)) tt _ d (λ g o.
        bind-Ends sqlite (enlist project g) _ (enlist-Meets sqlite project g o k)
          (λ _ t1 g1 o1 listed. commit-Ends sqlite tt g1 o1 listed))
  call-Becomes {S} sqlite (removing project) d k =
      transaction-Returns sqlite (After (removing project) (S.tables d)) tt _ d (λ g o.
        execute-Ends sqlite (delete_projects_with project) _ g o (λ id g1 o1 fine.
          commit-Ends sqlite tt g1 o1 (Becomes-Unlists project id (S.tables d) k)))
