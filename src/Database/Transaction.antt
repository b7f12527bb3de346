-- ===== src/Database/Transaction.antt =====
-- include/database.h: the guard of a transaction, over SQLite as sqlite_orm offers it, which is the
-- parameter `Storage`. An operation of it that throws std::system_error says so by its result.
pub mod Outcome
use cis1_webui_native_srv_cp.Prelude.{
  ℕ, ◌≡◌, Bool, true, false, List, [], ◌∷◌, Option, none, some, if◌then◌else◌,
}
use cis1_webui_native_srv_cp.Database.{Tables, Statement, meaning, admissible}

-- `tables` is what a query reads, `saved` what a rollback goes back to. The other operations but
-- `rollback` give the database and whether they were carried out; a statement gives the id of the
-- last inserted row where it was, and none where it throws.
pub record Storage : Type 1 where
  pub Db : Type 0
  pub tables : Db → Tables
  pub saved : Db → Tables
  pub begin_transaction : Db → Db × Bool
  pub query : Db → Db × Bool
  pub execute : Statement → Db → Db × Option ℕ
  pub commit : Db → Db × Bool
  pub rollback : Db → Db

-- What the documentation of SQLite promises of them. A statement that throws, or a commit that
-- does, leaves the transaction open.
pub record IsSqlite (S : Storage) : Type 0 where
  pub begin_tables : (d : S.Db) → S.tables (S.begin_transaction d).0 ≡ S.tables d
  pub begin_saved :
      (d : S.Db) → (S.begin_transaction d).1 ≡ true → S.saved (S.begin_transaction d).0 ≡ S.tables d
  pub query_tables : (d : S.Db) → S.tables (S.query d).0 ≡ S.tables d
  pub query_saved : (d : S.Db) → S.saved (S.query d).0 ≡ S.saved d
  pub execute_tables :
      (s : Statement) (d : S.Db) (id : ℕ)
      → (S.execute s d).1 ≡ some id
      → S.tables (S.execute s d).0 ≡ meaning id s (S.tables d)
  pub execute_unique :
      (s : Statement) (d : S.Db) (id : ℕ)
      → (S.execute s d).1 ≡ some id
      → admissible id s (S.tables d) ≡ true
  pub execute_failed :
      (s : Statement) (d : S.Db)
      → (S.execute s d).1 ≡ none
      → S.tables (S.execute s d).0 ≡ S.tables d
  pub execute_saved : (s : Statement) (d : S.Db) → S.saved (S.execute s d).0 ≡ S.saved d
  pub commit_tables : (d : S.Db) → (S.commit d).1 ≡ true → S.tables (S.commit d).0 ≡ S.tables d
  pub commit_saved : (d : S.Db) → (S.commit d).1 ≡ false → S.saved (S.commit d).0 ≡ S.saved d
  pub rollback_tables : (d : S.Db) → S.tables (S.rollback d) ≡ S.saved d

-- `database_transanction_guard`: the database, and whether the destructor still rolls it back.
pub record Guard (S : Storage) : Type 0 where
  pub db : S.Db
  pub rollback_ : Bool

pub data Run (S : Storage) (A : Type 0) : Type 0 where
  done : A → Guard S → Run S A
  throws : Guard S → Run S A

-- `ids.size() == 1`, with the row.
abbrev pub only {ℓ} : {A : Type ℓ} → List A → Option A
only (a ∷ []) = some a
only _ = none

-- The code under a guard.
abbrev pub Tx : Storage → Type 0 → Type 0
Tx S A = Guard S → Run S A

module _ {S : Storage} where
  abbrev pub pure : {A : Type 0} → A → Tx S A
  pure = done

  abbrev pub and_then : {A B : Type 0} → Run S A → (A → Tx S B) → Run S B
  and_then (done a g) k = k a g
  and_then (throws g) k = throws g

  infixl 5 ◌>>=◌ ◌>>◌
  abbrev pub ◌>>=◌ : {A B : Type 0} → Tx S A → (A → Tx S B) → Tx S B
  m >>= k = λ g. and_then (m g) k

  abbrev pub ◌>>◌ : {A B : Type 0} → Tx S A → Tx S B → Tx S B
  m >> n = m >>= λ _. n

  -- A query, by what it reads from the tables.
  unfoldable pub select : {A : Type 0} → (Tables → A) → Tx S A
  select f g =
      let (d, fine) = S.query g.db in
      if fine then done (f (S.tables g.db)) (record g { db = d }) else throws (record g { db = d })

  unfoldable pub execute : Statement → Tx S ℕ
  execute s g =
      let (d, id) = S.execute s g.db in
      elim id [ none ↦ throws (record g { db = d }) | some i ↦ done i (record g { db = d }) ]

  unfoldable pub commit : Tx S (Unit {0})
  commit g =
      if g.rollback_
      then (let (d, fine) = S.commit g.db in
          if fine
          then done tt (record { db = d; rollback_ = false })
          else throws (record g { db = d }))
      else done tt g

  -- An inner try whose catch goes on.
  unfoldable pub attempt : {A : Type 0} → Tx S A → Tx S (Option A)
  attempt m g = elim (m g) [ done a g' ↦ done (some a) g' | throws g' ↦ done none g' ]

  -- The destructor of the guard.
  unfoldable pub release : Guard S → S.Db
  release g = if g.rollback_ then S.rollback g.db else g.db

  unfoldable pub leave : {A : Type 0} → A → Run S A → S.Db × A × Bool
  leave default (done a g) = (release g, a, false)
  leave default (throws g) = (release g, default, true)

  -- A method of a manager: its body under a guard, in the try whose catch sets the error code and
  -- returns the default. The last component is whether the code was set.
  unfoldable pub transaction : {A : Type 0} → A → Tx S A → S.Db → S.Db × A × Bool
  transaction default body d =
      let (d', fine) = S.begin_transaction d in
      if fine
      then leave default (body (record { db = d'; rollback_ = true }))
      else (d', default, true)
