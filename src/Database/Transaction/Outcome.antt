-- ===== src/Database/Transaction/Outcome.antt =====
-- What the guard of include/database.h guarantees: rules to follow the code under a guard, statement
-- by statement, to what a method makes of the tables.
use cis1_webui_native_srv_cp.Prelude.{
  ◌≡◌, ℕ, refl, sym, ap, ◌∙◌, subst, Bool, true, false, arith, ◌⊎◌, inl, inr, Bool-cases,
  Option-cases, Option, none, some, if◌then◌else◌,
}
use cis1_webui_native_srv_cp.Database.{Tables, Statement, meaning, admissible}
use cis1_webui_native_srv_cp.Database.Transaction.{
  Storage, IsSqlite, Guard, Run, done, throws, Tx, and_then, pure, ◌>>=◌, ◌>>◌, select, execute,
  commit, release, leave, transaction, attempt,
}

module _ {S : Storage} (sqlite : IsSqlite S) where
  -- The guard's transaction is open; it began at `t0`, and the tables are `t` now.
  pub record IsOpen (t0 t : Tables) (g : Guard S) : Type 0 where
    pub saved : S.saved g.db ≡ t0
    pub tables : S.tables g.db ≡ t
    pub pending : g.rollback_ ≡ true

  -- A part of the body: it ends with the transaction open, and its value and the tables are as `Q`
  -- says; or it throws, with the transaction open.
  pub data Meets {A : Type 0} (t0 : Tables) (Q : A → Tables → Type 0) : Run S A → Type 0 where
    finished : {a : A} {t : Tables} {g : Guard S} → IsOpen t0 t g → Q a t → Meets t0 Q (done a g)
    thrown : {t : Tables} {g : Guard S} → IsOpen t0 t g → Meets t0 Q (throws g)

  -- The whole body, seen after the destructor of the guard.
  pub data Ends {A : Type 0} (t0 : Tables) (Q : A → Tables → Type 0) : Run S A → Type 0 where
    ended : {a : A} {g : Guard S} → Q a (S.tables (release g)) → Ends t0 Q (done a g)
    abandoned : {g : Guard S} → S.tables (release g) ≡ t0 → Ends t0 Q (throws g)

  -- A method: either it sets the error code, returns its default and leaves the tables, or it does
  -- not, and `Q` holds of its value and the tables.
  abbrev pub Returns : {A : Type 0} → A → (A → Tables → Type 0) → S.Db → S.Db × A × Bool → Type 0
  Returns default Q d (d', a, ec) =
      ((ec ≡ true) × (a ≡ default) × (S.tables d' ≡ S.tables d))
      ⊎ ((ec ≡ false) × Q a (S.tables d'))

  release-open : {t0 t : Tables} (g : Guard S) → IsOpen t0 t g → S.tables (release g) ≡ t0
  unfolding release
  release-open g o = ground (arith, sqlite.rollback_tables g.db, o.saved, o.pending)

  if-Meets :
      {A : Type 0} {t0 : Tables} {Q : A → Tables → Type 0} (b : Bool) {r r' : Run S A}
      → Meets t0 Q r
      → Meets t0 Q r'
      → Meets t0 Q (if b then r else r')
  if-Meets true m n = m
  if-Meets false m n = n

  pub select-Meets :
      {A : Type 0} {t0 t : Tables} (f : Tables → A) (g : Guard S)
      → IsOpen t0 t g
      → Meets t0 (λ a t'. (a ≡ f t) × (t' ≡ t)) (select f g)
  unfolding select
  select-Meets f g o =
      let kept : IsOpen _ _ (record g { db = (S.query g.db).0 }) = record {
        saved = sqlite.query_saved g.db ∙ o.saved;
        tables = sqlite.query_tables g.db ∙ o.tables;
        pending = o.pending;
      } in
      if-Meets (S.query g.db).1 (finished kept (ap f o.tables, refl)) (thrown kept)

  pub execute-Meets :
      {t0 t : Tables} (s : Statement) (g : Guard S)
      → IsOpen t0 t g
      → Meets t0 (λ id t'. (t' ≡ meaning id s t) × (admissible id s t ≡ true)) (execute s g)
  unfolding execute
  execute-Meets s g o = elim (Option-cases (S.execute s g.db).1) [
    | inl e ↦
        rw (execute, e)
          (thrown (record {
            saved = sqlite.execute_saved s g.db ∙ o.saved;
            tables = sqlite.execute_failed s g.db e ∙ o.tables;
            pending = o.pending;
          }))
    | inr (id, e) ↦
        rw (execute, e)
          (finished
            (record {
              saved = sqlite.execute_saved s g.db ∙ o.saved;
              tables = sqlite.execute_tables s g.db id e ∙ ap (meaning id s) o.tables;
              pending = o.pending;
            })
            (
              refl,
              subst (λ t. admissible id s t ≡ true) o.tables (sqlite.execute_unique s g.db id e),
            ))
  ]

  pub bind-Meets :
      {A B : Type 0} {t0 : Tables} {Q : A → Tables → Type 0} {R : B → Tables → Type 0} (r : Run S A)
      (k : A → Tx S B)
      → Meets t0 Q r
      → ((a : A) (t : Tables) (g : Guard S) → IsOpen t0 t g → Q a t → Meets t0 R (k a g))
      → Meets t0 R (and_then r k)
  bind-Meets r k (finished o q) h = h _ _ _ o q
  bind-Meets r k (thrown o) h = thrown o

  pub map-Meets :
      {A : Type 0} {t0 : Tables} {Q R : A → Tables → Type 0} (r : Run S A)
      → ((a : A) (t : Tables) → Q a t → R a t)
      → Meets t0 Q r
      → Meets t0 R r
  map-Meets r f (finished o q) = finished o (f _ _ q)
  map-Meets r f (thrown o) = thrown o

  pub bind-Ends :
      {A B : Type 0} {t0 : Tables} {Q : A → Tables → Type 0} {R : B → Tables → Type 0} (r : Run S A)
      (k : A → Tx S B)
      → Meets t0 Q r
      → ((a : A) (t : Tables) (g : Guard S) → IsOpen t0 t g → Q a t → Ends t0 R (k a g))
      → Ends t0 R (and_then r k)
  bind-Ends r k (finished o q) h = h _ _ _ o q
  bind-Ends r k (thrown o) h = abandoned (release-open _ o)

  -- The rules for a query and a statement at the head of a body.
  pub select-Ends :
      {A B : Type 0} {t0 t : Tables} {R : B → Tables → Type 0} (f : Tables → A) (k : A → Tx S B)
      (g : Guard S)
      → IsOpen t0 t g
      → ((g' : Guard S) → IsOpen t0 t g' → Ends t0 R (k (f t) g'))
      → Ends t0 R ((select f >>= k) g)
  select-Ends {t0 = t0} f k g o h =
      bind-Ends (select f g) k (select-Meets f g o)
        (λ a t' g' o' q. rw q.0 (h g' (subst (λ x. IsOpen t0 x g') q.1 o')))

  pub execute-Ends :
      {B : Type 0} {t0 t : Tables} {R : B → Tables → Type 0} (s : Statement) (k : ℕ → Tx S B)
      (g : Guard S)
      → IsOpen t0 t g
      → ((id : ℕ) (g' : Guard S)
          → IsOpen t0 (meaning id s t) g'
          → admissible id s t ≡ true
          → Ends t0 R (k id g'))
      → Ends t0 R ((execute s >>= k) g)
  execute-Ends {t0 = t0} s k g o h =
      bind-Ends (execute s g) k (execute-Meets s g o)
        (λ id t' g' o' q. h id g' (subst (λ x. IsOpen t0 x g') q.0 o') q.1)

  -- A statement whose exception is caught: it was carried out, or the tables are as before.
  abbrev pub Attempted : Statement → Tables → Option ℕ → Tables → Type 0
  Attempted s t none t' = t' ≡ t
  Attempted s t (some id) t' = (t' ≡ meaning id s t) × (admissible id s t ≡ true)

  pub attempt-Meets :
      {t0 t : Tables} (s : Statement) (g : Guard S)
      → IsOpen t0 t g
      → Meets t0 (Attempted s t) (attempt (execute s) g)
  unfolding attempt execute
  attempt-Meets s g o = elim (Option-cases (S.execute s g.db).1) [
    | inl e ↦
        rw (attempt, execute, e)
          (finished
            (record {
              saved = sqlite.execute_saved s g.db ∙ o.saved;
              tables = sqlite.execute_failed s g.db e ∙ o.tables;
              pending = o.pending;
            })
            refl)
    | inr (id, e) ↦
        rw (attempt, execute, e)
          (finished
            (record {
              saved = sqlite.execute_saved s g.db ∙ o.saved;
              tables = sqlite.execute_tables s g.db id e ∙ ap (meaning id s) o.tables;
              pending = o.pending;
            })
            (
              refl,
              subst (λ t. admissible id s t ≡ true) o.tables (sqlite.execute_unique s g.db id e),
            ))
  ]

  -- A body that returns without a commit is rolled back.
  pub pure-Ends :
      {A : Type 0} {t0 t : Tables} {Q : A → Tables → Type 0} (a : A) (g : Guard S)
      → IsOpen t0 t g
      → Q a t0
      → Ends t0 Q (done a g)
  pure-Ends {Q = Q} a g o q = ended (subst (Q a) (sym (release-open g o)) q)

  pub commit-Ends :
      {A : Type 0} {t0 t : Tables} {Q : A → Tables → Type 0} (a : A) (g : Guard S)
      → IsOpen t0 t g
      → Q a t
      → Ends t0 Q ((commit >> pure a) g)
  unfolding commit release
  commit-Ends {Q = Q} a g o q = rw o.pending (elim (Bool-cases (S.commit g.db).1) [
    | inl e ↦ rw e (ended (subst (Q a) (sym (sqlite.commit_tables g.db e ∙ o.tables)) q))
    | inr e ↦ rw e (abandoned (sqlite.rollback_tables _ ∙ sqlite.commit_saved g.db e ∙ o.saved))
  ])

  leave-Returns :
      {A : Type 0} (Q : A → Tables → Type 0) (default : A) (d : S.Db) (r : Run S A)
      → Ends (S.tables d) Q r
      → Returns default Q d (leave default r)
  unfolding leave
  leave-Returns Q default d r (ended q) = inr (refl, q)
  leave-Returns Q default d r (abandoned e) = inl (refl, refl, e)

  pub transaction-Returns :
      {A : Type 0} (Q : A → Tables → Type 0) (default : A) (body : Tx S A) (d : S.Db)
      → ((g : Guard S) → IsOpen (S.tables d) (S.tables d) g → Ends (S.tables d) Q (body g))
      → Returns default Q d (transaction default body d)
  unfolding transaction
  transaction-Returns Q default body d h = elim (Bool-cases (S.begin_transaction d).1) [
    | inl e ↦ rw e (
        leave-Returns Q default d _ (
          h _ (record {
            saved = sqlite.begin_saved d e;
            tables = sqlite.begin_tables d;
            pending = refl;
          })))
    | inr e ↦ rw e (inl (refl, refl, sqlite.begin_tables d))
  ]
