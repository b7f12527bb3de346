-- ===== src/KnuthMorrisPratt/Finding.antt =====
-- A text fed to the searcher of src/beast_ext/knuth_morris_pratt_searcher.cpp, from `init` to the
-- first match.
use cis1_webui_native_srv_cp.Prelude.{
  ℤ, ℕ, zero, suc, ◌≤◌, ◌<◌, ◌≡◌, refl, sym, ap, ◌∙◌, subst, List, [], ◌∷◌, arith, true, false, ltb,
  ◌==◌, Option, some, none, length, Bool-cases, ==_iff, inl, inr,
}
use mathlib.Core.Option.{some-injective}
use cis1_webui_native_srv_cp.KnuthMorrisPratt.{Searcher, same, init, partial_search}
use cis1_webui_native_srv_cp.KnuthMorrisPratt.Borders.{Ends, IsLongest}
use cis1_webui_native_srv_cp.KnuthMorrisPratt.Table.{IsTable, build_table-IsTable}
use cis1_webui_native_srv_cp.KnuthMorrisPratt.Search.{
  ends, longest, ends-Ends, Ends-ends, at, partial_search-Advances,
}

-- What the caller does: characters until the count is the length of the pattern. The result is what
-- is left of the text behind the match, and none where there is no match.
pub find : List ℕ → Searcher → Option (Option (List ℕ))
find [] s = some none
find (c ∷ cs) s = elim (partial_search c s) [
  | none ↦ none
  | some (s', k) ↦ elim (k == length s'.pattern) [ true ↦ some (some cs) | false ↦ find cs s' ]
]

-- The reference: the whole pattern is compared at every character.
unfoldable pub find_slowly : List ℕ → List ℕ → List ℕ → Option (List ℕ)
find_slowly p r [] = none
find_slowly p r (c ∷ cs) = elim (ends p (length p) (c ∷ r)) [
  | true ↦ some cs
  | false ↦ find_slowly p (c ∷ r) cs
]

-- A searcher whose table is that of its pattern, as it is when fresh and after each `init`.
abbrev pub IsReady : Searcher → Type 0
IsReady s = 2 ≤ length s.pattern → IsTable s.pattern (length s.pattern) s.table

same-eq : (p q : List ℕ) → same p q ≡ true → p ≡ q
unfolding same
same-eq [] [] h = refl
same-eq [] (d ∷ q) h = cc
same-eq (c ∷ p) [] h = cc
same-eq (c ∷ p) (d ∷ q) h = ground (arith, same-eq p q)

pub init-IsTable :
    (p : List ℕ) (s : Searcher)
    → IsReady s
    → 2 ≤ length p
    → (table : List ℤ) × (init p s ≡ some (at p table 0 0)) × IsTable p (length p) table
unfolding init
init-IsTable p s ready h =
    let long : ltb (length p) 2 ≡ false = ground arith in
    elim (Bool-cases (same p s.pattern)) [
      | inl e ↦
          let e' = same-eq p s.pattern e in
          (
            s.table,
            rw (init, long, e) (ap (λ q. some (at q s.table 0 0)) (sym e')),
            subst (λ q. IsTable q (length q) s.table) (sym e')
                (ready (subst (λ q. 2 ≤ length q) e' h)),
          )
      | inr e ↦
          let (table, built, right) = build_table-IsTable p h in
          (table, rw (init, long, e, built) refl, right)
    ]

module _ (p : List ℕ) (table : List ℤ) (right : IsTable p (length p) table) where
  -- The count of a match of the whole pattern.
  pub full_count :
      (r : List ℕ) (k : ℕ) → IsLongest p (length p) r k → (k == length p) ≡ ends p (length p) r
  full_count r k l = elim (Bool-cases (ends p (length p) r)) [
    | inl e ↦
        let w = l.within in
        let m = l.most (length p) (omega arith) (ends-Ends p (length p) r e) in ground arith
    | inr e ↦ elim (Bool-cases (k == length p)) [
      | inl top ↦ absurd (
          ground (
            arith,
            Ends-ends p (length p) r (subst (λ j. Ends p j r) ((==_iff k (length p)).0 top) l.ends),
            e,
          ))
      | inr below ↦ below ∙ sym e
    ]
  ]

  find-find_slowly :
      (text r : List ℕ) (m i : ℕ)
      → i < length p
      → IsLongest p (length p) r i
      → find text (at p table m i) ≡ some (find_slowly p r text)
  unfolding find find_slowly
  find-find_slowly [] r m i h l = refl
  find-find_slowly (c ∷ text) r m i h l =
      let (m', i', k, run, longest, next) = partial_search-Advances p table right c r m i h l in
      elim (Bool-cases (ends p (length p) (c ∷ r))) [
        | inl e ↦ rw (find, run, full_count (c ∷ r) k longest, find_slowly, e) refl
        | inr e ↦
            let w = longest.within in
            let count = full_count (c ∷ r) k longest ∙ e in
            let behind = next (ground arith) in
            rw (find, run, count, find_slowly, e)
              (find-find_slowly text (c ∷ r) m' i' (ground arith)
                (subst (IsLongest p (length p) (c ∷ r)) (sym behind) longest))
      ]

-- After `init` with a pattern of at least two characters, also where the table of an earlier `init`
-- with that pattern is kept, a text is matched where a search that compares the whole pattern at
-- every character matches it first, and not where that finds no match; every loop ends.
pub find-init :
    (p : List ℕ) (s : Searcher) (text : List ℕ)
    → IsReady s
    → 2 ≤ length p
    → (s' : Searcher) × (init p s ≡ some s') × (find text s' ≡ some (find_slowly p [] text))
find-init p s text ready h =
    let (table, run, right) = init-IsTable p s ready h in
    (
      at p table 0 0,
      run,
      find-find_slowly p table right text [] 0 0 (omega arith)
          (record { within = omega arith; ends = tt; most = nothing }),
    )
  where
    nothing : (a : ℕ) → a ≤ length p → Ends p a [] → a ≤ 0
    nothing zero le e = omega arith
    nothing (suc a) le e = absurd e

-- A searcher is ready again after `init`.
pub init-IsReady : (p : List ℕ) (s s' : Searcher) → IsReady s → init p s ≡ some s' → IsReady s'
unfolding init
init-IsReady p s s' ready e = elim (Bool-cases (ltb (length p) 2)) [
  | inl short ↦ λ h. absurd (ground (arith, e, short))
  | inr long ↦
      let (table, run, right) = init-IsTable p s ready (ground arith) in
      subst (λ (s : Searcher). IsReady s) (some-injective _ _ (sym run ∙ e)) (λ h. right)
]
