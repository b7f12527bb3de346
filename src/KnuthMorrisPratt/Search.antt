-- ===== src/KnuthMorrisPratt/Search.antt =====
-- The searcher of src/beast_ext/knuth_morris_pratt_searcher.cpp against a search that compares the
-- whole pattern at every character.
use cis1_webui_native_srv_cp.Prelude.{
  ℤ, ℕ, zero, suc, ◌+◌, ◌-◌, ◌<◌, ◌≡◌, ◌≢◌, refl, sym, subst, List, [], ◌∷◌, arith, Bool, true,
  false, ltb, ◌==◌, Option, some, length, Bool-cases, ==_iff, inl, inr, if◌then◌else◌, ◌&&◌,
}
use cis1_webui_native_srv_cp.KnuthMorrisPratt.{
  Searcher, char_at, index, moved, fall_back, search_loop, partial_search,
}
use cis1_webui_native_srv_cp.KnuthMorrisPratt.Borders.{
  Ends, IsLongest, IsCandidate, IsCandidate-next, candidate_hit, IsCandidate-miss_all,
  IsCandidate-miss,
}
use cis1_webui_native_srv_cp.KnuthMorrisPratt.Table.{IsTable}

-- The reference: whether the first characters of a pattern end a text, read backwards, and how many.
unfoldable pub ends : List ℕ → ℕ → List ℕ → Bool
ends p zero r = true
ends p (suc k) [] = false
ends p (suc k) (c ∷ r) = (char_at p k == c) && ends p k r

pub longest : List ℕ → ℕ → List ℕ → ℕ
longest p zero r = 0
longest p (suc k) r = if ends p (suc k) r then suc k else longest p k r

pub Ends-ends : (p : List ℕ) (k : ℕ) (r : List ℕ) → Ends p k r → ends p k r ≡ true
unfolding ends
Ends-ends p zero r h = refl
Ends-ends p (suc k) [] h = absurd h
Ends-ends p (suc k) (c ∷ r) h = ground (arith, Ends-ends p k r h.1, h.0)

pub ends-Ends : (p : List ℕ) (k : ℕ) (r : List ℕ) → ends p k r ≡ true → Ends p k r
unfolding ends
ends-Ends p zero r h = tt
ends-Ends p (suc k) [] h = cc
ends-Ends p (suc k) (c ∷ r) h = (ground arith, ends-Ends p k r (ground arith))

-- The reference finds what is longest.
pub IsLongest-longest :
    (p : List ℕ) (limit : ℕ) (r : List ℕ) (k : ℕ) → IsLongest p limit r k → k ≡ longest p limit r
unfolding longest
IsLongest-longest p zero r k l = let w = l.within in omega arith
IsLongest-longest p (suc limit) r k l = elim (Bool-cases (ends p (suc limit) r)) [
  | inl e ↦
      let w = l.within in
      let m = l.most (suc limit) (omega arith) (ends-Ends p (suc limit) r e) in rw e (omega arith)
  | inr e ↦ rw e (
      IsLongest-longest p limit r k (record {
        within = elim (Bool-cases (k == suc limit)) [
          | inl top ↦ absurd (
              ground (
                arith,
                Ends-ends p (suc limit) r
                    (subst (λ j. Ends p j r) ((==_iff k (suc limit)).0 top) l.ends),
                e,
              ))
          | inr below ↦ let w = l.within in ground arith
        ];
        ends = l.ends;
        most = λ a le h. l.most a (omega arith) h;
      }))
]

module _ (p : List ℕ) (table : List ℤ) where
  abbrev pub at : ℕ → ℕ → Searcher
  at m i = record { m = m; i = i; pattern = p; table = table }

  module _ (fuel offset c m i : ℕ) where
    search_ends : m + i ≡ suc offset → search_loop (suc fuel) offset c (at m i) ≡ some (at m i, i)
    unfolding search_loop
    search_ends e =
        let out : ltb (m + i - offset) 1 ≡ false = ground arith in rw (search_loop, out) refl

    search_matches :
        m + i ≡ offset
        → (char_at p i == c) ≡ true
        → (i == length p - 1) ≡ true
        → search_loop (suc fuel) offset c (at m i) ≡ some (at m i, suc i)
    unfolding search_loop
    search_matches e hit end =
        let more : ltb (m + i - offset) 1 ≡ true = ground arith in
        rw (search_loop, more, hit, end) refl

    search_hits :
        m + i ≡ offset
        → (char_at p i == c) ≡ true
        → (i == length p - 1) ≡ false
        → search_loop (suc fuel) offset c (at m i) ≡ search_loop fuel offset c (at m (suc i))
    unfolding search_loop
    search_hits e hit end =
        let more : ltb (m + i - offset) 1 ≡ true = ground arith in
        rw (search_loop, more, hit, end) refl

    search_misses :
        m + i ≡ offset
        → (char_at p i == c) ≡ false
        → search_loop (suc fuel) offset c (at m i) ≡ search_loop fuel offset c (fall_back (at m i))
    unfolding search_loop
    search_misses e miss =
        let more : ltb (m + i - offset) 1 ≡ true = ground arith in rw (search_loop, more, miss) refl

  -- One character: the count is the longest match, and the searcher stands behind it unless all of
  -- the pattern is matched.
  abbrev pub Advances : List ℕ → ℕ → Option (Searcher × ℕ) → Type 0
  Advances r c run =
      (m : ℕ) × (i : ℕ) × (k : ℕ) × (run ≡ some (at m i, k))
      × IsLongest p (length p) (c ∷ r) k
      × (k < length p → i ≡ k)

  module _ (right : IsTable p (length p) table) (c : ℕ) (r : List ℕ) where
    Advances-ends :
        (fuel offset m i : ℕ)
        → m + i ≡ suc offset
        → 0 < fuel
        → IsLongest p (length p) (c ∷ r) i
        → Advances r c (search_loop fuel offset c (at m i))
    Advances-ends zero offset m i e f l = absurd (omega arith)
    Advances-ends (suc fuel) offset m i e f l =
        (m, i, i, search_ends fuel offset c m i e, l, λ h. refl)

    -- After a miss: nothing ends the text, or the loop goes on from a border.
    Advances-missed :
        (fuel offset m i : ℕ)
        → ((m' b : ℕ)
            → m' + b ≡ offset
            → suc b < fuel
            → IsCandidate p (length p) c r b
            → Advances r c (search_loop fuel offset c (at m' b)))
        → m + i ≡ offset
        → suc i < suc fuel
        → IsCandidate p (length p) c r i
        → char_at p i ≢ c
        → Advances r c (search_loop fuel offset c (fall_back (at m i)))
    Advances-missed fuel offset m zero next e f l ne =
        subst (λ t. Advances r c (search_loop fuel offset c (at (moved m 0 t) (index t))))
          (sym right.first)
          (Advances-ends fuel offset (m + (0 + 1)) 0 (omega arith) (omega arith)
            (IsCandidate-miss_all p (length p) c r l ne))
    Advances-missed fuel offset m (suc i) next e f l ne =
        let w = l.within in
        let (b, found, border) = right.borders i (omega arith) in
        let small = border.within in
        subst (λ t. Advances r c (search_loop fuel offset c (at (moved m (suc i) t) (index t))))
          (sym found)
          (next (m + (suc i - b)) b (omega arith) (omega arith)
            (IsCandidate-miss p (length p) c i b r l ne border))

    search_loop-Advances :
        (fuel offset m i : ℕ)
        → m + i ≡ offset
        → suc i < fuel
        → IsCandidate p (length p) c r i
        → Advances r c (search_loop fuel offset c (at m i))
    search_loop-Advances zero offset m i e f l = absurd (omega arith)
    search_loop-Advances (suc fuel) offset m i e f l = elim (Bool-cases (char_at p i == c)) [
      | inl hit ↦
          let w = l.within in
          let matched = candidate_hit p (length p) c i r l ((==_iff _ _).0 hit) in
          elim (Bool-cases (i == length p - 1)) [
            | inl end ↦ (
              m,
              i,
              suc i,
              search_matches fuel offset c m i e hit end,
              matched,
              λ h. absurd (ground arith),
            )
            | inr more ↦
                rw (search_hits fuel offset c m i e hit more)
                  (Advances-ends fuel offset m (suc i) (omega arith) (omega arith) matched)
          ]
      | inr miss ↦ rw (search_misses fuel offset c m i e miss) (
          Advances-missed fuel offset m i (search_loop-Advances fuel offset) e f l
            (λ h. ground arith))
    ]

    pub partial_search-Advances :
        (m i : ℕ)
        → i < length p
        → IsLongest p (length p) r i
        → Advances r c (partial_search c (at m i))
    unfolding partial_search
    partial_search-Advances m i h l =
        search_loop-Advances (suc (suc i)) (m + i) m i refl (omega arith)
          (IsCandidate-next p (length p) (length p) c i r h (omega arith) l)
