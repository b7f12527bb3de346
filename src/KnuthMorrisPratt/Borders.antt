-- ===== src/KnuthMorrisPratt/Borders.antt =====
-- The mathematics of the searcher: how much of a pattern ends a text, and what the next character
-- makes of it. A text is read backwards, its last character first.
use cis1_webui_native_srv_cp.Prelude.{
  ℕ, zero, suc, ◌≤◌, ◌<◌, ◌≡◌, ◌≢◌, refl, sym, ap, ◌∙◌, inl, inr, Bool-cases, ==_iff, List, [], ◌∷◌,
  arith, ◌==◌,
}
use cis1_webui_native_srv_cp.KnuthMorrisPratt.{char_at}

module _ (p : List ℕ) where
  -- The first `k` characters of the pattern are the last ones of the text.
  abbrev pub Ends : ℕ → List ℕ → Type 0
  Ends zero r = Unit
  Ends (suc k) [] = ⊥
  Ends (suc k) (c ∷ r) = (char_at p k ≡ c) × Ends k r

  -- The first `k` characters of the pattern, as a text.
  abbrev pub taken : ℕ → List ℕ
  taken zero = []
  taken (suc k) = char_at p k ∷ taken k

  -- `k` is the most characters, up to the limit, that end the text.
  pub record IsLongest (limit : ℕ) (r : List ℕ) (k : ℕ) : Type 0 where
    pub within : k ≤ limit
    pub ends : Ends k r
    pub most : (a : ℕ) → a ≤ limit → Ends a r → a ≤ k

  -- What ends the text in front of the next character, and is no shorter than any that the
  -- character goes on with.
  pub record IsCandidate (limit c : ℕ) (r : List ℕ) (i : ℕ) : Type 0 where
    pub within : i < limit
    pub ends : Ends i r
    pub most : (a : ℕ) → a < limit → Ends (suc a) (c ∷ r) → a ≤ i

  Ends-taken : (k b : ℕ) (r : List ℕ) → Ends k r → Ends b (taken k) → Ends b r
  Ends-taken k zero r h e = tt
  Ends-taken zero (suc b) r h e = absurd e
  Ends-taken (suc k) (suc b) [] h e = absurd h
  Ends-taken (suc k) (suc b) (c ∷ r) h e = (e.0 ∙ h.0, Ends-taken k b r h.1 e.1)

  taken-Ends : (k b : ℕ) (r : List ℕ) → b ≤ k → Ends k r → Ends b r → Ends b (taken k)
  taken-Ends k zero r le h e = tt
  taken-Ends zero (suc b) r le h e = absurd (omega arith)
  taken-Ends (suc k) (suc b) [] le h e = absurd h
  taken-Ends (suc k) (suc b) (c ∷ r) le h e =
      (e.0 ∙ sym h.0, taken-Ends k b r (omega arith) h.1 e.1)

  pub Ends-self : (k : ℕ) → Ends k (taken k)
  Ends-self zero = tt
  Ends-self (suc k) = (refl, Ends-self k)

  pub IsCandidate-next :
      (limit limit' c i : ℕ) (r : List ℕ)
      → i < limit
      → limit ≤ suc limit'
      → IsLongest limit' r i
      → IsCandidate limit c r i
  IsCandidate-next limit limit' c i r h le l = record {
    within = h;
    ends = l.ends;
    most = λ a lt e. l.most a (omega arith) e.1;
  }

  pub candidate_hit :
      (limit c i : ℕ) (r : List ℕ)
      → IsCandidate limit c r i
      → char_at p i ≡ c
      → IsLongest limit (c ∷ r) (suc i)
  candidate_hit limit c i r h e = record {
    within = let h' = h.within in omega arith;
    ends = (e, h.ends);
    most = most;
  }
    where
      most : (a : ℕ) → a ≤ limit → Ends a (c ∷ r) → a ≤ suc i
      most zero le f = omega arith
      most (suc a) le f = let g = h.most a (omega arith) f in omega arith

  pub IsCandidate-miss_all :
      (limit c : ℕ) (r : List ℕ)
      → IsCandidate limit c r 0
      → char_at p 0 ≢ c
      → IsLongest limit (c ∷ r) 0
  IsCandidate-miss_all limit c r h ne = record { within = omega arith; ends = tt; most = most }
    where
      most : (a : ℕ) → a ≤ limit → Ends a (c ∷ r) → a ≤ 0
      most zero le f = omega arith
      most (suc zero) le f = absurd (ne f.0)
      most (suc (suc a)) le f = let g = h.most (suc a) (omega arith) f in omega arith

  shorter :
      (i c : ℕ) (r : List ℕ) → char_at p i ≢ c → (a : ℕ) → a ≤ i → Ends (suc a) (c ∷ r) → a < i
  shorter i c r ne a le e = elim (Bool-cases (a == i)) [
    | inl same ↦ absurd (ne (ap (char_at p) (sym ((==_iff a i).0 same)) ∙ e.0))
    | inr other ↦ ground arith
  ]

  pub IsCandidate-miss :
      (limit c i b : ℕ) (r : List ℕ)
      → IsCandidate limit c r (suc i)
      → char_at p (suc i) ≢ c
      → IsLongest i (taken (suc i)) b
      → IsCandidate limit c r b
  IsCandidate-miss limit c i b r h ne l = record {
    within = let h' = h.within in let w = l.within in omega arith;
    ends = Ends-taken (suc i) b r h.ends l.ends;
    most = λ a lt e.
        let below = shorter (suc i) c r ne a (h.most a lt e) e in
        l.most a (omega arith) (taken-Ends (suc i) a r (omega arith) h.ends e.1);
  }
