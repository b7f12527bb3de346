-- ===== src/KnuthMorrisPratt/Table.antt =====
-- `build_table` of src/beast_ext/knuth_morris_pratt_searcher.cpp ends, and its entries are the longest
-- borders of the prefixes of the pattern.
use cis1_webui_native_srv_cp.Prelude.{
  ℤ, ℕ, zero, suc, ◌+◌, ◌-◌, ◌≤◌, ◌<◌, ◌≡◌, ◌≢◌, refl, sym, ap, ◌∙◌, subst, List, arith, true,
  false, ltb, ◌==◌, some, length, set, length-set, get_or-set_self, get_or-set_other, Bool-cases,
  ==_iff, inl, inr, if◌then◌else◌,
}
use cis1_webui_native_srv_cp.KnuthMorrisPratt.{
  ℤ.pos, ℤ.negsuc, char_at, entry, index, zeros, build_loop, first_table, build_table,
}
use cis1_webui_native_srv_cp.KnuthMorrisPratt.Borders.{
  taken, IsLongest, IsCandidate, IsCandidate-next, candidate_hit, IsCandidate-miss_all,
  IsCandidate-miss,
}

-- The entry of a prefix is its longest border.
abbrev pub HasBorder : List ℕ → List ℤ → ℕ → Type 0
HasBorder p table k = (b : ℕ) × (entry table (suc k) ≡ pos b) × IsLongest p k (taken p (suc k)) b

-- The entries below `bound` are right.
pub record IsTable (p : List ℕ) (bound : ℕ) (table : List ℤ) : Type 0 where
  pub first : entry table 0 ≡ negsuc 0
  pub borders : (k : ℕ) → suc k < bound → HasBorder p table k

module _ (p : List ℕ) where
  -- The entry at `suc q`, written.
  IsTable-set :
      (q b : ℕ) (table : List ℤ)
      → suc q < length table
      → IsTable p (suc q) table
      → IsLongest p q (taken p (suc q)) b
      → IsTable p (suc (suc q)) (set table (suc q) (pos b))
  IsTable-set q b table fits t l = record {
    first = get_or-set_other table (suc q) 0 (pos b) (pos 0) (λ e. omega (arith, e)) ∙ t.first;
    borders = λ k lt. elim (Bool-cases (k == q)) [
      | inl same ↦
          subst (HasBorder p (set table (suc q) (pos b))) (sym ((==_iff k q).0 same))
            (b, get_or-set_self table (suc q) (pos b) (pos 0) fits, l)
      | inr other ↦
          let (a, e, m) = t.borders k (ground arith) in
          (a, get_or-set_other table (suc q) (suc k) (pos b) (pos 0) (λ same. ground arith) ∙ e, m)
    ];
  }

  IsTable-less :
      (bound bound' : ℕ) (table : List ℤ)
      → bound' ≤ bound
      → IsTable p bound table
      → IsTable p bound' table
  IsTable-less bound bound' table le t = record {
    first = t.first;
    borders = λ k lt. t.borders k (omega arith);
  }

  module _ (fuel q condition : ℕ) (table : List ℤ) where
    loop_ends :
        ltb (suc q) (length p) ≡ false
        → build_loop (suc fuel) p (suc q) condition table ≡ some table
    unfolding build_loop
    loop_ends h = ground arith

    loop_hits :
        ltb (suc q) (length p) ≡ true
        → (char_at p q == char_at p condition) ≡ true
        → build_loop (suc fuel) p (suc q) condition table
          ≡ build_loop fuel p
              (suc (suc q))
              (suc condition)
              (set table (suc q) (pos (suc condition)))
    unfolding build_loop
    loop_hits h e = let q' : suc q - 1 ≡ q = omega arith in rw (build_loop, h, q', e) refl

    loop_misses_all :
        condition ≡ 0
        → ltb (suc q) (length p) ≡ true
        → (char_at p q == char_at p condition) ≡ false
        → build_loop (suc fuel) p (suc q) condition table
          ≡ build_loop fuel p (suc (suc q)) condition (set table (suc q) (pos 0))
    unfolding build_loop
    loop_misses_all z h e =
        let q' : suc q - 1 ≡ q = omega arith in
        let z' : ltb 0 condition ≡ false = ground arith in rw (build_loop, h, q', e, z') refl

    loop_misses :
        0 < condition
        → ltb (suc q) (length p) ≡ true
        → (char_at p q == char_at p condition) ≡ false
        → build_loop (suc fuel) p (suc q) condition table
          ≡ build_loop fuel p (suc q) (index (entry table condition)) table
    unfolding build_loop
    loop_misses z h e =
        let q' : suc q - 1 ≡ q = omega arith in
        let z' : ltb 0 condition ≡ true = ground arith in rw (build_loop, h, q', e, z') refl

  differs : (a b : ℕ) → (a == b) ≡ false → b ≢ a
  differs a b h e = ground arith

  -- What the loop promises, at any of its heads.
  abbrev Builds : ℕ → ℕ → ℕ → List ℤ → Type 0
  Builds fuel q condition table =
      (length p - suc q) + (length p - suc q) + condition < fuel
      → length p < length table
      → IsTable p (suc q) table
      → IsCandidate p q (char_at p q) (taken p q) condition
      → (table' : List ℤ) × (build_loop fuel p (suc q) condition table ≡ some table')
        × IsTable p (length p) table'

  -- The entry at `suc q` is found; the loop goes on behind it.
  Builds-found :
      (fuel q b condition : ℕ) (table : List ℤ)
      → Builds fuel (suc q) b (set table (suc q) (pos b))
      → suc q < length p
      → b ≤ suc condition
      → (length p - suc q) + (length p - suc q) + condition < suc fuel
      → length p < length table
      → IsTable p (suc q) table
      → IsLongest p q (taken p (suc q)) b
      → (table' : List ℤ) × (build_loop fuel p (suc (suc q)) b (set table (suc q) (pos b))
          ≡ some table')
        × IsTable p (length p) table'
  Builds-found fuel q b condition table next more small h fits t l =
      let w = l.within in
      next (omega arith) (omega (arith, length-set table (suc q) (pos b)))
        (IsTable-set q b table (omega arith) t l)
        (IsCandidate-next p (suc q) q (char_at p (suc q)) b (taken p (suc q)) (omega arith)
          (omega arith) l)

  -- The condition is not met: the loop falls back, or finds that there is no border.
  Builds-missed :
      (fuel q condition : ℕ) (table : List ℤ)
      → ((b : ℕ) → Builds fuel q b table)
      → Builds fuel (suc q) 0 (set table (suc q) (pos 0))
      → ltb (suc q) (length p) ≡ true
      → (char_at p q == char_at p condition) ≡ false
      → Builds (suc fuel) q condition table
  Builds-missed fuel q zero table back next more miss h fits t l =
      let longest = IsCandidate-miss_all p q (char_at p q) (taken p q) l (differs _ _ miss) in
      let (table', run, right) =
        Builds-found fuel q 0 0 table next (ground arith) (omega arith) h fits t longest in
      (table', loop_misses_all fuel q 0 table refl more miss ∙ run, right)
  Builds-missed fuel q (suc i) table back next more miss h fits t l =
      let w = l.within in
      let (b, e, longest) = t.borders i (omega arith) in
      let small = longest.within in
      let (table', run, right) =
        back b (omega arith) fits t
          (IsCandidate-miss p q (char_at p q) i b (taken p q) l (differs _ _ miss) longest) in
      (
        table',
        loop_misses fuel q (suc i) table (omega arith) more miss
            ∙ ap (λ v. build_loop fuel p (suc q) (index v) table) e
            ∙ run,
        right,
      )

  -- With fuel above twice the positions left and the condition, the loop ends, and its table is right.
  build_loop-IsTable : (fuel q condition : ℕ) (table : List ℤ) → Builds fuel q condition table
  build_loop-IsTable zero q condition table h fits t l = absurd (omega arith)
  build_loop-IsTable (suc fuel) q condition table h fits t l =
      elim (Bool-cases (ltb (suc q) (length p))) [
        | inr end ↦ (
          table,
          loop_ends fuel q condition table end,
          IsTable-less (suc q) (length p) table (ground arith) t,
        )
        | inl more ↦ elim (Bool-cases (char_at p q == char_at p condition)) [
          | inl hit ↦
              let longest =
                candidate_hit p q (char_at p q) condition (taken p q) l
                  (sym ((==_iff _ _).0 hit)) in
              let (table', run, right) =
                Builds-found fuel q (suc condition) condition table
                  (build_loop-IsTable fuel (suc q) (suc condition)
                    (set table (suc q) (pos (suc condition))))
                  (ground arith) (omega arith) h fits t longest in
              (table', loop_hits fuel q condition table more hit ∙ run, right)
          | inr miss ↦
              Builds-missed fuel q condition table (λ b. build_loop-IsTable fuel q b table)
                (build_loop-IsTable fuel (suc q) 0 (set table (suc q) (pos 0))) more miss h fits t l
        ]
      ]

  begun-IsTable : (xs : List ℤ) → 1 < length xs → IsTable p 2 (set (set xs 0 (negsuc 0)) 1 (pos 0))
  begun-IsTable xs h = record {
    first =
        get_or-set_other (set xs 0 (negsuc 0)) 1 0 (pos 0) (pos 0) (λ e. omega (arith, e))
        ∙ get_or-set_self xs 0 (negsuc 0) (pos 0) (omega arith);
    borders = only_one;
  }
    where
      only_one : (k : ℕ) → suc k < 2 → HasBorder p (set (set xs 0 (negsuc 0)) 1 (pos 0)) k
      only_one zero lt = (
        0,
        get_or-set_self (set xs 0 (negsuc 0)) 1 (pos 0) (pos 0)
            (omega (arith, length-set xs 0 (negsuc 0))),
        record { within = omega arith; ends = tt; most = λ a le e. le },
      )
      only_one (suc k) lt = absurd (omega arith)

length-zeros : (n : ℕ) → length (zeros n) ≡ n
length-zeros zero = refl
length-zeros (suc n) = omega (arith, length-zeros n)

-- The table before the loop, with the entry at the end that the loop never reads.
length-ended :
    (p : List ℕ)
    → length (
        if ltb 2 (length p)
        then set (zeros (length p + 1)) (length p) (pos 0)
        else set (zeros (length p + 1)) 2 (pos 0))
      ≡ length p + 1
length-ended p = ground (
  arith,
  length-zeros (length p + 1),
  length-set (zeros (length p + 1)) (length p) (pos 0),
  length-set (zeros (length p + 1)) 2 (pos 0),
)

length-begun : (xs : List ℤ) → length (set (set xs 0 (negsuc 0)) 1 (pos 0)) ≡ length xs
length-begun xs = length-set (set xs 0 (negsuc 0)) 1 (pos 0) ∙ length-set xs 0 (negsuc 0)

-- For a pattern of at least two characters `build_table` ends, and its table holds, at every index
-- below the pattern's length, the length of the longest border of the prefix of that length.
pub build_table-IsTable :
    (p : List ℕ)
    → 2 ≤ length p
    → (table : List ℤ) × (build_table p ≡ some table) × IsTable p (length p) table
unfolding build_table
build_table-IsTable p h =
    build_loop-IsTable p (length p + length p) 1 0 (first_table p) (omega arith)
      (omega (arith, length-begun _ ∙ length-ended p))
      (begun-IsTable p _ (omega (arith, length-ended p)))
      (record { within = omega arith; ends = tt; most = λ a lt e. omega arith })
