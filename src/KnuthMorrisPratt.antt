-- ===== src/KnuthMorrisPratt.antt =====
-- src/beast_ext/knuth_morris_pratt_searcher.cpp. Characters are numbers. The counters m_ and i_ are
-- natural numbers, as a text of 2^64 characters does not occur; a loop has fuel, and gives none
-- where it would go on.
pub mod Borders
pub mod Table
pub mod Search
pub mod Finding
use cis1_webui_native_srv_cp.Prelude.{
  ℕ, zero, suc, ◌+◌, ◌-◌, Bool, true, false, List, [], ◌∷◌, Option, none, some, ltb, ◌==◌,
  if◌then◌else◌, length, get_or, set, ℤ, pos, negsuc,
}

pub record Searcher : Type 0 where
  pub m : ℕ
  pub i : ℕ
  pub pattern : List ℕ
  -- Entries of the type int.
  pub table : List ℤ

abbrev pub char_at : List ℕ → ℕ → ℕ
char_at p i = get_or p i 0

abbrev pub entry : List ℤ → ℕ → ℤ
entry table i = get_or table i (pos 0)

-- An index that an entry is assigned to; the source takes 0 where the entry is below 0.
abbrev pub index : ℤ → ℕ
index (pos n) = n
index (negsuc n) = 0

abbrev pub zeros : ℕ → List ℤ
zeros zero = []
zeros (suc n) = pos 0 ∷ zeros n

-- The loop of `build_table`, by `position` and `condition`.
pub build_loop : ℕ → List ℕ → ℕ → ℕ → List ℤ → Option (List ℤ)
build_loop zero p position condition table = none
build_loop (suc fuel) p position condition table = elim (ltb position (length p)) [
  | false ↦ some table
  | true ↦ elim (char_at p (position - 1) == char_at p condition) [
    | true ↦
        build_loop fuel p (suc position) (suc condition) (set table position (pos (suc condition)))
    | false ↦ elim (ltb 0 condition) [
      | true ↦ build_loop fuel p position (index (entry table condition)) table
      | false ↦ build_loop fuel p (suc position) condition (set table position (pos 0))
    ]
  ]
]

-- What the table holds before the loop. The entries that `resize` keeps of an older table are all
-- assigned, here or in the loop, before they are read.
abbrev pub first_table : List ℕ → List ℤ
first_table p =
    let resized = zeros (length p + 1) in
    let ended =
      if ltb 2 (length p) then set resized (length p) (pos 0) else set resized 2 (pos 0) in
    set (set ended 0 (negsuc 0)) 1 (pos 0)

pub build_table : List ℕ → Option (List ℤ)
unfolding build_loop
build_table p = build_loop (length p + length p) p 2 0 (first_table p)

unfoldable pub same : List ℕ → List ℕ → Bool
same [] [] = true
same [] (d ∷ ds) = false
same (c ∷ cs) [] = false
same (c ∷ cs) (d ∷ ds) = if c == d then same cs ds else false

abbrev pub reset : Searcher → Searcher
reset s = record s { m = 0; i = 0 }

-- The source terminates the program for a pattern of fewer than two characters.
unfoldable pub init : List ℕ → Searcher → Option Searcher
unfolding build_table same
init p s =
    if ltb (length p) 2
    then none
    else if same p s.pattern
    then some (reset s)
    else elim (build_table p) [
      | none ↦ none
      | some table ↦ some (reset (record s { pattern = p; table = table }))
    ]

-- `m_ += i_ - table_[i_]`.
abbrev pub moved : ℕ → ℕ → ℤ → ℕ
moved m i (pos n) = m + (i - n)
moved m i (negsuc n) = m + (i + suc n)

abbrev pub fall_back : Searcher → Searcher
fall_back s = let t = entry s.table s.i in record s { m = moved s.m s.i t; i = index t }

-- The loop of `partial_search`; the searcher with the count of the matched characters.
pub search_loop : ℕ → ℕ → ℕ → Searcher → Option (Searcher × ℕ)
search_loop zero offset c s = none
search_loop (suc fuel) offset c s = elim (ltb (s.m + s.i - offset) 1) [
  | false ↦ some (s, s.i)
  | true ↦ elim (char_at s.pattern s.i == c) [
    | true ↦ elim (s.i == length s.pattern - 1) [
      | true ↦ some (s, suc s.i)
      | false ↦ search_loop fuel offset c (record s { i = suc s.i })
    ]
    | false ↦ search_loop fuel offset c (fall_back s)
  ]
]

unfoldable pub partial_search : ℕ → Searcher → Option (Searcher × ℕ)
unfolding search_loop
partial_search c s = search_loop (suc (suc s.i)) (s.m + s.i) c s
