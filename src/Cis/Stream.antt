-- ===== src/Cis/Stream.antt =====
-- std::ifstream, as src/cis/cis_structs.cpp and src/cis/cis_manager.cpp read it: the characters that
-- are left, whether reading on behind them fails, and the bits of its state. A file that could not be
-- opened has the fail bit set; one that cannot be read, as a directory, is opened, and the first read
-- behind its characters sets the bad bit, which is counted with the fail bit, and not the eof bit.
use cis1_webui_native_srv_cp.Prelude.{
  ℕ, suc, ◌≤◌, ◌==◌, ◌≡◌, ◌≢◌, Bool, true, false, ◌&&◌, ◌||◌, not, List, [], ◌∷◌, ◌++◌, Option,
  none, some, length, leb, if◌then◌else◌, arith, All, Bool-cases, inl, inr,
}

pub record Stream : Type 0 where
  pub rest : List ℕ
  pub broken : Bool
  pub eof : Bool
  pub fail : Bool

abbrev pub opened : List ℕ → Stream
opened text = record { rest = text; broken = false; eof = false; fail = false }

abbrev pub not_opened : Stream
not_opened = record { rest = []; broken = false; eof = false; fail = true }

-- A directory, or a disk that gives nothing.
abbrev pub unreadable : Stream
unreadable = record { rest = []; broken = true; eof = false; fail = false }

abbrev pub good : Stream → Bool
good s = not s.eof && not s.fail

abbrev pub is_empty {ℓ} : {A : Type ℓ} → List A → Bool
is_empty [] = true
is_empty (x ∷ xs) = false

-- The characters in front of a delimiter, and those behind it; none where there is no delimiter.
unfoldable pub split_at : ℕ → List ℕ → List ℕ × Option (List ℕ)
split_at delim [] = ([], none)
split_at delim (c ∷ cs) =
    let (front, rest) = split_at delim cs in if c == delim then ([], some cs) else (c ∷ front, rest)

abbrev pub line_of : Bool → List ℕ × Option (List ℕ) → List ℕ × Stream
line_of broken (front, none) = (
  front,
  record { rest = []; broken = broken; eof = not broken; fail = broken || is_empty front },
)
line_of broken (front, some rest) = (front, record (opened rest) { broken = broken })

-- `std::getline` into an empty string.
unfoldable pub getline : ℕ → Stream → List ℕ × Stream
unfolding split_at
getline delim s =
    if good s then line_of s.broken (split_at delim s.rest) else ([], record s { fail = true })

-- `std::isspace` in the classic locale.
abbrev pub isspace : ℕ → Bool
isspace c = c == 32 || (leb 9 c && leb c 13)

-- `erase` from behind the last character that is no space.
unfoldable pub trim_right : List ℕ → List ℕ
trim_right [] = []
trim_right (c ∷ cs) =
    let rest = trim_right cs in if is_empty rest && isspace c then [] else c ∷ rest

unfoldable pub skip_space : List ℕ → List ℕ
skip_space [] = []
skip_space (c ∷ cs) = let rest = skip_space cs in if isspace c then rest else c ∷ cs

unfoldable pub until_space : List ℕ → List ℕ
until_space [] = []
until_space (c ∷ cs) = let rest = until_space cs in if isspace c then [] else c ∷ rest

-- `>>` into a string.
abbrev pub read_word : Stream → List ℕ
read_word s = if good s then until_space (skip_space s.rest) else []

abbrev pub is_digit : ℕ → Bool
is_digit c = leb b'0' c && leb c b'9'

abbrev pub text_eq : List ℕ → List ℕ → Bool
text_eq [] [] = true
text_eq [] (y ∷ ys) = false
text_eq (x ∷ xs) [] = false
text_eq (x ∷ xs) (y ∷ ys) = (x == y) && text_eq xs ys

pub split_at-append :
    (delim : ℕ) (front rest : List ℕ)
    → All (λ c. c ≢ delim) front
    → split_at delim (front ++ delim ∷ rest) ≡ (front, some rest)
unfolding split_at
split_at-append delim [] rest h = ground arith
split_at-append delim (c ∷ front) rest h = ground (arith, split_at-append delim front rest h.1, h.0)

-- With the delimiter, what stands behind it is no longer than what it was split off.
abbrev pub left : Option (List ℕ) → ℕ
left none = 0
left (some rest) = suc (length rest)

pub left-split_at : (delim : ℕ) (text : List ℕ) → left (split_at delim text).1 ≤ length text
unfolding split_at
left-split_at delim [] = omega arith
left-split_at delim (c ∷ cs) = elim (Bool-cases (c == delim)) [
  | inl e ↦ rw e (omega arith)
  | inr e ↦ rw e (omega (arith, left-split_at delim cs))
]
