-- ===== src/Cis/JobConf.antt =====
-- `load_job_conf` of src/cis/cis_structs.cpp, which reads the file job.conf of a job. A std::map is the
-- list of its entries, one for a key. A loop has fuel, and gives none where it would go on.
pub mod Loading
use cis1_webui_native_srv_cp.Prelude.{
  ℕ, zero, suc, ◌+◌, ◌-◌, ◌*◌, ◌^◌, ◌==◌, Bool, true, false, ◌&&◌, ◌||◌, not, List, [], ◌∷◌, Option,
  none, some, String, ascii, ltb, if◌then◌else◌,
}
use cis1_webui_native_srv_cp.Cis.Stream.{
  Stream, good, is_empty, getline, trim_right, skip_space, is_digit, text_eq,
}

abbrev pub Conf : Type 0
Conf = List (List ℕ × List ℕ)

abbrev pub script_key : List ℕ
script_key = ascii "script"

abbrev pub successful_key : List ℕ
successful_key = ascii "keep_last_success_builds"

abbrev pub broken_key : List ℕ
broken_key = ascii "keep_last_break_builds"

-- `conf[key]`, of which a missing key is the empty string.
unfoldable pub value_of : List ℕ → Conf → List ℕ
value_of key [] = []
value_of key ((k, v) ∷ conf) = if text_eq k key then v else value_of key conf

-- `conf.count(key) == 1`.
unfoldable pub has_key : List ℕ → Conf → Bool
has_key key [] = false
has_key key ((k, v) ∷ conf) = text_eq k key || has_key key conf

-- `conf[key] = value`.
unfoldable pub assign : List ℕ → List ℕ → Conf → Conf
assign key value [] = (key, value) ∷ []
assign key value ((k, v) ∷ conf) =
    if text_eq k key then (k, value) ∷ conf else (k, v) ∷ assign key value conf

abbrev pub digit_value : ℕ → ℕ
digit_value c = c - b'0'

-- The number of the digits in front, behind the number so far.
unfoldable pub decimal : ℕ → List ℕ → ℕ
decimal n [] = n
decimal n (c ∷ cs) =
    let more = decimal (n * 10 + digit_value c) cs in if is_digit c then more else n

abbrev pub starts_with_digit : List ℕ → Bool
starts_with_digit [] = false
starts_with_digit (c ∷ cs) = is_digit c

abbrev pub digits_of : Bool → List ℕ → Option ℕ
digits_of negative cs =
    if starts_with_digit cs && ltb (decimal 0 cs) (2 ^ 64)
    then some (if negative && ltb 0 (decimal 0 cs) then 2 ^ 64 - decimal 0 cs else decimal 0 cs)
    else none

-- Behind white space, with a sign or without.
unfoldable pub signed : List ℕ → Option ℕ
unfolding decimal
signed [] = none
signed (c ∷ cs) =
    if c == b'-'
    then digits_of true cs
    else if c == b'+'
    then digits_of false cs
    else digits_of false (c ∷ cs)

-- `std::stoul`; none where it throws.
unfoldable pub stoul : List ℕ → Option ℕ
unfolding signed skip_space
stoul text = signed (skip_space text)

abbrev pub is_some : {A : Type 0} → Option A → Bool
is_some none = false
is_some (some a) = true

-- The loop over the lines. A line whose key is empty gives the empty map at once.
unfoldable pub load_loop : ℕ → Stream → Conf → Option Conf
unfolding getline assign trim_right
load_loop zero s conf = none
load_loop (suc fuel) s conf = elim s.eof [
  | true ↦ some conf
  | false ↦
      let (key, s1) = getline b'=' s in
      elim (is_empty key && good s1) [
        | true ↦ some []
        | false ↦ elim s1.eof [
          | true ↦ some conf
          | false ↦
              let (value, s2) = getline 10 s1 in
              load_loop fuel s2 (assign key (trim_right value) conf)
        ]
      ]
]

unfoldable pub is_complete : Conf → Bool
unfolding has_key value_of stoul
is_complete conf =
    (has_key script_key conf && (has_key successful_key conf && has_key broken_key conf))
    && (is_some (stoul (value_of successful_key conf))
        && is_some (stoul (value_of broken_key conf)))

abbrev pub cleared : Conf → Conf
cleared conf = if is_complete conf then conf else []

abbrev pub checked : Option Conf → Option Conf
checked none = none
checked (some conf) = some (cleared conf)

unfoldable pub load_job_conf : ℕ → Stream → Option Conf
unfolding load_loop is_complete
load_job_conf fuel s = checked (load_loop fuel s [])
