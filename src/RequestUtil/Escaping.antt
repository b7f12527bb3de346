-- ===== src/RequestUtil/Escaping.antt =====
-- What src/http/request_util.cpp promises of its escaping: `unescape_uri` reads the percent
-- encoding of every byte string back, and what `escape_uri` makes of one.
use cis1_webui_native_srv_cp.Prelude.{
  ℕ, ◌+◌, ◌*◌, ◌/◌, ◌%◌, ◌≤◌, ◌<◌, ◌≡◌, ◌≢◌, refl, ap, true, false, ◌||◌, List, [], ◌∷◌, map, arith,
  ◌==◌, ==_iff, if◌then◌else◌, length, All, holds_under, holds_under-at,
}
use cis1_webui_native_srv_cp.RequestUtil.{
  to_hex, from_hex, unescape_uri, char_rem_16, is_allowed, escape_uri,
}

-- One step at a percent sign, and one at any other byte.
unescape_uri-percent :
    (a b : ℕ) (rest : List ℕ)
    → unescape_uri (b'%' ∷ a ∷ b ∷ rest)
      ≡ ((from_hex a * 16 + from_hex b) % 256) ∷ unescape_uri rest
unfolding unescape_uri
unescape_uri-percent a b rest = refl

unescape_uri-other :
    (c : ℕ) (rest : List ℕ)
    → c ≢ b'%'
    → unescape_uri (c ∷ rest) ≡ (if c == b'+' then 32 else c) ∷ unescape_uri rest
unfolding unescape_uri
unescape_uri-other c [] h = refl
unescape_uri-other c (a ∷ []) h = refl
unescape_uri-other c (a ∷ b ∷ rest) h = ground arith

from_hex-to_hex : (n : ℕ) → n < 16 → from_hex (to_hex n) ≡ n
unfolding from_hex to_hex
from_hex-to_hex n h = ground arith

refl_nil : unescape_uri [] ≡ []
unfolding unescape_uri
refl_nil = refl

-- The percent encoding of RFC 3986, every byte escaped.
pub percent_encode : List ℕ → List ℕ
percent_encode [] = []
percent_encode (c ∷ s) = b'%' ∷ to_hex (c / 16) ∷ to_hex (c % 16) ∷ percent_encode s

-- `unescape_uri` gives back every string of bytes from its percent encoding.
pub unescape_uri-percent_encode :
    (s : List ℕ) → All (λ c. c < 256) s → unescape_uri (percent_encode s) ≡ s
unfolding percent_encode
unescape_uri-percent_encode [] h = refl_nil
unescape_uri-percent_encode (c ∷ s) h =
    rw
      (
        unescape_uri-percent,
        from_hex-to_hex (c / 16) (omega arith),
        from_hex-to_hex (c % 16) (omega arith),
        unescape_uri-percent_encode s h.1,
      )
      (ap (λ (b : ℕ). b ∷ s) (omega arith))

-- The result of `unescape_uri` is no longer than its input, so the result buffer, which has the
-- input's size, is never overrun.
pub length-unescape_uri : (s : List ℕ) → length (unescape_uri s) ≤ length s
unfolding unescape_uri
length-unescape_uri [] = omega arith
length-unescape_uri (c ∷ []) = omega arith
length-unescape_uri (c ∷ a ∷ []) = omega (arith, length-unescape_uri (a ∷ []))
length-unescape_uri (c ∷ a ∷ b ∷ rest) =
    ground (arith, length-unescape_uri rest, length-unescape_uri (a ∷ b ∷ rest))

-- What becomes of a character on the way through `escape_uri` and `unescape_uri`.
abbrev pub survivor : ℕ → ℕ
survivor c = if is_allowed c || c == 32 then c else c % 16

-- The two digits that `escape_uri` writes, read back.
abbrev decoded_pair : ℕ → ℕ
decoded_pair c = from_hex (to_hex ((c * 16) % 256)) * 16 + from_hex (to_hex (char_rem_16 c))

hex_pair_table : holds_under (λ c. decoded_pair c == c % 16) 128 ≡ true
unfolding holds_under from_hex to_hex char_rem_16
hex_pair_table = refl

hex_pair : (c : ℕ) → c < 128 → decoded_pair c ≡ c % 16
hex_pair c h =
    (==_iff _ _).0 (holds_under-at (λ b. decoded_pair b == b % 16) 128 c h hex_pair_table)

-- Of an ASCII string, `unescape_uri` gives back from `escape_uri` the letters, the digits and the
-- spaces; of any other character only its value modulo 16 is left.
pub unescape_uri-escape_uri :
    (s : List ℕ) → All (λ c. c < 128) s → unescape_uri (escape_uri s) ≡ map survivor s
unfolding escape_uri is_allowed
unescape_uri-escape_uri [] h = refl_nil
unescape_uri-escape_uri (c ∷ s) h = ground (
  arith,
  hex_pair c h.0,
  unescape_uri-percent (to_hex ((c * 16) % 256)) (to_hex (char_rem_16 c)) (escape_uri s),
  unescape_uri-other c (escape_uri s),
  unescape_uri-other b'+' (escape_uri s),
  unescape_uri-escape_uri s h.1,
)

-- So no ASCII character from 16 on that is not a letter, a digit or a space is given back.
pub unescape_uri-escape_uri_ne :
    (c : ℕ)
    → 16 ≤ c
    → c < 128
    → is_allowed c ≡ false
    → c ≢ 32
    → unescape_uri (escape_uri (c ∷ [])) ≢ c ∷ []
unescape_uri-escape_uri_ne c lo hi denied ne e =
    ground (arith, unescape_uri-escape_uri (c ∷ []) (hi, tt))
