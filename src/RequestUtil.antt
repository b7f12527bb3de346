-- ===== src/RequestUtil.antt =====
-- src/http/request_util.cpp: the hexadecimal digits and the URI escaping of form data. A char is
-- its byte, a number below 256; the compilers that the project supports have a signed char, which
-- `signed` writes out where the code computes with it.
pub mod Escaping
use cis1_webui_native_srv_cp.Prelude.{
  ℕ, ◌+◌, ◌-◌, ◌*◌, ◌%◌, Bool, ◌&&◌, ◌||◌, List, [], ◌∷◌, ltb, leb, ◌==◌, if◌then◌else◌,
}

-- The sum is an `int`, converted back to unsigned char.
pub to_hex : ℕ → ℕ
to_hex ch = if ltb 9 ch then (ch + 55) % 256 else (ch + 48) % 256

pub from_hex : ℕ → ℕ
from_hex ch =
    if leb b'0' ch && leb ch b'9'
    then ch - b'0'
    else if leb b'a' ch && leb ch b'f'
    then ch - (b'a' - 10)
    else if leb b'A' ch && leb ch b'F'
    then ch - (b'A' - 10)
    else 0

-- `i` walks the input; the test `size() > i + 2` is that two bytes follow the percent sign.
pub unescape_uri : List ℕ → List ℕ
unescape_uri [] = []
unescape_uri (c ∷ []) = (if c == b'+' then 32 else c) ∷ []
unescape_uri (c ∷ a ∷ []) = (if c == b'+' then 32 else c) ∷ unescape_uri (a ∷ [])
unescape_uri (c ∷ a ∷ b ∷ rest) =
    let skipped = unescape_uri rest in
    let next = unescape_uri (a ∷ b ∷ rest) in
    if c == b'+'
    then 32 ∷ next
    else if c == b'%'
    then ((from_hex a * 16 + from_hex b) % 256) ∷ skipped
    else c ∷ next

-- `ch % 16` of a signed char, converted to unsigned char.
pub char_rem_16 : ℕ → ℕ
char_rem_16 ch = if ltb ch 128 then ch % 16 else (256 - (256 - ch) % 16) % 256

unfoldable pub is_allowed : ℕ → Bool
is_allowed ch =
    (leb b'a' ch && leb ch b'z') || (leb b'A' ch && leb ch b'Z') || (leb b'0' ch && leb ch b'9')

-- `to_hex(ch * 16)`: the product is an `int`, converted to unsigned char.
pub escape_uri : List ℕ → List ℕ
escape_uri [] = []
escape_uri (ch ∷ rest) =
    let escaped = escape_uri rest in
    if is_allowed ch
    then ch ∷ escaped
    else if ch == 32
    then b'+' ∷ escaped
    else b'%' ∷ to_hex ((ch * 16) % 256) ∷ to_hex (char_rem_16 ch) ∷ escaped
