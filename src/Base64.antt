-- ===== src/Base64.antt =====
-- src/base64.cpp. Bytes and characters are numbers below 256.
pub mod Decoding
use cis1_webui_native_srv_cp.Prelude.{ℕ, ◌+◌, ◌*◌, ◌/◌, bit_and, List, [], ◌∷◌, get_or, ascii}

pub base64_chars : List ℕ
base64_chars = ascii "ABCDEFGHIJKLMNOPQRSTUVWXYZabcdefghijklmnopqrstuvwxyz0123456789+/"

pub base64_char : ℕ → ℕ
unfolding base64_chars
base64_char i = get_or base64_chars i 0

-- The entries of `char_array_4`, as functions of `char_array_3`.
pub sextet_0 : ℕ → ℕ
sextet_0 a = bit_and a 0xfc / 4

pub sextet_1 : ℕ → ℕ → ℕ
sextet_1 a b = bit_and a 0x03 * 16 + bit_and b 0xf0 / 16

pub sextet_2 : ℕ → ℕ → ℕ
sextet_2 b c = bit_and b 0x0f * 4 + bit_and c 0xc0 / 64

pub sextet_3 : ℕ → ℕ
sextet_3 c = bit_and c 0x3f

-- The code behind `if(i)`: what the loop has left over in `char_array_3`, padded with zeros.
pub last_group : List ℕ → List ℕ
unfolding sextet_0 sextet_1 sextet_2
last_group [] = []
last_group (a ∷ []) = base64_char (sextet_0 a) ∷ base64_char (sextet_1 a 0) ∷ b'=' ∷ b'=' ∷ []
last_group (a ∷ b ∷ _) =
    base64_char (sextet_0 a) ∷ base64_char (sextet_1 a b) ∷ base64_char (sextet_2 b 0) ∷ b'=' ∷ []

-- The loop, with the first `i` bytes of `char_array_3` as its first argument.
pub encode_loop : List ℕ → List ℕ → List ℕ
unfolding last_group sextet_0 sextet_1 sextet_2 sextet_3
encode_loop pending [] = last_group pending
encode_loop [] (a ∷ bytes) = encode_loop (a ∷ []) bytes
encode_loop (a ∷ []) (b ∷ bytes) = encode_loop (a ∷ b ∷ []) bytes
encode_loop (a ∷ b ∷ _) (c ∷ bytes) =
    base64_char (sextet_0 a)
    ∷ base64_char (sextet_1 a b)
    ∷ base64_char (sextet_2 b c)
    ∷ base64_char (sextet_3 c)
    ∷ encode_loop [] bytes

pub base64_encode : List ℕ → List ℕ
unfolding encode_loop
base64_encode bytes = encode_loop [] bytes
