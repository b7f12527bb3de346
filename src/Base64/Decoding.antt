-- ===== src/Base64/Decoding.antt =====
-- The encoding of src/base64.cpp read back by the decoder of RFC 4648, which the server does not
-- have: its clients and the scripts that hold a key do.
use cis1_webui_native_srv_cp.Prelude.{
  ℕ, suc, ◌+◌, ◌*◌, ◌/◌, ◌%◌, ◌<◌, ◌≡◌, refl, sym, ap, ◌∙◌, bit_and, Bool, true, ◌&&◌, List, [],
  ◌∷◌, arith, ◌==◌, ==_iff, if◌then◌else◌, length, All, holds_under, holds_under-at,
}
use cis1_webui_native_srv_cp.Base64.{
  base64_chars, base64_char, sextet_0, sextet_1, sextet_2, sextet_3, last_group, encode_loop,
  base64_encode,
}

pub index_in : ℕ → ℕ → List ℕ → ℕ
index_in c i [] = i
index_in c i (x ∷ xs) = let later = index_in c (suc i) xs in if x == c then i else later

-- The value of a character; the padding character has 64.
index : ℕ → ℕ
unfolding index_in base64_chars
index c = index_in c 0 base64_chars

index_table : holds_under (λ i. index (base64_char i) == i) 64 ≡ true
unfolding holds_under index base64_char
index_table = refl

index-base64_char : (i : ℕ) → i < 64 → index (base64_char i) ≡ i
index-base64_char i h =
    (==_iff _ i).0 (holds_under-at (λ j. index (base64_char j) == j) 64 i h index_table)

index-pad : index b'=' ≡ 64
unfolding index
index-pad = refl

-- `char_array_4` in arithmetic. The masks are checked at each of the 256 bytes.
abbrev mask_test : ℕ → Bool
mask_test a =
    (bit_and a 0xfc / 4 == a / 4)
    && (bit_and a 0x03 == a % 4)
    && (bit_and a 0xf0 / 16 == a / 16)
    && (bit_and a 0x0f == a % 16)
    && (bit_and a 0xc0 / 64 == a / 64)
    && (bit_and a 0x3f == a % 64)

mask_table : holds_under mask_test 256 ≡ true
unfolding holds_under
mask_table = refl

masks :
    (a : ℕ)
    → a < 256
    → (bit_and a 0xfc / 4 ≡ a / 4)
      × (bit_and a 0x03 ≡ a % 4)
      × (bit_and a 0xf0 / 16 ≡ a / 16)
      × (bit_and a 0x0f ≡ a % 16)
      × (bit_and a 0xc0 / 64 ≡ a / 64)
      × (bit_and a 0x3f ≡ a % 64)
masks a h = ground (arith, holds_under-at mask_test 256 a h mask_table)

-- The decoder: a group of four characters gives three bytes, two before one padding character, and
-- one before two.
decode_group : ℕ → ℕ → ℕ → ℕ → List ℕ → List ℕ
decode_group p q r t rest =
    if r == 64
    then (p * 4 + q / 16) ∷ []
    else if t == 64
    then (p * 4 + q / 16) ∷ (q % 16 * 16 + r / 4) ∷ []
    else (p * 4 + q / 16) ∷ (q % 16 * 16 + r / 4) ∷ (r % 4 * 64 + t) ∷ rest

pub base64_decode : List ℕ → List ℕ
base64_decode (p ∷ q ∷ r ∷ t ∷ rest) =
    decode_group (index p) (index q) (index r) (index t) (base64_decode rest)
base64_decode _ = []

-- The characters of a group, read back.
module _ (a b c : ℕ) (ha : a < 256) (hb : b < 256) (hc : c < 256) where
  index-sextet_0 : index (base64_char (sextet_0 a)) ≡ a / 4
  unfolding sextet_0
  index-sextet_0 = rw ((masks a ha).0) (index-base64_char (a / 4) (omega arith))

  index-sextet_1 : index (base64_char (sextet_1 a b)) ≡ a % 4 * 16 + b / 16
  unfolding sextet_1
  index-sextet_1 =
      rw ((masks a ha).1, (masks b hb).2) (index-base64_char (a % 4 * 16 + b / 16) (omega arith))

  index-sextet_2 : index (base64_char (sextet_2 b c)) ≡ b % 16 * 4 + c / 64
  unfolding sextet_2
  index-sextet_2 =
      rw ((masks b hb).3, (masks c hc).4) (index-base64_char (b % 16 * 4 + c / 64) (omega arith))

  index-sextet_3 : index (base64_char (sextet_3 c)) ≡ c % 64
  unfolding sextet_3
  index-sextet_3 = rw ((masks c hc).5) (index-base64_char (c % 64) (omega arith))

  decode_full :
      (rest : List ℕ)
      → decode_group
          (index (base64_char (sextet_0 a)))
          (index (base64_char (sextet_1 a b)))
          (index (base64_char (sextet_2 b c)))
          (index (base64_char (sextet_3 c)))
          rest
        ≡ a ∷ b ∷ c ∷ rest
  unfolding decode_group
  decode_full rest =
      rw (index-sextet_0, index-sextet_1, index-sextet_2, index-sextet_3) (ground arith)

module _ (a : ℕ) (ha : a < 256) where
  decode_one : base64_decode (last_group (a ∷ [])) ≡ a ∷ []
  unfolding base64_decode last_group decode_group
  decode_one =
      rw
        (
          index-sextet_0 a 0 0 ha (omega arith) (omega arith),
          index-sextet_1 a 0 0 ha (omega arith) (omega arith),
          index-pad,
        )
        (ground arith)

  decode_two : (b : ℕ) → b < 256 → base64_decode (last_group (a ∷ b ∷ [])) ≡ a ∷ b ∷ []
  unfolding base64_decode last_group decode_group
  decode_two b hb =
      rw
        (
          index-sextet_0 a b 0 ha hb (omega arith),
          index-sextet_1 a b 0 ha hb (omega arith),
          index-sextet_2 a b 0 ha hb (omega arith),
          index-pad,
        )
        (ground arith)

base64_decode-nil : base64_decode [] ≡ []
unfolding base64_decode
base64_decode-nil = refl

base64_decode-group :
    (p q r t : ℕ) (rest : List ℕ)
    → base64_decode (p ∷ q ∷ r ∷ t ∷ rest)
      ≡ decode_group (index p) (index q) (index r) (index t) (base64_decode rest)
unfolding base64_decode
base64_decode-group p q r t rest = refl

decode-encode_loop :
    (bytes : List ℕ) → All (λ a. a < 256) bytes → base64_decode (encode_loop [] bytes) ≡ bytes
unfolding encode_loop
decode-encode_loop [] h = base64_decode-nil
decode-encode_loop (a ∷ []) h = decode_one a h.0
decode-encode_loop (a ∷ b ∷ []) h = decode_two a h.0 b h.1.0
decode-encode_loop (a ∷ b ∷ c ∷ bytes) h =
    rw (base64_decode-group, decode-encode_loop bytes h.1.1.1)
      (decode_full a b c h.0 h.1.0 h.1.1.0 bytes)

-- A decoder of RFC 4648 gives back every string of bytes from `base64_encode`.
pub base64_decode-encode :
    (bytes : List ℕ) → All (λ a. a < 256) bytes → base64_decode (base64_encode bytes) ≡ bytes
unfolding base64_encode
base64_decode-encode bytes h = decode-encode_loop bytes h

-- Two strings of bytes with the same encoding are one: no two tokens collide by encoding.
pub base64_encode-injective :
    (xs ys : List ℕ)
    → All (λ a. a < 256) xs
    → All (λ a. a < 256) ys
    → base64_encode xs ≡ base64_encode ys
    → xs ≡ ys
base64_encode-injective xs ys hx hy e =
    sym (base64_decode-encode xs hx) ∙ ap base64_decode e ∙ base64_decode-encode ys hy

length-encode_loop : (bytes : List ℕ) → length (encode_loop [] bytes) ≡ (length bytes + 2) / 3 * 4
unfolding encode_loop last_group
length-encode_loop [] = omega arith
length-encode_loop (a ∷ []) = omega arith
length-encode_loop (a ∷ b ∷ []) = omega arith
length-encode_loop (a ∷ b ∷ c ∷ bytes) = omega (arith, length-encode_loop bytes)

-- The encoding has four characters for each three bytes, begun groups included.
pub length-base64_encode :
    (bytes : List ℕ) → length (base64_encode bytes) ≡ (length bytes + 2) / 3 * 4
unfolding base64_encode
length-base64_encode bytes = length-encode_loop bytes
