-- ===== src/Tests/Text.antt =====
-- Runs of src/http/request_util.cpp, src/base64.cpp and src/beast_ext/message_stream_parser.cpp.
use cis1_webui_native_srv_cp.Prelude.{
  ℕ, ◌≡◌, ◌≢◌, refl, List, [], ◌∷◌, map, some, arith, length, ascii,
}
use cis1_webui_native_srv_cp.RequestUtil.{unescape_uri, is_allowed, escape_uri}
use cis1_webui_native_srv_cp.RequestUtil.Escaping.{
  survivor, unescape_uri-escape_uri, unescape_uri-escape_uri_ne,
}
use cis1_webui_native_srv_cp.Base64.{base64_encode}
use cis1_webui_native_srv_cp.Base64.Decoding.{
  base64_decode, base64_decode-encode, length-base64_encode,
}
use cis1_webui_native_srv_cp.MessageStreamParser.{initial, go_to, body}
use cis1_webui_native_srv_cp.MessageStreamParser.Feeding.{feed}
use cis1_webui_native_srv_cp.MessageStreamParser.Headers.{
  Header, print, header_events, IsPlain, feed-print,
}
use cis1_webui_native_srv_cp.MessageStreamParser.Acceptance.{ReachesBody, ReachesBody-print}

unescape_uri-escape_uri_example :
    unescape_uri (escape_uri (ascii "a b/c")) ≡ map survivor (ascii "a b/c")
unescape_uri-escape_uri_example = unescape_uri-escape_uri (ascii "a b/c") (omega arith)

unescape_uri-escape_uri_ne_example : unescape_uri (escape_uri (b'/' ∷ [])) ≢ b'/' ∷ []
unfolding is_allowed
unescape_uri-escape_uri_ne_example =
    unescape_uri-escape_uri_ne b'/' (omega arith) (omega arith) refl (omega arith)

base64_decode-encode_example : base64_decode (base64_encode (ascii "cis1")) ≡ ascii "cis1"
base64_decode-encode_example = base64_decode-encode (ascii "cis1") (omega arith)

-- A key of 32 bytes.
length-base64_encode_example :
    length (base64_encode (ascii "0123456789abcdef0123456789abcdef")) ≡ 44
length-base64_encode_example = length-base64_encode (ascii "0123456789abcdef0123456789abcdef")

abbrev upload : Header
upload = record {
  field = ascii "file";
  file = some (record { file_name = ascii "a.txt"; file_type = ascii "text/plain" });
}

upload-IsPlain : IsPlain upload
upload-IsPlain = omega arith

feed-print_example :
    feed initial (print upload (ascii "hi")) ≡ some (go_to body, header_events upload (ascii "hi"))
feed-print_example = feed-print upload (ascii "hi") upload-IsPlain

upload-ReachesBody : ReachesBody initial (print upload (ascii "hi"))
upload-ReachesBody = (go_to body, header_events upload (ascii "hi"), feed-print_lem, refl)
  where
    feed-print_lem :
        feed initial (print upload (ascii "hi"))
        ≡ some (go_to body, header_events upload (ascii "hi"))
    feed-print_lem = feed-print upload (ascii "hi") upload-IsPlain

ReachesBody-print_example :
    (h : Header) × (rest : List ℕ) × IsPlain h × (print upload (ascii "hi") ≡ print h rest)
ReachesBody-print_example = ReachesBody-print (print upload (ascii "hi")) upload-ReachesBody
