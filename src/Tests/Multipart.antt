-- ===== src/Tests/Multipart.antt =====
-- Runs of src/beast_ext/knuth_morris_pratt_searcher.cpp and multipart_stream_parser.cpp.
use cis1_webui_native_srv_cp.Prelude.{
  ℤ, ℕ, ◌+◌, ◌≡◌, refl, List, [], ◌∷◌, ◌++◌, some, length, ascii, arith,
}
use cis1_webui_native_srv_cp.KnuthMorrisPratt.{Searcher, build_table, init}
use cis1_webui_native_srv_cp.KnuthMorrisPratt.Table.{IsTable, build_table-IsTable}
use cis1_webui_native_srv_cp.KnuthMorrisPratt.Search.{ends}
use cis1_webui_native_srv_cp.KnuthMorrisPratt.Finding.{find, find_slowly, find-init}
use cis1_webui_native_srv_cp.MultipartStreamParser.{
  Parser, epilogue, message_begin, message_end, empty_searcher, fresh, init_delims,
}
use cis1_webui_native_srv_cp.MultipartStreamParser.Feeding.{feed, fed}
use cis1_webui_native_srv_cp.MultipartStreamParser.Messages.{IsPart}
use cis1_webui_native_srv_cp.MultipartStreamParser.Parts.{
  delim_of_preamble, delim_of_message, form, tail_events, feed-form,
}

build_table-IsTable_example :
    (table : List ℤ) × (build_table (ascii "abab") ≡ some table) × IsTable (ascii "abab") 4 table
build_table-IsTable_example = build_table-IsTable (ascii "abab") (omega arith)

find-init_example :
    (s : Searcher) × (init (ascii "aab") empty_searcher ≡ some s)
    × (find (ascii "aaabc") s ≡ some (find_slowly (ascii "aab") [] (ascii "aaabc")))
find-init_example =
    find-init (ascii "aab") empty_searcher (ascii "aaabc") (λ h. absurd (omega arith)) (omega arith)

abbrev boundary : List ℕ
boundary = ascii "b"

abbrev preamble_text : List ℕ
preamble_text = delim_of_preamble boundary

abbrev first_text : List ℕ
first_text = ascii "x" ++ delim_of_message boundary

abbrev second_text : List ℕ
second_text = ascii "y-" ++ delim_of_message boundary

preamble-IsPart : IsPart (delim_of_preamble boundary) preamble_text
unfolding find_slowly ends
preamble-IsPart = refl

first-IsPart : IsPart (delim_of_message boundary) first_text
unfolding find_slowly ends
first-IsPart = refl

second-IsPart : IsPart (delim_of_message boundary) second_text
unfolding find_slowly ends
second-IsPart = refl

feed-form_example :
    (p : Parser) × (p.parser_state ≡ epilogue)
    × (feed 0
          (init_delims boundary fresh)
          (form preamble_text first_text (second_text ∷ []) (ascii "end"))
        ≡ some (
            fed p (length (form preamble_text first_text (second_text ∷ []) (ascii "end"))) (
              (length preamble_text, message_begin)
              ∷ (length preamble_text + length first_text, message_end)
              ∷ tail_events (length preamble_text + length first_text) (second_text ∷ []))))
feed-form_example =
    feed-form boundary preamble_text first_text (ascii "end") (second_text ∷ []) preamble-IsPart
      first-IsPart (second-IsPart, tt)
