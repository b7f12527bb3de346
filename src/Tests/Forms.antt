-- ===== src/Tests/Forms.antt =====
-- Runs of the reader of multipart bodies, over a disk in memory.
use cis1_webui_native_srv_cp.Prelude.{
  ℤ, ℕ, arith, ◌==◌, ◌≡◌, refl, Bool, true, false, ◌&&◌, List, [], ◌∷◌, ◌++◌, Option, none, some,
  ascii, All, if◌then◌else◌,
}
use cis1_webui_native_srv_cp.MessageStreamParser.{handle_message_char, handle_message_end}
use cis1_webui_native_srv_cp.MultipartStreamParser.{first_message, handle_char}
use cis1_webui_native_srv_cp.KnuthMorrisPratt.{build_table, init, partial_search}
use cis1_webui_native_srv_cp.KnuthMorrisPratt.Table.{IsTable, build_table-IsTable}
use cis1_webui_native_srv_cp.MultipartStreamParser.Parts.{delim_of_preamble, delim_of_message}
use cis1_webui_native_srv_cp.MultipartFormBody.Pending.{in_content, matched, put_all-garbles}
use cis1_webui_native_srv_cp.MultipartFormBody.Opening.{Log, logged, put_all, Obeys, put_all-Obeys}
use cis1_webui_native_srv_cp.MultipartFormBody.{
  add, Value, append_content, Disk, Reader, reader_of, init_reader, put,
}

abbrev same_text : List ℕ → List ℕ → Bool
same_text [] [] = true
same_text [] (y ∷ ys) = false
same_text (x ∷ xs) [] = false
same_text (x ∷ xs) (y ∷ ys) = (x == y) && same_text xs ys

abbrev Contents : Type 0
Contents = List (List ℕ × List ℕ)

abbrev is_there : List ℕ → Contents → Bool
is_there path [] = false
is_there path ((p, text) ∷ rest) = if same_text path p then true else is_there path rest

abbrev append_to : List ℕ → List ℕ → Contents → Contents
append_to path more [] = (path, more) ∷ []
append_to path more ((p, text) ∷ rest) =
    if same_text path p then (p, text ++ more) ∷ rest else (p, text) ∷ append_to path more rest

abbrev truncate : List ℕ → Contents → Contents
truncate path [] = (path, []) ∷ []
truncate path ((p, text) ∷ rest) =
    if same_text path p then (p, []) ∷ rest else (p, text) ∷ truncate path rest

abbrev memory : Disk (Option (List ℕ)) Contents
memory = record {
  join = λ dir name. dir ++ b'/' ∷ name;
  exists = is_there;
  closed = none;
  is_open = λ f. elim f [ none ↦ false | some _ ↦ true ];
  open_file = λ path w. (some path, truncate path w, false);
  write = λ text f w. elim f [
    | none ↦ (none, w, true)
    | some path ↦ (some path, append_to path text w, false)
  ];
  close = λ f w. (none, w, false);
}

abbrev file_path : List ℕ
file_path = ascii "d/../x"

abbrev part_text : List ℕ
part_text =
    ascii
      "--b\r\nContent-Disposition: form-data; name=\"n\"\r\n\r\nv\r\n--b\r\nContent-Disposition: form-data; name=\"f\"; filename=\"../x\"\r\nContent-Type: t\r\n\r\nab\r\nc\r\n--b--"

abbrev fresh_reader : Reader (Option (List ℕ))
fresh_reader = (init_reader (reader_of (ascii "d") add (ascii "b"))).0

abbrev file_text : List ℕ
file_text = ascii "ab\r\nc"

abbrev Run : Type 0
Run = Reader (Option (List ℕ)) × (Contents × Log) × Bool

abbrev run_of : Option Run → Run
run_of none = (fresh_reader, ([], []), true)
run_of (some run) = run

abbrev has_run : Option Run → Bool
has_run none = false
has_run (some run) = true

has_run-some : (o : Option Run) → has_run o ≡ true → o ≡ some (run_of o)
has_run-some none h = cc
has_run-some (some run) h = refl

form_run : Option Run
unfolding init_reader
form_run = put_all (logged memory) (part_text ∷ []) fresh_reader ([], [])

form_run-ends : has_run form_run ≡ true
unfolding form_run put_all put handle_char handle_message_char handle_message_end init
    partial_search
form_run-ends = refl

-- The part with the file name is written where the two dots lead.
form_run-writes : (run_of form_run).1 ≡ ((file_path, file_text) ∷ [], (file_path, false) ∷ [])
unfolding form_run put_all put handle_char handle_message_char handle_message_end init
    partial_search
form_run-writes = refl

put_all-Obeys_example : All (Obeys memory add (ascii "d")) (run_of form_run).1.1
unfolding form_run init_reader
put_all-Obeys_example =
    put_all-Obeys memory (part_text ∷ []) fresh_reader [] (has_run-some form_run form_run-ends)

abbrev form_boundary : List ℕ
form_boundary = ascii "b"

delim-IsTable :
    (table : List ℤ) × (build_table (delim_of_message form_boundary) ≡ some table)
    × IsTable (delim_of_message form_boundary) 5 table
delim-IsTable = build_table-IsTable (delim_of_message form_boundary) (omega arith)

abbrev begun_value : List Value
begun_value = record { name = ascii "n"; is_file = false; written = true; content = ascii "a" } ∷ []

abbrev in_value : ℕ → List Value → Reader (Option (List ℕ))
in_value m values =
    in_content fresh_reader
      (matched (delim_of_preamble form_boundary) form_boundary first_message tt delim-IsTable.0 m 0)
      values []

put_all-garbles_example :
    (m : ℕ) × (put_all memory ((13 ∷ 10 ∷ b'z' ∷ []) ∷ []) (in_value 0 begun_value) []
      ≡ some (in_value m (append_content (13 ∷ 10 ∷ b'z' ∷ []) begun_value), [], false))
    × (put_all memory ((13 ∷ []) ∷ (10 ∷ []) ∷ (b'z' ∷ []) ∷ []) (in_value 0 begun_value) []
        ≡ some (in_value m (append_content (13 ∷ 13 ∷ b'z' ∷ []) begun_value), [], false))
put_all-garbles_example =
    put_all-garbles (delim_of_preamble form_boundary) form_boundary first_message tt delim-IsTable.0
      delim-IsTable.2 memory fresh_reader [] begun_value b'z' (λ e. omega (arith, e))
      (λ e. omega (arith, e))
