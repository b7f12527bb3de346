-- ===== src/MessageStreamParser/Headers.antt =====
-- The headers that src/beast_ext/message_stream_parser.cpp reads: a field name, or a field name, a
-- file name and a content type.
use cis1_webui_native_srv_cp.Prelude.{
  ℕ, ◌≡◌, ◌≢◌, refl, ap, ◌∙◌, List, [], ◌∷◌, ◌++◌, Option, some, All,
}
use cis1_webui_native_srv_cp.MessageStreamParser.{
  content_disposition, name, maybe_filename, filename, filename_body, content_type,
  content_type_body, pre_body, body, Event, none, begin_name, end_name, begin_filename,
  end_filename, begin_body, Parser, initial, go_to, tr_reset, handle_message_char,
  content_disposition_literal, filename_literal, content_type_literal, pre_body_literal,
}
use cis1_webui_native_srv_cp.MessageStreamParser.Feeding.{
  emit, emits, feed, feed-nil, feed_step, feed_same_step, signal, quiet, at, Walks, Reads,
  feed_literal, feed_reads,
}

pub record File : Type 0 where
  pub file_name : List ℕ
  pub file_type : List ℕ

pub record Header : Type 0 where
  pub field : List ℕ
  pub file : Option File

-- The text behind the field name's closing quote, with what follows the header.
abbrev pub print_file : Option File → List ℕ → List ℕ
print_file Option.none rest = pre_body_literal ++ rest
print_file (some f) rest =
    b';' ∷ filename_literal
    ++ (f.file_name ++ b'"' ∷ (content_type_literal ++ (f.file_type ++ (pre_body_literal ++ rest))))

abbrev pub print : Header → List ℕ → List ℕ
print h rest = content_disposition_literal ++ (h.field ++ b'"' ∷ print_file h.file rest)

abbrev pub IsPlainFile : Option File → Type 0
IsPlainFile Option.none = Unit {0}
IsPlainFile (some f) = All (λ c. c ≢ b'"') f.file_name × All (λ c. c ≢ 13) f.file_type

-- No name holds a quote, and no content type a carriage return.
abbrev pub IsPlain : Header → Type 0
IsPlain h = All (λ c. c ≢ b'"') h.field × IsPlainFile h.file

-- The events of the rest of a header, and of a header, in front of those of its body.
abbrev pub file_events : Option File → List ℕ → List Event
file_events Option.none rest = signal begin_body pre_body_literal ++ quiet rest
file_events (some f) rest =
    none ∷ signal begin_filename filename_literal
    ++ (quiet f.file_name
        ++ end_filename
          ∷ (signal none content_type_literal
              ++ (quiet f.file_type ++ (signal begin_body pre_body_literal ++ quiet rest))))

abbrev pub header_events : Header → List ℕ → List Event
header_events h rest =
    signal begin_name content_disposition_literal
    ++ (quiet h.field ++ end_name ∷ file_events h.file rest)

pub content_disposition-walks : Walks content_disposition name begin_name
unfolding handle_message_char
content_disposition-walks c t = refl

pub filename-walks : Walks filename filename_body begin_filename
unfolding handle_message_char
filename-walks c t = refl

pub content_type-walks : Walks content_type content_type_body none
unfolding handle_message_char
content_type-walks c t = refl

pub pre_body-walks : Walks pre_body body begin_body
unfolding handle_message_char
pre_body-walks c t = refl

pub name-reads : Reads name b'"' (go_to maybe_filename) end_name
unfolding handle_message_char
name-reads c = refl

pub filename_body-reads : Reads filename_body b'"' (tr_reset content_type) end_filename
unfolding handle_message_char
filename_body-reads c = refl

pub content_type_body-reads : Reads content_type_body 13 (at pre_body (10 ∷ 13 ∷ 10 ∷ [])) none
unfolding handle_message_char
content_type_body-reads c = refl

feed-body : (rest : List ℕ) → feed (go_to body) rest ≡ some (go_to body, quiet rest)
unfolding handle_message_char
feed-body [] = feed-nil _
feed-body (c ∷ rest) = feed_step _ _ _ _ _ refl ∙ ap (emit none) (feed-body rest)

-- `emits` of a trace that ended.
emits-some :
    (es later : List Event) (p : Parser) → emits es (some (p, later)) ≡ some (p, es ++ later)
emits-some [] later p = refl
emits-some (e ∷ es) later p = rw (emits-some es later p)

feed-pre_body :
    (rest : List ℕ)
    → feed (at pre_body (10 ∷ 13 ∷ 10 ∷ [])) (10 ∷ 13 ∷ 10 ∷ rest)
      ≡ some (go_to body, signal begin_body (10 ∷ 13 ∷ 10 ∷ []) ++ quiet rest)
feed-pre_body rest =
    feed_literal pre_body body begin_body pre_body-walks 10 (13 ∷ 10 ∷ []) rest
    ∙ ap (emits (signal begin_body (10 ∷ 13 ∷ 10 ∷ []))) (feed-body rest)

feed-content_type :
    (t rest : List ℕ)
    → All (λ c. c ≢ 13) t
    → feed (tr_reset content_type) (content_type_literal ++ (t ++ (pre_body_literal ++ rest)))
      ≡ some (
        go_to body,
        signal none content_type_literal
            ++ (quiet t ++ (signal begin_body pre_body_literal ++ quiet rest)),
      )
feed-content_type t rest h =
    feed_literal content_type content_type_body none content_type-walks 13 _ _
    ∙ ap (emits (signal none content_type_literal)) (
        feed_reads content_type_body 13 _ none content_type_body-reads t (10 ∷ 13 ∷ 10 ∷ rest) h
        ∙ ap (λ x. emits (quiet t) (emit none x)) (feed-pre_body rest)
        ∙ emits-some (quiet t) _ _)
    ∙ emits-some (signal none content_type_literal) _ _

feed-file :
    (f : Option File) (rest : List ℕ)
    → IsPlainFile f
    → feed (go_to maybe_filename) (print_file f rest) ≡ some (go_to body, file_events f rest)
unfolding handle_message_char
feed-file Option.none rest h =
    feed_step _ (at pre_body (10 ∷ 13 ∷ 10 ∷ [])) none 13 _ refl
    ∙ ap (emit none) (feed-pre_body rest)
feed-file (some f) rest h =
    feed_step _ (tr_reset filename) none b';' _ refl
    ∙ ap (emit none) (
        feed_literal filename filename_body begin_filename filename-walks 32 _ _
        ∙ ap (emits (signal begin_filename filename_literal)) (
            feed_reads filename_body b'"' _ end_filename filename_body-reads f.file_name _ h.0
            ∙ ap (λ x. emits (quiet f.file_name) (emit end_filename x))
                (feed-content_type f.file_type rest h.1)
            ∙ emits-some (quiet f.file_name) _ _)
        ∙ emits-some (signal begin_filename filename_literal) _ _)

-- `start` falls through to the first literal.
feed-start :
    (cs : List ℕ) → feed initial (b'C' ∷ cs) ≡ feed (tr_reset content_disposition) (b'C' ∷ cs)
unfolding initial handle_message_char
feed-start cs = feed_same_step initial (tr_reset content_disposition) b'C' cs refl

-- A fresh parser reads every header with a field name, or with a field name, a file name and a
-- content type, whose names hold no quote and whose type holds no carriage return, with the body
-- behind it, without an error; it ends in the body, and its events stand at the first and the last
-- character of each part.
pub feed-print :
    (h : Header) (rest : List ℕ)
    → IsPlain h
    → feed initial (print h rest) ≡ some (go_to body, header_events h rest)
feed-print h rest plain =
    feed-start _
    ∙ feed_literal content_disposition name begin_name content_disposition-walks b'C' _ _
    ∙ ap (emits (signal begin_name content_disposition_literal)) (
        feed_reads name b'"' _ end_name name-reads h.field _ plain.0
        ∙ ap (λ x. emits (quiet h.field) (emit end_name x)) (feed-file h.file rest plain.1)
        ∙ emits-some (quiet h.field) _ _)
    ∙ emits-some (signal begin_name content_disposition_literal) _ _
