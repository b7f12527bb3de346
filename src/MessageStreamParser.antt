-- ===== src/MessageStreamParser.antt =====
-- src/beast_ext/message_stream_parser.cpp, the parser of the header of one part of a multipart
-- form, which takes a character at a time. The iterator `transition_it` is the list of the
-- characters from it to the end of the literal that it walks.
pub mod Feeding
pub mod Headers
pub mod Acceptance
use cis1_webui_native_srv_cp.Prelude.{
  ℕ, Bool, true, false, List, [], ◌∷◌, ◌==◌, if◌then◌else◌, ascii,
}

pub data State : Type 0 where
  start content_disposition name maybe_filename filename filename_body content_type : State
  content_type_body pre_body body : State

pub data Event : Type 0 where
  none begin_name end_name begin_filename end_filename begin_body end_body : Event

pub record Parser : Type 0 where
  pub state : State
  pub transition : List ℕ

-- A call gives the parser, the event, and whether it assigned the error code.
abbrev pub Outcome : Type 0
Outcome = Parser × Event × Bool

abbrev pub crlf : List ℕ
crlf = 13 ∷ 10 ∷ []

abbrev pub content_disposition_literal : List ℕ
content_disposition_literal = ascii "Content-Disposition: form-data; name=\""

abbrev pub filename_literal : List ℕ
filename_literal = ascii " filename=\""

abbrev pub content_type_literal : List ℕ
content_type_literal = 13 ∷ 10 ∷ ascii "Content-Type: "

abbrev pub pre_body_literal : List ℕ
pre_body_literal = 13 ∷ 10 ∷ 13 ∷ 10 ∷ []

-- The literal of a state; the source terminates the program in the other states.
abbrev pub tr_literal : State → List ℕ
tr_literal content_disposition = content_disposition_literal
tr_literal filename = filename_literal
tr_literal content_type = content_type_literal
tr_literal pre_body = pre_body_literal
tr_literal _ = []

-- The assignment of a state, followed by `tr_reset`.
abbrev pub tr_reset : State → Parser
tr_reset s = record { state = s; transition = tr_literal s }

-- An assignment of a state alone; the iterator is read again only after a `tr_reset`.
abbrev pub go_to : State → Parser
go_to s = record { state = s; transition = [] }

abbrev pub initial : Parser
initial = go_to start

-- The character is compared with the next one of the literal; behind the last one the parser goes
-- on to the state `s` with the event `e`. The source would read past an end that is reached.
abbrev pub tr_step : State → Event → ℕ → Parser → List ℕ → Outcome
tr_step s e c p [] = (p, none, true)
tr_step s e c p (x ∷ []) = if c == x then (go_to s, e, false) else (p, none, true)
tr_step s e c p (x ∷ y ∷ rest) =
    if c == x then (record p { transition = y ∷ rest }, none, false) else (p, none, true)

-- The states, `start` among them by the fall through to `content_disposition`.
unfoldable pub handle_in : State → ℕ → Parser → Outcome
handle_in start c p =
    tr_step name begin_name c (tr_reset content_disposition) content_disposition_literal
handle_in content_disposition c p = tr_step name begin_name c p p.transition
handle_in name c p = if c == b'"' then (go_to maybe_filename, end_name, false) else (p, none, false)
handle_in maybe_filename c p =
    if c == b';'
    then (tr_reset filename, none, false)
    else if c == 13
    then (record { state = pre_body; transition = 10 ∷ 13 ∷ 10 ∷ [] }, none, false)
    else (p, none, true)
handle_in filename c p = tr_step filename_body begin_filename c p p.transition
handle_in filename_body c p =
    if c == b'"' then (tr_reset content_type, end_filename, false) else (p, none, false)
handle_in content_type c p = tr_step content_type_body none c p p.transition
handle_in content_type_body c p =
    if c == 13
    then (record { state = pre_body; transition = 10 ∷ 13 ∷ 10 ∷ [] }, none, false)
    else (p, none, false)
handle_in pre_body c p = tr_step body begin_body c p p.transition
handle_in body c p = (p, none, false)

unfoldable pub handle_message_char : Parser → ℕ → Outcome
unfolding handle_in
handle_message_char p c = handle_in p.state c p

end_in : State → Parser → Outcome
end_in body p = (go_to start, end_body, false)
end_in _ p = (p, none, true)

unfoldable pub handle_message_end : Parser → Outcome
unfolding end_in
handle_message_end p = end_in p.state p
