-- ===== src/MultipartStreamParser.antt =====
-- src/beast_ext/multipart_stream_parser.cpp, which finds the parts of a multipart form, a character at
-- a time. A result is none where the source terminates the program.
pub mod Accounting
pub mod Feeding
pub mod Messages
pub mod Parts
use cis1_webui_native_srv_cp.Prelude.{
  ℕ, suc, ◌+◌, ◌-◌, ◌==◌, Bool, true, false, List, [], ◌∷◌, ◌++◌, Option, none, some, ascii, length,
  if◌then◌else◌,
}
use cis1_webui_native_srv_cp.KnuthMorrisPratt.{Searcher, init, reset, partial_search}

pub data State : Type 0 where
  start preamble first_message maybe_end_or_encapsulation maybe_end maybe_encapsulation : State
  encapsulation epilogue : State

-- `event::none` is `nothing`.
pub data Event : Type 0 where
  nothing message_begin message_end : Event

pub record Parser : Type 0 where
  pub parser_state : State
  pub kmp : Searcher
  pub preamble_delim : List ℕ
  pub encapsulation_delim : List ℕ
  pub last_matched : ℕ

-- The parser, the advancement, the event, and whether the error code was assigned.
abbrev pub Outcome : Type 0
Outcome = Parser × ℕ × Event × Bool

abbrev pub crlf : List ℕ
crlf = 13 ∷ 10 ∷ []

abbrev pub ddash : List ℕ
ddash = b'-' ∷ b'-' ∷ []

abbrev pub empty_searcher : Searcher
empty_searcher = record { m = 0; i = 0; pattern = []; table = [] }

abbrev pub fresh : Parser
fresh = record {
  parser_state = start;
  kmp = empty_searcher;
  preamble_delim = [];
  encapsulation_delim = [];
  last_matched = 0;
}

abbrev pub init_delims : List ℕ → Parser → Parser
init_delims boundary p = record p {
  preamble_delim = p.preamble_delim ++ (ddash ++ (boundary ++ crlf));
  encapsulation_delim = p.encapsulation_delim ++ (crlf ++ (ddash ++ boundary));
}

abbrev pub tr_delim : Parser → State → Option (List ℕ)
tr_delim p preamble = some p.preamble_delim
tr_delim p first_message = some p.encapsulation_delim
tr_delim p encapsulation = some p.encapsulation_delim
tr_delim p _ = none

infixl 5 ◌>>=◌
abbrev pub ◌>>=◌ : {A B : Type 0} → Option A → (A → Option B) → Option B
none >>= k = none
some a >>= k = k a

unfoldable pub tr_init : Parser → Option Parser
tr_init p = do
  delim ← tr_delim p p.parser_state
  kmp ← init delim p.kmp
  some (record p { last_matched = 0; kmp = kmp })

abbrev tr_reset : Parser → Parser
tr_reset p = record p { last_matched = 0; kmp = reset p.kmp }

-- The length of the match never exceeds `last_matched_ + 1`, so the difference does not wrap.
unfoldable pub tr_check : ℕ → Parser → Option (Parser × ℕ × Bool)
tr_check c p = do
  (kmp, matched) ← partial_search c p.kmp
  delim ← tr_delim p p.parser_state
  let result = matched == length delim
  let skipped = if p.last_matched + 1 == matched then 0 else p.last_matched + 1 - matched
  let advancement = skipped + (if result then length delim else 0)
  some (record p { last_matched = matched; kmp = kmp }, advancement, result)

abbrev pub go_to : State → Parser → Parser
go_to s p = record p { parser_state = s }

-- The states `preamble`, `first_message` and `encapsulation`, by what they do at a match.
unfoldable pub matching : (Parser → ℕ → Option Outcome) → ℕ → Parser → Option Outcome
unfolding tr_check
matching matched c p = do
  (p1, advancement, result) ← tr_check c p
  if result then matched p1 advancement else some (p1, advancement, nothing, false)

unfoldable pub begin_first : Parser → ℕ → Option Outcome
unfolding tr_init
begin_first p advancement = do
  p1 ← tr_init (go_to first_message p)
  some (p1, advancement, message_begin, false)

abbrev pub end_message : Parser → ℕ → Option Outcome
end_message p advancement =
    some (go_to maybe_end_or_encapsulation p, advancement, message_end, false)

unfoldable pub handle_in : State → ℕ → Parser → Option Outcome
unfolding matching begin_first tr_init
handle_in start c p = tr_init (go_to preamble p) >>= matching begin_first c
handle_in preamble c p = matching begin_first c p
handle_in first_message c p = matching end_message c p
handle_in maybe_end_or_encapsulation c p =
    if c == b'-'
    then some (go_to maybe_end p, 0, nothing, false)
    else if c == 13
    then some (go_to maybe_encapsulation p, 0, nothing, false)
    else some (p, 0, nothing, true)
handle_in maybe_end c p =
    if c == b'-' then some (go_to epilogue p, 2, nothing, false) else some (p, 0, nothing, true)
handle_in maybe_encapsulation c p =
    if c == 10
    then (tr_init (go_to encapsulation p) >>= λ p1. some (p1, 2, message_begin, false))
    else some (p, 0, nothing, true)
handle_in encapsulation c p = matching end_message c p
handle_in epilogue c p = some (p, 1, nothing, false)

unfoldable pub handle_char : ℕ → Parser → Option Outcome
unfolding handle_in
handle_char c p = handle_in p.parser_state c p
