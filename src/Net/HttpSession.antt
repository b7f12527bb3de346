-- ===== src/Net/HttpSession.antt =====
-- src/net/http_session.cpp and include/net/http_session.h: the pipeline of one connection. The reads
-- of headers and of bodies that were started and have not completed are counted, as the writes are;
-- `wire` is what was handed to `async_write`. A response comes with its `need_eof`. The timer, and the
-- contents of the requests, are left out; a handler is the list of what it does.
pub mod Pipeline
use cis1_webui_native_srv_cp.Prelude.{
  ℕ, suc, ◌-◌, Bool, true, false, List, [], ◌∷◌, ◌++◌, Option, none, some, if◌then◌else◌, leb, ◌==◌,
  length,
}

-- What `parser_` wraps: nothing, a parser of a header (with the empty body), or of another body.
pub data Parser : Type 0 where
  no_parser header_parser body_parser : Parser

pub record Session (R : Type 0) : Type 0 where
  pub items : List (R × Bool)
  pub header_reads : ℕ
  pub body_reads : ℕ
  pub writes : ℕ
  pub wire : List R
  pub parser : Parser
  pub done : Bool
  pub upgraded : Bool
  pub closed : Bool

-- The error codes that the completion handlers tell apart. `user_error` is of the category of the
-- body, which a handler is told of.
pub data ErrorCode : Type 0 where
  success operation_aborted end_of_stream user_error failure : ErrorCode

-- What a handler does: it sends a response, reads the body (with a body of its own, or the empty one),
-- or has the rest read by `done`.
pub data Action (R : Type 0) : Type 0 where
  respond : R → Bool → Action R
  read_body read_empty_body finish : Action R

abbrev pub limit : ℕ
limit = 8

module _ {R : Type 0} where
  abbrev pub is_full : Session R → Bool
  is_full s = leb limit (length s.items)

  abbrev start_front : Session R → Session R
  start_front s = elim s.items [
    | [] ↦ s
    | (r, eof) ∷ rest ↦ record s { writes = suc s.writes; wire = s.wire ++ r ∷ [] }
  ]

  -- `http_session_queue::send`.
  pub send : R → Bool → Session R → Session R
  send r eof s =
      let s' = record s { items = s.items ++ (r, eof) ∷ [] } in
      if length s'.items == 1 then start_front s' else s'

  -- `http_session_queue::on_write`, with whether the queue was full. It is never called when empty.
  pub pop : Session R → Session R × Bool
  pop s = elim s.items [
    | [] ↦ (s, false)
    | item ∷ rest ↦ (start_front (record s { items = rest }), is_full s)
  ]

  abbrev pub prepare : Session R → Session R
  prepare s = record s { done = false; parser = header_parser }

  pub do_read_header : Session R → Session R
  do_read_header s = let s' = prepare s in record s' { header_reads = suc s'.header_reads }

  -- `get_header_parser` throws where the parser is not one of a header.
  abbrev pub upgrade_parser : Session R → Option (Session R)
  upgrade_parser s = elim s.parser [
    | no_parser ↦ none
    | header_parser ↦ some (record s { parser = body_parser })
    | body_parser ↦ none
  ]

  abbrev pub start_body : Session R → Session R
  start_body s = record s { body_reads = suc s.body_reads; done = true }

  -- `async_read_body` and `done`; none where an exception is thrown.
  unfoldable pub act : Action R → Session R → Option (Session R)
  unfolding send
  act (respond r eof) s = some (send r eof s)
  act read_body s = elim (upgrade_parser s) [ none ↦ none | some s' ↦ some (start_body s') ]
  act read_empty_body s = elim s.parser [
    | no_parser ↦ none
    | header_parser ↦ some (start_body s)
    | body_parser ↦ none
  ]
  act finish s = elim s.done [
    | true ↦ some s
    | false ↦ elim (upgrade_parser s) [ none ↦ none | some s' ↦ some (start_body s') ]
  ]

  unfoldable pub act_all : List (Action R) → Session R → Option (Session R)
  unfolding act
  act_all [] s = some s
  act_all (a ∷ rest) s = elim (act a s) [ none ↦ none | some s' ↦ act_all rest s' ]

  abbrev pub do_close : Session R → Session R
  do_close s = record s { closed = true }

  -- The reading of a header completes: `upgrade` is whether it asks for a websocket, `actions` what
  -- `handle_header` does.
  unfoldable pub on_read_header :
      ErrorCode → Bool → List (Action R) → Session R → Option (Session R)
  unfolding act_all
  on_read_header ec upgrade actions s =
      let s' = record s { header_reads = s.header_reads - 1 } in
      elim ec [
        | operation_aborted ↦ some s'
        | end_of_stream ↦ some (do_close s')
        | user_error ↦ some s'
        | failure ↦ some s'
        | success ↦ if upgrade then some (record s' { upgraded = true }) else act_all actions s'
      ]

  pub respond_all : List (R × Bool) → Session R → Session R
  unfolding send
  respond_all [] s = s
  respond_all ((r, eof) ∷ rs) s = respond_all rs (send r eof s)

  abbrev pub read_on : Session R → Session R
  read_on s = if is_full s then s else do_read_header s

  -- The reading of a body completes: `responses` is what the handler's callback sends.
  pub on_read_body : ErrorCode → List (R × Bool) → Session R → Session R
  unfolding respond_all do_read_header
  on_read_body ec responses s =
      let s' = record s { body_reads = s.body_reads - 1 } in
      elim ec [
        | operation_aborted ↦ s'
        | end_of_stream ↦ do_close s'
        | failure ↦ s'
        | user_error ↦ read_on (respond_all responses s')
        | success ↦ read_on (respond_all responses s')
      ]

  -- A write completes; `close` is the `need_eof` of its response.
  pub on_write : ErrorCode → Bool → Session R → Session R
  unfolding pop do_read_header
  on_write ec close s =
      let s' = record s { writes = s.writes - 1 } in
      elim ec [
        | success ↦
            if close
            then do_close s'
            else let (s'', was_full) = pop s' in if was_full then do_read_header s'' else s''
        | operation_aborted ↦ s'
        | end_of_stream ↦ s'
        | user_error ↦ s'
        | failure ↦ s'
      ]

  -- `run`, on a fresh session.
  unfoldable pub run : Session R
  unfolding do_read_header
  run = do_read_header (record {
    items = [];
    header_reads = 0;
    body_reads = 0;
    writes = 0;
    wire = [];
    parser = no_parser;
    done = false;
    upgraded = false;
    closed = false;
  })
