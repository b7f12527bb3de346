-- ===== src/MultipartStreamParser/Parts.antt =====
-- A whole multipart form through src/beast_ext/multipart_stream_parser.cpp.
use cis1_webui_native_srv_cp.Prelude.{
  ℤ, ℕ, ◌+◌, ◌≤◌, ◌<◌, ◌≡◌, refl, List, [], ◌∷◌, ◌++◌, some, length, length-append, All, arith,
}
use cis1_webui_native_srv_cp.KnuthMorrisPratt.{init}
use cis1_webui_native_srv_cp.KnuthMorrisPratt.Search.{at}
use cis1_webui_native_srv_cp.KnuthMorrisPratt.Finding.{find_slowly, init-IsTable}
use cis1_webui_native_srv_cp.MultipartStreamParser.{
  Parser, preamble, first_message, encapsulation, epilogue, start, Event, message_begin,
  message_end, crlf, ddash, empty_searcher, fresh, init_delims, tr_init, matching, handle_in,
  handle_char,
}
use cis1_webui_native_srv_cp.MultipartStreamParser.Feeding.{
  Steps, step, Steps-same, Steps-append, Steps-feed, feed, fed,
}
use cis1_webui_native_srv_cp.MultipartStreamParser.Accounting.{parser}
use cis1_webui_native_srv_cp.MultipartStreamParser.Messages.{
  IsPart, Pauses, message-Steps, preamble-Steps, break-Steps, dashes-Steps, epilogue-Steps,
}

-- Behind the first part: the further ones, each with the delimiter that ends it, and the end.
pub tail_text : List (List ℕ) → List ℕ → List ℕ
tail_text [] epi = ddash ++ epi
tail_text (m ∷ ms) epi = crlf ++ (m ++ tail_text ms epi)

pub tail_events : ℕ → List (List ℕ) → List (ℕ × Event)
tail_events place [] = []
tail_events place (m ∷ ms) =
    (place + 2, message_begin)
    ∷ (place + 2 + length m, message_end)
    ∷ tail_events (place + 2 + length m) ms

module _ (d e : List ℕ) (long_d : 2 ≤ length d) (long_e : 2 ≤ length e) where
  tail-Steps :
      (ms : List (List ℕ)) (epi : List ℕ) (place : ℕ) (p : Parser)
      → All (IsPart e) ms
      → Pauses d e long_d long_e p
      → (p' : Parser) × (p'.parser_state ≡ epilogue)
        × Steps place p (tail_text ms epi) (length (tail_text ms epi)) (tail_events place ms) p'
  unfolding tail_text tail_events matching handle_in
  tail-Steps [] epi place p parts pauses =
      let (p', is, s) = dashes-Steps d e long_d long_e place p pauses in
      (
        p',
        is,
        Steps-same refl (omega (arith, length-append ddash epi)) refl
            (Steps-append s (epilogue-Steps d e long_d long_e epi (place + 2) p' is)),
      )
  tail-Steps (m ∷ ms) epi place p (part, parts) pauses =
      let (p1, begins, s1) = break-Steps d e long_d long_e place p pauses in
      let (p2, paused, s2) =
        message-Steps d e long_d long_e encapsulation m (place + 2) p1 (λ kmp last. refl)
          (λ c p. refl) begins part in
      let (p3, is, s3) = tail-Steps ms epi (place + 2 + length m) p2 parts paused in
      (
        p3,
        is,
        Steps-same refl (omega (arith, length-append m (tail_text ms epi))) refl
            (Steps-append s1 (Steps-append s2 s3)),
      )

  -- The first character takes the parser from `start` into the preamble.
  start-Steps :
      (table : List ℤ) (text : List ℕ) (advanced : ℕ) (events : List (ℕ × Event)) (p' : Parser)
      → init d empty_searcher ≡ some (at d table 0 0)
      → 0 < length text
      → Steps 0 (parser d e preamble (at d table 0 0) 0) text advanced events p'
      → Steps 0 (parser d e start empty_searcher 0) text advanced events p'
  unfolding handle_char handle_in tr_init
  start-Steps table [] advanced events p' run h s = absurd (omega arith)
  start-Steps table (c ∷ text) advanced events p' run h (step g s) =
      step (rw (handle_char, handle_in, tr_init, run) g) s

  form-Steps :
      (pre first epi : List ℕ) (ms : List (List ℕ))
      → IsPart d pre
      → IsPart e first
      → All (IsPart e) ms
      → (p : Parser) × (p.parser_state ≡ epilogue)
        × Steps 0
            (parser d e start empty_searcher 0)
            (pre ++ (first ++ tail_text ms epi))
            (length (pre ++ (first ++ tail_text ms epi)))
            ((length pre, message_begin)
              ∷ (length pre + length first, message_end)
              ∷ tail_events (length pre + length first) ms)
            p
  unfolding handle_in matching find_slowly
  form-Steps [] first epi ms is_pre is_first parts = absurd (ground arith)
  form-Steps (c ∷ pre) first epi ms is_pre is_first parts =
      let (table, run, right) = init-IsTable d empty_searcher (λ h. absurd (omega arith)) long_d in
      let (p1, begins, s1) = preamble-Steps d e long_d long_e (c ∷ pre) fresh table right is_pre in
      let (p2, pauses, s2) =
        message-Steps d e long_d long_e first_message first (length (c ∷ pre)) p1 (λ kmp last. refl)
          (λ c p. refl) begins is_first in
      let (p3, is, s3) = tail-Steps ms epi (length (c ∷ pre) + length first) p2 parts pauses in
      (
        p3,
        is,
        start-Steps table _ _ _ p3 run (omega arith) (
            Steps-same refl
              (omega (
                arith,
                length-append pre (first ++ tail_text ms epi),
                length-append first (tail_text ms epi),
              ))
              refl (Steps-append s1 (Steps-same (omega arith) refl refl (Steps-append s2 s3)))),
      )

-- The form of a preamble, a first message, further ones, and what follows the end.
pub form : List ℕ → List ℕ → List (List ℕ) → List ℕ → List ℕ
form pre first ms epi = pre ++ (first ++ tail_text ms epi)

abbrev pub delim_of_preamble : List ℕ → List ℕ
delim_of_preamble boundary = ddash ++ (boundary ++ crlf)

abbrev pub delim_of_message : List ℕ → List ℕ
delim_of_message boundary = crlf ++ (ddash ++ boundary)

-- A form whose preamble ends in the first occurrence of its delimiter, and each of whose messages
-- ends in the first occurrence of its, is read without an error and to the epilogue: the parser
-- begins a message behind the preamble and behind the line break that follows a delimiter, and ends
-- it behind its delimiter, and its advancements add up to the length of the form.
pub feed-form :
    (boundary pre first epi : List ℕ) (ms : List (List ℕ))
    → IsPart (delim_of_preamble boundary) pre
    → IsPart (delim_of_message boundary) first
    → All (IsPart (delim_of_message boundary)) ms
    → (p : Parser) × (p.parser_state ≡ epilogue)
      × (feed 0 (init_delims boundary fresh) (form pre first ms epi)
          ≡ some (
              fed p (length (form pre first ms epi)) (
                (length pre, message_begin)
                ∷ (length pre + length first, message_end)
                ∷ tail_events (length pre + length first) ms)))
unfolding form
feed-form boundary pre first epi ms is_pre is_first parts =
    let (p, is, s) =
      form-Steps (delim_of_preamble boundary) (delim_of_message boundary) (omega arith)
        (omega arith) pre first epi ms is_pre is_first parts in
    (p, is, Steps-feed s)
