-- ===== src/MultipartStreamParser/Messages.antt =====
-- The preamble and a message of a form through src/beast_ext/multipart_stream_parser.cpp, and what
-- stands behind a message's delimiter.
use cis1_webui_native_srv_cp.Prelude.{
  ℤ, ℕ, zero, suc, ◌+◌, ◌≤◌, ◌≡◌, refl, sym, ap, subst, List, [], ◌∷◌, some, length, arith,
}
use cis1_webui_native_srv_cp.KnuthMorrisPratt.{Searcher}
use cis1_webui_native_srv_cp.KnuthMorrisPratt.Table.{IsTable}
use cis1_webui_native_srv_cp.KnuthMorrisPratt.Search.{at}
use cis1_webui_native_srv_cp.KnuthMorrisPratt.Borders.{Ends, IsLongest}
use cis1_webui_native_srv_cp.KnuthMorrisPratt.Finding.{find_slowly, IsReady, init-IsTable}
use cis1_webui_native_srv_cp.MultipartStreamParser.{
  Parser, State, preamble, first_message, maybe_end_or_encapsulation, encapsulation, epilogue,
  nothing, message_begin, message_end, crlf, ddash, tr_delim, tr_init, matching, begin_first,
  end_message, handle_in, handle_char,
}
use cis1_webui_native_srv_cp.MultipartStreamParser.Feeding.{Steps, stop, step, Steps-same}
use cis1_webui_native_srv_cp.MultipartStreamParser.Accounting.{parser, match-Steps}

-- A text that ends in the first occurrence of a delimiter.
abbrev pub IsPart : List ℕ → List ℕ → Type 0
IsPart delim text = find_slowly delim [] text ≡ some []

module _ (d e : List ℕ) (long_d : 2 ≤ length d) (long_e : 2 ≤ length e) where
  pub begun : (x : List ℕ) → 2 ≤ length x → IsLongest x (length x) [] 0
  begun x h = record { within = omega arith; ends = tt; most = none_else }
    where
      none_else : (a : ℕ) → a ≤ length x → Ends x a [] → a ≤ 0
      none_else zero le f = omega arith
      none_else (suc a) le f = absurd f

  -- The parser at the beginning of a message, and behind a message's delimiter.
  abbrev pub Begins : State → Parser → Type 0
  Begins st p =
      (table : List ℤ) × IsTable e (length e) table × (p ≡ parser d e st (at e table 0 0) 0)

  abbrev pub Pauses : Parser → Type 0
  Pauses p =
      (kmp : Searcher) × (last : ℕ) × IsReady kmp
      × (p ≡ parser d e maybe_end_or_encapsulation kmp last)

  -- `tr_init` for the delimiter of a message.
  pub init-Begins :
      (st : State) (kmp : Searcher) (last : ℕ)
      → ((kmp : Searcher) (last : ℕ) → tr_delim (parser d e st kmp last) st ≡ some e)
      → IsReady kmp
      → (p : Parser) × Begins st p × (tr_init (parser d e st kmp last) ≡ some p)
  unfolding tr_init
  init-Begins st kmp last delim ready =
      let (table, run, right) = init-IsTable e kmp ready long_e in
      (
        parser d e st (at e table 0 0) 0,
        (table, right, refl),
        rw (tr_init, delim kmp last, run) refl,
      )

  -- A message, from its beginning to the end of its delimiter.
  pub message-Steps :
      (st : State) (text : List ℕ) (place : ℕ) (p : Parser)
      → ((kmp : Searcher) (last : ℕ) → tr_delim (parser d e st kmp last) st ≡ some e)
      → ((c : ℕ) (p : Parser) → handle_in st c p ≡ matching end_message c p)
      → Begins st p
      → IsPart e text
      → (p' : Parser) × Pauses p'
        × Steps place p text (length text) ((place + length text, message_end) ∷ []) p'
  message-Steps st text place p delim handles (table, right, is) part =
      let (p', pauses, s) =
        match-Steps d e st e delim table right end_message handles message_end Pauses
          (λ m i. (
            parser d e maybe_end_or_encapsulation (at e table m i) (length e),
            (at e table m i, length e, (λ h. right), refl),
            λ a. refl,
          ))
          text place 0 0 [] (omega arith) (begun e long_e) part in
      (
        p',
        pauses,
        subst (λ q. Steps place q text (length text) ((place + length text, message_end) ∷ []) p')
            (sym is) (Steps-same refl (omega arith) refl s),
      )

  -- The preamble, from its first character to the end of its delimiter.
  pub preamble-Steps :
      (text : List ℕ) (p : Parser) (table : List ℤ)
      → IsTable d (length d) table
      → IsPart d text
      → (p' : Parser) × Begins first_message p'
        × Steps 0
            (parser d e preamble (at d table 0 0) 0)
            text
            (length text)
            ((length text, message_begin) ∷ [])
            p'
  unfolding begin_first matching handle_in
  preamble-Steps text p table right part =
      let (p', begins, s) =
        match-Steps d e preamble d (λ kmp last. refl) table right begin_first (λ c p. refl)
          message_begin (Begins first_message)
          (λ m i.
            let (p', begins, run) =
              init-Begins first_message (at d table m i) (length d) (λ kmp last. refl)
                (λ h. right) in
            (p', begins, λ a. rw (begin_first, run) refl))
          text 0 0 0 [] (omega arith) (begun d long_d) part in
      (
        p',
        begins,
        Steps-same refl (omega arith) (ap (λ n. (n, message_begin) ∷ []) (omega arith)) s,
      )

  -- The line break in front of a further message.
  pub break-Steps :
      (place : ℕ) (p : Parser)
      → Pauses p
      → (p' : Parser) × Begins encapsulation p'
        × Steps place p crlf 2 ((place + 2, message_begin) ∷ []) p'
  unfolding handle_char handle_in
  break-Steps place p (kmp, last, ready, is) =
      let (p', begins, run) = init-Begins encapsulation kmp last (λ kmp last. refl) ready in
      (
        p',
        begins,
        subst (λ q. Steps place q crlf 2 ((place + 2, message_begin) ∷ []) p') (sym is)
            (Steps-same refl (omega arith) (ap (λ n. (n, message_begin) ∷ []) (omega arith)) (
              step {advancement = 0} {e = nothing} refl (
                step {advancement = 2} {e = message_begin} (rw (handle_char, handle_in, run) refl)
                  stop))),
      )

  -- The two dashes behind the last message.
  pub dashes-Steps :
      (place : ℕ) (p : Parser)
      → Pauses p
      → (p' : Parser) × (p'.parser_state ≡ epilogue) × Steps place p ddash 2 [] p'
  unfolding handle_char handle_in
  dashes-Steps place p (kmp, last, ready, is) = (
    parser d e epilogue kmp last,
    refl,
    subst (λ q. Steps place q ddash 2 [] (parser d e epilogue kmp last)) (sym is)
        (Steps-same refl (omega arith) refl
          (step {e = nothing} refl (step {e = nothing} refl stop))),
  )

  pub epilogue-Steps :
      (text : List ℕ) (place : ℕ) (p : Parser)
      → p.parser_state ≡ epilogue
      → Steps place p text (length text) [] p
  unfolding handle_char handle_in
  epilogue-Steps [] place p is = stop
  epilogue-Steps (c ∷ text) place p is = Steps-same refl (omega arith) refl (
      step {advancement = 1} {e = nothing} (rw (handle_char, is) refl)
        (epilogue-Steps text (suc place) p is))
