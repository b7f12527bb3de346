-- ===== src/MultipartFormBody/Pending.antt =====
-- What the reader of include/beast_ext/basic_multipart_form_body.h keeps of the characters on which the
-- multipart parser has not decided.
use cis1_webui_native_srv_cp.Prelude.{
  ℤ, ℕ, zero, suc, ◌+◌, ◌-◌, ◌≤◌, ◌<◌, ◌==◌, ◌≡◌, ◌≢◌, refl, sym, ap, ◌∙◌, true, false, List, [],
  ◌∷◌, append-nil, some, length, if◌then◌else◌, arith,
}
use cis1_webui_native_srv_cp.KnuthMorrisPratt.{Searcher}
use cis1_webui_native_srv_cp.KnuthMorrisPratt.Table.{IsTable}
use cis1_webui_native_srv_cp.KnuthMorrisPratt.Search.{at}
use cis1_webui_native_srv_cp.KnuthMorrisPratt.Borders.{Ends, IsLongest}
use cis1_webui_native_srv_cp.MessageStreamParser
use cis1_webui_native_srv_cp.MessageStreamParser.{handle_message_char}
use cis1_webui_native_srv_cp.MultipartStreamParser
use cis1_webui_native_srv_cp.MultipartStreamParser.{
  first_message, encapsulation, nothing, tr_delim, matching, end_message, handle_in, handle_char,
}
use cis1_webui_native_srv_cp.MultipartStreamParser.Accounting.{parser, check-Advances}
use cis1_webui_native_srv_cp.MultipartStreamParser.Messages.{begun}
use cis1_webui_native_srv_cp.MultipartStreamParser.Parts.{delim_of_message}
use cis1_webui_native_srv_cp.MultipartFormBody.{
  content, Value, Disk, Reader, append_content, on_parser_event, advance, put_loop, keep_pending,
  put,
}
use cis1_webui_native_srv_cp.MultipartFormBody.Opening.{put_all}

-- The states in which the delimiter of a message is looked for.
abbrev pub IsInMessage : MultipartStreamParser.State → Type 0
IsInMessage first_message = Unit
IsInMessage encapsulation = Unit
IsInMessage _ = ⊥

handles_matching :
    (st : MultipartStreamParser.State) (c : ℕ) (p : MultipartStreamParser.Parser)
    → IsInMessage st
    → handle_in st c p ≡ matching end_message c p
unfolding handle_in
handles_matching first_message c p h = refl
handles_matching encapsulation c p h = refl
handles_matching _ c p h = absurd h

delim_in_message :
    (d e : List ℕ) (st : MultipartStreamParser.State) (kmp : Searcher) (last : ℕ)
    → IsInMessage st
    → tr_delim (parser d e st kmp last) st ≡ some e
delim_in_message d e first_message kmp last h = refl
delim_in_message d e encapsulation kmp last h = refl
delim_in_message d e _ kmp last h = absurd h

IsLongest-unique :
    (x : List ℕ) (limit : ℕ) (r : List ℕ) (k k' : ℕ)
    → IsLongest x limit r k
    → IsLongest x limit r k'
    → k ≡ k'
IsLongest-unique x limit r k k' l l' =
    let le = l'.most k l.within l.ends in let ge = l.most k' l'.within l'.ends in omega arith

-- A reader in the content of a part that is no file.
abbrev pub in_content :
    {F : Type 0} → Reader F → MultipartStreamParser.Parser → List Value → List ℕ → Reader F
in_content r q values pending = record r {
  multipart_parser = q;
  message_parser = MessageStreamParser.go_to MessageStreamParser.body;
  message = true;
  is_writable = true;
  state = content;
  values = values;
  pending = pending;
}

append_content-nil : (values : List Value) → append_content [] values ≡ values
append_content-nil [] = refl
append_content-nil (v ∷ values) =
    ap (λ (text : List ℕ). record v { content = text } ∷ values) (append-nil v.content)

module _ {F W : Type 0} (disk : Disk F W) (r : Reader F) (w : W) where
  -- A first character without a decision is kept; behind a kept one, that one is kept once more.
  put-first :
      (q q' : MultipartStreamParser.Parser) (values : List Value) (c : ℕ)
      → handle_char c q ≡ some (q', 0, nothing, false)
      → put disk (c ∷ []) (in_content r q values []) w
        ≡ some (in_content r q' values (c ∷ []), w, 1, false)
  unfolding put put_loop keep_pending advance on_parser_event
  put-first q q' values c taken =
      rw (put, put_loop, taken)
        (ap (λ (vs : List Value). some (in_content r q' vs (c ∷ []), w, 1, false))
          (append_content-nil values))

  put-second :
      (q q' : MultipartStreamParser.Parser) (values : List Value) (a c : ℕ)
      → handle_char c q ≡ some (q', 0, nothing, false)
      → put disk (c ∷ []) (in_content r q values (a ∷ [])) w
        ≡ some (in_content r q' values (a ∷ a ∷ []), w, 1, false)
  unfolding put put_loop keep_pending advance on_parser_event
  put-second q q' values a c taken =
      rw (put, put_loop, taken)
        (ap (λ (vs : List Value). some (in_content r q' vs (a ∷ a ∷ []), w, 1, false))
          (append_content-nil values))

  put-three :
      (q q' : MultipartStreamParser.Parser) (values : List Value) (a b c : ℕ)
      → handle_char c q ≡ some (q', 3, nothing, false)
      → put disk (c ∷ []) (in_content r q values (a ∷ b ∷ [])) w
        ≡ some (in_content r q' (append_content (a ∷ b ∷ c ∷ []) values) [], w, 1, false)
  unfolding put put_loop keep_pending advance on_parser_event handle_message_char
  put-three q q' values a b c taken = rw (put, put_loop, taken) refl

  put-at_once :
      (q q1 q2 q' : MultipartStreamParser.Parser) (values : List Value) (a b c : ℕ)
      → handle_char a q ≡ some (q1, 0, nothing, false)
      → handle_char b q1 ≡ some (q2, 0, nothing, false)
      → handle_char c q2 ≡ some (q', 3, nothing, false)
      → put disk (a ∷ b ∷ c ∷ []) (in_content r q values []) w
        ≡ some (in_content r q' (append_content (a ∷ b ∷ c ∷ []) values) [], w, 3, false)
  unfolding put put_loop keep_pending advance on_parser_event handle_message_char
  put-at_once q q1 q2 q' values a b c e1 e2 e3 = rw (put, put_loop, e1, e2, e3) refl

module _ (d boundary : List ℕ) (st : MultipartStreamParser.State) (in_message : IsInMessage st)
    (table : List ℤ) where
  -- The delimiter, and the parser by how much of it is matched.
  abbrev x : List ℕ
  x = delim_of_message boundary

  abbrev pub matched : ℕ → ℕ → MultipartStreamParser.Parser
  matched m i = parser d x st (at x table m i) i

  module _ (right : IsTable x (length x) table) where
    handle_char-undecided :
        (c : ℕ) (r : List ℕ) (m i k : ℕ)
        → i < length x
        → IsLongest x (length x) r i
        → IsLongest x (length x) (c ∷ r) k
        → k < length x
        → (m' : ℕ) × (handle_char c (matched m i)
            ≡ some (matched m' k, (if i + 1 == k then 0 else i + 1 - k), nothing, false))
    unfolding handle_char matching
    handle_char-undecided c r m i k h l l' small =
        let (m', i', k0, run, longest, next, _) =
          check-Advances d x st x (λ kmp last. delim_in_message d x st kmp last in_message) table
            right c r m i h l in
        let same = IsLongest-unique x (length x) (c ∷ r) k0 k longest l' in
        let stands = next (omega arith) ∙ same in
        let not_all : (k == length x) ≡ false = ground arith in
        (
          m',
          rw
              (
                handle_char,
                handles_matching st c (matched m i) in_message,
                matching,
                run,
                stands,
                same,
                not_all,
              )
              (ap (λ (n : ℕ). some (matched m' k, n, nothing, false)) (omega arith)),
        )

    -- The delimiter begins with a carriage return, a line feed and a hyphen.
    IsLongest-return : IsLongest x (length x) (13 ∷ []) 1
    IsLongest-return = record { within = omega arith; ends = (refl, tt); most = most }
      where
        most : (a : ℕ) → a ≤ length x → Ends x a (13 ∷ []) → a ≤ 1
        most zero le f = omega arith
        most (suc zero) le f = omega arith
        most (suc (suc a)) le f = absurd f.1

    IsLongest-feed : IsLongest x (length x) (10 ∷ 13 ∷ []) 2
    IsLongest-feed = record { within = omega arith; ends = (refl, (refl, tt)); most = most }
      where
        most : (a : ℕ) → a ≤ length x → Ends x a (10 ∷ 13 ∷ []) → a ≤ 2
        most zero le f = omega arith
        most (suc zero) le f = omega arith
        most (suc (suc zero)) le f = omega arith
        most (suc (suc (suc a))) le f = absurd f.1.1

    IsLongest-other : (c : ℕ) → c ≢ 13 → c ≢ b'-' → IsLongest x (length x) (c ∷ 10 ∷ 13 ∷ []) 0
    IsLongest-other c not_return not_hyphen = record {
      within = omega arith;
      ends = tt;
      most = most;
    }
      where
        most : (a : ℕ) → a ≤ length x → Ends x a (c ∷ 10 ∷ 13 ∷ []) → a ≤ 0
        most zero le f = omega arith
        most (suc zero) le f = absurd (not_return (sym f.0))
        most (suc (suc zero)) le f = absurd (omega (arith, f.1.0))
        most (suc (suc (suc zero))) le f = absurd (not_hyphen (sym f.0))
        most (suc (suc (suc (suc a)))) le f = absurd f.1.1.1

    -- The parser's three steps over a line break with another character behind it.
    LineBreak : ℕ → Type 0
    LineBreak c =
        (m1 : ℕ) × (m2 : ℕ) × (m3 : ℕ) × (handle_char 13 (matched 0 0)
          ≡ some (matched m1 1, 0, nothing, false))
        × (handle_char 10 (matched m1 1) ≡ some (matched m2 2, 0, nothing, false))
        × (handle_char c (matched m2 2) ≡ some (matched m3 0, 3, nothing, false))

    line_break : (c : ℕ) → c ≢ 13 → c ≢ b'-' → LineBreak c
    unfolding LineBreak
    line_break c not_return not_hyphen =
        let (m1, e1) =
          handle_char-undecided 13 [] 0 0 1 (omega arith)
            (begun x x (omega arith) (omega arith) x (omega arith)) IsLongest-return
            (omega arith) in
        let (m2, e2) =
          handle_char-undecided 10 (13 ∷ []) m1 1 2 (omega arith) IsLongest-return IsLongest-feed
            (omega arith) in
        let (m3, e3) =
          handle_char-undecided c (10 ∷ 13 ∷ []) m2 2 0 (omega arith) IsLongest-feed
            (IsLongest-other c not_return not_hyphen) (omega arith) in
        (m1, m2, m3, e1, e2, e3)

    module _ {F W : Type 0} (disk : Disk F W) (r : Reader F) (w : W) (values : List Value) where
      -- In the content of a part that is no file, with nothing pending and a parser of the form that
      -- has matched nothing of the delimiter, a line break with a character behind it that is neither
      -- a carriage return nor a hyphen is stored as it is where the three come in one buffer; where
      -- they come in three, the line feed is stored as a second carriage return.
      pub put_all-garbles :
          (c : ℕ)
          → c ≢ 13
          → c ≢ b'-'
          → (m : ℕ) × (put_all disk
                ((13 ∷ 10 ∷ c ∷ []) ∷ [])
                (in_content r (matched 0 0) values [])
                w
              ≡ some (
                in_content r (matched m 0) (append_content (13 ∷ 10 ∷ c ∷ []) values) [],
                w,
                false,
              ))
            × (put_all disk
                  ((13 ∷ []) ∷ (10 ∷ []) ∷ (c ∷ []) ∷ [])
                  (in_content r (matched 0 0) values [])
                  w
                ≡ some (
                  in_content r (matched m 0) (append_content (13 ∷ 13 ∷ c ∷ []) values) [],
                  w,
                  false,
                ))
      unfolding put_all LineBreak
      put_all-garbles c not_return not_hyphen =
          let (m1, m2, m3, e1, e2, e3) = line_break c not_return not_hyphen in
          (
            m3,
            rw (put_all, put-at_once disk r w _ _ _ _ values 13 10 c e1 e2 e3) refl,
            rw
                (
                  put_all,
                  put-first disk r w _ _ values 13 e1,
                  put_all,
                  put-second disk r w _ _ values 13 10 e2,
                  put_all,
                  put-three disk r w _ _ values 13 13 c e3,
                )
                refl,
          )
