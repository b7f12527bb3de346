-- ===== src/MultipartStreamParser/Accounting.antt =====
-- `tr_check` of src/beast_ext/multipart_stream_parser.cpp, with the searcher: what a character
-- advances, and where a delimiter is matched.
use cis1_webui_native_srv_cp.Prelude.{
  ℤ, ℕ, zero, suc, ◌+◌, ◌-◌, ◌≤◌, ◌<◌, ◌==◌, ◌≡◌, refl, sym, ap, ◌∙◌, subst, true, false, List, [],
  ◌∷◌, append-nil, Option, some, length, if◌then◌else◌, arith, Bool-cases, inl, inr,
}
use cis1_webui_native_srv_cp.KnuthMorrisPratt.{Searcher}
use cis1_webui_native_srv_cp.KnuthMorrisPratt.Borders.{IsLongest}
use cis1_webui_native_srv_cp.KnuthMorrisPratt.Table.{IsTable}
use cis1_webui_native_srv_cp.KnuthMorrisPratt.Search.{ends, at, partial_search-Advances}
use cis1_webui_native_srv_cp.KnuthMorrisPratt.Finding.{find_slowly, full_count}
use cis1_webui_native_srv_cp.MultipartStreamParser.{
  Parser, State, Event, nothing, Outcome, tr_delim, tr_check, matching, handle_in, handle_char,
}
use cis1_webui_native_srv_cp.MultipartStreamParser.Feeding.{Steps, stop, step, event_at, Steps-same}

-- A match is by one character longer than the one before it, at most.
next_match :
    (p : List ℕ) (limit c : ℕ) (r : List ℕ) (i k : ℕ)
    → IsLongest p limit r i
    → IsLongest p limit (c ∷ r) k
    → k ≤ suc i
next_match p limit c r i zero l l' = omega arith
next_match p limit c r i (suc k) l l' =
    let w = l'.within in let m = l.most k (omega arith) l'.ends.1 in omega arith

-- A parser with the delimiters `d` and `e`.
abbrev pub parser : List ℕ → List ℕ → State → Searcher → ℕ → Parser
parser d e st kmp last = record {
  parser_state = st;
  kmp = kmp;
  preamble_delim = d;
  encapsulation_delim = e;
  last_matched = last;
}

abbrev pub advanced_by : ℕ → ℕ → ℕ → ℕ
advanced_by i k n = (if i + 1 == k then 0 else i + 1 - k) + (if k == n then n else 0)

module _ (d e : List ℕ) (st : State) (x : List ℕ)
    (delim : (kmp : Searcher) (last : ℕ) → tr_delim (parser d e st kmp last) st ≡ some x)
    (table : List ℤ) (right : IsTable x (length x) table) where
  pub check-Advances :
      (c : ℕ) (r : List ℕ) (m i : ℕ)
      → i < length x
      → IsLongest x (length x) r i
      → (m' : ℕ) × (i' : ℕ) × (k : ℕ) × (tr_check c (parser d e st (at x table m i) i)
          ≡ some (parser d e st (at x table m' i') k, advanced_by i k (length x), k == length x))
        × IsLongest x (length x) (c ∷ r) k
        × (k < length x → i' ≡ k)
        × (k ≤ suc i)
  unfolding tr_check
  check-Advances c r m i h l =
      let (m', i', k, run, longest, next) = partial_search-Advances x table right c r m i h l in
      (
        m',
        i',
        k,
        rw (tr_check, run, delim (at x table m i) i) refl,
        longest,
        next,
        next_match x (length x) c r i k l longest,
      )

  module _ (matched : Parser → ℕ → Option Outcome)
      (handles : (c : ℕ) (p : Parser) → handle_in st c p ≡ matching matched c p) (ev : Event)
      (Good : Parser → Type 0)
      (ends_well : (m i : ℕ)
        → (p' : Parser) × Good p'
          × ((a : ℕ)
              → matched (parser d e st (at x table m i) (length x)) a
                ≡ some (p', a, ev, false))) where
    step_on :
        (c : ℕ) (m i m' i' k : ℕ)
        → tr_check c (parser d e st (at x table m i) i)
          ≡ some (parser d e st (at x table m' i') k, advanced_by i k (length x), k == length x)
        → (k == length x) ≡ false
        → handle_char c (parser d e st (at x table m i) i)
          ≡ some (parser d e st (at x table m' i') k, advanced_by i k (length x), nothing, false)
    unfolding handle_char matching
    step_on c m i m' i' k run not_all = rw (handle_char, handles c _, matching, run, not_all) refl

    step_off :
        (c : ℕ) (m i m' i' k : ℕ) (p' : Parser)
        → tr_check c (parser d e st (at x table m i) i)
          ≡ some (parser d e st (at x table m' i') k, advanced_by i k (length x), k == length x)
        → (k == length x) ≡ true
        → ((a : ℕ) → matched (parser d e st (at x table m' i') k) a ≡ some (p', a, ev, false))
        → handle_char c (parser d e st (at x table m i) i)
          ≡ some (p', advanced_by i k (length x), ev, false)
    unfolding handle_char matching
    step_off c m i m' i' k p' run all out =
        rw (handle_char, handles c _, matching, run, all, out _) refl

    -- A text that the delimiter first ends at its end.
    pub match-Steps :
        (text : List ℕ) (place m i : ℕ) (r : List ℕ)
        → i < length x
        → IsLongest x (length x) r i
        → find_slowly x r text ≡ some []
        → (p' : Parser) × Good p'
          × Steps place
              (parser d e st (at x table m i) i)
              text
              (i + length text)
              (event_at (place + length text) ev)
              p'
    unfolding find_slowly
    match-Steps [] place m i r h l f = absurd (ground arith)
    match-Steps (c ∷ cs) place m i r h l f =
        let (m', i', k, run, longest, next, small) = check-Advances c r m i h l in
        let w = longest.within in
        let count = full_count x table right (c ∷ r) k longest in
        elim (Bool-cases (ends x (length x) (c ∷ r))) [
          | inl all ↦
              let full = count ∙ all in
              let (p', good, out) = ends_well m' i' in
              let same : length x ≡ k = ground arith in
              let nil : cs ≡ [] = ground (arith, f, all) in
              let one =
                step {place = place}
                  (step_off c m i m' i' k p' run full (
                    subst
                      (λ j.
                        (a : ℕ)
                        → matched (parser d e st (at x table m' i') j) a ≡ some (p', a, ev, false))
                      same out))
                  stop in
              (
                p',
                good,
                subst
                    (λ ys.
                      Steps place (parser d e st (at x table m i) i) (c ∷ ys) (i + length (c ∷ ys))
                        (event_at (place + length (c ∷ ys)) ev) p')
                    (sym nil)
                    (Steps-same refl (ground arith)
                      (append-nil _ ∙ ap (λ n. event_at n ev) (omega arith)) one),
              )
          | inr more ↦
              let not_full = count ∙ more in
              let stands = next (ground arith) in
              let (p', good, on) =
                match-Steps cs (suc place) m' k (c ∷ r) (ground arith) longest
                  (ground (arith, f, more)) in
              let rest =
                subst
                  (λ j.
                    Steps (suc place) (parser d e st (at x table m' j) k) cs (k + length cs)
                      (event_at (suc place + length cs) ev) p')
                  (sym stands) on in
              (
                p',
                good,
                Steps-same refl (ground arith) (ap (λ n. event_at n ev) (omega arith))
                    (step (step_on c m i m' i' k run not_full) rest),
              )
        ]
