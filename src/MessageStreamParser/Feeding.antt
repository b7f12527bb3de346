-- ===== src/MessageStreamParser/Feeding.antt =====
-- Runs of src/beast_ext/message_stream_parser.cpp over a piece of input, as its caller makes them: a
-- character after the other, until the error code is set. A run that ends gives the parser and the
-- event of each character.
use cis1_webui_native_srv_cp.Prelude.{
  ℕ, ◌≡◌, ◌≢◌, refl, ap, true, false, List, [], ◌∷◌, ◌++◌, Option, some, arith, All, ◌==◌,
  if◌then◌else◌, ◌∙◌,
}
use cis1_webui_native_srv_cp.MessageStreamParser.{
  State, Event, none, Parser, go_to, tr_step, Outcome, handle_message_char,
}

abbrev pub Trace : Type 0
Trace = Option (Parser × List Event)

-- An event in front of what the rest of the run gives.
abbrev pub emit : Event → Trace → Trace
emit e Option.none = Option.none
emit e (some (p, es)) = some (p, e ∷ es)

abbrev proceed : Outcome → (Parser → Trace) → Trace
proceed (p, e, true) k = Option.none
proceed (p, e, false) k = emit e (k p)

pub feed : Parser → List ℕ → Trace
feed p [] = some (p, [])
feed p (c ∷ cs) = proceed (handle_message_char p c) (λ q. feed q cs)

pub feed-nil : (p : Parser) → feed p [] ≡ some (p, [])
unfolding feed
feed-nil p = refl

-- The events of a literal: `e` at its last character.
abbrev pub signal : Event → List ℕ → List Event
signal e [] = []
signal e (x ∷ []) = e ∷ []
signal e (x ∷ y ∷ rest) = none ∷ signal e (y ∷ rest)

abbrev pub quiet : List ℕ → List Event
quiet [] = []
quiet (x ∷ rest) = none ∷ quiet rest

-- Events in front of what the rest of the run gives.
abbrev pub emits : List Event → Trace → Trace
emits [] t = t
emits (e ∷ es) t = emit e (emits es t)

-- One character in front of a run.
pub feed_step :
    (p q : Parser) (e : Event) (c : ℕ) (cs : List ℕ)
    → handle_message_char p c ≡ (q, e, false)
    → feed p (c ∷ cs) ≡ emit e (feed q cs)
unfolding feed
feed_step p q e c cs h = rw (h)

-- Where two parsers do the same at the first character, they do the same.
pub feed_same_step :
    (p q : Parser) (c : ℕ) (cs : List ℕ)
    → handle_message_char p c ≡ handle_message_char q c
    → feed p (c ∷ cs) ≡ feed q (c ∷ cs)
unfolding feed
feed_same_step p q c cs h = ap (λ o. proceed o (λ r. feed r cs)) h

emit-eq-some :
    (e : Event) (t : Trace) {r : Parser} {es : List Event}
    → emit e t ≡ some (r, es)
    → (later : List Event) × (t ≡ some (r, later))
emit-eq-some e Option.none h = cc
emit-eq-some e (some (q, later)) h = (later, ground arith)

proceed-eq-some :
    (o : Outcome) (cs : List ℕ) {r : Parser} {es : List Event}
    → proceed o (λ q. feed q cs) ≡ some (r, es)
    → (q : Parser) × (e : Event) × (later : List Event) × (o ≡ (q, e, false))
      × (feed q cs ≡ some (r, later))
proceed-eq-some (q, e, true) cs h = cc
proceed-eq-some (q, e, false) cs h =
    let (later, eq) = emit-eq-some e (feed q cs) h in (q, e, later, refl, eq)

-- A run that ends has an outcome without an error at its first character.
pub feed_uncons :
    (p : Parser) (c : ℕ) (cs : List ℕ) {r : Parser} {es : List Event}
    → feed p (c ∷ cs) ≡ some (r, es)
    → (q : Parser) × (e : Event) × (later : List Event) × (handle_message_char p c ≡ (q, e, false))
      × (feed q cs ≡ some (r, later))
unfolding feed
feed_uncons p c cs h = proceed-eq-some (handle_message_char p c) cs h

-- A state that walks a literal, one that reads up to a mark, and their runs.
abbrev pub at : State → List ℕ → Parser
at s t = record { state = s; transition = t }

module _ (s next : State) (e : Event) where
  abbrev pub Walks : Type 0
  Walks = (c : ℕ) (t : List ℕ) → handle_message_char (at s t) c ≡ tr_step next e c (at s t) t

module _ (s : State) (mark : ℕ) (next : Parser) (e : Event) where
  abbrev pub Reads : Type 0
  Reads =
      (c : ℕ)
      → handle_message_char (at s []) c
        ≡ (if c == mark then (next, e, false) else (at s [], none, false))

pub feed_literal :
    (s next : State) (e : Event)
    → Walks s next e
    → (x : ℕ) (t cs : List ℕ)
    → feed (at s (x ∷ t)) ((x ∷ t) ++ cs) ≡ emits (signal e (x ∷ t)) (feed (go_to next) cs)
feed_literal s next e walks x [] cs = feed_step _ _ _ _ _ (walks x (x ∷ []) ∙ ground arith)
feed_literal s next e walks x (y ∷ t) cs =
    feed_step _ (at s (y ∷ t)) none x _ (walks x (x ∷ y ∷ t) ∙ ground arith)
    ∙ ap (emit none) (feed_literal s next e walks y t cs)

pub feed_reads :
    (s : State) (mark : ℕ) (next : Parser) (e : Event)
    → Reads s mark next e
    → (xs cs : List ℕ) → All (λ x. x ≢ mark) xs
    → feed (at s []) (xs ++ mark ∷ cs) ≡ emits (quiet xs) (emit e (feed next cs))
feed_reads s mark next e reads [] cs h = feed_step _ _ _ _ _ (reads mark ∙ ground arith)
feed_reads s mark next e reads (x ∷ xs) cs h =
    feed_step _ (at s []) none x _ (reads x ∙ ground (arith, h.0))
    ∙ ap (emit none) (feed_reads s mark next e reads xs cs h.1)
