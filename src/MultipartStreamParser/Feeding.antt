-- ===== src/MultipartStreamParser/Feeding.antt =====
-- A text fed to the parser of src/beast_ext/multipart_stream_parser.cpp.
use cis1_webui_native_srv_cp.Prelude.{
  ℕ, suc, ◌+◌, ◌≡◌, refl, Bool, true, false, List, [], ◌∷◌, ◌++◌, Option, none, some, length, arith,
  append_assoc, sym,
}
use cis1_webui_native_srv_cp.MultipartStreamParser.{
  Parser, Event, nothing, message_begin, message_end, ◌>>=◌, handle_char,
}

-- The parser after a text, the sum of the advancements, the events with the count of the characters
-- up to each, and whether an error code stopped it.
pub record Fed : Type 0 where
  pub parser : Parser
  pub advanced : ℕ
  pub events : List (ℕ × Event)
  pub failed : Bool

abbrev pub event_at : ℕ → Event → List (ℕ × Event)
event_at place nothing = []
event_at place message_begin = (place, message_begin) ∷ []
event_at place message_end = (place, message_end) ∷ []

abbrev pub behind : ℕ → List (ℕ × Event) → Fed → Fed
behind advanced events f = record f {
  advanced = advanced + f.advanced;
  events = events ++ f.events;
}

pub feed : ℕ → Parser → List ℕ → Option Fed
feed place p [] = some (record { parser = p; advanced = 0; events = []; failed = false })
feed place p (c ∷ cs) = elim (handle_char c p) [
  | none ↦ none
  | some (p', advancement, e, failed) ↦ elim failed [
    | true ↦ some (record {
      parser = p';
      advanced = advancement;
      events = event_at (suc place) e;
      failed = true;
    })
    | false ↦ feed (suc place) p' cs >>= λ f. some (behind advancement (event_at (suc place) e) f)
  ]
]

abbrev pub fed : Parser → ℕ → List (ℕ × Event) → Fed
fed p advanced events = record { parser = p; advanced = advanced; events = events; failed = false }

-- A run over a text in which no character is an error, with the sum and the events.
pub data Steps : ℕ → Parser → List ℕ → ℕ → List (ℕ × Event) → Parser → Type 0 where
  stop : {place : ℕ} {p : Parser} → Steps place p [] 0 [] p
  step :
      {place c advancement advanced : ℕ} {cs : List ℕ} {p p' p'' : Parser} {e : Event}
      {events : List (ℕ × Event)}
      → handle_char c p ≡ some (p', advancement, e, false)
      → Steps (suc place) p' cs advanced events p''
      → Steps place p (c ∷ cs) (advancement + advanced) (event_at (suc place) e ++ events) p''

pub Steps-feed :
    {place advanced : ℕ} {p p' : Parser} {cs : List ℕ} {events : List (ℕ × Event)}
    → Steps place p cs advanced events p'
    → feed place p cs ≡ some (fed p' advanced events)
unfolding feed
Steps-feed stop = refl
Steps-feed (step h s) = rw (feed, h, Steps-feed s) refl

pub Steps-same :
    {place place' advanced advanced' : ℕ} {p p' : Parser} {cs : List ℕ}
    {events events' : List (ℕ × Event)}
    → place ≡ place'
    → advanced ≡ advanced'
    → events ≡ events'
    → Steps place p cs advanced events p'
    → Steps place' p cs advanced' events' p'
Steps-same {p = p} {p' = p'} {cs = cs} a b c s = rw (← a, ← b, ← c) s

pub Steps-append :
    {place advanced advanced' : ℕ} {p p' p'' : Parser} {cs ds : List ℕ}
    {events events' : List (ℕ × Event)}
    → Steps place p cs advanced events p'
    → Steps (place + length cs) p' ds advanced' events' p''
    → Steps place p (cs ++ ds) (advanced + advanced') (events ++ events') p''
Steps-append stop t = Steps-same (omega arith) (omega arith) refl t
Steps-append {place = place} (step {advancement = a} {cs = cs} {e = e} {events = es} h s) t =
    Steps-same refl (omega arith) (sym (append_assoc (event_at (suc place) e) es _))
      (step h (Steps-append s (Steps-same (omega arith) refl refl t)))
