-- ===== src/Net/HttpSession/Pipeline.antt =====
-- How many reads an HTTP session of src/net/http_session.cpp has under way. Boost.Beast allows one at a
-- time.
use cis1_webui_native_srv_cp.Prelude.{
  ℕ, zero, suc, ◌+◌, ◌-◌, ◌≤◌, ◌<◌, ◌≡◌, refl, sym, subst, ◌∙◌, Bool, true, false, List, [], ◌∷◌,
  Option, none, some, leb, Bool-cases, inl, inr, if◌then◌else◌, length, length-append, arith,
}
use mathlib.Core.Option.{some-injective}
use cis1_webui_native_srv_cp.Net.HttpSession.{
  Session, Parser, header_parser, body_parser, success, Action, respond, read_body, read_empty_body,
  finish, limit, is_full, do_read_header, read_on, send, on_read_header, on_read_body, on_write,
  run,
}

module _ {R : Type 0} where
  -- The actions that have a body read.
  abbrev pub reads_body : Action R → Bool
  reads_body (respond r eof) = false
  reads_body read_body = true
  reads_body read_empty_body = true
  reads_body finish = true

  -- Room in the queue goes with one read under way, and a full queue with none; and while a header is
  -- read, its parser is there.
  pub record IsPaced (s : Session R) : Type 0 where
    pub bounded : length s.items ≤ limit
    pub one_read : s.header_reads + s.body_reads ≡ (if leb limit (length s.items) then 0 else 1)
    pub parses : 0 < s.header_reads → (s.parser ≡ header_parser) × (s.done ≡ false)

  -- The runs in which a handler has the body read, and sends one response at most when it is.
  pub data Serving : Session R → Type 0 where
    opened : Serving run
    header :
        {s s' : Session R} (a : Action R)
        → Serving s
        → 0 < s.header_reads
        → reads_body a ≡ true
        → on_read_header success false (a ∷ []) s ≡ some s'
        → Serving s'
    body :
        {s : Session R} (responses : List (R × Bool))
        → Serving s
        → 0 < s.body_reads
        → length responses ≤ 1
        → Serving (on_read_body success responses s)
    written : {s : Session R} → Serving s → 0 < s.writes → Serving (on_write success false s)

  send-length :
      (r : R) (eof : Bool) (s : Session R) → length (send r eof s).items ≡ suc (length s.items)
  unfolding send
  send-length r eof s = ground (arith, length-append s.items ((r, eof) ∷ []))

  run-IsPaced : IsPaced run
  unfolding run
  run-IsPaced = record { bounded = omega arith; one_read = refl; parses = λ h. (refl, refl) }

  -- A header was read, and its body is being read.
  abbrev reading : Parser → Session R → Session R
  reading p s = record s {
    header_reads = s.header_reads - 1;
    body_reads = suc s.body_reads;
    done = true;
    parser = p;
  }

  -- While a header is read the body can be read next: nothing throws.
  pub header_reading :
      (a : Action R) (s : Session R)
      → reads_body a ≡ true
      → s.parser ≡ header_parser
      → s.done ≡ false
      → (p : Parser) × (on_read_header success false (a ∷ []) s ≡ some (reading p s))
  unfolding on_read_header
  header_reading (respond r eof) s once is idle = cc
  header_reading read_body s once is idle = (body_parser, rw (on_read_header, is) refl)
  header_reading read_empty_body s once is idle = (header_parser, rw (on_read_header, is) refl)
  header_reading finish s once is idle = (body_parser, rw (on_read_header, idle, is) refl)

  reading-IsPaced :
      (p : Parser) (s : Session R) → 0 < s.header_reads → IsPaced s → IsPaced (reading p s)
  reading-IsPaced p s h v = record {
    bounded = v.bounded;
    one_read = ground (arith, v.one_read, h);
    parses = λ g. absurd (ground (arith, v.one_read, h, g));
  }

  header-IsPaced :
      (s s' : Session R) (a : Action R)
      → 0 < s.header_reads
      → reads_body a ≡ true
      → on_read_header success false (a ∷ []) s ≡ some s'
      → IsPaced s
      → IsPaced s'
  header-IsPaced s s' a h once e v =
      let (is, idle) = v.parses h in
      let (p, run) = header_reading a s once is idle in
      subst (λ (t : Session R). IsPaced t) (some-injective _ _ (sym run ∙ e))
        (reading-IsPaced p s h v)

  send-reads :
      (r : R) (eof : Bool) (s : Session R)
      → ((send r eof s).header_reads ≡ s.header_reads) × ((send r eof s).body_reads ≡ s.body_reads)
  unfolding send
  send-reads r eof s = ground arith

  read_on-IsPaced :
      (s : Session R)
      → s.header_reads ≡ 0
      → s.body_reads ≡ 0
      → length s.items ≤ limit
      → IsPaced (read_on s)
  unfolding do_read_header
  read_on-IsPaced s no_header no_body room = elim (Bool-cases (is_full s)) [
    | inl full ↦ rw full (record {
      bounded = room;
      one_read = ground (arith, no_header, no_body, full);
      parses = λ h. absurd (omega (arith, no_header, h));
    })
    | inr left ↦ rw left (record {
      bounded = room;
      one_read = ground (arith, no_header, no_body, left);
      parses = λ h. (refl, refl);
    })
  ]

  body-IsPaced :
      (s : Session R) (responses : List (R × Bool))
      → 0 < s.body_reads
      → length responses ≤ 1
      → IsPaced s
      → IsPaced (on_read_body success responses s)
  unfolding on_read_body
  body-IsPaced s [] h one v =
      read_on-IsPaced (record s { body_reads = s.body_reads - 1 }) (ground (arith, v.one_read, h))
        (ground (arith, v.one_read, h)) v.bounded
  body-IsPaced s ((r, eof) ∷ []) h one v =
      let s' = record s { body_reads = s.body_reads - 1 } in
      let (headers, bodies) = send-reads r eof s' in
      read_on-IsPaced (send r eof s') (headers ∙ ground (arith, v.one_read, h))
        (bodies ∙ ground (arith, v.one_read, h))
        (ground (arith, send-length r eof s', v.one_read, v.bounded, h))
  body-IsPaced s (r ∷ t ∷ rs) h one v = absurd (omega arith)

  -- By the items of the queue.
  written_items-IsPaced :
      (items : List (R × Bool)) (s : Session R)
      → IsPaced (record s { items = items })
      → IsPaced (on_write success false (record s { items = items }))
  unfolding on_write
  written_items-IsPaced [] s v = record {
    bounded = v.bounded;
    one_read = v.one_read;
    parses = v.parses;
  }
  written_items-IsPaced (x ∷ []) s v = record {
    bounded = omega arith;
    one_read = v.one_read;
    parses = v.parses;
  }
  written_items-IsPaced (x ∷ y ∷ items) s v =
      elim (Bool-cases (leb limit (length (x ∷ y ∷ items)))) [
        | inl full ↦ rw full (record {
          bounded = omega (arith, v.bounded);
          one_read = ground (arith, v.one_read, v.bounded, full);
          parses = λ h. (refl, refl);
        })
        | inr left ↦ rw left (record {
          bounded = omega (arith, v.bounded);
          one_read = ground (arith, v.one_read, left);
          parses = v.parses;
        })
      ]

  written-IsPaced : (s : Session R) → IsPaced s → IsPaced (on_write success false s)
  written-IsPaced s v = written_items-IsPaced s.items s v

  -- While reads and writes succeed, and no request is upgraded and no response closes the connection:
  -- where a handler has the body of a request read, and sends at most one response when it is, one read
  -- is under way exactly while the queue has room, of a header or of a body; the queue holds at most 8
  -- responses; and the parser that a header's reading needs is there.
  pub Serving-IsPaced : {s : Session R} → Serving s → IsPaced s
  Serving-IsPaced opened = run-IsPaced
  Serving-IsPaced (header a r h once e) = header-IsPaced _ _ a h once e (Serving-IsPaced r)
  Serving-IsPaced (body rs r h one) = body-IsPaced _ rs h one (Serving-IsPaced r)
  Serving-IsPaced (written r h) = written-IsPaced _ (Serving-IsPaced r)

  -- A request that the handler answers at once, with the rest of it read by `done`.
  pub answered : R → Session R → Option (Session R)
  unfolding on_read_header
  answered r s = on_read_header success false (respond r false ∷ finish ∷ []) s

  -- Requests one after the other, each answered at once, while no write completes.
  pub pipelined : R → ℕ → Option (Session R)
  unfolding answered on_read_body
  pipelined r zero = some run
  pipelined r (suc n) = elim (pipelined r n) [
    | none ↦ none
    | some s ↦ elim (answered r s) [ none ↦ none | some s' ↦ some (on_read_body success [] s') ]
  ]

  -- After seven requests that are answered at once before a write completes, an eighth one and then a
  -- write leave two reads under way: that of the eighth request's body, and that of a ninth header,
  -- whose parser has taken the place of the body's.
  pub pipelined-two_reads :
      (r : R)
      → (s : Session R) × (s' : Session R) × (pipelined r 7 ≡ some s)
        × (answered r s ≡ some s')
        × ((on_write success false s').body_reads ≡ 1)
        × ((on_write success false s').header_reads ≡ 1)
        × ((on_write success false s').parser ≡ header_parser)
  unfolding pipelined on_write run
  pipelined-two_reads r = (_, _, refl, refl, refl, refl, refl)
