-- ===== src/MessageStreamParser/Acceptance.antt =====
-- Which inputs bring the parser of src/beast_ext/message_stream_parser.cpp to the body of a part.
use cis1_webui_native_srv_cp.Prelude.{
  ℕ, ◌≡◌, ◌≢◌, refl, sym, ap, ◌∙◌, subst, false, List, [], ◌∷◌, ◌++◌, Option, some, arith, All,
  ◌==◌, if◌then◌else◌, ◌⊎◌, inl, inr,
}
use cis1_webui_native_srv_cp.MessageStreamParser.{
  State, content_disposition, name, maybe_filename, filename, filename_body, content_type,
  content_type_body, pre_body, body, Event, none, begin_name, end_name, begin_filename,
  end_filename, begin_body, Parser, Outcome, initial, go_to, tr_reset, tr_step, handle_message_char,
  content_disposition_literal, filename_literal, content_type_literal,
}
use cis1_webui_native_srv_cp.MessageStreamParser.Feeding.{
  feed, feed-nil, feed_uncons, feed_same_step, at, Walks, Reads,
}
use cis1_webui_native_srv_cp.MessageStreamParser.Headers.{
  File, Header, print, print_file, IsPlain, IsPlainFile, content_disposition-walks, filename-walks,
  content_type-walks, pre_body-walks, name-reads, filename_body-reads, content_type_body-reads,
}

-- The run over `cs` ends without an error in the body.
abbrev pub ReachesBody : Parser → List ℕ → Type 0
ReachesBody p cs = (r : Parser) × (es : List Event) × (feed p cs ≡ some (r, es)) × (r.state ≡ body)

not_at_end : (p : Parser) → p.state ≢ body → ¬ ReachesBody p []
not_at_end p h (r, es, e, b) = h (ground (arith, feed-nil p))

-- The first character of a run to the body, from a state that is not the body.
first_char :
    (p : Parser) (cs : List ℕ)
    → p.state ≢ body
    → ReachesBody p cs
    → (c : ℕ) × (rest : List ℕ) × (q : Parser) × (e : Event) × (cs ≡ c ∷ rest)
      × (handle_message_char p c ≡ (q, e, false))
      × ReachesBody q rest
first_char p [] h r = absurd (not_at_end p h r)
first_char p (c ∷ cs) h (r, es, e, b) =
    let (q, ev, later, ho, hf) = feed_uncons p c cs e in (c, cs, q, ev, refl, ho, (r, later, hf, b))

tr_step_last :
    (next : State) (e e' : Event) (c x : ℕ) (p q : Parser)
    → tr_step next e c p (x ∷ []) ≡ (q, e', false)
    → (c ≡ x) × (q ≡ go_to next)
tr_step_last next e e' c x p q h = ground arith

tr_step_more :
    (next : State) (e e' : Event) (c x y : ℕ) (t : List ℕ) (s : State) (q : Parser)
    → tr_step next e c (at s (x ∷ y ∷ t)) (x ∷ y ∷ t) ≡ (q, e', false)
    → (c ≡ x) × (q ≡ at s (y ∷ t))
tr_step_more next e e' c x y t s q h = ground arith

-- From a state that walks a literal, the literal comes first.
literal_first :
    (s next : State) (e : Event)
    → Walks s next e
    → s ≢ body
    → (x : ℕ) (t cs : List ℕ) → ReachesBody (at s (x ∷ t)) cs
    → (rest : List ℕ) × (cs ≡ (x ∷ t) ++ rest) × ReachesBody (go_to next) rest
literal_first s next e walks nb x [] cs r =
    let (c, rest, q, ev, ec, ho, later) = first_char _ cs nb r in
    let (cx, qn) = tr_step_last next e ev c x _ q (sym (walks c (x ∷ [])) ∙ ho) in
    (rest, ec ∙ ap (λ z. z ∷ rest) cx, subst (λ z. ReachesBody z rest) qn later)
literal_first s next e walks nb x (y ∷ t) cs r =
    let (c, more, q, ev, ec, ho, later) = first_char _ cs nb r in
    let (cx, qn) = tr_step_more next e ev c x y t s q (sym (walks c (x ∷ y ∷ t)) ∙ ho) in
    let (rest, em, last) =
      literal_first s next e walks nb y t more (subst (λ z. ReachesBody z more) qn later) in
    (rest, ec ∙ ap (λ z. z ∷ more) cx ∙ ap (λ z. x ∷ z) em, last)

reads_step :
    (s : State) (mark c : ℕ) (next : Parser) (e e' : Event) (q : Parser)
    → if◌then◌else◌ {A = Outcome} (c == mark) (next, e, false) (at s [], none, false)
      ≡ (q, e', false)
    → ((c ≡ mark) × (q ≡ next)) ⊎ ((c ≢ mark) × (q ≡ at s []))
reads_step s mark c next e e' q h = ground arith

-- From a state that reads up to a mark, the mark comes, and none before it.
mark_first :
    (s : State) (mark : ℕ) (next : Parser) (e : Event)
    → Reads s mark next e
    → s ≢ body
    → (cs : List ℕ) → ReachesBody (at s []) cs
    → (xs rest : List ℕ) × (cs ≡ xs ++ mark ∷ rest) × All (λ c. c ≢ mark) xs × ReachesBody next rest
mark_first s mark next e reads nb [] r = absurd (not_at_end _ nb r)
mark_first s mark next e reads nb (c ∷ cs) (r, es, er, b) =
    let (q, ev, later, ho, hf) = feed_uncons _ c cs er in
    let go_on : (q ≡ at s []) → feed (at s []) cs ≡ some (r, later) =
      λ qs. subst (λ z. feed z cs ≡ some (r, later)) qs hf in
    elim (reads_step s mark c next e ev q (sym (reads c) ∙ ho)) [
      | inl (cm, qn) ↦
          ([], cs, ap (λ z. z ∷ cs) cm, tt, subst (λ z. ReachesBody z cs) qn (r, later, hf, b))
      | inr (miss, qs) ↦
          let (xs, rest, ex, hx, last) =
            mark_first s mark next e reads nb cs (r, later, go_on qs, b) in
          (c ∷ xs, rest, ap (λ z. c ∷ z) ex, (miss, hx), last)
    ]

maybe_filename_step :
    (c : ℕ) (q : Parser) (e : Event)
    → handle_message_char (go_to maybe_filename) c ≡ (q, e, false)
    → ((c ≡ b';') × (q ≡ tr_reset filename)) ⊎ ((c ≡ 13) × (q ≡ at pre_body (10 ∷ 13 ∷ 10 ∷ [])))
unfolding handle_message_char
maybe_filename_step c q e h = ground arith

-- What a run to the body has read, state by state, backwards from the body.
body_after_pre_body :
    (cs : List ℕ)
    → ReachesBody (at pre_body (10 ∷ 13 ∷ 10 ∷ [])) cs
    → (rest : List ℕ) × (cs ≡ 10 ∷ 13 ∷ 10 ∷ rest)
body_after_pre_body cs r =
    let (rest, e, _) =
      literal_first pre_body body begin_body pre_body-walks (λ h. cc) 10 (13 ∷ 10 ∷ []) cs r in
    (rest, e)

glue :
    (a b c d : List ℕ) (q r : ℕ) {cs cs1 cs2 cs3 cs4 rest : List ℕ}
    → cs ≡ a ++ cs1
    → cs1 ≡ b ++ q ∷ cs2
    → cs2 ≡ c ++ cs3
    → cs3 ≡ d ++ r ∷ cs4
    → cs4 ≡ rest
    → cs ≡ a ++ (b ++ q ∷ (c ++ (d ++ r ∷ rest)))
glue a b c d q r e1 e2 e3 e4 e5 = rw (e1, e2, e3, e4, e5)

body_after_filename :
    (cs : List ℕ)
    → ReachesBody (tr_reset filename) cs
    → (f : File) × (rest : List ℕ) × IsPlainFile (some f) × (b';' ∷ cs ≡ print_file (some f) rest)
body_after_filename cs r =
    let (cs1, e1, r1) =
      literal_first filename filename_body begin_filename filename-walks (λ h. cc) 32 _ cs r in
    let (fn, cs2, e2, h2, r2) =
      mark_first filename_body b'"' _ end_filename filename_body-reads (λ h. cc) cs1 r1 in
    let (cs3, e3, r3) =
      literal_first content_type content_type_body none content_type-walks (λ h. cc) 13 _ cs2 r2 in
    let (ct, cs4, e4, h4, r4) =
      mark_first content_type_body 13 _ none content_type_body-reads (λ h. cc) cs3 r3 in
    let (rest, e5) = body_after_pre_body cs4 r4 in
    (
      record { file_name = fn; file_type = ct },
      rest,
      (h2, h4),
      ap (λ z. b';' ∷ z) (glue filename_literal fn content_type_literal ct b'"' 13 e1 e2 e3 e4 e5),
    )

abbrev RestOfHeader : List ℕ → Type 0
RestOfHeader cs = (f : Option File) × (rest : List ℕ) × IsPlainFile f × (cs ≡ print_file f rest)

body_after_name : (cs : List ℕ) → ReachesBody (go_to maybe_filename) cs → RestOfHeader cs
unfolding handle_message_char
body_after_name cs r =
    let (c, more, q, ev, ec, ho, later) = first_char _ cs (λ h. cc) r in
    elim (maybe_filename_step c q ev ho) [
      | inl (cm, qf) ↦
          let (f, rest, plain, e) =
            body_after_filename more (subst (λ z. ReachesBody z more) qf later) in
          (some f, rest, plain, ec ∙ ap (λ z. z ∷ more) cm ∙ e)
      | inr (cm, qp) ↦
          let (rest, e) = body_after_pre_body more (subst (λ z. ReachesBody z more) qp later) in
          (Option.none, rest, tt, ec ∙ ap (λ z. z ∷ more) cm ∙ ap (λ z. 13 ∷ z) e)
    ]

body_after_start :
    (cs : List ℕ) → ReachesBody initial cs → ReachesBody (tr_reset content_disposition) cs
unfolding initial handle_message_char
body_after_start [] r = absurd (not_at_end _ (λ h. cc) r)
body_after_start (c ∷ cs) (r, es, e, b) =
    (r, es, feed_same_step (tr_reset content_disposition) initial c cs refl ∙ e, b)

-- A run over an input, from a fresh parser, that ends in the body without an error has read such a
-- header: the input is a printed plain header followed by some rest.
pub ReachesBody-print :
    (cs : List ℕ)
    → ReachesBody initial cs
    → (h : Header) × (rest : List ℕ) × IsPlain h × (cs ≡ print h rest)
ReachesBody-print cs r =
    let (cs1, e1, r1) =
      literal_first content_disposition name begin_name content_disposition-walks (λ h. cc) b'C' _
        cs (body_after_start cs r) in
    let (field, cs2, e2, plain, r2) = mark_first name b'"' _ end_name name-reads (λ h. cc) cs1 r1 in
    let (f, rest, plain_file, e3) = body_after_name cs2 r2 in
    (
      record { field = field; file = f },
      rest,
      (plain, plain_file),
      e1 ∙ ap (◌++◌ content_disposition_literal) (e2 ∙ ap (λ z. field ++ b'"' ∷ z) e3),
    )
