-- ===== src/MultipartFormBody/Opening.antt =====
-- Which files the reader of include/beast_ext/basic_multipart_form_body.h opens, and where.
use mathlib.Core.Option.{some-injective}
use cis1_webui_native_srv_cp.Prelude.{
  ◌⊎◌, ℕ, ◌+◌, ◌≡◌, refl, ap, subst, Bool, true, false, List, [], ◌∷◌, ◌++◌, Option, none, some,
  All, arith, Bool-cases, Option-cases, inl, inr, if◌then◌else◌,
}
use cis1_webui_native_srv_cp.MessageStreamParser
use cis1_webui_native_srv_cp.MessageStreamParser.{
  begin_name, end_name, begin_filename, end_filename, begin_body, end_body, handle_message_char,
  handle_message_end,
}
use cis1_webui_native_srv_cp.MultipartStreamParser
use cis1_webui_native_srv_cp.MultipartStreamParser.{
  nothing, message_begin, message_end, handle_char,
}
use cis1_webui_native_srv_cp.MultipartFormBody.{
  Mode, add, replace, add_or_replace, ignore, State, name, filename, content, file, Disk, Reader,
  Work, left_out, write_file, write_to, write_part, begin_part, end_part, emplace_value, enter,
  emplace_file, close_file, message_part_event, on_parser_event, read_char, advance_over, advance,
  take, drop, put_event, put_loop, keep_pending, start_work, put,
}

-- The openings of a disk: the path, and whether there was such a file before.
abbrev pub Log : Type 0
Log = List (List ℕ × Bool)

-- A disk that keeps the log of its openings.
abbrev pub logged : {F W : Type 0} → Disk F W → Disk F (W × Log)
logged disk = record {
  join = disk.join;
  exists = λ path w. disk.exists path w.0;
  closed = disk.closed;
  is_open = disk.is_open;
  open_file = λ path w.
      let (f, w', failed) = disk.open_file path w.0 in
      (f, (w', (path, disk.exists path w.0) ∷ w.1), failed);
  write = λ text f w. let (f', w', failed) = disk.write text f w.0 in (f', (w', w.1), failed);
  close = λ f w. let (f', w', failed) = disk.close f w.0 in (f', (w', w.1), failed);
}

-- What a mode lets be opened, by whether the file existed.
abbrev pub Allows : Mode → Bool → Type 0
Allows add existed = existed ≡ false
Allows replace existed = existed ≡ true
Allows add_or_replace existed = Unit
Allows ignore existed = ⊥

left_out-Allows : (m : Mode) (existed : Bool) → left_out m existed ≡ false → Allows m existed
left_out-Allows add existed h = h
left_out-Allows replace true h = refl
left_out-Allows replace false h = cc
left_out-Allows add_or_replace existed h = tt
left_out-Allows ignore existed h = cc

-- The calls of `put` that a request makes: after an error the body is read no more.
unfoldable pub put_all :
    {F W : Type 0} → Disk F W → List (List ℕ) → Reader F → W → Option (Reader F × W × Bool)
put_all disk [] r w = some (r, w, false)
put_all disk (buffer ∷ buffers) r w = elim (put disk buffer r w) [
  | none ↦ none
  | some (r', w', _, failed) ↦ elim failed [
    | true ↦ some (r', w', true)
    | false ↦ put_all disk buffers r' w'
  ]
]

three_ends {ℓ} :
    {A : Type ℓ} {x y r : A} {rest : Option A} (a b : Bool)
    → (if a then some x else if b then some y else rest) ≡ some r
    → (x ≡ r) ⊎ (y ≡ r) ⊎ (rest ≡ some r)
three_ends true b h = inl (some-injective _ _ h)
three_ends false true h = inr (inl (some-injective _ _ h))
three_ends false false h = inr (inr h)

module _ {F W : Type 0} (disk : Disk F W) where
  module _ (m : Mode) (dir : List ℕ) where
    -- An opening that the mode lets be, of a path below the directory.
    abbrev pub Obeys : List ℕ × Bool → Type 0
    Obeys (path, existed) =
        ((file_name : List ℕ) × (path ≡ disk.join dir file_name)) × Allows m existed

    abbrev Keeps : Work F (W × Log) → Type 0
    Keeps k = (k.reader.mode ≡ m) × (k.reader.dir ≡ dir) × All Obeys k.disk.1

    write_file-Keeps :
        (text : List ℕ) (k : Work F (W × Log)) (fs : List (List ℕ × F))
        → Keeps k
        → Keeps (write_file (logged disk) text k fs)
    unfolding write_file
    write_file-Keeps text k [] h = h
    write_file-Keeps text k ((path, f) ∷ fs) h = elim (Bool-cases (disk.is_open f)) [
      | inl e ↦ rw e h
      | inr e ↦ rw e h
    ]

    write_to-Keeps :
        (st : State) (text : List ℕ) (k : Work F (W × Log))
        → Keeps k
        → Keeps (write_to (logged disk) st text k)
    unfolding write_to
    write_to-Keeps name text k h = h
    write_to-Keeps filename text k h = h
    write_to-Keeps content text k h = h
    write_to-Keeps file text k h = write_file-Keeps text k k.reader.files h

    write_part-Keeps :
        (view : List ℕ) (k : Work F (W × Log)) → Keeps k → Keeps (write_part (logged disk) view k)
    unfolding write_part
    write_part-Keeps view k h = write_to-Keeps k.reader.state _ k h

    end_part-Keeps :
        (view : List ℕ) (k : Work F (W × Log)) → Keeps k → Keeps (end_part (logged disk) view k)
    unfolding end_part
    end_part-Keeps view k h = write_part-Keeps view _ h

    emplace_file-Keeps :
        (file_name : List ℕ) (k : Work F (W × Log))
        → Keeps k
        → Keeps (emplace_file (logged disk) file_name k)
    unfolding emplace_file
    emplace_file-Keeps file_name k h =
        let path = disk.join k.reader.dir file_name in
        elim (Bool-cases (left_out k.reader.mode (disk.exists path k.disk.0))) [
          | inl e ↦ rw e h
          | inr e ↦
              let allowed = left_out-Allows m _ (rw h.0 at e) in
              rw e (h.0, h.1, (((file_name, ap (λ d. disk.join d file_name) h.1), allowed), h.2))
        ]

    close_file-Keeps :
        (k : Work F (W × Log)) (fs : List (List ℕ × F))
        → Keeps k
        → Keeps (close_file (logged disk) k fs)
    unfolding close_file
    close_file-Keeps k [] h = h
    close_file-Keeps k (f ∷ fs) h = h

    event-Keeps :
        (view : List ℕ) (event : MessageStreamParser.Event) (k : Work F (W × Log))
        → Keeps k
        → Keeps (message_part_event (logged disk) view event k)
    unfolding message_part_event
    event-Keeps view MessageStreamParser.none k h = h
    event-Keeps view begin_name k h = h
    event-Keeps view end_name k h = end_part-Keeps view k h
    event-Keeps view begin_filename k h = h
    event-Keeps view end_filename k h = emplace_file-Keeps _ _ (end_part-Keeps view k h)
    event-Keeps view begin_body k h =
        elim k.reader.state
          as (λ st. Keeps (elim st [
            | content ↦ begin_part (emplace_value false k.reader) k
            | _ ↦ begin_part k.reader k
          ])) [ name ↦ h | filename ↦ h | content ↦ h | file ↦ h ]
    event-Keeps view end_body k h =
        let k1 = end_part (logged disk) view k in
        let h1 = end_part-Keeps view k h in
        elim k1.reader.state
          as (λ st. Keeps (elim st [
            | file ↦ enter name (close_file (logged disk) k1 k1.reader.files)
            | _ ↦ enter name k1
          ])) [
            | file ↦ close_file-Keeps k1 k1.reader.files h1
            | name ↦ h1
            | filename ↦ h1
            | content ↦ h1
          ]

    parser_event-Keeps :
        (view : List ℕ) (event : MultipartStreamParser.Event) (k : Work F (W × Log))
        → Keeps k
        → Keeps (on_parser_event (logged disk) view event k)
    unfolding on_parser_event
    parser_event-Keeps view nothing k h = h
    parser_event-Keeps view message_begin k h = h
    parser_event-Keeps view message_end k h = event-Keeps view _ _ h

    advance_over-Keeps :
        (view cs : List ℕ) (k : Work F (W × Log))
        → Keeps k
        → Keeps (advance_over (logged disk) view cs k)
    unfolding advance_over read_char
    advance_over-Keeps view [] k h = h
    advance_over-Keeps view (c ∷ cs) k h = elim (Bool-cases k.reader.message) [
      | inl e ↦ rw e (advance_over-Keeps view cs _ (event-Keeps view _ _ h))
      | inr e ↦ rw e (advance_over-Keeps view cs _ h)
    ]

    advance-Keeps :
        (view : List ℕ) (adv : ℕ) (k : Work F (W × Log))
        → Keeps k
        → Keeps (advance (logged disk) view adv k)
    unfolding advance
    advance-Keeps view adv k h = advance_over-Keeps view (take adv (drop k.parsed view)) k h

    put_event-Keeps :
        (view : List ℕ) (adv : ℕ) (event : MultipartStreamParser.Event) (k : Work F (W × Log))
        → Keeps k
        → Keeps (put_event (logged disk) view adv event k)
    unfolding on_parser_event
    put_event-Keeps view adv nothing k h = advance-Keeps view adv k h
    put_event-Keeps view adv message_begin k h = advance-Keeps view adv k h
    put_event-Keeps view adv message_end k h =
        advance-Keeps view adv _ (parser_event-Keeps view message_end k h)

    loop-Keeps :
        (view cs : List ℕ) (n : ℕ) (k : Work F (W × Log)) {k' : Work F (W × Log)} {n' : ℕ}
        {e : Bool}
        → Keeps k
        → put_loop (logged disk) view cs n k ≡ some (k', n', e)
        → Keeps k'
    unfolding put_loop
    loop-Keeps view [] n k {k'} h run = subst Keeps {x = k} {y = k'} (cc) h
    loop-Keeps view (c ∷ cs) n k {k'} h run =
        elim (Option-cases (handle_char c k.reader.multipart_parser)) [
          | inl stuck ↦ cc (rw stuck at run)
          | inr ((p, adv, event, failed), taken) ↦
              let k1 : Work F (W × Log) = record k {
                reader = record k.reader { multipart_parser = p };
                ec = failed;
              } in
              let k2 = put_event (logged disk) view adv event k1 in
              let kept = put_event-Keeps view adv event k1 h in
              let run1 = rw taken at run in
              elim (three_ends failed k2.ec run1) [
                | inl e ↦ subst (λ (x : Work F (W × Log) × ℕ × Bool). Keeps x.0) e h
                | inr (inl e) ↦ subst (λ (x : Work F (W × Log) × ℕ × Bool). Keeps x.0) e kept
                | inr (inr more) ↦ loop-Keeps view cs (n + 1) k2 kept more
              ]
        ]

    keep_pending-Keeps :
        (view : List ℕ) (n : ℕ) (k : Work F (W × Log))
        → Keeps k
        → Keeps (keep_pending (logged disk) view n k)
    unfolding keep_pending
    keep_pending-Keeps view n k h =
        elim k.reader.is_writable
          as (λ b. Keeps (if b then write_part (logged disk) view k else k)) [
            | true ↦ write_part-Keeps view k h
            | false ↦ h
          ]

    put-Keeps :
        (buffer : List ℕ) (r : Reader F) (w : W × Log) {r' : Reader F} {w' : W × Log} {n : ℕ}
        → {e : Bool} → Keeps (start_work r w)
        → put (logged disk) buffer r w ≡ some (r', w', n, e)
        → Keeps (start_work r' w')
    unfolding put
    put-Keeps buffer r w {r'} {w'} h run =
        let view = r.pending ++ buffer in
        elim (Option-cases (put_loop (logged disk) view buffer 0 (start_work r w))) [
          | inl stuck ↦ cc (rw stuck at run)
          | inr ((k, n, returned), ran) ↦
              let kept = loop-Keeps view buffer 0 (start_work r w) h ran in
              let run1 = rw ran at run in
              elim (Bool-cases returned) [
                | inl e ↦
                    subst Keeps {x = start_work k.reader k.disk} {y = start_work r' w'}
                      (ground (arith, run1, e)) kept
                | inr e ↦
                    let k1 = keep_pending (logged disk) view n k in
                    subst Keeps {x = start_work k1.reader k1.disk} {y = start_work r' w'}
                      (ground (arith, run1, e)) (keep_pending-Keeps view n k kept)
              ]
        ]

    put_all-Keeps :
        (buffers : List (List ℕ)) (r : Reader F) (w : W × Log) {r' : Reader F} {w' : W × Log}
        → {e : Bool} → Keeps (start_work r w)
        → put_all (logged disk) buffers r w ≡ some (r', w', e)
        → Keeps (start_work r' w')
    unfolding put_all
    put_all-Keeps [] r w {r'} {w'} h run =
        subst Keeps {x = start_work r w} {y = start_work r' w'} (cc) h
    put_all-Keeps (buffer ∷ buffers) r w {r'} {w'} h run =
        elim (Option-cases (put (logged disk) buffer r w)) [
          | inl stuck ↦ cc (rw (put_all, stuck) at run)
          | inr ((r1, w1, n, failed), ran) ↦
              let kept = put-Keeps buffer r w h ran in
              let run1 = rw (put_all, ran) at run in
              elim (Bool-cases failed) [
                | inl e ↦
                    subst Keeps {x = start_work r1 w1} {y = start_work r' w'}
                      (ground (arith, run1, e)) kept
                | inr e ↦ put_all-Keeps buffers r1 w1 kept (rw e at run1)
              ]
        ]

-- Whatever the buffers of a request hold, the reader opens only files that its mode lets it: one that
-- is not there yet to add, one that is there to replace, and none at all where it ignores the body;
-- and each at the path of the directory joined with some text.
pub put_all-Obeys :
    {F W : Type 0} (disk : Disk F W) (buffers : List (List ℕ)) (r : Reader F) (w : W)
    {r' : Reader F}
    → {w' : W × Log} {failed : Bool}
    → put_all (logged disk) buffers r (w, []) ≡ some (r', w', failed)
    → All (Obeys disk r.mode r.dir) w'.1
put_all-Obeys disk buffers r w run =
    (put_all-Keeps disk r.mode r.dir buffers r (w, []) (refl, refl, tt) run).2
