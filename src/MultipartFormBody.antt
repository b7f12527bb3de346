-- ===== src/MultipartFormBody.antt =====
-- include/beast_ext/basic_multipart_form_body.h, the body of a request that carries a multipart form:
-- its reader brings the two parsers together and writes the parts into values and files. The template's
-- parameter `File`, with the disk behind it, is the parameter `Disk`.
--
-- The buffers of a call are joined to one, and an iterator with its offset is a position in the pending
-- buffer followed by them, so the writes of the pieces of a part are one write; `parsed_offset` and the
-- position of `msg_it` are equal throughout, and are one field. A multimap is the list of its entries,
-- the newest first, whose head is the entry that `current_content_` or `current_file_` stands at.
-- A result is none where a parser terminates the program.
pub mod Opening
pub mod Pending
use cis1_webui_native_srv_cp.Prelude.{
  ℕ, zero, suc, ◌+◌, ◌-◌, Bool, true, false, ◌&&◌, ◌||◌, not, List, [], ◌∷◌, ◌++◌, Option, none,
  some, length, ltb, if◌then◌else◌,
}
use cis1_webui_native_srv_cp.MessageStreamParser
use cis1_webui_native_srv_cp.MessageStreamParser.{
  begin_name, end_name, begin_filename, end_filename, begin_body, end_body, initial,
  handle_message_char, handle_message_end,
}
use cis1_webui_native_srv_cp.MultipartStreamParser
use cis1_webui_native_srv_cp.MultipartStreamParser.{
  nothing, message_begin, message_end, init_delims, fresh, handle_char,
}

-- `value_type::mode`.
pub data Mode : Type 0 where
  add replace add_or_replace ignore : Mode

pub data State : Type 0 where
  name filename content file : State

-- `value_t`, with the name that it is stored under.
pub record Value : Type 0 where
  pub name : List ℕ
  pub is_file : Bool
  pub written : Bool
  pub content : List ℕ

-- `join` is the operator / of std::filesystem::path; a call on a file gives whether it failed.
pub record Disk (F W : Type 0) : Type 0 where
  pub join : List ℕ → List ℕ → List ℕ
  pub exists : List ℕ → W → Bool
  pub closed : F
  pub is_open : F → Bool
  pub open_file : List ℕ → W → F × W × Bool
  pub write : List ℕ → F → W → F × W × Bool
  pub close : F → W → F × W × Bool

-- The members of the reader, and those of the `value_type` that it refers to.
pub record Reader (F : Type 0) : Type 0 where
  pub dir : List ℕ
  pub values : List Value
  pub files : List (List ℕ × F)
  pub mode : Mode
  pub boundary : List ℕ
  pub multipart_parser : MultipartStreamParser.Parser
  pub message_parser : MessageStreamParser.Parser
  pub message : Bool
  pub is_writable : Bool
  pub state : State
  pub name_buffer : List ℕ
  pub pending : List ℕ

-- What a call of `put` works on: `parsed` and `part` are positions.
pub record Work (F W : Type 0) : Type 0 where
  pub reader : Reader F
  pub disk : W
  pub parsed : ℕ
  pub part : ℕ
  pub ec : Bool

abbrev pub take : ℕ → List ℕ → List ℕ
take zero xs = []
take (suc n) [] = []
take (suc n) (x ∷ xs) = x ∷ take n xs

abbrev pub drop : ℕ → List ℕ → List ℕ
drop zero xs = xs
drop (suc n) [] = []
drop (suc n) (x ∷ xs) = drop n xs

-- The characters of a view from one position to another.
abbrev pub slice : List ℕ → ℕ → ℕ → List ℕ
slice view from to = take (to - from) (drop from view)

infixl 5 ◌>>=◌
abbrev pub ◌>>=◌ : {A B : Type 0} → Option A → (A → Option B) → Option B
none >>= k = none
some a >>= k = k a

abbrev pub reader_of : {F : Type 0} → List ℕ → Mode → List ℕ → Reader F
reader_of dir mode boundary = record {
  dir = dir;
  values = [];
  files = [];
  mode = mode;
  boundary = boundary;
  multipart_parser = fresh;
  message_parser = initial;
  message = false;
  is_writable = false;
  state = name;
  name_buffer = [];
  pending = [];
}

-- `reader::init`: the reader, and whether the error code is set.
unfoldable pub init_reader : {F : Type 0} → Reader F → Reader F × Bool
init_reader r = elim r.boundary [
  | [] ↦ (r, true)
  | _ ∷ _ ↦ (record r { multipart_parser = init_delims r.boundary r.multipart_parser }, false)
]

abbrev pub append_content : List ℕ → List Value → List Value
append_content text [] = []
append_content text (v ∷ vs) = record v { content = v.content ++ text } ∷ vs

abbrev pub set_unwritten : List Value → List Value
set_unwritten [] = []
set_unwritten (v ∷ vs) = record v { written = false } ∷ vs

-- The content of the current value.
abbrev pub current : List Value → List ℕ
current [] = []
current (v ∷ vs) = v.content

-- Whether a file is left out: by the mode, and by whether it exists.
abbrev pub left_out : Mode → Bool → Bool
left_out ignore exists = true
left_out replace exists = not exists
left_out add exists = exists
left_out add_or_replace exists = false

-- A new value under the name that was read.
abbrev pub emplace_value : {F : Type 0} → Bool → Reader F → Reader F
emplace_value is_file r =
    let v : Value = record {
      name = r.name_buffer;
      is_file = is_file;
      written = true;
      content = [];
    } in
    record r { values = v ∷ r.values; name_buffer = [] }

module _ {F W : Type 0} where
  -- A part begins behind the character at the parser's position.
  abbrev pub begin_part : Reader F → Work F W → Work F W
  begin_part r k = record k { reader = record r { is_writable = true }; part = k.parsed + 1 }

  abbrev pub enter : State → Work F W → Work F W
  enter st k = record k { reader = record k.reader { state = st } }

  abbrev pub start_work : Reader F → W → Work F W
  start_work r w = record { reader = r; disk = w; parsed = 0; part = 0; ec = false }

module _ {F W : Type 0} (disk : Disk F W) where
  -- By the current file: a file that is not open is not written to.
  unfoldable pub write_file : List ℕ → Work F W → List (List ℕ × F) → Work F W
  write_file text k [] = k
  write_file text k ((path, f) ∷ fs) =
      if disk.is_open f
      then (let (f', w, failed) = disk.write text f k.disk in
          record k { reader = record k.reader { files = (path, f') ∷ fs }; disk = w; ec = failed })
      else k

  unfoldable pub write_to : State → List ℕ → Work F W → Work F W
  unfolding write_file
  write_to name text k = record k {
    reader = record k.reader { name_buffer = k.reader.name_buffer ++ text };
  }
  write_to filename text k = record k {
    reader = record k.reader { values = append_content text k.reader.values };
  }
  write_to content text k = record k {
    reader = record k.reader { values = append_content text k.reader.values };
  }
  write_to file text k = write_file text k k.reader.files

  -- `write_part`, with the part's end at the position of the parser.
  unfoldable pub write_part : List ℕ → Work F W → Work F W
  unfolding write_to
  write_part view k = record (write_to k.reader.state (slice view k.part k.parsed) k) {
    part = k.parsed;
  }

  unfoldable pub end_part : List ℕ → Work F W → Work F W
  unfolding write_part
  end_part view k = write_part view (record k { reader = record k.reader { is_writable = false } })

  -- The file of a part whose file name is read.
  unfoldable pub emplace_file : List ℕ → Work F W → Work F W
  emplace_file file_name k =
      let path = disk.join k.reader.dir file_name in
      if left_out k.reader.mode (disk.exists path k.disk)
      then record k {
        reader = record k.reader {
          files = (file_name, disk.closed) ∷ k.reader.files;
          values = set_unwritten k.reader.values;
        };
      }
      else (let (f, w, failed) = disk.open_file path k.disk in
          record k {
            reader = record k.reader { files = (file_name, f) ∷ k.reader.files };
            disk = w;
            ec = failed;
          })

  unfoldable pub close_file : Work F W → List (List ℕ × F) → Work F W
  close_file k [] = k
  close_file k ((path, f) ∷ fs) =
      let (f', w, failed) = disk.close f k.disk in
      record k { reader = record k.reader { files = (path, f') ∷ fs }; disk = w; ec = failed }

  unfoldable pub message_part_event : List ℕ → MessageStreamParser.Event → Work F W → Work F W
  unfolding end_part emplace_file close_file
  message_part_event view MessageStreamParser.none k = k
  message_part_event view begin_name k = begin_part k.reader k
  message_part_event view end_name k = enter content (end_part view k)
  message_part_event view begin_filename k =
      begin_part (record (emplace_value true k.reader) { state = filename }) k
  message_part_event view end_filename k =
      let k1 = end_part view k in enter file (emplace_file (current k1.reader.values) k1)
  message_part_event view begin_body k = elim k.reader.state [
    | content ↦ begin_part (emplace_value false k.reader) k
    | _ ↦ begin_part k.reader k
  ]
  message_part_event view end_body k =
      let k1 = end_part view k in
      elim k1.reader.state [ file ↦ enter name (close_file k1 k1.reader.files) | _ ↦ enter name k1 ]

  -- The lambda takes the error code by value, so an error of the message parser is lost.
  unfoldable pub on_parser_event : List ℕ → MultipartStreamParser.Event → Work F W → Work F W
  unfolding message_part_event
  on_parser_event view nothing k = k
  on_parser_event view message_begin k = record k { reader = record k.reader { message = true } }
  on_parser_event view message_end k =
      let (p, event, _) = handle_message_end k.reader.message_parser in
      let k1 =
        message_part_event view event
          (record k { reader = record k.reader { message_parser = p } }) in
      record k1 { reader = record k1.reader { message = false } }

  -- A character in a message goes through its parser, which assigns the error code or leaves it.
  unfoldable pub read_char : List ℕ → ℕ → Work F W → Work F W
  unfolding message_part_event
  read_char view c k =
      let (p, event, failed) = handle_message_char k.reader.message_parser c in
      message_part_event view event
        (record k { reader = record k.reader { message_parser = p }; ec = failed || k.ec })

  -- The characters that the multipart parser has decided on.
  unfoldable pub advance_over : List ℕ → List ℕ → Work F W → Work F W
  unfolding read_char
  advance_over view [] k = k
  advance_over view (c ∷ cs) k =
      let k1 = if k.reader.message then read_char view c k else k in
      advance_over view cs (record k1 { parsed = k1.parsed + 1 })

  unfoldable pub advance : List ℕ → ℕ → Work F W → Work F W
  unfolding advance_over
  advance view adv k = advance_over view (take adv (drop k.parsed view)) k

  abbrev pub put_event : List ℕ → ℕ → MultipartStreamParser.Event → Work F W → Work F W
  put_event view adv message_begin k = on_parser_event view message_begin (advance view adv k)
  put_event view adv nothing k = advance view adv (on_parser_event view nothing k)
  put_event view adv message_end k = advance view adv (on_parser_event view message_end k)

  -- The loop over the characters of the buffer: what it leaves, the count of the characters that were
  -- taken, and whether it returned on an error.
  unfoldable pub put_loop : List ℕ → List ℕ → ℕ → Work F W → Option (Work F W × ℕ × Bool)
  unfolding on_parser_event advance
  put_loop view [] nwritten k = some (k, nwritten, false)
  put_loop view (c ∷ cs) nwritten k = do
    (p, adv, event, failed) ← handle_char c k.reader.multipart_parser
    let k1 = record k { reader = record k.reader { multipart_parser = p }; ec = failed }
    let k2 = put_event view adv event k1
    let rest = put_loop view cs (nwritten + 1) k2
    if failed then some (k1, nwritten, true) else if k2.ec then some (k2, nwritten, true) else rest

  -- What `put` does behind its loop: the part under way is written, and the characters that are not
  -- decided on are kept. The copy begins at the parser's position, and goes behind what is pending.
  unfoldable pub keep_pending : List ℕ → ℕ → Work F W → Work F W
  unfolding write_part
  keep_pending view nwritten k =
      let k1 = if k.reader.is_writable then write_part view k else k in
      let old = k1.reader.pending in
      let consumed_size = if ltb k1.parsed (length old) then k1.parsed else length old in
      let buf_size = nwritten + consumed_size - k1.parsed in
      let copied = take buf_size (drop k1.parsed view) in
      record k1 {
        reader = record k1.reader { pending = drop consumed_size (old ++ copied) };
        ec = false;
      }

  -- The reader, the disk, the count of the characters taken, and whether the error code is set.
  unfoldable pub put : List ℕ → Reader F → W → Option (Reader F × W × ℕ × Bool)
  unfolding put_loop keep_pending advance
  put buffer r w = do
    let view = r.pending ++ buffer
    (k, nwritten, returned) ← put_loop view buffer 0 (start_work r w)
    let k1 = if returned then k else keep_pending view nwritten k
    some (k1.reader, k1.disk, nwritten, returned)

-- `reader::finish`: whether the error code is set.
unfoldable pub finish_reader : {F : Type 0} → Reader F → Bool
finish_reader r = elim r.state [ name ↦ false | _ ↦ true ]
