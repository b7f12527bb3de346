-- ===== src/Tests/Http.antt =====
-- Runs of src/net/http_session.cpp, with numbers for responses.
use cis1_webui_native_srv_cp.Prelude.{ℕ, refl, true, false, [], ◌∷◌, arith}
use cis1_webui_native_srv_cp.Net.HttpSession.{
  Session, body_parser, success, finish, on_read_header, on_read_body, run,
}
use cis1_webui_native_srv_cp.Net.HttpSession.Pipeline.{
  IsPaced, Serving, opened, header, body, Serving-IsPaced,
}

-- The body of the first request is being read.
abbrev reading_body : Session ℕ
reading_body = record {
  items = [];
  header_reads = 0;
  body_reads = 1;
  writes = 0;
  wire = [];
  parser = body_parser;
  done = true;
  upgraded = false;
  closed = false;
}

read_one : Serving reading_body
unfolding run on_read_header
read_one = header finish opened (omega arith) refl refl

Serving-IsPaced_example : IsPaced (on_read_body success ((7, false) ∷ []) reading_body)
Serving-IsPaced_example =
    Serving-IsPaced (body ((7, false) ∷ []) read_one (omega arith) (omega arith))
