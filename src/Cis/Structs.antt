-- ===== src/Cis/Structs.antt =====
-- src/cis/cis_structs.cpp: the projects, jobs and builds that the entries of the projects' directory
-- are. An `fs_iterator` is a value of `I`, with what is read through it as the parameter `Entries`; the
-- reader of job.params, of cis1_proto_utils, and `>>` into an int are parameters too.
-- A constructor gives none where it throws or follows an iterator at the end; a loop has fuel.
pub mod Recognition
use cis1_webui_native_srv_cp.Prelude.{
  ℤ, ℕ, zero, suc, ◌%◌, ◌^◌, Bool, true, false, ◌&&◌, not, List, [], ◌∷◌, Option, none, some, ascii,
  length, ltb, if◌then◌else◌,
}
use cis1_webui_native_srv_cp.Cis.Stream.{Stream, good, is_empty, is_digit, read_word}
use cis1_webui_native_srv_cp.Cis.JobConf.{
  Conf, script_key, successful_key, broken_key, value_of, stoul, load_job_conf,
}

pub record Entries (I : Type 0) : Type 0 where
  pub is_directory : I → Bool
  pub is_regular_file : I → Bool
  pub filename : I → List ℕ
  pub find : List ℕ → I → Option I
  pub childs : I → List I
  -- The std::ifstream of the entry's path.
  pub stream : I → Stream
  pub read_kv : Stream → List (List ℕ × List ℕ)
  pub read_int : Stream → ℤ

abbrev pub Param : Type 0
Param = List ℕ × List ℕ

pub record Job (I : Type 0) : Type 0 where
  pub entry : I
  pub script : List ℕ
  pub keep_successful_builds : ℕ
  pub keep_broken_builds : ℕ
  pub params : List Param

pub record Build (I : Type 0) : Type 0 where
  pub entry : I
  pub status : Option ℤ
  pub session_id : Option (List ℕ)
  pub date : Option (List ℕ)
  pub exit_message : Option (List ℕ)

-- What a list of a project's or a job's entries holds.
pub data Item (I A : Type 0) : Type 0 where
  fs_entry_ref : I → Item I A
  recognised : A → Item I A

infixl 5 ◌>>=◌
abbrev pub ◌>>=◌ : {A B : Type 0} → Option A → (A → Option B) → Option B
none >>= k = none
some a >>= k = k a

abbrev pub take : ℕ → List ℕ → List ℕ
take zero xs = []
take (suc n) [] = []
take (suc n) (x ∷ xs) = x ∷ take n xs

abbrev all_digits : List ℕ → Bool
all_digits [] = true
all_digits (c ∷ cs) = is_digit c && all_digits cs

-- The mask of six digits.
unfoldable pub is_build : List ℕ → Bool
is_build (a ∷ b ∷ c ∷ d ∷ e ∷ f ∷ []) = all_digits (a ∷ b ∷ c ∷ d ∷ e ∷ f ∷ [])
is_build _ = false

abbrev pub conf_name : List ℕ
conf_name = ascii "job.conf"

abbrev pub params_name : List ℕ
params_name = ascii "job.params"

module _ {I : Type 0} (fs : Entries I) where
  open fs use {is_directory, is_regular_file, filename, find, childs, stream, read_kv, read_int}

  abbrev pub project_is_entry : I → Bool
  project_is_entry = is_directory

  -- The children that are regular files, by their name.
  abbrev pub regular : List ℕ → I → Option I
  regular name it = elim (find name it) [
    | none ↦ none
    | some child ↦ if is_regular_file child then some child else none
  ]

  -- The whole of exitmessage.txt. Where it could not be opened, `tellg` gives -1 and `reserve`
  -- throws; where it cannot be read, the iterator over its buffer does.
  abbrev pub exit_message_of : I → Option (Option (List ℕ))
  exit_message_of it = elim (regular (ascii "exitmessage.txt") it) [
    | none ↦ some none
    | some f ↦ let s = stream f in if good s && not s.broken then some (some s.rest) else none
  ]

  unfoldable pub job_is_entry : ℕ → I → Option Bool
  job_is_entry fuel it =
      if is_directory it
      then elim (find conf_name it) [
        | none ↦ some false
        | some conf ↦ (do loaded ← load_job_conf fuel (stream conf); some (not (is_empty loaded)))
      ]
      else some false

  abbrev pub params_of : I → List Param
  params_of it = elim (regular params_name it) [ none ↦ [] | some params ↦ read_kv (stream params) ]

  -- What the constructor assigns; the numbers are of the type uint32_t.
  abbrev pub made_job : I → Conf → ℕ → ℕ → Job I
  made_job it conf successful broken = record {
    entry = it;
    script = value_of script_key conf;
    keep_successful_builds = successful % 2 ^ 32;
    keep_broken_builds = broken % 2 ^ 32;
    params = params_of it;
  }

  -- `job::job`.
  unfoldable pub job : ℕ → I → Option (Job I)
  job fuel it = do
    conf_entry ← find conf_name it
    conf ← load_job_conf fuel (stream conf_entry)
    successful ← stoul (value_of successful_key conf)
    broken ← stoul (value_of broken_key conf)
    some (made_job it conf successful broken)

  abbrev pub build_is_entry : I → Bool
  build_is_entry it = is_directory it && is_build (filename it)

  -- The first nineteen characters of a longer session's id.
  abbrev pub date_of : List ℕ → Option (List ℕ)
  date_of id = if ltb 19 (length id) then some (take 19 id) else none

  abbrev pub session_id_of : I → Option (List ℕ)
  session_id_of it = elim (regular (ascii "session_id.txt") it) [
    | none ↦ none
    | some f ↦ some (read_word (stream f))
  ]

  abbrev pub status_of : I → Option ℤ
  status_of it = elim (regular (ascii "exitcode.txt") it) [
    | none ↦ none
    | some f ↦ some (read_int (stream f))
  ]

  -- `build::build`.
  unfoldable pub build : I → Option (Build I)
  build it = do
    exit_message ← exit_message_of it
    some (record {
      entry = it;
      status = status_of it;
      session_id = session_id_of it;
      date = elim (session_id_of it) [ none ↦ none | some id ↦ date_of id ];
      exit_message = exit_message;
    })

  abbrev pub job_item : ℕ → I → Option (Item I (Job I))
  job_item fuel it = do
    is_job ← job_is_entry fuel it
    if is_job then (do j ← job fuel it; some (recognised j)) else some (fs_entry_ref it)

  unfoldable pub job_items : ℕ → List I → Option (List (Item I (Job I)))
  unfolding job_is_entry job
  job_items fuel [] = some []
  job_items fuel (it ∷ its) = do
    item ← job_item fuel it
    items ← job_items fuel its
    some (item ∷ items)

  -- `project::get_job_list` and `project::get_job_info`.
  unfoldable pub get_job_list : ℕ → I → Option (List (Item I (Job I)))
  unfolding job_items
  get_job_list fuel it = job_items fuel (childs it)

  unfoldable pub get_job_info : ℕ → List ℕ → I → Option (Option (Job I))
  unfolding job_is_entry job
  get_job_info fuel name it = elim (find name it) [
    | none ↦ some none
    | some child ↦ (do
      is_job ← job_is_entry fuel child
      if is_job then (do j ← job fuel child; some (some j)) else some none)
  ]

  abbrev pub build_item : I → Option (Item I (Build I))
  build_item it =
      if build_is_entry it then (build it >>= λ b. some (recognised b)) else some (fs_entry_ref it)

  unfoldable pub build_items : List I → Option (List (Item I (Build I)))
  unfolding build is_build
  build_items [] = some []
  build_items (it ∷ its) = do item ← build_item it; items ← build_items its; some (item ∷ items)

  -- `job::get_build_list` and `job::get_build_info`.
  unfoldable pub get_build_list : I → Option (List (Item I (Build I)))
  unfolding build_items
  get_build_list it = build_items (childs it)

  unfoldable pub get_build_info : List ℕ → I → Option (Option (Build I))
  unfolding build is_build
  get_build_info name it = elim (find name it) [
    | none ↦ some none
    | some child ↦ if build_is_entry child then (build child >>= λ b. some (some b)) else some none
  ]

  -- The entries of a job's files.
  unfoldable pub get_script_entry : Job I → Option I
  get_script_entry j = find j.script j.entry

  unfoldable pub get_params_entry : Job I → Option I
  get_params_entry j = find params_name j.entry

  unfoldable pub get_conf_entry : Job I → Option I
  get_conf_entry j = find conf_name j.entry

  -- `get_project_info`, `get_job_info` and `get_build_info` of src/cis/cis_manager.cpp, from the entry
  -- of a project's name.
  unfoldable pub find_project : Option I → Option I
  find_project none = none
  find_project (some it) = if project_is_entry it then some it else none

  unfoldable pub find_job : ℕ → Option I → List ℕ → Option (Option (Job I))
  unfolding get_job_info find_project
  find_job fuel project job_name = elim (find_project project) [
    | none ↦ some none
    | some it ↦ get_job_info fuel job_name it
  ]

  unfoldable pub find_build : ℕ → Option I → List ℕ → List ℕ → Option (Option (Build I))
  unfolding find_job get_build_info
  find_build fuel project job_name build_name = do
    j ← find_job fuel project job_name
    elim j [ none ↦ some none | some found ↦ get_build_info build_name found.entry ]
