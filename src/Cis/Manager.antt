-- ===== src/Cis/Manager.antt =====
-- src/cis/cis_manager.cpp: the executables that the constructor reads from cis.conf, and the list of
-- schedules that the scheduler prints. A loop has fuel, and gives none where it would go on.
pub mod CronList
use cis1_webui_native_srv_cp.Prelude.{
  ℕ, zero, suc, Bool, true, false, ◌&&◌, ◌||◌, not, List, [], ◌∷◌, ◌++◌, Option, none, some, ascii,
  if◌then◌else◌,
}
use cis1_webui_native_srv_cp.Cis.Stream.{Stream, good, is_empty, split_at, getline, text_eq}

-- `cis_manager::executables`.
pub record Executables : Type 0 where
  pub startjob : List ℕ
  pub setparam : List ℕ
  pub getparam : List ℕ
  pub setvalue : List ℕ
  pub getvalue : List ℕ
  pub cis_cron : List ℕ

abbrev pub no_executables : Executables
no_executables = record {
  startjob = [];
  setparam = [];
  getparam = [];
  setvalue = [];
  getvalue = [];
  cis_cron = [];
}

-- `executables::set`: what it makes of them, and whether it knows the name.
unfoldable pub set_executable : List ℕ → List ℕ → Executables → Executables × Bool
set_executable name value e =
    if text_eq name (ascii "startjob")
    then (record e { startjob = value }, true)
    else if text_eq name (ascii "setparam")
    then (record e { setparam = value }, true)
    else if text_eq name (ascii "getparam")
    then (record e { getparam = value }, true)
    else if text_eq name (ascii "setvalue")
    then (record e { setvalue = value }, true)
    else if text_eq name (ascii "getvalue")
    then (record e { getvalue = value }, true)
    else if text_eq name (ascii "cis_cron")
    then (record e { cis_cron = value }, true)
    else (e, false)

-- `executables::valid`.
unfoldable pub are_valid : Executables → Bool
are_valid e =
    not (is_empty e.startjob)
    && (not (is_empty e.setparam)
        && (not (is_empty e.getparam)
            && (not (is_empty e.setvalue)
                && (not (is_empty e.getvalue) && not (is_empty e.cis_cron)))))

-- The loop of the constructor over cis.conf.
unfoldable pub load_executables : ℕ → Stream → Executables → Option Executables
unfolding getline set_executable
load_executables zero s e = none
load_executables (suc fuel) s e = elim (good s) [
  | false ↦ some e
  | true ↦
      let (exec_name, s1) = getline b'=' s in
      let (exec_file, s2) = getline 10 s1 in
      elim (is_empty exec_name || is_empty exec_file) [
        | true ↦ some e
        | false ↦ load_executables fuel s2 (set_executable exec_name exec_file e).0
      ]
]

-- The executables of the constructor; the inner none is its `load_config_error`.
unfoldable pub configure : ℕ → Stream → Option (Option Executables)
unfolding load_executables are_valid
configure fuel s = elim (load_executables fuel s no_executables) [
  | none ↦ none
  | some e ↦ some (if are_valid e then some e else none)
]

-- `cron_entry`.
pub record Schedule : Type 0 where
  pub project : List ℕ
  pub job : List ℕ
  pub cron_expr : List ℕ

abbrev pub rest_of : Option (List ℕ) → List ℕ
rest_of none = []
rest_of (some rest) = rest

-- The loop of `parse_cron_list`: what is added to the entries. A search that goes on from a found
-- character goes on behind it, as the characters that are searched for differ.
unfoldable pub parse_cron_list : ℕ → List ℕ → List Schedule → Option (List Schedule)
parse_cron_list zero text entries = none
parse_cron_list (suc fuel) [] entries = some entries
parse_cron_list (suc fuel) (c ∷ cs) entries =
    let (project, at_slash) = split_at b'/' (c ∷ cs) in
    elim at_slash [
      | none ↦ some entries
      | some behind_slash ↦
          let (job, at_space) = split_at 32 behind_slash in
          elim at_space [
            | none ↦ some entries
            | some behind_space ↦
                let (expr, at_end) = split_at 10 behind_space in
                elim (is_empty project || (is_empty job || is_empty expr)) [
                  | true ↦ some entries
                  | false ↦
                      parse_cron_list fuel (rest_of at_end)
                        (entries ++ record { project = project; job = job; cron_expr = expr } ∷ [])
                ]
          ]
    ]
