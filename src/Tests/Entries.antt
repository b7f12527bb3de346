-- ===== src/Tests/Entries.antt =====
-- Runs of src/cis/cis_structs.cpp and src/cis/cis_manager.cpp over a project in memory: a directory
-- with a job, a directory without one, and a file.
use cis1_webui_native_srv_cp.Prelude.{
  ℕ, ◌+◌, ◌≡◌, refl, pos, ◌||◌, ◌==◌, List, [], ◌∷◌, ◌++◌, none, some, ascii, if◌then◌else◌, arith,
}
use cis1_webui_native_srv_cp.Cis.Stream.{opened, not_opened, unreadable, split_at, text_eq}
use cis1_webui_native_srv_cp.Cis.JobConf.{Conf, load_job_conf}
use cis1_webui_native_srv_cp.Cis.JobConf.Loading.{load_job_conf-ends_opened}
use cis1_webui_native_srv_cp.Cis.Structs.{
  Entries, Job, Item, fs_entry_ref, recognised, conf_name, get_job_list,
}
use cis1_webui_native_srv_cp.Cis.Structs.Recognition.{AllFit, get_job_list-AllFit}
use cis1_webui_native_srv_cp.Cis.Manager.{Schedule, configure, parse_cron_list}
use cis1_webui_native_srv_cp.Cis.Manager.CronList.{print_list, parse_cron_list-print}

abbrev conf_text : List ℕ
conf_text = ascii "script=run.sh \nkeep_last_success_builds=5\nkeep_last_break_builds= 7x\n"

-- The project is 0, its children are 1, 2 and 3, and 4 is the job.conf of 1.
abbrev pub entries : Entries ℕ
entries = record {
  is_directory = λ i. i == 0 || (i == 1 || i == 2);
  is_regular_file = λ i. i == 4;
  filename = λ i. ascii "x";
  find = λ name i. if i == 1 then (if text_eq name conf_name then some 4 else none) else none;
  childs = λ i. if i == 0 then 1 ∷ 2 ∷ 3 ∷ [] else [];
  stream = λ i. opened conf_text;
  read_kv = λ s. [];
  read_int = λ s. pos 0;
}

abbrev the_job : Job ℕ
the_job = record {
  entry = 1;
  script = ascii "run.sh";
  keep_successful_builds = 5;
  keep_broken_builds = 7;
  params = [];
}

jobs_listed :
    get_job_list entries 100 0 ≡ some (recognised the_job ∷ fs_entry_ref 2 ∷ fs_entry_ref 3 ∷ [])
unfolding get_job_list load_job_conf
jobs_listed = refl

get_job_list-AllFit_example :
    (items : List (Item ℕ (Job ℕ))) × (get_job_list entries 100 0 ≡ some items)
    × AllFit entries 100 (1 ∷ 2 ∷ 3 ∷ []) items
get_job_list-AllFit_example = get_job_list-AllFit entries 100 0 (
  λ conf found. (conf_text, refl, omega arith),
  (
    λ conf found. (conf_text, refl, omega arith),
    (λ conf found. (conf_text, refl, omega arith), tt),
  ),
)

-- A line without an equals sign ends the file; one that begins with it empties the map.
no_key : load_job_conf 100 (opened (ascii "=x\n")) ≡ some []
unfolding load_job_conf
no_key = refl

abbrev schedules : List Schedule
schedules =
    record { project = ascii "p"; job = ascii "a/b"; cron_expr = ascii "* * 1" }
    ∷ record { project = ascii "q"; job = ascii "c"; cron_expr = ascii "@daily" }
    ∷ []

print_list_text : print_list schedules [] ≡ ascii "p/a/b * * 1\nq/c @daily\n"
unfolding print_list
print_list_text = refl

cut_list :
    parse_cron_list 100 (ascii "p/a * *\n/b *\nq/c *\n") []
    ≡ some (record { project = ascii "p"; job = ascii "a"; cron_expr = ascii "* *" } ∷ [])
unfolding parse_cron_list split_at
cut_list = refl

configured : configure 100 (opened (ascii "startjob=s\nsetparam=p\n")) ≡ some none
unfolding configure
configured = refl

abbrev cut_line : List ℕ
cut_line = ascii "r/ x"

parse_cron_list-print_example :
    (more : List Schedule) × (parse_cron_list 10 cut_line [] ≡ some more)
    × (parse_cron_list (2 + 10) (print_list schedules cut_line) [] ≡ some (schedules ++ more))
parse_cron_list-print_example =
    parse_cron_list-print 10 schedules cut_line (omega arith) (omega arith)

load_job_conf-ends_opened_example :
    ((conf : Conf) × (load_job_conf 100 (opened conf_text) ≡ some conf))
    × (load_job_conf 100 not_opened ≡ none)
    × (load_job_conf 100 unreadable ≡ none)
load_job_conf-ends_opened_example = load_job_conf-ends_opened 100 conf_text (omega arith)
