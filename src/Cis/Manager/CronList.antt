-- ===== src/Cis/Manager/CronList.antt =====
-- The list of schedules that `cis_manager::parse_cron_list` of src/cis/cis_manager.cpp reads.
use cis1_webui_native_srv_cp.Prelude.{
  ℕ, zero, suc, ◌+◌, ◌≤◌, ◌<◌, ◌≡◌, ◌≢◌, refl, sym, ap, ◌∙◌, false, ◌||◌, List, [], ◌∷◌, ◌++◌,
  append-nil, append_assoc, Option, none, some, length, All, Bool-cases, Option-cases, inl, inr,
  arith,
}
use cis1_webui_native_srv_cp.Cis.Stream.{is_empty, split_at, split_at-append, left, left-split_at}
use cis1_webui_native_srv_cp.Cis.Manager.{Schedule, rest_of, parse_cron_list}

abbrev schedule : List ℕ → List ℕ → List ℕ → Schedule
schedule project job expr = record { project = project; job = job; cron_expr = expr }

-- A line of the list, as the scheduler prints it.
abbrev pub print_line : Schedule → List ℕ → List ℕ
print_line s rest = s.project ++ b'/' ∷ (s.job ++ 32 ∷ (s.cron_expr ++ 10 ∷ rest))

-- The lines of schedules, in front of some text.
unfoldable pub print_list : List Schedule → List ℕ → List ℕ
print_list [] text = text
print_list (s ∷ ss) text = print_line s (print_list ss text)

-- The parts of a schedule are not empty; a project has no slash, a job no space, and an expression no
-- line feed.
abbrev pub IsPrintable : Schedule → Type 0
IsPrintable s =
    (0 < length s.project)
    × (0 < length s.job)
    × (0 < length s.cron_expr)
    × All (λ c. c ≢ b'/') s.project
    × All (λ c. c ≢ 32) s.job
    × All (λ c. c ≢ 10) s.cron_expr

parse_step :
    (fuel c : ℕ) (cs project job expr behind_slash behind_space : List ℕ) (at_end : Option (List ℕ))
    → (entries : List Schedule) → split_at b'/' (c ∷ cs) ≡ (project, some behind_slash)
    → split_at 32 behind_slash ≡ (job, some behind_space)
    → split_at 10 behind_space ≡ (expr, at_end)
    → (is_empty project || (is_empty job || is_empty expr)) ≡ false
    → parse_cron_list (suc fuel) (c ∷ cs) entries
      ≡ parse_cron_list fuel (rest_of at_end) (entries ++ schedule project job expr ∷ [])
unfolding parse_cron_list
parse_step fuel c cs project job expr behind_slash behind_space at_end entries e1 e2 e3 full =
    rw (parse_cron_list, e1, e2, e1, e2, e3, full, e1, e2, e3) refl

parse_line :
    (fuel : ℕ) (project job expr rest : List ℕ) (entries : List Schedule)
    → IsPrintable (schedule project job expr)
    → parse_cron_list (suc fuel) (print_line (schedule project job expr) rest) entries
      ≡ parse_cron_list fuel rest (entries ++ schedule project job expr ∷ [])
parse_line fuel [] job expr rest entries h = absurd (omega (arith, h.0))
parse_line fuel (p ∷ ps) [] expr rest entries h = absurd (omega (arith, h.1))
parse_line fuel (p ∷ ps) (j ∷ js) [] rest entries h = absurd (omega (arith, h.2))
parse_line fuel (p ∷ ps) (j ∷ js) (e ∷ es) rest entries h =
    parse_step fuel p _ (p ∷ ps) (j ∷ js) (e ∷ es) _ _ (some rest) entries
      (split_at-append b'/' (p ∷ ps) _ h.3) (split_at-append 32 (j ∷ js) _ h.4)
      (split_at-append 10 (e ∷ es) rest h.5) refl

rounds : List Schedule → ℕ → ℕ
rounds [] fuel = fuel
rounds (s ∷ ss) fuel = suc (rounds ss fuel)

rounds-eq : (ss : List Schedule) (fuel : ℕ) → rounds ss fuel ≡ length ss + fuel
unfolding rounds
rounds-eq [] fuel = omega arith
rounds-eq (s ∷ ss) fuel = omega (arith, rounds-eq ss fuel)

parse_print :
    (fuel : ℕ) (ss : List Schedule) (text : List ℕ) (entries : List Schedule)
    → All IsPrintable ss
    → parse_cron_list (rounds ss fuel) (print_list ss text) entries
      ≡ parse_cron_list fuel text (entries ++ ss)
unfolding print_list rounds
parse_print fuel [] text entries h = ap (parse_cron_list fuel text) (sym (append-nil entries))
parse_print fuel (s ∷ ss) text entries (h, hs) =
    parse_line (rounds ss fuel) s.project s.job s.cron_expr (print_list ss text) entries h
    ∙ parse_print fuel ss text (entries ++ s ∷ []) hs
    ∙ ap (parse_cron_list fuel text) (append_assoc entries (s ∷ []) ss)

length-rest_of : (at_end : Option (List ℕ)) → length (rest_of at_end) ≤ left at_end
length-rest_of none = omega arith
length-rest_of (some rest) = omega arith

-- What stands behind a line is shorter than the text.
length-behind :
    (text behind_slash behind_space : List ℕ)
    → (split_at b'/' text).1 ≡ some behind_slash
    → (split_at 32 behind_slash).1 ≡ some behind_space
    → length (rest_of (split_at 10 behind_space).1) < length text
length-behind text behind_slash behind_space e1 e2 =
    let a = rw e1 at (left-split_at b'/' text) in
    let b = rw e2 at (left-split_at 32 behind_slash) in
    let c = left-split_at 10 behind_space in
    let d = length-rest_of (split_at 10 behind_space).1 in omega arith

parse_cron_list-ends :
    (fuel : ℕ) (text : List ℕ)
    → length text < fuel
    → (more : List Schedule) × ((entries : List Schedule)
        → parse_cron_list fuel text entries ≡ some (entries ++ more))
unfolding parse_cron_list
parse_cron_list-ends zero text h = absurd (omega arith)
parse_cron_list-ends (suc fuel) [] h = ([], λ entries. ap some (sym (append-nil entries)))
parse_cron_list-ends (suc fuel) (c ∷ cs) h =
    let project = (split_at b'/' (c ∷ cs)).0 in
    elim (Option-cases (split_at b'/' (c ∷ cs)).1) [
      | inl e1 ↦ ([], λ entries. rw (parse_cron_list, e1) (ap some (sym (append-nil entries))))
      | inr (behind_slash, e1) ↦
          let job = (split_at 32 behind_slash).0 in
          elim (Option-cases (split_at 32 behind_slash).1) [
            | inl e2 ↦
                ([], λ entries. rw (parse_cron_list, e1, e2) (ap some (sym (append-nil entries))))
            | inr (behind_space, e2) ↦
                let expr = (split_at 10 behind_space).0 in
                let behind = rest_of (split_at 10 behind_space).1 in
                elim (Bool-cases (is_empty project || (is_empty job || is_empty expr))) [
                  | inl e3 ↦ (
                    [],
                    λ entries.
                        rw (parse_cron_list, e1, e2, e3) (ap some (sym (append-nil entries))),
                  )
                  | inr e3 ↦
                      let short = length-behind (c ∷ cs) behind_slash behind_space e1 e2 in
                      let (more, run) = parse_cron_list-ends fuel behind (omega arith) in
                      let line = schedule project job expr in
                      (
                        line ∷ more,
                        λ entries.
                            rw (parse_cron_list, e1, e2, e3)
                              (run (entries ++ line ∷ [])
                                ∙ ap some (append_assoc entries (line ∷ []) more)),
                      )
                ]
          ]
    ]

-- A text of any kind is read to an end, with one round more than it has characters. With the lines of
-- schedules in front of it, whose parts are not empty and hold none of the characters that are searched
-- for behind them, these schedules are read in front of what the text gives.
pub parse_cron_list-print :
    (fuel : ℕ) (ss : List Schedule) (text : List ℕ)
    → All IsPrintable ss
    → length text < fuel
    → (more : List Schedule) × (parse_cron_list fuel text [] ≡ some more)
      × (parse_cron_list (length ss + fuel) (print_list ss text) [] ≡ some (ss ++ more))
parse_cron_list-print fuel ss text h short =
    let (more, run) = parse_cron_list-ends fuel text short in
    (more, run [], rw (← rounds-eq ss fuel) (parse_print fuel ss text [] h ∙ run ss))
