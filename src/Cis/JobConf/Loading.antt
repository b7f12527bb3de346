-- ===== src/Cis/JobConf/Loading.antt =====
-- Where the loop of `load_job_conf` in src/cis/cis_structs.cpp ends.
use cis1_webui_native_srv_cp.Prelude.{
  ℕ, zero, suc, ◌≤◌, ◌∙◌, ◌<◌, ◌≡◌, ◌⊎◌, refl, ap, Bool, true, false, ◌&&◌, List, [], Option, none,
  some, length, Bool-cases, inl, inr, arith,
}
use cis1_webui_native_srv_cp.Cis.Stream.{
  Stream, opened, not_opened, unreadable, good, is_empty, split_at, line_of, getline, trim_right,
  left, left-split_at,
}
use cis1_webui_native_srv_cp.Cis.JobConf.{Conf, assign, load_loop, cleared, checked, load_job_conf}

-- A stream that is at its end, or one that can be read, to its end, with less than so many characters.
abbrev Ready : ℕ → Stream → Type 0
Ready bound s = (s.eof ≡ true) ⊎ ((good s ≡ true) × (length s.rest < bound) × (s.broken ≡ false))

Ready-line_of :
    (bound : ℕ) (line : List ℕ × Option (List ℕ))
    → left line.1 ≤ bound
    → Ready bound (line_of false line).1
Ready-line_of bound (front, none) h = inl refl
Ready-line_of bound (front, some rest) h = inr (refl, h, refl)

Ready-getline :
    (bound delim : ℕ) (s : Stream)
    → good s ≡ true
    → length s.rest ≤ bound
    → s.broken ≡ false
    → Ready bound (getline delim s).1
unfolding getline
Ready-getline bound delim s fine h whole =
    rw (fine, whole)
      (Ready-line_of bound (split_at delim s.rest) (omega (arith, left-split_at delim s.rest)))

load_loop_step :
    (fuel : ℕ) (s : Stream) (conf : Conf)
    → s.eof ≡ false
    → (is_empty (getline b'=' s).0 && good (getline b'=' s).1) ≡ false
    → (getline b'=' s).1.eof ≡ false
    → load_loop (suc fuel) s conf
      ≡ load_loop fuel
          (getline 10 (getline b'=' s).1).1
          (assign (getline b'=' s).0 (trim_right (getline 10 (getline b'=' s).1).0) conf)
unfolding load_loop
load_loop_step fuel s conf e1 e2 e3 = ground arith

load_loop-ends :
    (fuel : ℕ) (s : Stream) (conf : Conf)
    → Ready fuel s
    → 0 < fuel
    → (conf' : Conf) × (load_loop fuel s conf ≡ some conf')
unfolding load_loop
load_loop-ends zero s conf h pos = absurd (omega arith)
load_loop-ends (suc fuel) s conf (inl e) pos = (conf, rw (load_loop, e) refl)
load_loop-ends (suc fuel) s conf (inr (fine, len, whole)) pos =
    let not_eof : s.eof ≡ false = ground arith in
    let line = getline b'=' s in
    let line2 = getline 10 line.1 in
    let conf2 = assign line.0 (trim_right line2.0) conf in
    elim (Bool-cases (is_empty line.0 && good line.1)) [
      | inl e ↦ ([], rw (load_loop, not_eof, e) refl)
      | inr e ↦ elim (Ready-getline fuel b'=' s fine (omega arith) whole) [
        | inl e1 ↦ (conf, rw (load_loop, not_eof, e, e1) refl)
        | inr (fine1, len1, whole1) ↦
            let not_eof1 : line.1.eof ≡ false = ground arith in
            let (conf', run) =
              load_loop-ends fuel line2.1 conf2
                (Ready-getline fuel 10 line.1 fine1 (omega arith) whole1) (omega arith) in
            (conf', load_loop_step fuel s conf not_eof e not_eof1 ∙ run)
      ]
    ]

pub load_job_conf-ends :
    (fuel : ℕ) (text : List ℕ)
    → length text < fuel
    → (conf : Conf) × (load_job_conf fuel (opened text) ≡ some conf)
unfolding load_job_conf
load_job_conf-ends fuel text h =
    let (conf, run) = load_loop-ends fuel (opened text) [] (inr (refl, h, refl)) (omega arith) in
    (cleared conf, rw run)

load_loop-hangs :
    (fuel : ℕ) (rest : List ℕ) (broken : Bool) (conf : Conf)
    → load_loop fuel (record { rest = rest; broken = broken; eof = false; fail = true }) conf ≡ none
unfolding load_loop getline
load_loop-hangs zero rest broken conf = refl
load_loop-hangs (suc fuel) rest broken conf = load_loop-hangs fuel rest broken (assign [] [] conf)

load_job_conf-hangs : (fuel : ℕ) → load_job_conf fuel not_opened ≡ none
unfolding load_job_conf
load_job_conf-hangs fuel = rw (load_loop-hangs fuel [] false [])

load_job_conf-stuck : (fuel : ℕ) → load_job_conf fuel unreadable ≡ none
unfolding load_job_conf load_loop getline split_at
load_job_conf-stuck zero = refl
load_job_conf-stuck (suc fuel) = ap checked (load_loop-hangs fuel [] true (assign [] [] []))

-- A job.conf that could be opened and is read without an error is read to an end, in one round more than
-- it has characters. Where it could not be opened, and where it could but the first read fails, as that
-- of a directory does, the loop runs on after any number of rounds.
pub load_job_conf-ends_opened :
    (fuel : ℕ) (text : List ℕ)
    → length text < fuel
    → ((conf : Conf) × (load_job_conf fuel (opened text) ≡ some conf))
      × (load_job_conf fuel not_opened ≡ none)
      × (load_job_conf fuel unreadable ≡ none)
load_job_conf-ends_opened fuel text h =
    (load_job_conf-ends fuel text h, load_job_conf-hangs fuel, load_job_conf-stuck fuel)
