-- ===== src/Cis/Structs/Recognition.antt =====
-- Which entries src/cis/cis_structs.cpp takes for jobs, and what becomes of them.
use mathlib.Core.Option.{some-injective}
use cis1_webui_native_srv_cp.Prelude.{
  ℕ, ◌<◌, ◌≡◌, refl, subst, Bool, true, false, ◌&&◌, not, List, [], ◌∷◌, Option, none, some, length,
  All, Bool-cases, Option-cases, inl, inr, arith,
}
use cis1_webui_native_srv_cp.Cis.Stream.{Stream, opened, is_empty}
use cis1_webui_native_srv_cp.Cis.JobConf.{
  Conf, successful_key, broken_key, value_of, stoul, is_some, is_complete, cleared, load_loop,
  load_job_conf,
}
use cis1_webui_native_srv_cp.Cis.JobConf.Loading.{load_job_conf-ends}
use cis1_webui_native_srv_cp.Cis.Structs.{
  Entries, Job, Item, fs_entry_ref, recognised, conf_name, made_job, job_is_entry, job, job_item,
  job_items, get_job_list,
}

is_some-inverse : {A : Type 0} (o : Option A) → is_some o ≡ true → (a : A) × (o ≡ some a)
is_some-inverse none h = cc
is_some-inverse (some a) h = (a, refl)

both : (a b : Bool) → (a && b) ≡ true → (a ≡ true) × (b ≡ true)
both true b h = (refl, h)
both false b h = cc

-- Both numbers of a map that is not empty can be read.
IsSound : Conf → Type 0
IsSound conf =
    is_empty conf ≡ false
    → (a : ℕ) × (b : ℕ) × (stoul (value_of successful_key conf) ≡ some a)
      × (stoul (value_of broken_key conf) ≡ some b)

cleared-IsSound : (conf : Conf) → IsSound (cleared conf)
unfolding IsSound is_complete
cleared-IsSound conf = elim (Bool-cases (is_complete conf)) [
  | inl e ↦
      let numbers = both _ _ (both _ _ e).1 in
      let (a, is_a) = is_some-inverse (stoul (value_of successful_key conf)) numbers.0 in
      let (b, is_b) = is_some-inverse (stoul (value_of broken_key conf)) numbers.1 in
      rw e (λ _. (a, b, is_a, is_b))
  | inr e ↦ rw e (λ h. cc h)
]

load_job_conf-IsSound :
    (fuel : ℕ) (s : Stream) {conf : Conf} → load_job_conf fuel s ≡ some conf → IsSound conf
unfolding load_job_conf
load_job_conf-IsSound fuel s {conf} h = elim (Option-cases (load_loop fuel s [])) [
  | inl e ↦ cc (rw e at h)
  | inr (conf', e) ↦ subst IsSound (some-injective _ _ (rw e at h)) (cleared-IsSound conf')
]

module _ {I : Type 0} (fs : Entries I) where
  -- What is taken for a job is constructed: the numbers of its job.conf do not throw.
  pub job_is_entry-constructs :
      (fuel : ℕ) (it : I)
      → job_is_entry fs fuel it ≡ some true
      → (j : Job I) × (job fs fuel it ≡ some j) × (j.entry ≡ it)
  unfolding job_is_entry job IsSound
  job_is_entry-constructs fuel it h = elim (Bool-cases (fs.is_directory it)) [
    | inr e ↦ cc (rw e at h)
    | inl e ↦ elim (Option-cases (fs.find conf_name it)) [
      | inl missing ↦ cc (rw (e, missing) at h)
      | inr (conf_entry, found) ↦ elim (Option-cases (load_job_conf fuel (fs.stream conf_entry))) [
        | inl endless ↦ cc (rw (e, found, endless) at h)
        | inr (conf, loaded) ↦
            let kept : is_empty conf ≡ false = ground (arith, h, loaded, found, e) in
            let (a, b, is_a, is_b) =
              load_job_conf-IsSound fuel (fs.stream conf_entry) loaded kept in
            (made_job fs it conf a b, rw (job, found, loaded, is_a, is_b) refl, refl)
      ]
    ]
  ]

  -- The job.conf of an entry, where it has one, could be opened and is read without an error, and is
  -- shorter than the fuel.
  abbrev pub IsReadable : ℕ → I → Type 0
  IsReadable fuel it =
      (conf_entry : I)
      → fs.find conf_name it ≡ some conf_entry
      → (text : List ℕ) × (fs.stream conf_entry ≡ opened text) × (length text < fuel)

  -- What an item of the list of a project says of its entry.
  abbrev pub Fits : ℕ → I → Item I (Job I) → Type 0
  Fits fuel it (fs_entry_ref i) = (i ≡ it) × (job_is_entry fs fuel it ≡ some false)
  Fits fuel it (recognised j) =
      (j.entry ≡ it) × (job_is_entry fs fuel it ≡ some true) × (job fs fuel it ≡ some j)

  abbrev pub AllFit : ℕ → List I → List (Item I (Job I)) → Type 0
  AllFit fuel [] [] = Unit
  AllFit fuel (it ∷ its) (item ∷ items) = Fits fuel it item × AllFit fuel its items
  AllFit fuel _ _ = ⊥

  job_is_entry-answers :
      (fuel : ℕ) (it : I) → IsReadable fuel it → (b : Bool) × (job_is_entry fs fuel it ≡ some b)
  unfolding job_is_entry
  job_is_entry-answers fuel it readable = elim (Bool-cases (fs.is_directory it)) [
    | inr e ↦ (false, rw e refl)
    | inl e ↦ elim (Option-cases (fs.find conf_name it)) [
      | inl missing ↦ (false, rw (e, missing) refl)
      | inr (conf_entry, found) ↦
          let (text, is_opened, short) = readable conf_entry found in
          let (conf, loaded) = load_job_conf-ends fuel text short in
          (not (is_empty conf), rw (e, found, is_opened, loaded) refl)
    ]
  ]

  job_item-Fits :
      (fuel : ℕ) (it : I)
      → IsReadable fuel it
      → (item : Item I (Job I)) × (job_item fs fuel it ≡ some item) × Fits fuel it item
  job_item-Fits fuel it readable =
      let (b, answer) = job_is_entry-answers fuel it readable in
      elim (Bool-cases b) [
        | inl e ↦
            let is_job = rw e at answer in
            let (j, made, same) = job_is_entry-constructs fuel it is_job in
            (recognised j, rw (is_job, made) refl, (same, is_job, made))
        | inr e ↦ let no_job = rw e at answer in (fs_entry_ref it, rw no_job refl, (refl, no_job))
      ]

  job_items-AllFit :
      (fuel : ℕ) (its : List I)
      → All (IsReadable fuel) its
      → (items : List (Item I (Job I))) × (job_items fs fuel its ≡ some items)
        × AllFit fuel its items
  unfolding job_items
  job_items-AllFit fuel [] h = ([], refl, tt)
  job_items-AllFit fuel (it ∷ its) (h, hs) =
      let (item, made, fits) = job_item-Fits fuel it h in
      let (items, all_made, all_fit) = job_items-AllFit fuel its hs in
      (item ∷ items, rw (job_items, made, all_made) refl, (fits, all_fit))

  -- Where the job.conf of every child that has one could be opened and is read without an error, the
  -- list of a project's entries is made, without an exception, and holds each child in its order: as a job, which is the one that its
  -- constructor makes, where it is recognised as one, and as a plain entry where it is not.
  pub get_job_list-AllFit :
      (fuel : ℕ) (it : I)
      → All (IsReadable fuel) (fs.childs it)
      → (items : List (Item I (Job I))) × (get_job_list fs fuel it ≡ some items)
        × AllFit fuel (fs.childs it) items
  unfolding get_job_list
  get_job_list-AllFit fuel it h = job_items-AllFit fuel (fs.childs it) h
