-- ===== src/Jobs/Table/Lifecycle.antt =====
-- The life of a job: what any sequence of statements, of the API server and of the workers in any
-- order, can do to a row.
use edge_guard.Base.{
  ◌≡◌, refl, ◌∙◌, ◌≢◌, pos, ◌≤ℤ◌, ◌⊎◌, inl, inr, Bool, true, false, Bool-cases, none, some,
  Option-cases, List, [], ◌∷◌, arith, All, if◌then◌else◌,
}
use edge_guard.Text.{Text, ◌≟◌}
use edge_guard.Jobs.Table.{
  Status, publishing, publish_failed, queued, processing, retrying, succeeded, failed, final, Job,
  Statement, mark_queued, mark_submission_failed, prepare_attempt, mark_retrying, mark_succeeded,
  mark_failed, update, update_row, get_job,
}
use edge_guard.Jobs.Table.Rows.{updated, KeepsId, get_job-update_row, All-update_row}

-- The status diagram.
infix 40 ◌⟶◌ ◌⟶*◌
pub data ◌⟶◌ : Status → Status → Type 0 where
  publish : publishing ⟶ queued
  give_up : publishing ⟶ publish_failed
  start : {s : Status} → final s ≡ false → s ⟶ processing
  retry : {s : Status} → final s ≡ false → s ⟶ retrying
  succeed : {s : Status} → final s ≡ false → s ⟶ succeeded
  fail : {s : Status} → s ≢ succeeded → s ⟶ failed

pub data ◌⟶*◌ : Status → Status → Type 0 where
  here : {s : Status} → s ⟶* s
  next : {s t u : Status} → s ⟶ t → t ⟶* u → s ⟶* u

update-⟶ : (st : Statement) (j j' : Job) → update st j ≡ some j' → j.status ⟶ j'.status
unfolding update
update-⟶ st j j' h = grind (arith, publish, give_up, start, retry, succeed, fail)

pub update-KeepsId : (st : Statement) → KeepsId (update st)
unfolding update
update-KeepsId st = record { same = λ j j' h. ground arith }

-- A row as the table's check and the program's own rule want it: the attempt within its bounds, and
-- a completion time once the job is done.
pub record IsValid (j : Job) : Type 0 where
  pub attempt_low : pos 0 ≤ℤ j.current_attempt
  pub max_low : pos 1 ≤ℤ j.max_attempts
  pub attempt_high : j.current_attempt ≤ℤ j.max_attempts
  pub completed : final j.status ≡ true → j.completed_at ≢ none

-- The attempt that a statement names, if it does, is one.
abbrev pub NamesAttempt : Statement → Type 0
NamesAttempt (prepare_attempt attempt _) = pos 1 ≤ℤ attempt
NamesAttempt (mark_retrying attempt _ _) = pos 1 ≤ℤ attempt
NamesAttempt (mark_succeeded attempt _ _) = pos 1 ≤ℤ attempt
NamesAttempt (mark_failed attempt _ _) = pos 1 ≤ℤ attempt
NamesAttempt _ = Unit

pub update-IsValid :
    (st : Statement) (j j' : Job) → NamesAttempt st → update st j ≡ some j' → IsValid j → IsValid j'
unfolding update
update-IsValid (mark_queued at) j j' n h v = ground arith
update-IsValid (mark_submission_failed f at) j j' n h v = ground arith
update-IsValid (prepare_attempt a at) j j' n h v = ground arith
update-IsValid (mark_retrying a f at) j j' n h v = ground arith
update-IsValid (mark_succeeded a r at) j j' n h v = ground arith
update-IsValid (mark_failed a f at) j j' n h v = ground arith

-- Statements on the table, each with the id that it names.
unfoldable pub run : List (Text × Statement) → List Job → List Job
run [] jobs = jobs
run ((id, st) ∷ ops) jobs = run ops (update_row id (update st) jobs).0

-- Statements that name attempts from 1 on, if they name one, keep every row valid.
pub run-IsValid :
    (ops : List (Text × Statement)) (jobs : List Job)
    → All (λ op. NamesAttempt op.1) ops
    → All IsValid jobs
    → All IsValid (run ops jobs)
unfolding run
run-IsValid [] jobs n h = h
run-IsValid ((id, st) ∷ ops) jobs (a, n) h =
    run-IsValid ops (update_row id (update st) jobs).0 n
      (All-update_row IsValid (update st) id jobs (λ j j' e v. update-IsValid st j j' a e v) h)

-- One statement leaves a job of the table where it is, or moves it along one arrow of the diagram.
pub one_statement :
    (id k : Text) (st : Statement) (jobs : List Job) (j : Job)
    → get_job k jobs ≡ some j
    → (j' : Job) × (get_job k (update_row id (update st) jobs).0 ≡ some j')
      × ((j' ≡ j) ⊎ (j.status ⟶ j'.status))
one_statement id k st jobs j h = elim (Bool-cases (id ≟ k)) [
  | inr other ↦
      (j, rw (get_job-update_row (update st) (update-KeepsId st) id k jobs, other) h, inl refl)
  | inl same ↦ elim (Option-cases (update st j)) [
    | inl out ↦ (
      j,
      rw (get_job-update_row (update st) (update-KeepsId st) id k jobs, same, h, updated, out),
      inl refl,
    )
    | inr (j', e) ↦ (
      j',
      rw (get_job-update_row (update st) (update-KeepsId st) id k jobs, same, h, updated, e),
      inr (update-⟶ st j j' e),
    )
  ]
]

-- Whatever statements are run, in whatever order and on whatever ids, a job stays in the table, and
-- its status moves along the arrows of the diagram.
pub run-⟶* :
    (k : Text) (ops : List (Text × Statement)) (jobs : List Job) (j : Job)
    → get_job k jobs ≡ some j
    → (j' : Job) × (get_job k (run ops jobs) ≡ some j') × (j.status ⟶* j'.status)
unfolding run
run-⟶* k [] jobs j h = (j, h, here)
run-⟶* k ((id, st) ∷ ops) jobs j h =
    let (i, found, moved) = one_statement id k st jobs j h in
    let (j', last, path) = run-⟶* k ops (update_row id (update st) jobs).0 i found in
    elim moved [ inl same ↦ (j', last, rw same at path) | inr step ↦ (j', last, next step path) ]

update_of_succeeded : (st : Statement) (j : Job) → j.status ≡ succeeded → update st j ≡ none
unfolding update
update_of_succeeded st j h = ground arith

-- A job that has succeeded is never changed again, whatever statements are run.
pub run_of_succeeded :
    (k : Text) (ops : List (Text × Statement)) (jobs : List Job) (j : Job)
    → get_job k jobs ≡ some j
    → j.status ≡ succeeded
    → get_job k (run ops jobs) ≡ some j
unfolding run
run_of_succeeded k [] jobs j h s = h
run_of_succeeded k ((id, st) ∷ ops) jobs j h s =
    run_of_succeeded k ops (update_row id (update st) jobs).0 j
      (rw (get_job-update_row (update st) (update-KeepsId st) id k jobs, h)
        (kept (update_of_succeeded st j s)))
      s
  where
    kept : update st j ≡ none → (if id ≟ k then updated (update st) (some j) else some j) ≡ some j
    kept out = ground arith

⟶-final : {s t : Status} → s ⟶ t → final s ≡ true → t ≡ s
⟶-final publish h = cc
⟶-final give_up h = cc
⟶-final (start live) h = cc
⟶-final (retry live) h = cc
⟶-final (succeed live) h = cc
⟶-final {s} (fail n) h = ground arith

⟶*-final : {s t : Status} → s ⟶* t → final s ≡ true → t ≡ s
⟶*-final here h = refl
⟶*-final (next e p) h = let stays = ⟶-final e h in ⟶*-final p (rw stays h) ∙ stays

-- A job that has succeeded or failed keeps that status, whatever statements are run.
run_of_final :
    (k : Text) (ops : List (Text × Statement)) (jobs : List Job) (j : Job)
    → get_job k jobs ≡ some j
    → final j.status ≡ true
    → (j' : Job) × (get_job k (run ops jobs) ≡ some j') × (j'.status ≡ j.status)
run_of_final k ops jobs j h f =
    let (j', found, path) = run-⟶* k ops jobs j h in (j', found, ⟶*-final path f)

abbrev is_early : Status → Bool
is_early publishing = true
is_early queued = true
is_early _ = false

⟶-late : {s t : Status} → s ⟶ t → is_early s ≡ false → is_early t ≡ false
⟶-late publish h = h
⟶-late give_up h = cc
⟶-late (start live) h = refl
⟶-late (retry live) h = refl
⟶-late (succeed live) h = refl
⟶-late (fail n) h = refl

pub ⟶*-late : {s t : Status} → s ⟶* t → is_early s ≡ false → is_early t ≡ false
⟶*-late here h = h
⟶*-late (next e p) h = ⟶*-late p (⟶-late e h)
