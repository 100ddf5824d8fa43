-- ===== src/Jobs/Table/Meanwhile.antt =====
-- What other processes, submissions and workers, do to the table between two statements of one.
use edge_guard.Base.{
  ◌≡◌, refl, ap, ◌⊎◌, ◌∙◌, sym, true, false, Bool-cases, Option, none, some, Option-cases, inl, inr,
  List, [], ◌∷◌, ◌++◌, ◌&&◌, if◌then◌else◌, arith,
}
use edge_guard.Text.{Text, ◌≟◌}
use edge_guard.Text.Equal.{≟_iff}
use edge_guard.Jobs.Table.{Job, Statement, attempt_check, create_job, update, update_row, get_job}
use edge_guard.Jobs.Table.Rows.{get_job-update_row, get_job-append, get_job-append_old}
use edge_guard.Jobs.Table.Lifecycle.{◌⟶*◌, here, next, update-KeepsId, one_statement}

-- An INSERT of a row, and a statement on the row with an id.
pub data Event : Type 0 where
  insertion : Job → Event
  statement : Text → Statement → Event

abbrev pub result_or : List Job → Option (List Job) → List Job
result_or jobs none = jobs
result_or jobs (some jobs') = jobs'

abbrev pub inserted : Job → List Job → List Job
inserted j jobs = result_or jobs (create_job j jobs)

unfoldable pub others : List Event → List Job → List Job
others [] jobs = jobs
others (insertion j ∷ evs) jobs = others evs (inserted j jobs)
others (statement id st ∷ evs) jobs = others evs (update_row id (update st) jobs).0

-- An INSERT seen from one id.
abbrev inserted_row : Text → Job → Option Job → Option Job
inserted_row k j (some i) = some i
inserted_row k j none = if j.id ≟ k && attempt_check j then some j else none

pub created :
    (j : Job) (jobs jobs' : List Job)
    → create_job j jobs ≡ some jobs'
    → (attempt_check j ≡ true) × (get_job j.id jobs ≡ none) × (jobs' ≡ jobs ++ j ∷ [])
unfolding create_job
created j jobs jobs' h = elim (Option-cases (get_job j.id jobs)) [
  | inr (i, e) ↦ ground arith
  | inl e ↦ (ground arith, e, ground arith)
]

not_created :
    (j : Job) (jobs : List Job)
    → create_job j jobs ≡ none
    → (attempt_check j ≡ false) ⊎ ((i : Job) × (get_job j.id jobs ≡ some i))
unfolding create_job
not_created j jobs h = elim (Option-cases (get_job j.id jobs)) [
  | inr there ↦ inr there
  | inl e ↦ inl (ground arith)
]

other_id :
    (k : Text) (j i : Job) (jobs : List Job)
    → get_job j.id jobs ≡ some i
    → get_job k jobs ≡ none
    → (j.id ≟ k) ≡ false
other_id k j i jobs there none_here = elim (Bool-cases (j.id ≟ k)) [
  | inr other ↦ other
  | inl same ↦
      let e : get_job j.id jobs ≡ get_job k jobs =
        ap (λ k. get_job k jobs) ((≟_iff j.id k).0 same) in
      ground (arith, e, there, none_here)
]

get_job-inserted :
    (k : Text) (j : Job) (jobs : List Job)
    → get_job k (inserted j jobs) ≡ inserted_row k j (get_job k jobs)
get_job-inserted k j jobs = elim (Option-cases (create_job j jobs)) [
  | inl out ↦
      let same : inserted j jobs ≡ jobs = ap (result_or jobs) out in
      ap (get_job k) same ∙ elim (Option-cases (get_job k jobs)) [
        | inr (i, there) ↦ rw there refl
        | inl none_here ↦ elim (not_created j jobs out) [
          | inl bad ↦ rw (none_here, bad) (ground arith)
          | inr (i, there) ↦ rw (none_here, other_id k j i jobs there none_here) refl
        ]
      ]
  | inr (jobs', stored) ↦
      let (good, fresh, appended) = created j jobs jobs' stored in
      let same : inserted j jobs ≡ jobs ++ j ∷ [] = ap (result_or jobs) stored ∙ appended in
      ap (get_job k) same ∙ elim (Option-cases (get_job k jobs)) [
        | inl none_here ↦ get_job-append k jobs j none_here ∙ rw (none_here, good) (ground arith)
        | inr (i, there) ↦ get_job-append_old k jobs j i there ∙ rw there refl
      ]
]

-- The row of an id after what others do depends on that row only.
pub others_same :
    (k : Text) (evs : List Event) (jobs jobs' : List Job)
    → get_job k jobs ≡ get_job k jobs'
    → get_job k (others evs jobs) ≡ get_job k (others evs jobs')
unfolding others
others_same k [] jobs jobs' h = h
others_same k (insertion j ∷ evs) jobs jobs' h =
    others_same k evs (inserted j jobs) (inserted j jobs')
      (get_job-inserted k j jobs ∙ rw h (sym (get_job-inserted k j jobs')))
others_same k (statement id st ∷ evs) jobs jobs' h =
    let f = update st in
    let keep = update-KeepsId st in
    others_same k evs (update_row id f jobs).0 (update_row id f jobs').0
      (get_job-update_row f keep id k jobs ∙ rw h (sym (get_job-update_row f keep id k jobs')))

-- A row stays in the table, and its status moves along the arrows.
pub others-⟶* :
    (k : Text) (evs : List Event) (jobs : List Job) (j : Job)
    → get_job k jobs ≡ some j
    → (j' : Job) × (get_job k (others evs jobs) ≡ some j') × (j.status ⟶* j'.status)
unfolding others
others-⟶* k [] jobs j h = (j, h, here)
others-⟶* k (insertion i ∷ evs) jobs j h =
    others-⟶* k evs (inserted i jobs) j (get_job-inserted k i jobs ∙ rw h refl)
others-⟶* k (statement id st ∷ evs) jobs j h =
    let (i, found, moved) = one_statement id k st jobs j h in
    let (j', last, path) = others-⟶* k evs (update_row id (update st) jobs).0 i found in
    elim moved [ inl same ↦ (j', last, rw same at path) | inr step ↦ (j', last, next step path) ]
