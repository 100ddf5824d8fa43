-- ===== src/Jobs/Table/Rows.antt =====
-- Looking up a job after a statement.
use edge_guard.Base.{
  ◌≡◌, refl, Bool, true, false, Bool-cases, Option, none, some, Option-cases, inl, inr, List, [],
  ◌∷◌, ◌++◌, if◌then◌else◌, arith, All,
}
use edge_guard.Text.{Text, ◌≟◌}
use edge_guard.Text.Equal.{≟_iff}
use edge_guard.Jobs.Table.{Job, update_row, get_job}

-- What a statement leaves of a row.
abbrev pub updated : (Job → Option Job) → Option Job → Option Job
updated f none = none
updated f (some j) = elim (f j) [ none ↦ some j | some j' ↦ some j' ]

-- Whether it returns a row.
abbrev pub selected : (Job → Option Job) → Option Job → Bool
selected f none = false
selected f (some j) = elim (f j) [ none ↦ false | some j' ↦ true ]

pub record KeepsId (f : Job → Option Job) : Type 0 where
  pub same : (j j' : Job) → f j ≡ some j' → j'.id ≡ j.id

pub get_job-update_row :
    (f : Job → Option Job)
    → KeepsId f
    → (id k : Text) (jobs : List Job)
    → get_job k (update_row id f jobs).0
      ≡ (if id ≟ k then updated f (get_job k jobs) else get_job k jobs)
unfolding get_job update_row
get_job-update_row f keep id k [] = ground arith
get_job-update_row f keep id k (j ∷ js) = elim (Option-cases (f j)) [
  | inl out ↦
      ground (arith, ≟_iff j.id id, ≟_iff j.id k, ≟_iff id k, get_job-update_row f keep id k js)
  | inr (j', e) ↦ ground (
    arith,
    keep.same j j' e,
    ≟_iff j.id id,
    ≟_iff j.id k,
    ≟_iff id k,
    ≟_iff j'.id k,
    get_job-update_row f keep id k js,
  )
]

pub update_row-selected :
    (f : Job → Option Job) (id : Text) (jobs : List Job)
    → (update_row id f jobs).1 ≡ selected f (get_job id jobs)
unfolding get_job update_row
update_row-selected f id [] = refl
update_row-selected f id (j ∷ js) = ground (arith, update_row-selected f id js)

pub get_job-append :
    (k : Text) (jobs : List Job) (j : Job)
    → get_job k jobs ≡ none
    → get_job k (jobs ++ j ∷ []) ≡ (if j.id ≟ k then some j else none)
unfolding get_job
get_job-append k [] j h = refl
get_job-append k (i ∷ jobs) j h = ground (arith, get_job-append k jobs j)

pub get_job-append_old :
    (k : Text) (jobs : List Job) (j i : Job)
    → get_job k jobs ≡ some i
    → get_job k (jobs ++ j ∷ []) ≡ some i
unfolding get_job
get_job-append_old k [] j i h = cc
get_job-append_old k (r ∷ jobs) j i h = ground (arith, get_job-append_old k jobs j i)

module _ {κ} (P : Job → Type κ) where
  pub All-update_row :
      (f : Job → Option Job) (id : Text) (jobs : List Job)
      → ((j j' : Job) → f j ≡ some j' → P j → P j')
      → All P jobs
      → All P (update_row id f jobs).0
  unfolding update_row
  All-update_row f id [] keep h = tt
  All-update_row f id (j ∷ js) keep (p, h) = elim (Bool-cases (j.id ≟ id)) [
    | inr other ↦ rw other (p, All-update_row f id js keep h)
    | inl same ↦ elim (Option-cases (f j)) [
      | inl out ↦ rw (same, out) (p, h)
      | inr (j', e) ↦ rw (same, e) (keep j j' e p, h)
    ]
  ]
