-- ===== src/Jobs/Submit/Stored.antt =====
-- The table after a submission that has stored a job, with other processes at work.
use edge_guard.Base.{
  true, false, ◌≡◌, ◌≢◌, refl, ◌∙◌, ◌⊎◌, inl, inr, Bool-cases, none, some, Option-cases, List, [],
  ◌∷◌, ◌++◌, arith,
}
use edge_guard.Base.Time.{Time}
use edge_guard.Text.{Text, ◌≟◌}
use edge_guard.Text.Equal.{≟_refl}
use edge_guard.Jobs.Envelope.{Envelope}
use edge_guard.Jobs.Table.{
  Status, publishing, queued, publish_failed, processing, retrying, succeeded, failed, Job,
  Statement, get_job, create_job, new_publishing_job, mark_queued, mark_submission_failed, update,
}
use edge_guard.Jobs.Table.Rows.{updated, get_job-update_row, get_job-append}
use edge_guard.Jobs.Table.Lifecycle.{◌⟶*◌, update-KeepsId}
use edge_guard.Jobs.Table.Meanwhile.{others, created, others_same, others-⟶*}
use edge_guard.Jobs.Submit.{Ports, marked}

-- The row of a job that is to be marked with a status: it was still being published and now has that
-- status, or it is as others have left it, since it was not being published any more or the statement
-- failed.
abbrev pub IsMarked : Ports → Status → Job → Job → Type 0
IsMarked p target seen now =
    ((seen.status ≡ publishing) × (now.status ≡ target))
    ⊎ ((now ≡ seen) × ((seen.status ≢ publishing) ⊎ (p.mark_fault ≡ true)))

-- What a submission that stores a job makes of the table: the job is new, its row is marked after what
-- others have done to it since, and every other row is as others have left it.
pub record IsStored (p : Ports) (target : Status) (e : Envelope) (jobs jobs' : List Job)
    : Type 0 where
  pub fresh : get_job e.id jobs ≡ none
  pub seen : Job
  pub seen_among :
      get_job e.id (others p.meanwhile (jobs ++ new_publishing_job e p.created_at ∷ [])) ≡ some seen
  pub moved : publishing ⟶* seen.status
  pub now : Job
  pub now_among : get_job e.id jobs' ≡ some now
  pub is_marked : IsMarked p target seen now
  pub untouched :
      (k : Text) → (e.id ≟ k) ≡ false → get_job k jobs' ≡ get_job k (others p.meanwhile jobs)

-- A statement that changes a row that is being published, to a status, and no other.
pub record Marks (st : Statement) (target : Status) : Type 0 where
  changes :
      (j : Job)
      → j.status ≡ publishing
      → (j' : Job) × (update st j ≡ some j') × (j'.status ≡ target)
  skips : (j : Job) → j.status ≢ publishing → update st j ≡ none

publishing-cases : (s : Status) → (s ≡ publishing) ⊎ (s ≢ publishing)
publishing-cases publishing = inl refl
publishing-cases publish_failed = inr (λ e. ground arith)
publishing-cases queued = inr (λ e. ground arith)
publishing-cases processing = inr (λ e. ground arith)
publishing-cases retrying = inr (λ e. ground arith)
publishing-cases succeeded = inr (λ e. ground arith)
publishing-cases failed = inr (λ e. ground arith)

pub queued-Marks : (at : Time) → Marks (mark_queued at) queued
unfolding update
queued-Marks at = record {
  changes = λ j h. elim (Option-cases (update (mark_queued at) j)) [
    | inl out ↦ ground arith
    | inr (j', u) ↦ (j', u, ground arith)
  ];
  skips = λ j h. ground arith;
}

pub failed-Marks : (text : Text) (at : Time) → Marks (mark_submission_failed text at) publish_failed
unfolding update
failed-Marks text at = record {
  changes = λ j h. elim (Option-cases (update (mark_submission_failed text at) j)) [
    | inl out ↦ ground arith
    | inr (j', u) ↦ (j', u, ground arith)
  ];
  skips = λ j h. ground arith;
}

marked_row :
    (p : Ports) (st : Statement) (target : Status) (id : Text) (jobs : List Job) (seen : Job)
    → Marks st target
    → get_job id jobs ≡ some seen
    → (now : Job) × (get_job id (marked p st id jobs) ≡ some now) × IsMarked p target seen now
marked_row p st target id jobs seen law found = elim (Bool-cases p.mark_fault) [
  | inl fault ↦ (seen, rw fault found, inr (refl, inr fault))
  | inr sound ↦
      let row = get_job-update_row (update st) (update-KeepsId st) id id jobs in
      elim (publishing-cases seen.status) [
        | inl early ↦
            let (now, changed, status) = law.changes seen early in
            (now, rw (sound, row, ≟_refl id, found, updated, changed) refl, inl (early, status))
        | inr late ↦ (
          seen,
          rw (sound, row, ≟_refl id, found, updated, law.skips seen late) refl,
          inr (refl, inl late),
        )
      ]
]

other_row :
    (p : Ports) (st : Statement) (id k : Text) (jobs : List Job)
    → (id ≟ k) ≡ false
    → get_job k (marked p st id jobs) ≡ get_job k jobs
other_row p st id k jobs other = elim (Bool-cases p.mark_fault) [
  | inl fault ↦ rw fault refl
  | inr sound ↦ rw (sound, get_job-update_row (update st) (update-KeepsId st) id k jobs, other) refl
]

get_job-append_other :
    (k : Text) (jobs : List Job) (j : Job)
    → (j.id ≟ k) ≡ false
    → get_job k (jobs ++ j ∷ []) ≡ get_job k jobs
unfolding get_job
get_job-append_other k [] j h = rw h refl
get_job-append_other k (i ∷ jobs) j h = ground (arith, get_job-append_other k jobs j)

pub marked-IsStored :
    (p : Ports) (st : Statement) (target : Status) (e : Envelope) (jobs jobs' : List Job)
    → Marks st target
    → create_job (new_publishing_job e p.created_at) jobs ≡ some jobs'
    → IsStored p target e jobs (marked p st e.id (others p.meanwhile jobs'))
unfolding new_publishing_job
marked-IsStored p st target e jobs jobs' law stored =
    let job = new_publishing_job e p.created_at in
    let (_, fresh, appended) = created job jobs jobs' stored in
    let found : get_job e.id (jobs ++ job ∷ []) ≡ some job =
      rw (get_job-append e.id jobs job fresh, ≟_refl e.id) refl in
    let (seen, there, path) = others-⟶* e.id p.meanwhile (jobs ++ job ∷ []) job found in
    let (now, at_last, is_marked) =
      marked_row p st target e.id (others p.meanwhile (jobs ++ job ∷ [])) seen law there in
    rw appended (record {
      fresh = fresh;
      seen = seen;
      seen_among = there;
      moved = path;
      now = now;
      now_among = at_last;
      is_marked = is_marked;
      untouched = λ k other.
          other_row p st e.id k (others p.meanwhile (jobs ++ job ∷ [])) other
          ∙ others_same k p.meanwhile (jobs ++ job ∷ []) jobs
              (get_job-append_other k jobs job other);
    })
