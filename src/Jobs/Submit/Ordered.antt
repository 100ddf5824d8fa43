-- ===== src/Jobs/Submit/Ordered.antt =====
-- The order of a submission: the table before the broker.
use edge_guard.Base.{
  ℤ, true, ◌≡◌, refl, ap, sym, ◌⊎◌, inl, inr, Bool-cases, Option, none, some, Option-cases, List,
  [], ◌∷◌, arith, ok, err, Result-cases,
}
use edge_guard.Text.{Text}
use edge_guard.Jobs.Envelope.{Envelope, JobType}
use edge_guard.Jobs.Table.{
  queued, publish_failed, Job, create_job, new_publishing_job, mark_queued, mark_submission_failed,
}
use edge_guard.Jobs.Submit.{
  Ports, Failure, not_stored, refused, publish_job, Receipt, envelope_for, submit,
}
use edge_guard.Jobs.Submit.Stored.{IsStored, queued-Marks, failed-Marks, marked-IsStored}

-- A submission that stores no job, or one that does.
stored_cases :
    (p : Ports) (t : JobType) (payload : Option Text) (n : ℤ) (jobs : List Job)
    → ((f : Failure) × (submit p t payload n jobs ≡ refused p jobs f))
      ⊎ ((e : Envelope) × (jobs' : List Job) × (create_job (new_publishing_job e p.created_at) jobs
            ≡ some jobs')
          × (submit p t payload n jobs ≡ publish_job p e jobs'))
unfolding submit
stored_cases p t payload n jobs = elim (Result-cases (envelope_for p t payload n)) [
  | inr (f, out) ↦ inl (f, rw (submit, out) refl)
  | inl (e, made) ↦ elim (Bool-cases p.create_fault) [
    | inl fault ↦ inl (not_stored, rw (submit, made, fault) refl)
    | inr sound ↦ elim (Option-cases (create_job (new_publishing_job e p.created_at) jobs)) [
      | inl out ↦ inl (not_stored, rw (submit, made, sound, out) refl)
      | inr (jobs', stored) ↦ inr (e, jobs', stored, rw (submit, made, sound, stored) refl)
    ]
  ]
]

-- A receipt is given only for a job that the broker has confirmed and that was stored as a new one: its
-- row is queued now if it was still being published when it was to be marked, and otherwise, or if the
-- statement failed, it is as other processes have left it, on its way from being published; all other
-- rows are as other processes have left them.
pub submit-Recorded :
    (p : Ports) (t : JobType) (payload : Option Text) (n : ℤ) (jobs : List Job) (r : Receipt)
    → (submit p t payload n jobs).receipt ≡ ok r
    → (e : Envelope) × (e.id ≡ r.id)
      × (p.publish e ≡ none)
      × ((submit p t payload n jobs).published ≡ e ∷ [])
      × IsStored p queued e jobs (submit p t payload n jobs).jobs
unfolding publish_job
submit-Recorded p t payload n jobs r h = elim (stored_cases p t payload n jobs) [
  | inl (f, same) ↦ ground arith
  | inr (e, jobs', stored, same) ↦ elim (Option-cases (p.publish e)) [
    | inr (text, down) ↦ ground arith
    | inl up ↦
        let given : r.id ≡ e.id = ground arith in
        (
          e,
          sym given,
          up,
          rw (same, publish_job, up) refl,
          rw (same, publish_job, up)
              (marked-IsStored p (mark_queued p.marked_at) queued e jobs jobs'
                (queued-Marks p.marked_at) stored),
        )
  ]
]

-- An error is returned only if the table is as it was and nothing was given to the broker, or if the
-- publisher has failed for a job that was stored as a new one: its row says that publishing failed if it
-- was still being published when it was to be marked, and otherwise, or if the statement failed, it is
-- as other processes have left it, which may have got the message; all other rows are as other
-- processes have left them. The broker has the message only if its confirmation was lost.
pub submit-Refused :
    (p : Ports) (t : JobType) (payload : Option Text) (n : ℤ) (jobs : List Job) (f : Failure)
    → (submit p t payload n jobs).receipt ≡ err f
    → (((submit p t payload n jobs).published ≡ []) × ((submit p t payload n jobs).jobs ≡ jobs))
      ⊎ ((e : Envelope) × (text : Text) × (p.publish e ≡ some text)
          × (((submit p t payload n jobs).published ≡ [])
              ⊎ (((submit p t payload n jobs).published ≡ e ∷ []) × (p.unconfirmed ≡ true)))
          × IsStored p publish_failed e jobs (submit p t payload n jobs).jobs)
unfolding publish_job
submit-Refused p t payload n jobs f h = elim (stored_cases p t payload n jobs) [
  | inl (g, same) ↦ inl (ap (λ s. s.published) same, ap (λ s. s.jobs) same)
  | inr (e, jobs', stored, same) ↦ elim (Option-cases (p.publish e)) [
    | inl up ↦ ground arith
    | inr (text, down) ↦ inr (
      e,
      text,
      down,
      elim (Bool-cases p.unconfirmed) [
        | inl lost ↦ inr (rw (same, publish_job, down, lost) refl, lost)
        | inr none_there ↦ inl (rw (same, publish_job, down, none_there) refl)
      ],
      rw (same, publish_job, down)
          (marked-IsStored p (mark_submission_failed text p.marked_at) publish_failed e jobs jobs'
            (failed-Marks text p.marked_at) stored),
    )
  ]
]
