-- ===== src/Jobs/Worker/Settled.antt =====
-- What the broker is told agrees with the job's row.
use edge_guard.Base.{
  ℤ, int_le, ◌||◌, ◌≡◌, refl, ap, ◌∙◌, sym, true, false, Bool-cases, some, Option-cases, inl, inr,
  List, arith, ok, Result-cases,
}
use edge_guard.Base.Time.{Time}
use edge_guard.Text.{Text}
use edge_guard.Text.Equal.{≟_refl}
use edge_guard.Jobs.Envelope.{Envelope, validate}
use edge_guard.Jobs.Table.{
  Status, succeeded, failed, retrying, final, Job, Statement, mark_succeeded, mark_failed,
  mark_retrying, ExecutionResult, update, update_row, get_job, prepare,
}
use edge_guard.Jobs.Table.Rows.{updated, selected, get_job-update_row, update_row-selected}
use edge_guard.Jobs.Table.Lifecycle.{run, update-KeepsId}
use edge_guard.Jobs.Worker.{
  Ports, Delivery, delivery_attempt, is_permanent, Settlement, acked, rejected, Moment, Handled,
  is_succeeded, is_failed, mark, carry_out, attempt_job, handle_delivery, process, describe,
}

-- The status of the row that goes with a settlement.
abbrev pub status_of : Settlement → Status
status_of acked = succeeded
status_of (rejected false) = failed
status_of (rejected true) = retrying

-- The row of the job, if the delivery was settled, has the status of the settlement.
abbrev pub Agrees : Text → Handled → Type 0
Agrees id h =
    (s : Settlement)
    → h.outcome ≡ ok s
    → (j : Job) × (get_job id h.jobs ≡ some j) × (j.status ≡ status_of s)

-- the status that a statement of the consumer gives to a row
abbrev pub Marks : Statement → Settlement → Type 0
Marks st s = (j j' : Job) → update st j ≡ some j' → j'.status ≡ status_of s

found_row :
    (id : Text) (st : Statement) (jobs : List Job)
    → (update_row id (update st) jobs).1 ≡ true
    → (j : Job) × (j' : Job) × (update st j ≡ some j')
      × (get_job id (update_row id (update st) jobs).0 ≡ some j')
found_row id st jobs h =
    let hit : selected (update st) (get_job id jobs) ≡ true =
      sym (update_row-selected (update st) id jobs) ∙ h in
    elim (Option-cases (get_job id jobs)) [
      | inl out ↦ ground arith
      | inr (j, e) ↦ elim (Option-cases (update st j)) [
        | inl out ↦ ground arith
        | inr (j', u) ↦ (
          j,
          j',
          u,
          rw (
            get_job-update_row (update st) (update-KeepsId st) id id jobs,
            ≟_refl id,
            e,
            updated,
            u,
          ),
        )
      ]
    ]

mark-Agrees :
    (m : Moment) (id : Text) (st : Statement) (s : Settlement) (jobs : List Job)
    → Marks st s
    → Agrees id (mark m id st s jobs)
unfolding mark
mark-Agrees m id st s jobs h t e = elim (Option-cases m.mark_fault) [
  | inr (text, f) ↦ ground arith
  | inl f ↦ elim (Bool-cases (update_row id (update st) jobs).1) [
    | inr miss ↦ ground arith
    | inl hit ↦
        let (j, j', u, found) = found_row id st jobs hit in
        let same : s ≡ t = ground arith in (j', rw (mark, f) found, h j j' u ∙ ap status_of same)
  ]
]

succeeds :
    (attempt : ℤ) (result : ExecutionResult) (at : Time)
    → Marks (mark_succeeded attempt result at) acked
unfolding update
succeeds attempt result at j j' h = ground arith

fails :
    (attempt : ℤ) (failure : Text) (at : Time)
    → Marks (mark_failed attempt failure at) (rejected false)
unfolding update
fails attempt failure at j j' h = ground arith

retries :
    (attempt : ℤ) (failure : Text) (at : Time)
    → Marks (mark_retrying attempt failure at) (rejected true)
unfolding update
retries attempt failure at j j' h = ground arith

carry_out-Agrees :
    (p : Ports) (m : Moment) (e : Envelope) (attempt : ℤ) (jobs : List Job)
    → Agrees e.id (carry_out p m e attempt jobs)
unfolding carry_out
carry_out-Agrees p m e attempt jobs = elim (Result-cases (process p e)) [
  | inl (result, done) ↦
      rw (carry_out, done)
        (mark-Agrees m e.id (mark_succeeded attempt result m.marked_at) acked jobs
          (succeeds attempt result m.marked_at))
  | inr (failure, out) ↦ elim (Bool-cases (is_permanent failure || int_le e.max_attempts attempt)) [
    | inl last ↦
        rw (carry_out, out, last)
          (mark-Agrees m e.id (mark_failed attempt (describe failure) m.marked_at) (rejected false)
            jobs (fails attempt (describe failure) m.marked_at))
    | inr again ↦
        rw (carry_out, out, again)
          (mark-Agrees m e.id (mark_retrying attempt (describe failure) m.marked_at) (rejected true)
            jobs (retries attempt (describe failure) m.marked_at))
  ]
]

-- the row that PrepareAttempt answers for, if it is final
prepared_final :
    (e : Envelope) (attempt : ℤ) (at : Time) (jobs : List Job) (s : Status)
    → (prepare e attempt at jobs).1 ≡ s
    → final s ≡ true
    → (j : Job) × (get_job e.id (prepare e attempt at jobs).0 ≡ some j) × (j.status ≡ s)
unfolding prepare
prepared_final e attempt at jobs s h f = elim (Option-cases (get_job e.id jobs)) [
  | inl out ↦ ground arith
  | inr (j, found) ↦ elim (Bool-cases (final j.status)) [
    | inl done ↦ (j, rw (prepare, found, done) found, ground arith)
    | inr live ↦ ground arith
  ]
]

is_succeeded_sound : (s : Status) → is_succeeded s ≡ true → s ≡ succeeded
is_succeeded_sound s h = ground arith

is_failed_sound : (s : Status) → is_failed s ≡ true → s ≡ failed
is_failed_sound s h = ground arith

attempt_job-Agrees :
    (p : Ports) (m : Moment) (e : Envelope) (attempt : ℤ) (jobs : List Job)
    → Agrees e.id (attempt_job p m e attempt jobs)
unfolding attempt_job
attempt_job-Agrees p m e attempt jobs t h = elim (Option-cases m.prepare_fault) [
  | inr (text, f) ↦ ground arith
  | inl f ↦ elim (Bool-cases (is_succeeded prepared.1)) [
    | inl done ↦
        let same : acked ≡ t = ground arith in
        let answer =
          prepared_final e attempt m.prepared_at jobs succeeded (is_succeeded_sound prepared.1 done)
            refl in
        rw (attempt_job, f, done, sym same) answer
    | inr going ↦ elim (Bool-cases (is_failed prepared.1)) [
      | inl done ↦
          let same : rejected false ≡ t = ground arith in
          let answer =
            prepared_final e attempt m.prepared_at jobs failed (is_failed_sound prepared.1 done)
              refl in
          rw (attempt_job, f, going, done, sym same) answer
      | inr live ↦
          let told : (carry_out p m e attempt (run m.meanwhile prepared.0)).outcome ≡ ok t =
            rw (attempt_job, f, going, live) at h in
          rw (attempt_job, f, going, live)
            (carry_out-Agrees p m e attempt (run m.meanwhile prepared.0) t told)
    ]
  ]
]
  where
    prepared : List Job × Status
    prepared = prepare e attempt m.prepared_at jobs

-- A delivery of a valid message that the broker is told about leaves the job's row with the status
-- that goes with what it is told, whatever the faults and whatever others did to the table meanwhile:
-- an acknowledged job has succeeded, a rejected one has failed, a requeued one is to be retried.
pub handle_delivery-Agrees :
    (p : Ports) (m : Moment) (d : Delivery) (jobs : List Job) (e : Envelope)
    → p.unmarshal_envelope d.body ≡ some e
    → validate p.json_valid e ≡ ok tt
    → (s : Settlement) → (handle_delivery p m d jobs).outcome ≡ ok s
    → (j : Job) × (get_job e.id (handle_delivery p m d jobs).jobs ≡ some j)
      × (j.status ≡ status_of s)
unfolding handle_delivery
handle_delivery-Agrees p m d jobs e read good =
    rw (handle_delivery, read, good) (attempt_job-Agrees p m e (delivery_attempt d.headers) jobs)

attempt_of_final :
    (p : Ports) (m : Moment) (e : Envelope) (attempt : ℤ) (jobs : List Job) (j : Job)
    → get_job e.id jobs ≡ some j
    → final j.status ≡ true
    → ((attempt_job p m e attempt jobs).ran ≡ false)
      × ((attempt_job p m e attempt jobs).jobs ≡ jobs)
unfolding attempt_job prepare
attempt_of_final p m e attempt jobs j found done = ground arith

-- A job that has succeeded or failed is not carried out again, and its delivery changes no row.
pub handle_delivery_of_final :
    (p : Ports) (m : Moment) (d : Delivery) (jobs : List Job) (e : Envelope) (j : Job)
    → p.unmarshal_envelope d.body ≡ some e
    → get_job e.id jobs ≡ some j
    → final j.status ≡ true
    → ((handle_delivery p m d jobs).ran ≡ false) × ((handle_delivery p m d jobs).jobs ≡ jobs)
unfolding handle_delivery
handle_delivery_of_final p m d jobs e j read found done =
    elim (Result-cases (validate p.json_valid e)) [
      | inl (_, good) ↦
          rw (handle_delivery, read, good)
            (attempt_of_final p m e (delivery_attempt d.headers) jobs j found done)
      | inr (_, bad) ↦ rw (handle_delivery, read, bad) (refl, refl)
    ]
