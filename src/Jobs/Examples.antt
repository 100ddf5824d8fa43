-- ===== src/Jobs/Examples.antt =====
-- Jobs on concrete runs.
use edge_guard.Base.{
  ◌≡◌, refl, pos, ◌⊎◌, true, false, Option, none, some, List, [], ◌∷◌, arith, ok, err, All,
}
use edge_guard.Text.{Text, codes, trim_space, ◌≟◌}
use edge_guard.Jobs.Envelope.{Envelope, webhook_deliver, validate, new_envelope}
use edge_guard.Jobs.Payload.{normalize_max_attempts}
use edge_guard.Jobs.Table.{
  queued, succeeded, publish_failed, Job, Statement, mark_queued, mark_failed, prepare_attempt,
  update, update_row, get_job, create_job, new_publishing_job, first_attempt,
}
use edge_guard.Jobs.Table.Lifecycle.{◌⟶*◌, IsValid, run, run-IsValid, run-⟶*, run_of_succeeded}
use edge_guard.Jobs.Submit
use edge_guard.Jobs.Submit.{Receipt, not_published, submit, envelope_for, publish_job}
use edge_guard.Jobs.Table.Meanwhile.{statement}
use edge_guard.Jobs.Submit.Stored.{IsStored}
use edge_guard.Jobs.Submit.Ordered.{submit-Recorded, submit-Refused}

abbrev hook : Envelope
hook = record {
  schema_version = pos 1;
  id = codes "j1";
  job_type = webhook_deliver;
  created_at = 5;
  attempt = pos 1;
  max_attempts = pos 3;
  payload = codes "{}";
}

abbrev job : Job
job = first_attempt hook (pos 1) 7

abbrev steps : List (Text × Statement)
steps =
    (codes "j1", mark_failed (pos 1) (codes "down") 8)
    ∷ (codes "j2", mark_queued 9)
    ∷ (codes "j1", prepare_attempt (pos 2) 10)
    ∷ []

job_found : get_job (codes "j1") (job ∷ []) ≡ some job
unfolding get_job ◌≟◌
job_found = refl

run-⟶*_example :
    (j' : Job) × (get_job (codes "j1") (run steps (job ∷ [])) ≡ some j') × (job.status ⟶* j'.status)
run-⟶*_example = run-⟶* (codes "j1") steps (job ∷ []) job job_found

job-IsValid : IsValid job
job-IsValid = record {
  attempt_low = omega arith;
  max_low = omega arith;
  attempt_high = omega arith;
  completed = λ h. ground arith;
}

run-IsValid_example : All IsValid (run steps (job ∷ []))
run-IsValid_example =
    run-IsValid steps (job ∷ []) (omega arith, (tt, (omega arith, tt))) (job-IsValid, tt)

abbrev done : Job
done = record job { status = succeeded; completed_at = some 8 }

done_found : get_job (codes "j1") (done ∷ []) ≡ some done
unfolding get_job ◌≟◌
done_found = refl

run_of_succeeded_example : get_job (codes "j1") (run steps (done ∷ [])) ≡ some done
run_of_succeeded_example = run_of_succeeded (codes "j1") steps (done ∷ []) done done_found refl

abbrev submission : (Envelope → Option Text) → Submit.Ports
submission publish = record {
  json_valid = λ _. true;
  new_id = ok (codes "j1");
  created_at = 5;
  create_fault = false;
  publish = publish;
  unconfirmed = true;
  meanwhile = statement (codes "j1") (prepare_attempt (pos 1) 6) ∷ [];
  marked_at = 6;
  mark_fault = false;
}

abbrev receipt : Receipt
receipt = record {
  id = codes "j1";
  job_type = webhook_deliver;
  status = codes "queued";
  created_at = 5;
}

received :
    (submit (submission (λ _. none)) webhook_deliver (some (codes "{}")) (pos 3) []).receipt
    ≡ ok receipt
unfolding submit envelope_for new_envelope validate normalize_max_attempts trim_space create_job
    new_publishing_job publish_job update_row update
received = refl

abbrev accepted : Submit.Submitted
accepted = submit (submission (λ _. none)) webhook_deliver (some (codes "{}")) (pos 3) []

submit-Recorded_example :
    (e : Envelope) × (e.id ≡ receipt.id)
    × ((submission (λ _. none)).publish e ≡ none)
    × (accepted.published ≡ e ∷ [])
    × IsStored (submission (λ _. none)) queued e [] accepted.jobs
submit-Recorded_example =
    submit-Recorded (submission (λ _. none)) webhook_deliver (some (codes "{}")) (pos 3) [] receipt
      received

abbrev broker_down : Envelope → Option Text
broker_down _ = some (codes "down")

refused :
    (submit (submission broker_down) webhook_deliver (some (codes "{}")) (pos 3) []).receipt
    ≡ err (not_published (codes "down"))
unfolding submit envelope_for new_envelope validate normalize_max_attempts trim_space create_job
    new_publishing_job publish_job update_row update
refused = refl

abbrev lost : Submit.Submitted
lost = submit (submission broker_down) webhook_deliver (some (codes "{}")) (pos 3) []

submit-Refused_example :
    ((lost.published ≡ []) × (lost.jobs ≡ []))
    ⊎ ((e : Envelope) × (text : Text) × ((submission broker_down).publish e ≡ some text)
        × ((lost.published ≡ [])
            ⊎ ((lost.published ≡ e ∷ []) × ((submission broker_down).unconfirmed ≡ true)))
        × IsStored (submission broker_down) publish_failed e [] lost.jobs)
submit-Refused_example =
    submit-Refused (submission broker_down) webhook_deliver (some (codes "{}")) (pos 3) []
      (not_published (codes "down")) refused
