-- ===== src/Jobs/Worker/Examples.antt =====
-- The worker on concrete deliveries.
use edge_guard.Base.{
  ℕ, ◌≡◌, refl, pos, true, false, none, some, [], ◌∷◌, arith, ok, err, Result, int64, ◌+ℤ◌,
}
use edge_guard.Text.{codes, trim_space, ◌≟◌}
use edge_guard.Jobs.Envelope.{Envelope, webhook_deliver, validate}
use edge_guard.Jobs.Payload.{WebhookPayload}
use edge_guard.Jobs.Table.{succeeded, Job, get_job, first_attempt}
use edge_guard.Jobs.Worker.{
  Ports, Delivery, int, header_int64, delivery_attempt, rejected, Moment, Failure, plain,
  handle_delivery, is_permanent,
}
use edge_guard.Jobs.Worker.Settled.{status_of, handle_delivery-Agrees, handle_delivery_of_final}
use edge_guard.Jobs.Worker.Attempts.{IsCalm}
use edge_guard.Jobs.Worker.Retries.{IsSettled, serve, serve-IsSettled}

abbrev hook : Envelope
hook = record {
  schema_version = pos 1;
  id = codes "j1";
  job_type = webhook_deliver;
  created_at = 5;
  attempt = pos 1;
  max_attempts = pos 3;
  payload = codes "{}";
}

abbrev webhook : WebhookPayload
webhook = record { url = codes "http://h"; method = codes "POST"; headers = []; body = [] }

-- a worker whose webhooks end as given
abbrev worker : Result Failure (Unit {0}) → Ports
worker answer = record {
  json_valid = λ _. true;
  unmarshal_envelope = λ _. some hook;
  unmarshal_webhook = λ _. ok webhook;
  unmarshal_report = λ _. err [];
  unmarshal_cleanup = λ _. err [];
  quote = λ s. s;
  deliver = λ _. answer;
  generate = λ _ _. err (plain []);
  cleanup_expired_tokens = λ _. err (plain []);
}

abbrev moment : Moment
moment = record {
  prepared_at = 7;
  prepare_fault = none;
  meanwhile = [];
  marked_at = 8;
  mark_fault = none;
  settle_fault = none;
}

abbrev delivery : ℕ → Delivery
delivery k = record { headers = (codes "x-delivery-count", int (pos k)) ∷ []; body = [] }

valid_hook : validate (λ _. true) hook ≡ ok tt
unfolding validate trim_space
valid_hook = refl

requeued_once :
    (handle_delivery (worker (err (plain []))) moment (delivery 0) []).outcome ≡ ok (rejected true)
unfolding handle_delivery validate trim_space is_permanent delivery_attempt int64 ◌+ℤ◌ ◌≟◌
requeued_once = refl

handle_delivery-Agrees_example :
    (j : Job) × (get_job hook.id
        (handle_delivery (worker (err (plain []))) moment (delivery 0) []).jobs
      ≡ some j)
    × (j.status ≡ status_of (rejected true))
handle_delivery-Agrees_example =
    handle_delivery-Agrees (worker (err (plain []))) moment (delivery 0) [] hook refl valid_hook
      (rejected true) requeued_once

abbrev done : Job
done = record (first_attempt hook (pos 1) 7) { status = succeeded; completed_at = some 8 }

done_found : get_job hook.id (done ∷ []) ≡ some done
unfolding get_job ◌≟◌
done_found = refl

handle_delivery_of_final_example :
    ((handle_delivery (worker (ok tt)) moment (delivery 1) (done ∷ [])).ran ≡ false)
    × ((handle_delivery (worker (ok tt)) moment (delivery 1) (done ∷ [])).jobs ≡ done ∷ [])
handle_delivery_of_final_example =
    handle_delivery_of_final (worker (ok tt)) moment (delivery 1) (done ∷ []) hook done refl
      done_found refl

calm : (k : ℕ) → IsCalm moment
calm k = record { prepared = refl; alone = refl; marked = refl; told = refl }

counted : (k : ℕ) → header_int64 (delivery k).headers (codes "x-delivery-count") ≡ pos k
unfolding header_int64 ◌≟◌
counted k = refl

-- a webhook that never succeeds
serve-IsSettled_example :
    IsSettled hook.id (serve (worker (err (plain []))) (λ _. moment) delivery 2 0 [])
serve-IsSettled_example =
    serve-IsSettled (worker (err (plain []))) (λ _. moment) delivery calm hook (λ _. refl)
      valid_hook counted 2 refl (omega arith) []
