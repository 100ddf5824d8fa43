-- ===== src/Analytics/Consumer/Attempts.antt =====
-- What the attempts at one event leave in the store.
use edge_guard.Base.{
  ℕ, zero, suc, ◌+◌, ℤ, int_le, pos, ◌≡◌, refl, sym, String, arith, true, false, Bool-cases,
  Option-cases, Result-cases, inl, inr, Option, none, some, [], ◌∷◌, Result, ok, err, Error,
  in_context, sentinel, wrap, noted, opaque,
}
use edge_guard.Text.{Text}
use edge_guard.Analytics.Event.{GatewayAccessEvent, validate}
use edge_guard.Analytics.Store.{
  Outcome, IngestionResult, Tables, Faults, has_event, store_gateway_access, Sentinel,
}
use edge_guard.Analytics.Store.Consistent.{store_all, stored_known, store_all_keeps_known}
use edge_guard.Analytics.Store.Plain.{is_plain, store_error}
use edge_guard.Analytics.Usecase.{process_gateway_access}
use edge_guard.Analytics.Consumer.{
  Consumer, Ports, Processed, again, is_last, next_retry_delay, retry, is_invalid,
}

abbrev pub Knows : Text → Tables → Type 0
Knows id db = has_event id db.events ≡ true

-- What the loop over the attempts makes of an event.
pub record IsOutcome (quote : Text → Text) (e : GatewayAccessEvent) (before after : Tables)
    (outcome : Outcome IngestionResult) : Type 0 where
  pub keeps : (id : Text) → Knows id before → Knows id after
  pub stored : (r : IngestionResult) → outcome ≡ ok r → Knows e.event_id after
  pub refused :
      (x : Error Sentinel)
      → outcome ≡ err x
      → is_invalid x ≡ true
      → (text : Text) × (validate quote e ≡ err text)

plain_valid : (x : Error Sentinel) → is_plain x ≡ true → is_invalid x ≡ false
unfolding is_invalid
plain_valid (sentinel s) h = ground arith
plain_valid (wrap text e) h = plain_valid e h
plain_valid (noted e text) h = plain_valid e h
plain_valid (opaque text) h = refl

wrapped_valid :
    (text : String) (x : Error Sentinel) → is_invalid x ≡ false → is_invalid (wrap text x) ≡ false
unfolding is_invalid
wrapped_valid text x h = h

-- What befalls one record: the faults of the database at each attempt, and the rest of the consumer's
-- ports.
pub record Circumstances : Type 0 where
  pub faults : ℕ → Faults
  pub over_after : ℕ → Option Text
  pub over_in_wait : ℕ → Option Text
  pub commit_fault : Option Text
  pub over_at_commit : Option Text

module _ (unicode : Text → Text) (cast_uuid : Text → Option Text)
    (unmarshal : Text → Result Text GatewayAccessEvent) (quote : Text → Text) where
  stores :
      (f : Faults) (e : GatewayAccessEvent) (db : Tables) (r : IngestionResult)
      → (store_gateway_access unicode cast_uuid f e db).1 ≡ ok r
      → Knows e.event_id (store_gateway_access unicode cast_uuid f e db).0
  stores f e db r h = let (row, made, known) = stored_known unicode cast_uuid f e db r h in known

  without_context :
      (a : Outcome IngestionResult) (r : IngestionResult)
      → in_context "store gateway access event" a ≡ ok r
      → a ≡ ok r
  without_context (ok s) r h = ground arith
  without_context (err x) r h = ground arith

  absurd_error :
      (f : Faults) (e : GatewayAccessEvent) (db : Tables) (x : Error Sentinel)
      → in_context "store gateway access event" (store_gateway_access unicode cast_uuid f e db).1
        ≡ err x
      → is_invalid x ≡ true
      → (text : Text) × (validate quote e ≡ err text)
  absurd_error f e db x h i =
      elim (Result-cases (store_gateway_access unicode cast_uuid f e db).1) [
        | inl (r, k) ↦ ground arith
        | inr (y, k) ↦ ground (arith, plain_valid x, store_error unicode cast_uuid f e db y k)
      ]

  -- The use case over the store, under some circumstances.
  unfoldable pub store_ports : Circumstances → Ports Tables
  unfolding process_gateway_access
  store_ports m = record {
    unmarshal = unmarshal;
    quote = quote;
    process = λ attempt.
        process_gateway_access quote
          (some (store_gateway_access unicode cast_uuid (m.faults attempt)));
    over_after = m.over_after;
    over_in_wait = m.over_in_wait;
    commit_fault = m.commit_fault;
    over_at_commit = m.over_at_commit;
  }

  attempt-IsOutcome :
      (f : Faults) (e : GatewayAccessEvent) (db : Tables)
      → let (db', outcome) =
          process_gateway_access quote (some (store_gateway_access unicode cast_uuid f)) e db in
        IsOutcome quote e db db' outcome
  unfolding process_gateway_access store_gateway_access store_all
  attempt-IsOutcome f e db = elim (Result-cases (validate quote e)) [
    | inr (text, v) ↦
        rw (process_gateway_access, v)
          (record { keeps = λ id h. h; stored = λ r h. ground arith; refused = λ x h i. (text, v) })
    | inl (_, v) ↦
        rw (process_gateway_access, v)
          (record {
            keeps = λ id h. store_all_keeps_known unicode cast_uuid ((f, e) ∷ []) id db h;
            stored = λ r h. stores f e db r (without_context _ r h);
            refused = λ x h i. absurd_error f e db x h i;
          })
  ]

  abbrev pub IsOutcomeOf : GatewayAccessEvent → Tables → Option (Processed Tables) → Type 0
  IsOutcomeOf e db none = Unit
  IsOutcomeOf e db (some done) = IsOutcome quote e db done.state done.outcome

  again-IsOutcomeOf :
      (m : Circumstances) (e : GatewayAccessEvent) (c : Consumer) (delay : ℤ) (db db' : Tables)
      (rest : Option (Processed Tables))
      → ((id : Text) → Knows id db → Knows id db')
      → IsOutcomeOf e db' rest
      → IsOutcomeOf e db (again c (store_ports m) e delay rest)
  again-IsOutcomeOf m e c delay db db' none kept o = tt
  again-IsOutcomeOf m e c delay db db' (some rest) kept o = record {
    keeps = λ id h. o.keeps id (kept id h);
    stored = o.stored;
    refused = o.refused;
  }

  -- an end that is not about the event
  stopped :
      (e : GatewayAccessEvent) (db db' : Tables) (x : Error Sentinel)
      → ((id : Text) → Knows id db → Knows id db')
      → is_invalid x ≡ false
      → IsOutcome quote e db db' (err x)
  stopped e db db' x kept valid = record {
    keeps = kept;
    stored = λ r h. ground arith;
    refused = λ y h i. ([], ground arith);
  }

  failed :
      (e : GatewayAccessEvent) (db db' : Tables) (text : Text)
      → ((id : Text) → Knows id db → Knows id db')
      → IsOutcome quote e db db' (err (opaque text))
  failed e db db' text kept = stopped e db db' (opaque text) kept (plain_valid (opaque text) refl)

  same_outcome :
      (e : GatewayAccessEvent) (db db' : Tables) (a b : Outcome IngestionResult)
      → IsOutcome quote e db db' a
      → a ≡ b
      → IsOutcome quote e db db' b
  same_outcome e db db' a b o eq = rw (sym eq) o

  pub retry-IsOutcomeOf :
      (m : Circumstances) (e : GatewayAccessEvent) (c : Consumer) (rounds attempt : ℕ) (delay : ℤ)
      (db : Tables)
      → IsOutcomeOf e db (retry c (store_ports m) e rounds attempt delay db)
  unfolding retry store_ports
  retry-IsOutcomeOf m e c zero attempt delay db = tt
  retry-IsOutcomeOf m e c (suc rounds) attempt delay db =
      elim (Bool-cases (int_le (pos attempt) c.max_process_attempts)) [
        | inr exhausted ↦ rw (retry, exhausted) (failed e db db _ (λ id h. h))
        | inl entered ↦ elim (Result-cases outcome) [
          | inl (r, x) ↦ rw (retry, entered, x) (same_outcome e db after outcome (ok r) step x)
          | inr (fault, x) ↦ elim (Bool-cases (is_invalid fault)) [
            | inl invalid ↦
                rw (retry, entered, x, invalid) (same_outcome e db after outcome (err fault) step x)
            | inr valid ↦ elim (Option-cases (m.over_after attempt)) [
              | inr (over, o) ↦ rw (retry, entered, x, valid, o) (failed e db after _ step.keeps)
              | inl o ↦ elim (Bool-cases (is_last attempt c.max_process_attempts)) [
                | inl last ↦
                    rw (retry, entered, x, valid, o, last)
                      (stopped e db after (wrap "process gateway access event after attempts" fault)
                        step.keeps
                        (wrapped_valid "process gateway access event after attempts" fault valid))
                | inr more ↦ elim (Option-cases (m.over_in_wait attempt)) [
                  | inr (over, w) ↦
                      rw (retry, entered, x, valid, o, more, w) (failed e db after _ step.keeps)
                  | inl w ↦
                      rw (retry, entered, x, valid, o, more, w)
                        (again-IsOutcomeOf m e c delay db after _ step.keeps (
                          retry-IsOutcomeOf m e c rounds (attempt + 1)
                            (next_retry_delay delay c.retry_max) after))
                ]
              ]
            ]
          ]
        ]
      ]
    where
      after : Tables
      after = ((store_ports m).process attempt e db).0

      outcome : Outcome IngestionResult
      outcome = ((store_ports m).process attempt e db).1

      step : IsOutcome quote e db after outcome
      step = attempt-IsOutcome (m.faults attempt) e db
