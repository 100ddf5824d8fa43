-- ===== src/Analytics/Consumer/Ingested.antt =====
-- The consumer over the store: every valid event whose offset is committed is in the events' table.
use edge_guard.Base.{
  suc, pos_part, ◌≡◌, refl, arith, Bool, true, false, Bool-cases, Option-cases, Result-cases, inl,
  inr, Option, none, some, List, [], ◌∷◌, Result, ok, err, All, All-append, All-map, map,
}
use edge_guard.Text.{Text}
use edge_guard.Analytics.Event.{GatewayAccessEvent, validate}
use edge_guard.Analytics.Store.{Tables, has_event}
use edge_guard.Analytics.Consumer.{Consumer, is_invalid}
use edge_guard.Analytics.Consumer.Delivery.{
  decode_gateway_access_event, Handled, commit_record, process_with_retry, handle_record, Poll, Ran,
  run_consumer, committed_by, after_record,
}
use edge_guard.Analytics.Consumer.Attempts.{
  Knows, IsOutcome, IsOutcomeOf, Circumstances, store_ports, retry-IsOutcomeOf,
}

module _ (unicode : Text → Text) (cast_uuid : Text → Option Text)
    (unmarshal : Text → Result Text GatewayAccessEvent) (quote : Text → Text) where
  -- If the value is an event that passes the checks, then it is in the table.
  abbrev pub IsIngested : Tables → Text → Type 0
  IsIngested db value =
      (e : GatewayAccessEvent)
      → unmarshal value ≡ ok e
      → validate quote e ≡ ok tt
      → Knows e.event_id db

  -- The value is no event that passes the checks, or it is in the table.
  unfoldable pub is_ingested : Tables → Text → Bool
  unfolding has_event validate
  is_ingested db value = elim (unmarshal value) [
    | err _ ↦ true
    | ok e ↦ elim (validate quote e) [ err _ ↦ true | ok _ ↦ has_event e.event_id db.events ]
  ]

  pub ingested_test :
      (db : Tables) (value : Text) → IsIngested db value → is_ingested db value ≡ true
  unfolding is_ingested
  ingested_test db value h = elim (Result-cases (unmarshal value)) [
    | inr (text, u) ↦ rw (is_ingested, u) refl
    | inl (e, u) ↦ elim (Result-cases (validate quote e)) [
      | inr (text, v) ↦ rw (is_ingested, u, v) refl
      | inl (_, v) ↦ rw (is_ingested, u, v) (h e u v)
    ]
  ]

  record IsHandled (value : Text) (before : Tables) (h : Handled Tables) : Type 0 where
    keeps : (id : Text) → Knows id before → Knows id h.state
    ingested : h.committed ≡ true → IsIngested h.state value

  commit-IsHandled :
      (m : Circumstances) (value : Text) (db db' : Tables)
      → ((id : Text) → Knows id db → Knows id db')
      → IsIngested db' value
      → IsHandled value db (commit_record (store_ports unicode cast_uuid unmarshal quote m) db')
  unfolding commit_record store_ports
  commit-IsHandled m value db db' kept got = elim (Option-cases m.commit_fault) [
    | inl none_at ↦ rw (commit_record, none_at) (record { keeps = kept; ingested = λ h. got })
    | inr (fault, at) ↦
        rw (commit_record, at) (record { keeps = kept; ingested = λ h. ground arith })
  ]

  abbrev IsHandledOf : Text → Tables → Option (Handled Tables) → Type 0
  IsHandledOf value db none = Unit
  IsHandledOf value db (some h) = IsHandled value db h

  outcome_of :
      (c : Consumer) (m : Circumstances) (e : GatewayAccessEvent) (db : Tables)
      → IsOutcomeOf unicode cast_uuid unmarshal quote e db
          (process_with_retry c (store_ports unicode cast_uuid unmarshal quote m) e db)
  unfolding process_with_retry
  outcome_of c m e db =
      retry-IsOutcomeOf unicode cast_uuid unmarshal quote m e c
        (suc (pos_part c.max_process_attempts)) 1 c.retry_min db

  handle_record-IsHandledOf :
      (c : Consumer) (m : Circumstances) (value : Text) (db : Tables)
      → IsHandledOf value db
          (handle_record c (store_ports unicode cast_uuid unmarshal quote m) value db)
  unfolding handle_record decode_gateway_access_event store_ports
  handle_record-IsHandledOf c m value db = elim (Result-cases (unmarshal value)) [
    | inr (text, u) ↦
        rw (handle_record, decode_gateway_access_event, u)
          (commit-IsHandled m value db db (λ id h. h) (λ e w v. ground arith))
    | inl (e, u) ↦ elim (Result-cases (validate quote e)) [
      | inr (text, v) ↦
          rw (handle_record, decode_gateway_access_event, u, v)
            (commit-IsHandled m value db db (λ id h. h) (λ e' w v'. ground arith))
      | inl (_, v) ↦
          elim (Option-cases
            (process_with_retry c (store_ports unicode cast_uuid unmarshal quote m) e db)) [
              | inl out ↦ rw (handle_record, decode_gateway_access_event, u, v, out) tt
              | inr (done, d) ↦
                  let o : IsOutcome quote e db done.state done.outcome =
                    rw d at (outcome_of c m e db) in
                  elim (Result-cases done.outcome) [
                    | inl (r, x) ↦
                        rw (handle_record, decode_gateway_access_event, u, v, d, x)
                          (commit-IsHandled m value db done.state o.keeps
                            (λ e' w v'. ground (arith, o.stored r x)))
                    | inr (fault, x) ↦ elim (Bool-cases (is_invalid fault)) [
                      | inr valid ↦
                          rw (handle_record, decode_gateway_access_event, u, v, d, x, valid)
                            (record { keeps = o.keeps; ingested = λ h. ground arith })
                      | inl invalid ↦ let (text, v') = o.refused fault x invalid in ground arith
                    ]
                  ]
            ]
    ]
  ]

  -- A poll: the value that it fetched, if any, what befalls the record, and whether the context is
  -- over afterwards.
  abbrev pub poll_of : Option Text × Circumstances × Bool → Poll Tables
  poll_of (value, m, over) = record {
    value = value;
    ports = store_ports unicode cast_uuid unmarshal quote m;
    over = over;
  }

  abbrev pub IsRanOf : Tables → Option (Ran Tables) → Type 0
  IsRanOf db none = Unit
  IsRanOf db (some ran) =
      ((id : Text) → Knows id db → Knows id ran.state) × All (IsIngested ran.state) ran.committed

  later :
      (values : List Text) (db db' : Tables)
      → ((id : Text) → Knows id db → Knows id db')
      → All (IsIngested db) values
      → All (IsIngested db') values
  later values db db' kept got =
      All-map (IsIngested db) (IsIngested db') (λ value i e u v. kept e.event_id (i e u v)) values
        got

  committed_now :
      (h : Handled Tables) (value : Text) (db : Tables)
      → IsHandled value db h
      → All (IsIngested h.state) (committed_by h value)
  committed_now h value db is = elim (Bool-cases h.committed) [
    | inl yes_committed ↦ rw yes_committed (is.ingested yes_committed, tt)
    | inr not_committed ↦ rw not_committed tt
  ]

  carried :
      (h : Handled Tables) (value : Text) (db : Tables)
      → IsHandled value db h
      → (rest : Option (Ran Tables)) → IsRanOf h.state rest
      → IsRanOf db (after_record h value rest)
  carried h value db is none r = tt
  carried h value db is (some rest) (kept, got) = (
    λ id k. kept id (is.keeps id k),
    All-append (IsIngested rest.state) (committed_by h value) rest.committed
        (later (committed_by h value) h.state rest.state kept (committed_now h value db is)) got,
  )

  pub run_consumer-IsRanOf :
      (c : Consumer) (polls : List (Option Text × Circumstances × Bool)) (db : Tables)
      → IsRanOf db (run_consumer c (map poll_of polls) db)
  unfolding run_consumer
  run_consumer-IsRanOf c [] db = (λ id h. h, tt)
  run_consumer-IsRanOf c ((none, m, true) ∷ polls) db = (λ id h. h, tt)
  run_consumer-IsRanOf c ((none, m, false) ∷ polls) db = run_consumer-IsRanOf c polls db
  run_consumer-IsRanOf c ((some value, m, over) ∷ polls) db =
      elim (Option-cases
        (handle_record c (store_ports unicode cast_uuid unmarshal quote m) value db)) [
          | inl out ↦ rw (run_consumer, out) tt
          | inr (h, k) ↦
              let is : IsHandled value db h = rw k at (handle_record-IsHandledOf c m value db) in
              elim (Bool-cases over) [
                | inl last ↦ rw (run_consumer, k, last) (is.keeps, committed_now h value db is)
                | inr more ↦ elim (Result-cases h.outcome) [
                  | inr (fault, x) ↦
                      rw (run_consumer, k, more, x) (is.keeps, committed_now h value db is)
                  | inl (_, x) ↦
                      rw (run_consumer, k, more, x)
                        (carried h value db is (run_consumer c (map poll_of polls) h.state)
                          (run_consumer-IsRanOf c polls h.state))
                ]
              ]
        ]
