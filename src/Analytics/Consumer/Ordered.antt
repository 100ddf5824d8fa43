-- ===== src/Analytics/Consumer/Ordered.antt =====
-- `Run` over a sequence of polls: it ends for each of them, and commits the records in order.
use edge_guard.Base.{
  ◌≡◌, refl, arith, Bool, true, false, Bool-cases, Option-cases, Result-cases, inl, inr, Option,
  none, some, List, [], ◌∷◌, ◌++◌, ok, err, Result, ap, ◌<ℤ◌, pos, ◌^◌, map, All, All-map,
}
use edge_guard.Text.{Text}
use edge_guard.Analytics.Event.{GatewayAccessEvent}
use edge_guard.Analytics.Store.{Outcome, Tables}
use edge_guard.Analytics.Consumer.{
  ClientConfig, Config, new_consumer, Consumer, Ports, Processed, is_invalid,
}
use edge_guard.Analytics.Consumer.Delivery.{
  decode_gateway_access_event, Handled, commit_record, process_with_retry, handle_record, Poll, Ran,
  run_consumer, ended,
}
use edge_guard.Analytics.Consumer.Retries.{process_with_retry_ends}
use edge_guard.Analytics.Consumer.Attempts.{Circumstances}
use edge_guard.Analytics.Consumer.Ingested.{
  IsIngested, is_ingested, ingested_test, IsRanOf, poll_of, run_consumer-IsRanOf,
}

module _ {S : Type 0} where
  -- Handled, and committed unless there was an error.
  record IsSettled (result : Option (Handled S)) : Type 0 where
    handled : Handled S
    is_handled : result ≡ some handled
    committed : handled.outcome ≡ ok tt → handled.committed ≡ true

  commit-IsSettled : (p : Ports S) (s : S) → IsSettled (some (commit_record p s))
  unfolding commit_record
  commit-IsSettled p s = record {
    handled = commit_record p s;
    is_handled = refl;
    committed = λ h. ground arith;
  }

  handle_record-IsSettled :
      (c : Consumer) (p : Ports S) (value : Text) (s : S)
      → ((event : GatewayAccessEvent)
          → (done : Processed S) × (process_with_retry c p event s ≡ some done))
      → IsSettled (handle_record c p value s)
  unfolding handle_record
  handle_record-IsSettled c p value s ends =
      elim (Result-cases (decode_gateway_access_event p value)) [
        | inr (x, d) ↦ rw (handle_record, d) (commit-IsSettled p s)
        | inl (event, d) ↦
            let (done, e) = ends event in
            elim (Result-cases done.outcome) [
              | inl (r, o) ↦ rw (handle_record, d, e, o) (commit-IsSettled p done.state)
              | inr (fault, o) ↦ elim (Bool-cases (is_invalid fault)) [
                | inl invalid ↦ rw (handle_record, d, e, o, invalid) (commit-IsSettled p done.state)
                | inr valid ↦
                    rw (handle_record, d, e, o, valid)
                      (record {
                        handled = record {
                          state = done.state;
                          committed = false;
                          outcome = err fault;
                        };
                        is_handled = refl;
                        committed = λ h. ground arith;
                      })
              ]
            ]
      ]

  -- the values that the polls fetched
  abbrev pub fetched : List (Poll S) → List Text
  fetched [] = []
  fetched (poll ∷ polls) = elim poll.value [
    | none ↦ fetched polls
    | some value ↦ value ∷ fetched polls
  ]

  record IsOrdered (polls : List (Poll S)) (result : Option (Ran S)) : Type 0 where
    pub ran : Ran S
    pub is_ran : result ≡ some ran
    pub left : List Text
    pub in_order : fetched polls ≡ ran.committed ++ left

  stopped-IsOrdered :
      (h : Handled S) (value : Text) (polls : List (Poll S)) (poll : Poll S)
      (outcome : Outcome (Unit {0}))
      → poll.value ≡ some value
      → IsOrdered (poll ∷ polls) (ended h value outcome)
  stopped-IsOrdered h value polls poll outcome v = elim (Bool-cases h.committed) [
    | inl c ↦ record { ran = _; is_ran = refl; left = fetched polls; in_order = rw (v, c) refl }
    | inr c ↦ record {
      ran = _;
      is_ran = refl;
      left = value ∷ fetched polls;
      in_order = rw (v, c) refl;
    }
  ]

  run_consumer-IsOrdered :
      (c : Consumer) (polls : List (Poll S)) (s : S)
      → ((p : Ports S) (event : GatewayAccessEvent) (s : S)
          → (done : Processed S) × (process_with_retry c p event s ≡ some done))
      → IsOrdered polls (run_consumer c polls s)
  unfolding run_consumer
  run_consumer-IsOrdered c [] s ends = record { ran = _; is_ran = refl; left = []; in_order = refl }
  run_consumer-IsOrdered c (poll ∷ polls) s ends = elim (Option-cases poll.value) [
    | inl v ↦ elim (Bool-cases poll.over) [
      | inl over ↦
          rw (run_consumer, v, over)
            (record { ran = _; is_ran = refl; left = fetched polls; in_order = refl })
      | inr more ↦
          let r = run_consumer-IsOrdered c polls s ends in
          rw (run_consumer, v, more)
            (record { ran = r.ran; is_ran = r.is_ran; left = r.left; in_order = r.in_order })
    ]
    | inr (value, v) ↦
        let h = handle_record-IsSettled c poll.ports value s (λ event. ends poll.ports event s) in
        elim (Bool-cases poll.over) [
          | inl over ↦
              rw (run_consumer, v, h.is_handled, over)
                (stopped-IsOrdered h.handled value polls _ (ok tt) refl)
          | inr more ↦ elim (Result-cases h.handled.outcome) [
            | inr (fault, o) ↦
                rw (run_consumer, v, h.is_handled, more, o)
                  (stopped-IsOrdered h.handled value polls _ (err fault) refl)
            | inl (_, o) ↦
                let r = run_consumer-IsOrdered c polls h.handled.state ends in
                rw (run_consumer, v, h.is_handled, more, o, r.is_ran)
                  (record {
                    ran = _;
                    is_ran = refl;
                    left = r.left;
                    in_order = rw (h.committed o) (ap (λ vs. value ∷ vs) r.in_order);
                  })
          ]
        ]
  ]

ends :
    (new_client ping : ClientConfig → Option Text) (processor log : Bool) (config : Config)
    (c : Consumer)
    → new_consumer new_client ping processor log config ≡ ok c
    → config.retry_max <ℤ pos (2 ^ 63)
    → (p : Ports Tables) (event : GatewayAccessEvent) (s : Tables)
    → (done : Processed Tables) × (process_with_retry c p event s ≡ some done)
ends new_client ping processor log config c made h p event s =
    let (done, is_done, _, _, _) =
      process_with_retry_ends new_client ping processor log config c p event s made h in
    (done, is_done)

-- A consumer that `New` has made, with a maximal delay that fits its type, over the use case and the
-- store: whatever its polls fetch and whatever fails, `Run` gets through them or ends at one of them.
-- The records whose offsets it has committed are the first that were fetched, in their order, none
-- passed over. Each of them that holds an event which passes the checks has a row of the event's id
-- in the table of events.
pub run_consumer_ingests :
    (unicode : Text → Text) (cast_uuid : Text → Option Text)
    (unmarshal : Text → Result Text GatewayAccessEvent) (quote : Text → Text)
    (new_client ping : ClientConfig → Option Text) (processor log : Bool) (config : Config)
    (c : Consumer) (polls : List (Option Text × Circumstances × Bool)) (db : Tables)
    → new_consumer new_client ping processor log config ≡ ok c
    → config.retry_max <ℤ pos (2 ^ 63)
    → let given = map (poll_of unicode cast_uuid unmarshal quote) polls in
      (ran : Ran Tables) × (left : List Text) × (run_consumer c given db ≡ some ran)
      × (fetched given ≡ ran.committed ++ left)
      × All
          (λ value. is_ingested unicode cast_uuid unmarshal quote ran.state value ≡ true)
          ran.committed
run_consumer_ingests unicode cast_uuid unmarshal quote new_client ping processor log config c polls
      db made h =
    let given = map (poll_of unicode cast_uuid unmarshal quote) polls in
    let r =
      run_consumer-IsOrdered c given db (ends new_client ping processor log config c made h) in
    let outcome : IsRanOf unicode cast_uuid unmarshal quote db (some r.ran) =
      rw r.is_ran at (run_consumer-IsRanOf unicode cast_uuid unmarshal quote c polls db) in
    let db' = r.ran.state in
    (
      r.ran,
      r.left,
      r.is_ran,
      r.in_order,
      All-map (IsIngested unicode cast_uuid unmarshal quote db')
          (λ value. is_ingested unicode cast_uuid unmarshal quote db' value ≡ true)
          (ingested_test unicode cast_uuid unmarshal quote db') r.ran.committed outcome.1,
    )
