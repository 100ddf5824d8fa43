-- ===== src/Analytics/Consumer/Delivery.antt =====
-- `handleRecord`, `commitRecord` and `Run` of internal/analytics/infrastructure/kafka/consumer.go. Kafka
-- hands a record to the group again as long as its offset is not committed.
use edge_guard.Base.{
  suc, pos_part, Bool, true, false, Option, none, some, List, [], ◌∷◌, ◌++◌, if◌then◌else◌, ok, err,
  wrap, opaque,
}
use edge_guard.Text.{Text}
use edge_guard.Analytics.Event.{GatewayAccessEvent, validate}
use edge_guard.Analytics.Store.{Outcome}
use edge_guard.Analytics.Consumer.{Consumer, Ports, Processed, retry, is_invalid}

-- decodeGatewayAccessEvent
unfoldable pub decode_gateway_access_event :
    {S : Type 0} → Ports S → Text → Outcome GatewayAccessEvent
unfolding validate
decode_gateway_access_event p payload = elim (p.unmarshal payload) [
  | err text ↦ err (wrap "decode gateway access event" (opaque text))
  | ok event ↦ elim (validate p.quote event) [
    | err text ↦ err (wrap "validate gateway access event" (opaque text))
    | ok _ ↦ ok event
  ]
]

pub record Handled (S : Type 0) : Type 0 where
  pub state : S
  pub committed : Bool
  pub outcome : Outcome (Unit {0})

unfoldable pub commit_record : {S : Type 0} → Ports S → S → Handled S
commit_record p s = elim p.commit_fault [
  | none ↦ record { state = s; committed = true; outcome = ok tt }
  | some fault ↦ record {
    state = s;
    committed = false;
    outcome = elim p.over_at_commit [
      | some over ↦ err (opaque over)
      | none ↦ err (wrap "commit Kafka analytics offset" (opaque fault))
    ];
  }
]

module _ {S : Type 0} (c : Consumer) where
  -- processWithRetry; one round more than there are attempts is fuel enough
  unfoldable pub process_with_retry : Ports S → GatewayAccessEvent → S → Option (Processed S)
  unfolding retry
  process_with_retry p event s =
      retry c p event (suc (pos_part c.max_process_attempts)) 1 c.retry_min s

  unfoldable pub handle_record : Ports S → Text → S → Option (Handled S)
  unfolding decode_gateway_access_event process_with_retry commit_record
  handle_record p payload s = elim (decode_gateway_access_event p payload) [
    | err _ ↦ some (commit_record p s)
    | ok event ↦ elim (process_with_retry p event s) [
      | none ↦ none
      | some done ↦ elim done.outcome [
        | ok _ ↦ some (commit_record p done.state)
        | err e ↦
            if is_invalid e
            then some (commit_record p done.state)
            else some (record { state = done.state; committed = false; outcome = err e })
      ]
    ]
  ]

-- One poll: the record that it fetched, if any, with the value, and whether the context is over when
-- the record has been handled.
pub record Poll (S : Type 0) : Type 0 where
  pub value : Option Text
  pub ports : Ports S
  pub over : Bool

-- The state, the values whose offsets were committed, and what `Run` returned, `none` if it still
-- polls.
pub record Ran (S : Type 0) : Type 0 where
  pub state : S
  pub committed : List Text
  pub returned : Option (Outcome (Unit {0}))

abbrev pub committed_by : {S : Type 0} → Handled S → Text → List Text
committed_by h value = if h.committed then value ∷ [] else []

abbrev pub after_record : {S : Type 0} → Handled S → Text → Option (Ran S) → Option (Ran S)
after_record h value none = none
after_record h value (some rest) =
    some (record rest { committed = committed_by h value ++ rest.committed })

abbrev pub ended : {S : Type 0} → Handled S → Text → Outcome (Unit {0}) → Option (Ran S)
ended h value outcome =
    some (record { state = h.state; committed = committed_by h value; returned = some outcome })

-- Run
unfoldable pub run_consumer : {S : Type 0} → Consumer → List (Poll S) → S → Option (Ran S)
unfolding handle_record
run_consumer c [] s = some (record { state = s; committed = []; returned = none })
run_consumer c (poll ∷ polls) s = elim poll.value [
  | none ↦
      if poll.over
      then some (record { state = s; committed = []; returned = some (ok tt) })
      else run_consumer c polls s
  | some value ↦ elim (handle_record c poll.ports value s) [
    | none ↦ none
    | some h ↦
        let rest = run_consumer c polls h.state in
        if poll.over
        then ended h value (ok tt)
        else elim h.outcome [ err e ↦ ended h value (err e) | ok _ ↦ after_record h value rest ]
  ]
]
