-- ===== src/Analytics/Consumer.antt =====
-- internal/analytics/infrastructure/kafka/consumer.go: the consumer that feeds the access events of a
-- topic to the use case. The Kafka client, the JSON decoder and the cancellation of the context are
-- ports; tracing and logging are left out. The number of attempts in an error's text is left out.
pub mod Delivery
pub mod Retries
pub mod Attempts
pub mod Ingested
pub mod Ordered
use edge_guard.Base.{
  ℕ, zero, suc, ◌+◌, ℤ, pos, int_lt, int_le, ◌+ℤ◌, ◌*ℤ◌, ◌/ℤ◌, int64, Bool, true, false, not, ◌||◌,
  String, Option, none, some, List, [], ◌∷◌, if◌then◌else◌, is_empty, Result, ok, err, Error, wrap,
  opaque, is, ◌>>=◌, ◌>>◌, guard, in_context,
}
use edge_guard.Text.{Text, codes, contains, trim_space}
use edge_guard.Analytics.Event.{GatewayAccessEvent, int_eq, validate}
use edge_guard.Analytics.Store.{
  Outcome, Sentinel, invalid_gateway_access_event, IngestionResult, no_fault,
}
use edge_guard.Analytics.Usecase.{Repository}

-- The loop of `normalized`, with the items that it has seen.
unfoldable pub normalized_from : List Text → List Text → List Text
unfolding contains trim_space
normalized_from seen [] = []
normalized_from seen (value ∷ values) =
    let item = trim_space value in
    let skipped = is_empty item || contains item seen in
    let rest = normalized_from (if skipped then seen else item ∷ seen) values in
    if skipped then rest else item ∷ rest

unfoldable pub normalized : List Text → List Text
unfolding normalized_from
normalized values = normalized_from [] values

pub record Config : Type 0 where
  pub brokers : List Text
  pub topic : Text
  pub consumer_group : Text
  pub client_id : Text
  pub retry_min : ℤ
  pub retry_max : ℤ
  pub max_process_attempts : ℤ

-- what the Kafka client is made with
pub record ClientConfig : Type 0 where
  pub brokers : List Text
  pub client_id : Text
  pub consumer_group : Text
  pub topic : Text

pub record Consumer : Type 0 where
  pub client : ClientConfig
  pub retry_min : ℤ
  pub retry_max : ℤ
  pub max_process_attempts : ℤ

abbrev required : Bool → String → Outcome (Unit {0})
required test message = guard test (opaque (codes message))

-- New. The flags say whether there is a processor and a logger; `new_client` and `ping` give the
-- client's errors.
unfoldable pub new_consumer :
    (ClientConfig → Option Text)
    → (ClientConfig → Option Text)
    → Bool
    → Bool
    → Config
    → Outcome Consumer
unfolding normalized
new_consumer new_client ping processor log config = do
  let brokers = normalized config.brokers
  required (not (is_empty brokers)) "Kafka brokers are required"
  let topic = trim_space config.topic
  required (not (is_empty topic)) "Kafka topic is required"
  let consumer_group = trim_space config.consumer_group
  required (not (is_empty consumer_group)) "Kafka consumer group is required"
  let client_id = trim_space config.client_id
  required (not (is_empty client_id)) "Kafka client ID is required"
  required processor "gateway access processor is required"
  required log "logger is required"
  required (int_lt (pos 0) config.retry_min) "retry minimum must be positive"
  required (int_le config.retry_min config.retry_max)
      "retry maximum must be greater than or equal to retry minimum"
  required (int_lt (pos 0) config.max_process_attempts) "maximum process attempts must be positive"
  let client : ClientConfig = record {
    brokers = brokers;
    client_id = client_id;
    consumer_group = consumer_group;
    topic = topic;
  }
  in_context "create Kafka analytics consumer" (no_fault (new_client client))
  in_context "ping Kafka analytics broker" (no_fault (ping client))
  ok (record {
    client = client;
    retry_min = config.retry_min;
    retry_max = config.retry_max;
    max_process_attempts = config.max_process_attempts;
  })

unfoldable pub next_retry_delay : ℤ → ℤ → ℤ
unfolding ◌/ℤ◌ ◌*ℤ◌ int64
next_retry_delay current maximum =
    if int_le maximum current
    then maximum
    else if int_lt (maximum /ℤ 2) current
    then maximum
    else int64 (current *ℤ 2)

abbrev is_refusal : Sentinel → Bool
is_refusal invalid_gateway_access_event = true
is_refusal _ = false

-- errors.Is(err, usecase.ErrInvalidGatewayAccessEvent)
unfoldable pub is_invalid : Error Sentinel → Bool
unfolding is
is_invalid e = is is_refusal e

-- What happens to one record besides: the processor at each attempt, whether the context is over
-- after an attempt or during the wait that follows, and the fault of a commit.
pub record Ports (S : Type 0) : Type 0 where
  pub unmarshal : Text → Result Text GatewayAccessEvent
  pub quote : Text → Text
  pub process : ℕ → Repository S
  pub over_after : ℕ → Option Text
  pub over_in_wait : ℕ → Option Text
  pub commit_fault : Option Text
  pub over_at_commit : Option Text

-- The state afterwards, the calls of the processor, the waits, and the result.
pub record Processed (S : Type 0) : Type 0 where
  pub state : S
  pub calls : ℕ
  pub delays : List ℤ
  pub outcome : Outcome IngestionResult

abbrev is_last : ℕ → ℤ → Bool
is_last attempt max = int_eq (pos attempt) max

module _ {S : Type 0} (c : Consumer) (p : Ports S) (event : GatewayAccessEvent) where
  abbrev finished : S → Outcome IngestionResult → Option (Processed S)
  finished s outcome = some (record { state = s; calls = 1; delays = []; outcome = outcome })

  abbrev again : ℤ → Option (Processed S) → Option (Processed S)
  again delay none = none
  again delay (some rest) =
      some (record rest { calls = rest.calls + 1; delays = delay ∷ rest.delays })

  -- The loop of `processWithRetry` from an attempt on; `none` if the rounds run out.
  unfoldable pub retry : ℕ → ℕ → ℤ → S → Option (Processed S)
  unfolding next_retry_delay is_invalid
  retry zero attempt delay s = none
  retry (suc rounds) attempt delay s =
      let (s', result) = p.process attempt event s in
      let rest = retry rounds (attempt + 1) (next_retry_delay delay c.retry_max) s' in
      if int_le (pos attempt) c.max_process_attempts
      then elim result [
        | ok r ↦ finished s' (ok r)
        | err e ↦ if is_invalid e then finished s' (err e) else elim (p.over_after attempt) [
          | some over ↦ finished s' (err (opaque over))
          | none ↦
              if is_last attempt c.max_process_attempts
              then finished s' (err (wrap "process gateway access event after attempts" e))
              else elim (p.over_in_wait attempt) [
                | some over ↦ some (record {
                  state = s';
                  calls = 1;
                  delays = delay ∷ [];
                  outcome = err (opaque over);
                })
                | none ↦ again delay rest
              ]
        ]
      ]
      else some (record {
        state = s;
        calls = 0;
        delays = [];
        outcome = err (opaque (codes "gateway access event processing attempts exhausted"));
      })
