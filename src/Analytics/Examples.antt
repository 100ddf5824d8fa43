-- ===== src/Analytics/Examples.antt =====
-- Tests of the analytics service on concrete events.
use edge_guard.Base.{
  ℕ, ◌*◌, ◌+◌, ◌<◌, ◌≤◌, ◌≤ℤ◌, pos, Bool, true, false, Option, none, some, List, [], ◌∷◌, ◌++◌, map,
  length, All, if◌then◌else◌, ltb, Result, ok, err, Error, ◌≡◌, ◌⊎◌, refl, arith,
}
use edge_guard.Base.Time.{Time, hour, truncate}
use edge_guard.Text.{Text, codes, ◌≟◌, trim_space, to_upper}
use edge_guard.Text.Format.{is_canonical_uuid}
use edge_guard.Analytics.Event.{GatewayAccessEvent, client_type_ip}
use edge_guard.Analytics.Store.{
  Outcome, Sentinel, Key, Counts, Tables, Faults, store_gateway_access,
}
use edge_guard.Analytics.Store.Recount.{lookup, recount, tally}
use edge_guard.Analytics.Store.Consistent.{no_tables, store_all, lookup-store_all, redelivered}
use edge_guard.Analytics.Query.{
  RouteStatsFilter, max_analytics_range, normalize_stats_filter, get_route_stats_summary, Summary,
  summary_of,
}
use edge_guard.Analytics.Query.Totals.{wanted, get_route_stats_summary_lem}
use edge_guard.Analytics.Query.Scan.{IsInt64}
use edge_guard.Analytics.Query.Interval.{IsWidened, normalize_stats_filter-IsWidened}
use edge_guard.Analytics.Consumer.{Config, ClientConfig, Consumer, Processed, new_consumer}
use edge_guard.Analytics.Consumer.Delivery.{process_with_retry, Ran, run_consumer}
use edge_guard.Analytics.Consumer.Retries.{process_with_retry_ends}
use edge_guard.Analytics.Consumer.Attempts.{Circumstances, store_ports}
use edge_guard.Analytics.Consumer.Ingested.{is_ingested, poll_of}
use edge_guard.Analytics.Consumer.Ordered.{fetched, run_consumer_ingests}

abbrev project : Text
project = codes "6ba7b810-9dad-11d1-80b4-00c04fd430c8"

abbrev noon : Time
noon = 700_000 * hour + 12 * hour

abbrev sample : Text → GatewayAccessEvent
sample id = record {
  schema_version = pos 1;
  event_id = id;
  occurred_at = noon + 5_000_000;
  request_id = codes "r1";
  project_id = project;
  route_name = codes "orders";
  route_path_prefix = codes "/orders";
  method = codes "get";
  request_path = codes "/orders/7";
  status_code = pos 404;
  duration_ms = pos 12;
  response_bytes = pos 90;
  client_type = client_type_ip;
  client_id = codes "c";
  auth_required = false;
  rate_limit_enabled = false;
  rate_limited = false;
}

abbrev same : Text → Text
same t = t

abbrev calm : Faults
calm = record { begin = none; insert = none; upsert = none; commit = none }

abbrev late_fault : Faults
late_fault = record { begin = none; insert = none; upsert = none; commit = some (codes "gone") }

-- The first attempt at the second event fails, and the first event comes twice.
abbrev deliveries : List (Faults × GatewayAccessEvent)
deliveries =
    (calm, sample (codes "a"))
    ∷ (late_fault, sample (codes "b"))
    ∷ (calm, sample (codes "a"))
    ∷ (calm, sample (codes "b"))
    ∷ []

abbrev at_noon : Key
at_noon = record {
  bucket_start = noon;
  project_id = project;
  route_name = codes "orders";
  route_path_prefix = codes "/orders";
  method = codes "GET";
}

abbrev map_count : Option Counts → ℕ
map_count none = 0
map_count (some c) = c.request_count

two_requests : map_count (lookup at_noon (store_all same some deliveries no_tables).stats) ≡ 2
unfolding store_all lookup store_gateway_access trim_space ◌≟◌ truncate to_upper
two_requests = refl

lookup-store_all_example :
    lookup at_noon (store_all same some deliveries no_tables).stats
    ≡ recount at_noon (store_all same some deliveries no_tables).events
lookup-store_all_example = lookup-store_all same some deliveries at_noon

stored :
    (store_gateway_access same some calm (sample (codes "a")) no_tables).1
    ≡ ok (record { duplicate = false; aggregated = true })
unfolding store_gateway_access trim_space ◌≟◌
stored = refl

redelivered_example :
    let db' =
      store_all same some deliveries
        (store_gateway_access same some calm (sample (codes "a")) no_tables).0 in
    ((store_gateway_access same some late_fault (sample (codes "a")) db').0 ≡ db')
    × (((store_gateway_access same some late_fault (sample (codes "a")) db').1
          ≡ ok (record { duplicate = true; aggregated = false }))
        ⊎ ((fault : Text) × ((late_fault.begin ≡ some fault) ⊎ (late_fault.insert ≡ some fault))))
redelivered_example =
    redelivered same some calm late_fault (sample (codes "a")) deliveries no_tables
      (record { duplicate = false; aggregated = true }) stored

abbrev given : RouteStatsFilter
given = record {
  project_id = project;
  from = noon + 4;
  to = noon + hour;
  route_name = codes " orders ";
  method = codes "get";
}

abbrev asked : RouteStatsFilter
asked = record {
  project_id = project;
  from = noon;
  to = noon + hour;
  route_name = codes "orders";
  method = codes "GET";
}

normalized : normalize_stats_filter same given ≡ ok asked
unfolding normalize_stats_filter is_canonical_uuid trim_space to_upper
normalized = refl

abbrev kept : Tables
kept = store_all same some deliveries no_tables

abbrev answer : Outcome Summary
answer = get_route_stats_summary some same none given kept.stats

get_route_stats_summary_lem_example :
    (IsInt64 (tally (wanted project asked kept.events))
      × (answer ≡ ok (summary_of (tally (wanted project asked kept.events)))))
    ⊎ (¬ IsInt64 (tally (wanted project asked kept.events))
        × ((e : Error Sentinel) × (answer ≡ err e)))
get_route_stats_summary_lem_example =
    get_route_stats_summary_lem same some deliveries given asked project normalized refl

normalize_stats_filter-IsWidened_example :
    IsWidened (noon + 4) (noon + hour) noon (noon + hour)
    × (noon + hour < noon + max_analytics_range + 2 * hour)
    × (noon ≤ truncate (noon + 9) hour)
    × (truncate (noon + 9) hour < noon + hour)
normalize_stats_filter-IsWidened_example =
    normalize_stats_filter-IsWidened same given asked (noon + 9) normalized (omega arith)
      (omega arith)

abbrev config : Config
config = record {
  brokers = codes " k1:9092" ∷ codes "k1:9092" ∷ [];
  topic = codes "access";
  consumer_group = codes "g";
  client_id = codes "c";
  retry_min = pos 500;
  retry_max = pos 1200;
  max_process_attempts = pos 3;
}

abbrev consumer : Consumer
consumer = record {
  client = record {
    brokers = codes "k1:9092" ∷ [];
    client_id = codes "c";
    consumer_group = codes "g";
    topic = codes "access";
  };
  retry_min = pos 500;
  retry_max = pos 1200;
  max_process_attempts = pos 3;
}

abbrev reachable : ClientConfig → Option Text
reachable _ = none

made : new_consumer reachable reachable true true config ≡ ok consumer
unfolding new_consumer ◌≟◌
made = refl

abbrev decoder : Text → Result Text GatewayAccessEvent
decoder value = ok (sample value)

-- The first two attempts fail at the commit of the transaction.
abbrev faults_of : ℕ → Faults
faults_of attempt = if ltb attempt 3 then late_fault else calm

abbrev troubled : Circumstances
troubled = record {
  faults = faults_of;
  over_after = λ _. none;
  over_in_wait = λ _. none;
  commit_fault = none;
  over_at_commit = none;
}

process_with_retry_ends_example :
    (done : Processed Tables) × (process_with_retry consumer
        (store_ports same some decoder same troubled)
        (sample (codes "a"))
        no_tables
      ≡ some done)
    × (pos done.calls ≤ℤ pos 3)
    × (length done.delays ≤ done.calls)
    × All (λ delay. (pos 500 ≤ℤ delay) × (delay ≤ℤ pos 1200)) done.delays
process_with_retry_ends_example =
    process_with_retry_ends reachable reachable true true config consumer
      (store_ports same some decoder same troubled) (sample (codes "a")) no_tables made
      (omega arith)

abbrev polls : List (Option Text × Circumstances × Bool)
polls =
    (some (codes "a"), troubled, false)
    ∷ (none, troubled, false)
    ∷ (some (codes "b"), troubled, true)
    ∷ []

run_consumer_ingests_example :
    (ran : Ran Tables) × (left : List Text) × (run_consumer consumer
        (map (poll_of same some decoder same) polls)
        no_tables
      ≡ some ran)
    × (fetched (map (poll_of same some decoder same) polls) ≡ ran.committed ++ left)
    × All (λ value. is_ingested same some decoder same ran.state value ≡ true) ran.committed
run_consumer_ingests_example =
    run_consumer_ingests same some decoder same reachable reachable true true config consumer polls
      no_tables made (omega arith)
