-- ===== src/Analytics/Store.antt =====
-- internal/analytics/infrastructure/postgres/gateway_access.go: `StoreGatewayAccess`, the transaction
-- that stores an event and counts it into the statistics of its hour. The two tables are those of
-- migrations/000004, with their CHECKs and the ranges of their integers; the rows of the events come
-- latest first. The cast to `uuid` is a parameter, `none` where Postgres refuses the text, and so are
-- the case tables of Unicode. A database fault, at whichever statement, rolls the transaction back.
pub mod Recount
pub mod Consistent
pub mod Plain
use edge_guard.Base.{
  ℕ, ◌+◌, ◌-◌, ◌^◌, ℤ, pos, negsuc, int_le, ◌/ℤ◌, Bool, true, false, not, ◌&&◌, ◌||◌, Option, none,
  some, List, [], ◌∷◌, if◌then◌else◌, ◌==◌, ltb, is_empty, Result, ok, err, Error, wrap, opaque,
  sentinel, in_context, ◌>>=◌, ◌>>◌, guard,
}
use edge_guard.Base.Time.{Time, hour, microsecond, truncate}
use edge_guard.Text.{Text, ◌≟◌, codes, trim_space, to_upper}
use edge_guard.Analytics.Event.{GatewayAccessEvent, int_eq, client_type_api_key, client_type_ip}

-- the errors of the use cases
pub data Sentinel : Type 0 where
  invalid_gateway_access_event invalid_project_id invalid_time_range : Sentinel
  analytics_range_too_large invalid_limit : Sentinel

abbrev pub Outcome : Type 0 → Type 0
Outcome A = Result (Error Sentinel) A

pub record IngestionResult : Type 0 where
  pub duplicate : Bool
  pub aggregated : Bool

-- a row of `gateway_access_events`
pub record EventRow : Type 0 where
  pub event_id : Text
  pub schema_version : ℤ
  pub occurred_at : Time
  pub request_id : Text
  pub project_id : Option Text
  pub route_name : Option Text
  pub route_path_prefix : Option Text
  pub method : Text
  pub request_path : Text
  pub status_code : ℤ
  pub duration_ms : ℕ
  pub response_bytes : ℕ
  pub client_type : Text
  pub client_id : Text
  pub auth_required : Bool
  pub rate_limit_enabled : Bool
  pub rate_limited : Bool

-- the primary key of `gateway_route_stats_hourly`
pub record Key : Type 0 where
  pub bucket_start : Time
  pub project_id : Text
  pub route_name : Text
  pub route_path_prefix : Text
  pub method : Text

pub record Counts : Type 0 where
  pub request_count : ℕ
  pub status_1xx : ℕ
  pub status_2xx : ℕ
  pub status_3xx : ℕ
  pub status_4xx : ℕ
  pub status_5xx : ℕ
  pub rate_limited : ℕ
  pub total_duration_ms : ℕ
  pub max_duration_ms : ℕ
  pub total_response_bytes : ℕ

abbrev pub StatsRow : Type 0
StatsRow = Key × Counts

pub record Tables : Type 0 where
  pub events : List EventRow
  pub stats : List StatsRow

-- What the database fails at.
pub record Faults : Type 0 where
  pub begin : Option Text
  pub insert : Option Text
  pub upsert : Option Text
  pub commit : Option Text

abbrev pub no_fault : Option Text → Outcome (Unit {0})
no_fault none = ok tt
no_fault (some text) = err (opaque text)

abbrev nullif_empty : Text → Option Text
nullif_empty [] = none
nullif_empty (c ∷ s) = some (c ∷ s)

-- a BIGINT with the CHECK that it is not negative
abbrev pub non_negative : ℤ → Outcome ℕ
non_negative (pos n) = ok n
non_negative (negsuc n) = err (opaque (codes "check constraint"))

abbrev one_if : Bool → ℕ
one_if b = if b then 1 else 0

unfoldable pub should_aggregate : GatewayAccessEvent → Bool
should_aggregate e =
    not (is_empty (trim_space e.project_id))
    && not (is_empty (trim_space e.route_name))
    && not (is_empty (trim_space e.route_path_prefix))

-- statusClassCounts
pub record StatusCounts : Type 0 where
  pub status_1xx : ℕ
  pub status_2xx : ℕ
  pub status_3xx : ℕ
  pub status_4xx : ℕ
  pub status_5xx : ℕ

unfoldable pub status_class_counts : ℤ → StatusCounts
unfolding ◌/ℤ◌
status_class_counts status_code =
    let class = status_code /ℤ 100 in
    record {
      status_1xx = one_if (int_eq class (pos 1));
      status_2xx = one_if (int_eq class (pos 2));
      status_3xx = one_if (int_eq class (pos 3));
      status_4xx = one_if (int_eq class (pos 4));
      status_5xx = one_if (int_eq class (pos 5));
    }

abbrev pub greatest : ℕ → ℕ → ℕ
greatest a b = if ltb a b then b else a

-- DO UPDATE SET
unfoldable pub merge : Counts → Counts → Counts
merge old excluded = record {
  request_count = old.request_count + 1;
  status_1xx = old.status_1xx + excluded.status_1xx;
  status_2xx = old.status_2xx + excluded.status_2xx;
  status_3xx = old.status_3xx + excluded.status_3xx;
  status_4xx = old.status_4xx + excluded.status_4xx;
  status_5xx = old.status_5xx + excluded.status_5xx;
  rate_limited = old.rate_limited + excluded.rate_limited;
  total_duration_ms = old.total_duration_ms + excluded.total_duration_ms;
  max_duration_ms = greatest old.max_duration_ms excluded.max_duration_ms;
  total_response_bytes = old.total_response_bytes + excluded.total_response_bytes;
}

-- a sum that leaves the range of BIGINT is an error of the statement
abbrev fits : Counts → Bool
fits c =
    ltb c.request_count (2 ^ 63)
    && ltb c.status_1xx (2 ^ 63)
    && ltb c.status_2xx (2 ^ 63)
    && ltb c.status_3xx (2 ^ 63)
    && ltb c.status_4xx (2 ^ 63)
    && ltb c.status_5xx (2 ^ 63)
    && ltb c.rate_limited (2 ^ 63)
    && ltb c.total_duration_ms (2 ^ 63)
    && ltb c.total_response_bytes (2 ^ 63)

abbrev out_of_range : Error Sentinel
out_of_range = opaque (codes "bigint out of range")

unfoldable pub same_key : Key → Key → Bool
same_key a b =
    a.bucket_start == b.bucket_start
    && a.project_id ≟ b.project_id
    && a.route_name ≟ b.route_name
    && a.route_path_prefix ≟ b.route_path_prefix
    && a.method ≟ b.method

unfoldable pub upsert : Key → Counts → List StatsRow → Outcome (List StatsRow)
unfolding merge same_key
upsert k excluded [] = ok ((k, excluded) ∷ [])
upsert k excluded ((l, old) ∷ rows) =
    let rest = upsert k excluded rows in
    if same_key l k
    then guard (fits (merge old excluded)) out_of_range >> ok ((l, merge old excluded) ∷ rows)
    else rest >>= λ rows'. ok ((l, old) ∷ rows')

unfoldable pub has_event : Text → List EventRow → Bool
has_event id [] = false
has_event id (row ∷ rows) = row.event_id ≟ id || has_event id rows

module _ (unicode : Text → Text) (cast_uuid : Text → Option Text) where
  abbrev uuid : Text → Outcome Text
  uuid text = elim (cast_uuid text) [
    | none ↦ err (opaque (codes "invalid input syntax for type uuid"))
    | some u ↦ ok u
  ]

  -- NULLIF(…, '')::uuid
  abbrev uuid_or_null : Text → Outcome (Option Text)
  uuid_or_null [] = ok none
  uuid_or_null (c ∷ s) = do u ← uuid (c ∷ s); ok (some u)

  abbrev method_of : GatewayAccessEvent → Text
  method_of e = to_upper unicode (trim_space e.method)

  -- The row of an event; a timestamp is kept to the microsecond.
  unfoldable pub row_of : GatewayAccessEvent → Outcome EventRow
  row_of e = do
    project_id ← uuid_or_null (trim_space e.project_id)
    guard (int_le (pos 1) e.schema_version && int_le e.schema_version (pos (2 ^ 31 - 1)))
        (opaque (codes "schema_version"))
    guard (int_le (pos 100) e.status_code && int_le e.status_code (pos 599))
        (opaque (codes "status_code"))
    duration_ms ← non_negative e.duration_ms
    response_bytes ← non_negative e.response_bytes
    guard (e.client_type ≟ client_type_api_key || e.client_type ≟ client_type_ip)
        (opaque (codes "client_type"))
    ok (record {
      event_id = e.event_id;
      schema_version = e.schema_version;
      occurred_at = truncate e.occurred_at microsecond;
      request_id = e.request_id;
      project_id = project_id;
      route_name = nullif_empty (trim_space e.route_name);
      route_path_prefix = nullif_empty (trim_space e.route_path_prefix);
      method = method_of e;
      request_path = e.request_path;
      status_code = e.status_code;
      duration_ms = duration_ms;
      response_bytes = response_bytes;
      client_type = e.client_type;
      client_id = e.client_id;
      auth_required = e.auth_required;
      rate_limit_enabled = e.rate_limit_enabled;
      rate_limited = e.rate_limited;
    })

  -- INSERT … ON CONFLICT (event_id) DO NOTHING; `none` if no row came back.
  unfoldable pub insert_event :
      GatewayAccessEvent → List EventRow → Outcome (Option (List EventRow))
  unfolding row_of has_event
  insert_event e rows = do
    row ← row_of e
    ok (if has_event e.event_id rows then none else some (row ∷ rows))

  unfoldable pub stats_key : GatewayAccessEvent → Outcome Key
  stats_key e = do
    project_id ← uuid (trim_space e.project_id)
    ok (record {
      bucket_start = truncate e.occurred_at hour;
      project_id = project_id;
      route_name = trim_space e.route_name;
      route_path_prefix = trim_space e.route_path_prefix;
      method = method_of e;
    })

  -- VALUES (…)
  unfoldable pub stats_values : GatewayAccessEvent → Outcome Counts
  unfolding status_class_counts
  stats_values e = do
    let counts = status_class_counts e.status_code
    duration_ms ← non_negative e.duration_ms
    response_bytes ← non_negative e.response_bytes
    ok (record {
      request_count = 1;
      status_1xx = counts.status_1xx;
      status_2xx = counts.status_2xx;
      status_3xx = counts.status_3xx;
      status_4xx = counts.status_4xx;
      status_5xx = counts.status_5xx;
      rate_limited = one_if e.rate_limited;
      total_duration_ms = duration_ms;
      max_duration_ms = duration_ms;
      total_response_bytes = response_bytes;
    })

  unfoldable pub aggregate : GatewayAccessEvent → List StatsRow → Outcome (List StatsRow)
  unfolding stats_key stats_values upsert
  aggregate e rows = do key ← stats_key e; values ← stats_values e; upsert key values rows

  -- The transaction up to its end; an error rolls it back.
  unfoldable pub store_transaction :
      Faults → GatewayAccessEvent → Tables → Outcome (Tables × IngestionResult)
  unfolding insert_event should_aggregate aggregate
  store_transaction f e db = do
    in_context "begin gateway analytics transaction" (no_fault f.begin)
    inserted ←
        in_context "insert gateway access event" (no_fault f.insert >> insert_event e db.events)
    elim inserted [
      | none ↦ ok (db, record { duplicate = true; aggregated = false })
      | some events ↦ do
        stats ←
            in_context "upsert gateway route hourly stats" (
              if should_aggregate e then no_fault f.upsert >> aggregate e db.stats else ok db.stats)
        in_context "commit gateway analytics transaction" (no_fault f.commit)
        ok (
          record { events = events; stats = stats },
          record { duplicate = false; aggregated = should_aggregate e },
        )
    ]

  unfoldable pub store_gateway_access :
      Faults → GatewayAccessEvent → Tables → Tables × Outcome IngestionResult
  unfolding store_transaction
  store_gateway_access f e db = elim (store_transaction f e db) [
    | ok (db', result) ↦ (db', ok result)
    | err fault ↦ (db, err fault)
  ]
