-- ===== src/Gateway/AccessEvents.antt =====
-- The events of requests: the middleware `AccessEvents` of internal/gateway/delivery/http/v1/access_events.go
-- with `RequestID` of middleware_request_id.go, the use case `PublishAccessEvent`, and the producer of
-- internal/gateway/infrastructure/kafka/access_event_producer.go. Random ids, SHA-256 and JSON are ports.
-- What Kafka makes of a record that was handed to it, and tracing, are left out.
pub mod Published
mod Examples
use edge_guard.Base.{
  ℕ, ℤ, pos, Bool, true, false, not, ◌&&◌, ◌||◌, Option, none, some, List, [], ◌∷◌, ◌++◌,
  if◌then◌else◌, is_empty, Result, ok, err, int_le,
}
use edge_guard.Base.Time.{Time}
use edge_guard.Text.{Text, codes, ◌≟◌, trim_space}
use edge_guard.Text.Format.{decimal, hex_encode}
use edge_guard.Analytics.Event.{
  GatewayAccessEvent, gateway_access_event_schema_version, client_type_api_key, client_type_ip,
  validate,
}
use edge_guard.Gateway.Handler.{Request, Metadata, get_header, direct_client_ip}

abbrev pub request_id_header : Text
request_id_header = codes "X-Request-Id"

unfoldable pub is_observability_endpoint : Text → Bool
is_observability_endpoint path =
    path ≟ codes "/health" || path ≟ codes "/ready" || path ≟ codes "/metrics"

-- What one request meets: the new ids, the clock, and what the response recorder has counted.
pub record Moment : Type 0 where
  pub new_request_id : Text
  pub new_access_event_id : Text
  pub completed_at : Time
  pub duration_ms : ℕ
  pub status : ℤ
  pub bytes : ℤ

-- The id of a request: the client's, or a new one.
unfoldable pub request_id : Moment → Request → Text
unfolding get_header
request_id m req =
    let given = get_header request_id_header req.headers in
    if is_empty given then m.new_request_id else given

unfoldable pub access_event_client : (Text → Text) → Text → Text → Text × Text
unfolding hex_encode
access_event_client sha256 client_ip api_key_id =
    if not (is_empty api_key_id)
    then (client_type_api_key, api_key_id)
    else (client_type_ip, hex_encode (sha256 client_ip))

-- The event of a request, `none` for the endpoints that are not observed.
unfoldable pub access_event :
    (Text → Text) → (Text → Option Text) → Moment → Metadata → Request → Option GatewayAccessEvent
unfolding is_observability_endpoint request_id access_event_client direct_client_ip
access_event sha256 split_host_port m metadata req =
    let (client_type, client_id) =
      access_event_client sha256 (direct_client_ip split_host_port req) metadata.api_key_id in
    if is_observability_endpoint req.path
    then none
    else some (record {
      schema_version = gateway_access_event_schema_version;
      event_id = m.new_access_event_id;
      occurred_at = m.completed_at;
      request_id = request_id m req;
      project_id = metadata.project_id;
      route_name = metadata.route_name;
      route_path_prefix = metadata.route_path_prefix;
      method = req.method;
      request_path = req.path;
      status_code = m.status;
      duration_ms = pos m.duration_ms;
      response_bytes = m.bytes;
      client_type = client_type;
      client_id = client_id;
      auth_required = metadata.auth_required;
      rate_limit_enabled = metadata.rate_limit_enabled;
      rate_limited = metadata.rate_limited;
    })

pub record Record : Type 0 where
  pub topic : Text
  pub key : Text
  pub value : Text
  pub timestamp : Time
  pub headers : List (Text × Text)

-- accessEventRecord, with the headers that tracing adds
unfoldable pub access_event_record :
    (GatewayAccessEvent → Result Text Text)
    → List (Text × Text)
    → Text
    → GatewayAccessEvent
    → Result Text Record
unfolding trim_space decimal
access_event_record marshal traced topic e = elim (marshal e) [
  | err text ↦ err (codes "marshal gateway access event: " ++ text)
  | ok payload ↦ ok (record {
    topic = topic;
    key =
        if not (is_empty e.project_id) && not (is_empty e.route_name)
        then e.project_id ++ (codes ":" ++ e.route_name)
        else trim_space e.request_id;
    value = payload;
    timestamp = e.occurred_at;
    headers =
        (codes "event-type", codes "gateway.access")
        ∷ (codes "schema-version", decimal e.schema_version)
        ∷ traced;
  })
]

-- PublishGatewayAccess: the record that is handed to Kafka.
unfoldable pub publish_gateway_access :
    (Text → Text)
    → (GatewayAccessEvent → Result Text Text)
    → List (Text × Text)
    → Text
    → GatewayAccessEvent
    → Result Text Record
unfolding validate access_event_record
publish_gateway_access quote marshal traced topic e = elim (validate quote e) [
  | err text ↦ err (codes "validate gateway access event: " ++ text)
  | ok _ ↦ access_event_record marshal traced topic e
]

-- PublishAccessEvent, with or without a publisher
unfoldable pub publish_access_event :
    Option (GatewayAccessEvent → Result Text Record)
    → GatewayAccessEvent
    → Result Text (Option Record)
publish_access_event none e = ok none
publish_access_event (some publish) e = elim (publish e) [
  | err text ↦ err text
  | ok r ↦ ok (some r)
]
