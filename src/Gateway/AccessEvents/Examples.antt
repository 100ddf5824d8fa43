-- ===== src/Gateway/AccessEvents/Examples.antt =====
-- Tests of access events.
use edge_guard.Base.{
  pos, true, false, Option, none, some, [], ◌∷◌, Result, ok, err, ◌≡◌, refl, is_empty,
}
use edge_guard.Text.{Text, codes, trim_space, ◌≟◌}
use edge_guard.Analytics.Event.{GatewayAccessEvent, client_type_api_key}
use edge_guard.Gateway.Handler.{Request, Metadata, no_metadata, get_header}
use edge_guard.Gateway.AccessEvents.{
  Moment, request_id_header, access_event, publish_gateway_access,
}
use edge_guard.Gateway.AccessEvents.Published.{publish_of_blank_id}

-- a no-break space
abbrev blank : Text
blank = 0xC2 ∷ 0xA0 ∷ []

abbrev request : Request
request = record {
  method = codes "GET";
  path = codes "/orders";
  remote_addr = codes "10.0.0.1:9";
  headers = (request_id_header, blank) ∷ [];
}

abbrev moment : Moment
moment = record {
  new_request_id = codes "r";
  new_access_event_id = codes "e";
  completed_at = 7;
  duration_ms = 3;
  status = pos 200;
  bytes = pos 10;
}

abbrev metadata : Metadata
metadata = record no_metadata { api_key_id = codes "k1" }

abbrev event : GatewayAccessEvent
event = record {
  schema_version = pos 1;
  event_id = codes "e";
  occurred_at = 7;
  request_id = blank;
  project_id = [];
  route_name = [];
  route_path_prefix = [];
  method = codes "GET";
  request_path = codes "/orders";
  status_code = pos 200;
  duration_ms = pos 3;
  response_bytes = pos 10;
  client_type = client_type_api_key;
  client_id = codes "k1";
  auth_required = false;
  rate_limit_enabled = false;
  rate_limited = false;
}

abbrev digest : Text → Text
digest _ = 171 ∷ []

abbrev no_port : Text → Option Text
no_port _ = none

built : access_event digest no_port moment metadata request ≡ some event
unfolding access_event ◌≟◌
built = refl

given : is_empty (get_header request_id_header request.headers) ≡ false
unfolding get_header ◌≟◌
given = refl

white : is_empty (trim_space (get_header request_id_header request.headers)) ≡ true
unfolding get_header trim_space ◌≟◌
white = refl

abbrev marshal : GatewayAccessEvent → Result Text Text
marshal _ = ok (codes "{}")

abbrev quote : Text → Text
quote t = t

publish_of_blank_id_example :
    (text : Text) × (publish_gateway_access quote marshal [] (codes "access") event ≡ err text)
publish_of_blank_id_example =
    publish_of_blank_id digest no_port moment metadata request quote marshal [] (codes "access")
      event built given white
