-- ===== src/Gateway/AccessEvents/Published.antt =====
-- The way of an event from the gateway to the analytics service.
use edge_guard.Base.{
  ◌≡◌, refl, arith, true, false, ◌++◌, [], Option, some, List, Result-cases, inl, inr, Result, ok,
  err, is_empty,
}
use edge_guard.Text.{Text, trim_space, codes}
use edge_guard.Analytics.Event.{GatewayAccessEvent, validate}
use edge_guard.Analytics.Consumer.{Ports}
use edge_guard.Analytics.Consumer.Delivery.{decode_gateway_access_event}
use edge_guard.Gateway.Handler.{Request, Metadata, get_header}
use edge_guard.Gateway.AccessEvents.{
  Moment, request_id_header, request_id, access_event, Record, access_event_record,
  publish_gateway_access,
}

-- What the gateway publishes of an event, the consumer decodes to that event, if both quote alike and
-- the decoder reads back what the encoder wrote: no published record is skipped as invalid.
pub decode-publish_gateway_access :
    {S : Type 0} (p : Ports S) (marshal : GatewayAccessEvent → Result Text Text)
    (traced : List (Text × Text)) (topic : Text) (e : GatewayAccessEvent) (r : Record)
    → ((text : Text) → marshal e ≡ ok text → p.unmarshal text ≡ ok e)
    → publish_gateway_access p.quote marshal traced topic e ≡ ok r
    → decode_gateway_access_event p r.value ≡ ok e
unfolding publish_gateway_access access_event_record decode_gateway_access_event
decode-publish_gateway_access p marshal traced topic e r back h =
    elim (Result-cases (validate p.quote e)) [
      | inr (text, v) ↦ ground arith
      | inl (_, v) ↦ elim (Result-cases (marshal e)) [
        | inr (text, j) ↦ ground arith
        | inl (text, j) ↦ ground (arith, back text j)
      ]
    ]

blank_refused :
    (quote : Text → Text) (e : GatewayAccessEvent)
    → is_empty (trim_space e.request_id) ≡ true
    → (text : Text) × (validate quote e ≡ err text)
unfolding validate
blank_refused quote e h = elim (Result-cases (validate quote e)) [
  | inr (text, v) ↦ (text, v)
  | inl (_, v) ↦ ([], ground arith)
]

-- A client that sends a request id which is white space only, such as a no-break space, keeps the
-- event of its request from being published, whatever the request is and however it is answered.
pub publish_of_blank_id :
    (sha256 : Text → Text) (split_host_port : Text → Option Text) (m : Moment) (metadata : Metadata)
    (req : Request) (quote : Text → Text) (marshal : GatewayAccessEvent → Result Text Text)
    (traced : List (Text × Text)) (topic : Text) (e : GatewayAccessEvent)
    → access_event sha256 split_host_port m metadata req ≡ some e
    → is_empty (get_header request_id_header req.headers) ≡ false
    → is_empty (trim_space (get_header request_id_header req.headers)) ≡ true
    → (text : Text) × (publish_gateway_access quote marshal traced topic e ≡ err text)
unfolding access_event request_id publish_gateway_access
publish_of_blank_id sha256 split_host_port m metadata req quote marshal traced topic e h given
      blank =
    let (text, v) = blank_refused quote e (ground arith) in
    (codes "validate gateway access event: " ++ text, rw (publish_gateway_access, v) refl)
