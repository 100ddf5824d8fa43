-- ===== src/Analytics/Usecase.antt =====
-- internal/analytics/usecase/process_gateway_access.go
use edge_guard.Base.{Option, none, some, ok, err, sentinel, noted, opaque, in_context}
use edge_guard.Text.{Text, codes}
use edge_guard.Analytics.Event.{GatewayAccessEvent, validate}
use edge_guard.Analytics.Store.{Outcome, IngestionResult, invalid_gateway_access_event}

-- GatewayAccessRepository, on a state of its own
abbrev pub Repository : Type 0 → Type 0
Repository S = GatewayAccessEvent → S → S × Outcome IngestionResult

-- ProcessGatewayAccess
unfoldable pub process_gateway_access :
    {S : Type 0} → (Text → Text) → Option (Repository S) → Repository S
unfolding validate
process_gateway_access quote repository e s = elim (validate quote e) [
  | err text ↦ (s, err (noted (sentinel invalid_gateway_access_event) (opaque text)))
  | ok _ ↦ elim repository [
    | none ↦ (s, err (opaque (codes "gateway access repository is not configured")))
    | some store ↦
        let (s', result) = store e s in (s', in_context "store gateway access event" result)
  ]
]
