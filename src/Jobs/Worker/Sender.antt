-- ===== src/Jobs/Worker/Sender.antt =====
-- internal/jobworker/infrastructure/webhook/sender.go: the delivery of a webhook. The URL parser, the
-- resolver, the addresses of package `net` with their tests, the constructor of requests and the HTTP
-- client with its transport are ports; the client gets the dialer that the code gives to the transport.
-- The time limits, and the reading of the response's body, are left out.
use edge_guard.Base.{
  ℤ, pos, int_le, int_lt, Bool, true, false, not, ◌&&◌, ◌||◌, Option, none, some, List, [], ◌∷◌,
  ◌++◌, if◌then◌else◌, is_empty, map, Result, ok, err, ◌>>=◌, ◌>>◌, guard,
}
use edge_guard.Text.{Text, ◌≟◌, codes, contains, trim_space, to_lower, to_upper}
use edge_guard.Text.Format.{decimal}
use edge_guard.Jobs.Payload.{WebhookPayload}
use edge_guard.Jobs.Worker.{Failure, plain, noted, context, permanent}
pub mod Vetted

pub record Target : Type 0 where
  pub scheme : Text
  pub hostname : Text
  pub has_user : Bool
  pub text : Text

-- An http.Request, as the sender fills it in.
pub record WebhookRequest : Type 0 where
  pub method : Text
  pub url : Text
  pub headers : List (Text × Text)
  pub body : Text

pub record Tests (Ip : Type 0) : Type 0 where
  pub is_loopback : Ip → Bool
  pub is_private : Ip → Bool
  pub is_unspecified : Ip → Bool
  pub is_multicast : Ip → Bool
  pub is_link_local_unicast : Ip → Bool
  pub is_link_local_multicast : Ip → Bool

-- What the dialer has tried, and the connection or the failure.
pub record Dialed (Ip : Type 0) : Type 0 where
  pub tried : List Ip
  pub outcome : Result Failure Ip

-- The dialer: host and port split, `none` where `SplitHostPort` fails.
abbrev pub Dialer : Type 0 → Type 0
Dialer Ip = Option (Text × Text) → Dialed Ip

pub record Ports (Ip : Type 0) : Type 0 where
  pub unicode : Text → Text
  pub parse_url : Text → Option Target
  pub parse_ip : Text → Option Ip
  pub lookup : Text → Result Text (List Ip)
  pub tests : Tests Ip
  pub ip_text : Ip → Text
  pub quote : Text → Text
  pub equal_fold : Text → Text → Bool
  pub connect : Ip → Text → Option Text
  pub new_request : Text → Text → Option Text
  pub set_header : List (Text × Text) → Text → Text → List (Text × Text)
  pub get_header : List (Text × Text) → Text → Text
  -- `client.Do`: the status of the response
  pub do_request : Dialer Ip → WebhookRequest → Result Failure ℤ

unfoldable pub allowed_hosts : (Text → Text) → List Text → List Text
unfolding to_lower trim_space
allowed_hosts unicode [] = []
allowed_hosts unicode (given ∷ hosts) =
    let host = to_lower unicode (trim_space given) in
    let rest = allowed_hosts unicode hosts in if is_empty host then rest else host ∷ rest

unfoldable pub retryable_status : ℤ → Bool
retryable_status status =
    int_le (pos 408) status && int_le status (pos 408)
    || int_le (pos 425) status && int_le status (pos 425)
    || int_le (pos 429) status && int_le status (pos 429)
    || int_le (pos 500) status

module _ {Ip : Type 0} (p : Ports Ip) where
  unfoldable pub blocked_ip : Ip → Bool
  blocked_ip ip =
      (p.tests).is_loopback ip
      || (p.tests).is_private ip
      || (p.tests).is_unspecified ip
      || (p.tests).is_multicast ip
      || (p.tests).is_link_local_unicast ip
      || (p.tests).is_link_local_multicast ip

  -- The loop over the addresses: the first that is blocked.
  unfoldable pub first_blocked : List Ip → Option Ip
  unfolding blocked_ip
  first_blocked [] = none
  first_blocked (ip ∷ ips) = let rest = first_blocked ips in if blocked_ip ip then some ip else rest

  unfoldable pub addresses_of : Text → Result Failure (List Ip)
  addresses_of host = elim (p.parse_ip host) [
    | some ip ↦ ok (ip ∷ [])
    | none ↦ elim (p.lookup host) [
      | err text ↦ err (context (codes "resolve webhook host") (plain text))
      | ok ips ↦ ok ips
    ]
  ]

  -- http or https, a host, and no user
  unfoldable pub accepts : Target → Bool
  accepts target =
      not (is_empty target.hostname)
      && (target.scheme ≟ codes "http" || target.scheme ≟ codes "https")
      && not target.has_user

  abbrev invalid_url : Failure
  invalid_url = permanent (plain (codes "invalid webhook url"))

  unfoldable pub parse_target : Text → Result Failure Target
  unfolding accepts
  parse_target raw = elim (p.parse_url (trim_space raw)) [
    | none ↦ err invalid_url
    | some target ↦ if accepts target then ok target else err invalid_url
  ]

  abbrev host_of : Target → Text
  host_of target = to_lower p.unicode target.hostname

  -- The check of the addresses of a host.
  unfoldable pub vet : List Text → Text → List Ip → Result Failure (Unit {0})
  unfolding first_blocked
  vet allowed host ips = if contains host allowed then ok tt else elim (first_blocked ips) [
    | none ↦ ok tt
    | some ip ↦ err (permanent (noted (plain (codes "webhook target is blocked")) (p.ip_text ip)))
  ]

  unfoldable pub resolve_target : List Text → Text → Result Failure (Target × List Ip)
  unfolding parse_target addresses_of vet
  resolve_target allowed raw = do
    target ← parse_target raw
    ips ← addresses_of (host_of target)
    guard (not (is_empty ips)) (plain (codes "resolve webhook host: no addresses"))
    vet allowed (host_of target) ips
    ok (target, ips)

  -- The loop of the dialer; `last` is the error so far.
  unfoldable pub dial_each : Text → List Ip → Text → Dialed Ip
  dial_each port [] last = record {
    tried = [];
    outcome = err (context (codes "dial webhook target") (plain last));
  }
  dial_each port (ip ∷ ips) last = elim (p.connect ip port) [
    | none ↦ record { tried = ip ∷ []; outcome = ok ip }
    | some fault ↦
        let rest = dial_each port ips fault in
        record { tried = ip ∷ rest.tried; outcome = rest.outcome }
  ]

  unfoldable pub fixed_dialer : Text → List Ip → Dialer Ip
  unfolding dial_each
  fixed_dialer expected ips none = record { tried = []; outcome = err (plain (codes "address")) }
  fixed_dialer expected ips (some (host, port)) =
      if p.equal_fold host expected then dial_each port ips [] else record {
        tried = [];
        outcome = err (
            permanent (
              noted (plain (codes "webhook target is blocked"))
                (codes "unexpected redirect host " ++ p.quote host)));
      }

  abbrev set_headers : List (Text × Text) → List (Text × Text) → List (Text × Text)
  set_headers given [] = given
  set_headers given ((name, value) ∷ headers) = set_headers (p.set_header given name value) headers

  unfoldable pub request_headers : WebhookPayload → List (Text × Text)
  request_headers payload =
      let given = set_headers [] payload.headers in
      let typed =
        if not (is_empty payload.body) && is_empty (p.get_header given (codes "Content-Type"))
        then p.set_header given (codes "Content-Type") (codes "application/json")
        else given in
      p.set_header typed (codes "User-Agent") (codes "EdgeGuard-Notification-Worker/1.0")

  abbrev status_note : ℤ → Text
  status_note status = codes "status=" ++ decimal status

  unfoldable pub judge : ℤ → Result Failure (Unit {0})
  unfolding retryable_status
  judge status =
      if int_le (pos 200) status && int_lt status (pos 300)
      then ok tt
      else if retryable_status status
      then err (noted (plain (codes "unexpected webhook response status")) (status_note status))
      else err (
          permanent
            (noted (plain (codes "non-retryable webhook response status")) (status_note status)))

  unfoldable pub deliver : List Text → WebhookPayload → Result Failure (Unit {0})
  unfolding resolve_target request_headers fixed_dialer judge
  deliver allowed payload = do
    (target, ips) ← resolve_target allowed payload.url
    let method = to_upper p.unicode (trim_space payload.method)
    guard (method ≟ codes "POST" || method ≟ codes "PUT" || method ≟ codes "PATCH")
        (permanent (plain (codes "invalid webhook method")))
    elim (p.new_request method target.text) [
      | some text ↦ err (permanent (context (codes "create webhook request") (plain text)))
      | none ↦
          elim (p.do_request (fixed_dialer target.hostname ips) (record {
            method = method;
            url = target.text;
            headers = request_headers payload;
            body = payload.body;
          })) [ err e ↦ err (context (codes "deliver webhook") e) | ok status ↦ judge status ]
    ]
