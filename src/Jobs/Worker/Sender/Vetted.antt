-- ===== src/Jobs/Worker/Sender/Vetted.antt =====
-- Where the sender connects to, and which responses end a job.
use edge_guard.Base.{
  ℤ, pos, negsuc, ◌≤ℤ◌, Result, true, false, Option, none, some, List, [], ◌∷◌, All, Bool-cases,
  Option-cases, Result-cases, ok, err, ◌≡◌, arith, inl, inr, ◌⊎◌,
}
use edge_guard.Text.{Text, contains, to_lower, to_upper, trim_space}
use edge_guard.Jobs.Payload.{WebhookPayload}
use edge_guard.Jobs.Worker.{Failure, is_permanent}
use edge_guard.Jobs.Worker.Sender.{
  Target, WebhookRequest, Ports, blocked_ip, first_blocked, addresses_of, vet, parse_target,
  resolve_target, dial_each, fixed_dialer, request_headers, deliver, judge, retryable_status,
}

module _ {Ip : Type 0} (p : Ports Ip) where
  -- an address of none of the six kinds
  pub record IsPublic (ip : Ip) : Type 0 where
    pub not_loopback : (p.tests).is_loopback ip ≡ false
    pub not_private : (p.tests).is_private ip ≡ false
    pub not_unspecified : (p.tests).is_unspecified ip ≡ false
    pub not_multicast : (p.tests).is_multicast ip ≡ false
    pub not_link_local_unicast : (p.tests).is_link_local_unicast ip ≡ false
    pub not_link_local_multicast : (p.tests).is_link_local_multicast ip ≡ false

  blocked_ip-IsPublic : (ip : Ip) → blocked_ip p ip ≡ false → IsPublic ip
  unfolding blocked_ip
  blocked_ip-IsPublic ip h = record {
    not_loopback = ground arith;
    not_private = ground arith;
    not_unspecified = ground arith;
    not_multicast = ground arith;
    not_link_local_unicast = ground arith;
    not_link_local_multicast = ground arith;
  }

  none_blocked : (ips : List Ip) → first_blocked p ips ≡ none → All IsPublic ips
  unfolding first_blocked
  none_blocked [] h = tt
  none_blocked (ip ∷ ips) h = elim (Bool-cases (blocked_ip p ip)) [
    | inl blocked ↦ ground arith
    | inr open_to_all ↦ (blocked_ip-IsPublic ip open_to_all, none_blocked ips (ground arith))
  ]

  vetted :
      (allowed : List Text) (host : Text) (ips : List Ip)
      → vet p allowed host ips ≡ ok tt
      → contains host allowed ≡ false
      → All IsPublic ips
  unfolding vet
  vetted allowed host ips h other = none_blocked ips (ground arith)

  tried-All :
      (port last : Text) (ips : List Ip)
      → All IsPublic ips
      → All IsPublic (dial_each p port ips last).tried
  unfolding dial_each
  tried-All port last [] h = tt
  tried-All port last (ip ∷ ips) (q, h) = elim (Option-cases (p.connect ip port)) [
    | inl none_here ↦ rw (dial_each, All, none_here) (q, tt)
    | inr (fault, e) ↦ rw (dial_each, All, e) (q, tried-All port fault ips h)
  ]

  resolved-All :
      (allowed : List Text) (raw : Text) (target : Target) (ips : List Ip)
      → resolve_target p allowed raw ≡ ok (target, ips)
      → contains (to_lower p.unicode target.hostname) allowed ≡ false
      → All IsPublic ips
  unfolding resolve_target
  resolved-All allowed raw target ips h other = elim (Result-cases (parse_target p raw)) [
    | inr (e, t) ↦ ground arith
    | inl (found, t) ↦ elim (Result-cases (addresses_of p (to_lower p.unicode found.hostname))) [
      | inr (e, a) ↦ ground arith
      | inl (given, a) ↦
          elim (Result-cases (vet p allowed (to_lower p.unicode found.hostname) given)) [
            | inr (e, v) ↦ ground arith
            | inl (_, v) ↦ ground (arith, vetted allowed (to_lower p.unicode target.hostname) ips)
          ]
    ]
  ]

  unparsed : (raw : Text) (e : Failure) → parse_target p raw ≡ err e → is_permanent e ≡ true
  unfolding parse_target is_permanent
  unparsed raw e h = ground arith

  vet_error :
      (allowed : List Text) (host : Text) (ips : List Ip) (e : Failure)
      → vet p allowed host ips ≡ err e
      → is_permanent e ≡ true
  unfolding vet is_permanent
  vet_error allowed host ips e h = ground arith

  -- a host that is not an address, and for which the resolver fails or gives no address
  abbrev pub IsUnknown : Text → Type 0
  IsUnknown host =
      (p.parse_ip host ≡ none)
      × (((text : Text) × (p.lookup host ≡ err text)) ⊎ (p.lookup host ≡ ok []))

  unresolved :
      (allowed : List Text) (raw : Text) (e : Failure)
      → resolve_target p allowed raw ≡ err e
      → is_permanent e ≡ false
      → (target : Target) × (parse_target p raw ≡ ok target)
        × IsUnknown (to_lower p.unicode target.hostname)
  unfolding resolve_target addresses_of is_permanent
  unresolved allowed raw e h transient = elim (Result-cases (parse_target p raw)) [
    | inr (f, t) ↦ ground (arith, unparsed raw f t)
    | inl (target, t) ↦
        let host = to_lower p.unicode target.hostname in
        elim (Option-cases (p.parse_ip host)) [
          | inr (ip, i) ↦ ground (arith, vet_error allowed host (ip ∷ []))
          | inl i ↦ elim (Result-cases (p.lookup host)) [
            | inr (text, l) ↦ (target, t, (i, inl (text, l)))
            | inl ([], l) ↦ (target, t, (i, inr l))
            | inl (ip ∷ ips, l) ↦ ground (arith, vet_error allowed host (ip ∷ ips))
          ]
        ]
  ]

  -- For a target that was resolved and whose host is not on the list of allowed hosts: whatever
  -- address the transport asks the dialer for, the dialer tries no address that is loopback,
  -- private, unspecified, multicast or link-local.
  pub fixed_dialer-IsPublic :
      (allowed : List Text) (raw : Text) (target : Target) (ips : List Ip)
      (address : Option (Text × Text))
      → resolve_target p allowed raw ≡ ok (target, ips)
      → contains (to_lower p.unicode target.hostname) allowed ≡ false
      → All IsPublic (fixed_dialer p target.hostname ips address).tried
  unfolding fixed_dialer
  fixed_dialer-IsPublic allowed raw target ips none h other = tt
  fixed_dialer-IsPublic allowed raw target ips (some (host, port)) h other =
      let public = resolved-All allowed raw target ips h other in
      elim (Bool-cases (p.equal_fold host target.hostname)) [
        | inl same ↦ rw same (tried-All port [] ips public)
        | inr moved ↦ rw moved tt
      ]

  abbrev pub IsTransient : ℤ → Type 0
  IsTransient status =
      (status ≡ pos 408) ⊎ ((status ≡ pos 425) ⊎ ((status ≡ pos 429) ⊎ (pos 500 ≤ℤ status)))

  retryable_status-IsTransient : (status : ℤ) → retryable_status status ≡ true → IsTransient status
  unfolding retryable_status
  retryable_status-IsTransient (pos n) h = ground arith
  retryable_status-IsTransient (negsuc n) h = ground arith

  -- what the client is asked to do for a payload
  abbrev pub request_to : Target → WebhookPayload → WebhookRequest
  request_to target payload = record {
    method = to_upper p.unicode (trim_space payload.method);
    url = target.text;
    headers = request_headers p payload;
    body = payload.body;
  }

  -- What the client does, with the vetted addresses, fails for now, or is answered with a status that
  -- is to be tried again.
  abbrev pub IsUnanswered : Result Failure ℤ → Type 0
  IsUnanswered outcome =
      ((f : Failure) × (outcome ≡ err f) × (is_permanent f ≡ false))
      ⊎ ((status : ℤ) × (outcome ≡ ok status) × IsTransient status)

  -- A delivery that fails in a way that lets the worker try it again: the host of its URL is not an
  -- address, and the resolver failed for it or gave no address; or its target was resolved and the
  -- client, given the request for it and the dialer of its addresses, failed in such a way or was
  -- answered with the status 408, 425, 429 or at least 500.
  pub deliver_transient :
      (allowed : List Text) (payload : WebhookPayload) (e : Failure)
      → deliver p allowed payload ≡ err e
      → is_permanent e ≡ false
      → ((target : Target) × (parse_target p payload.url ≡ ok target)
          × IsUnknown (to_lower p.unicode target.hostname))
        ⊎ ((target : Target) × (ips : List Ip) × (resolve_target p allowed payload.url
              ≡ ok (target, ips))
            × IsUnanswered
                (p.do_request (fixed_dialer p target.hostname ips) (request_to target payload)))
  unfolding deliver judge is_permanent
  deliver_transient allowed payload e h transient =
      elim (Result-cases (resolve_target p allowed payload.url)) [
        | inr (f, r) ↦ inl (unresolved allowed payload.url f r (ground arith))
        | inl ((target, ips), r) ↦
            elim (Option-cases
              (p.new_request (to_upper p.unicode (trim_space payload.method)) target.text)) [
                | inr (text, n) ↦ ground arith
                | inl n ↦
                    elim (Result-cases (
                      p.do_request (fixed_dialer p target.hostname ips)
                        (request_to target payload))) [
                          | inr (f, d) ↦ inr (target, ips, r, inl (f, d, ground arith))
                          | inl (status, d) ↦ inr (
                            target,
                            ips,
                            r,
                            inr (status, d, retryable_status-IsTransient status (ground arith)),
                          )
                        ]
              ]
      ]
