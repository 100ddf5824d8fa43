-- ===== src/Auth/ApiKeys/Accepted.antt =====
-- What a key that is accepted is.
use edge_guard.Base.{
  ◌≡◌, ap, ◌∙◌, inl, inr, true, Option, none, some, Option-cases, List, arith, ok, Result-cases,
}
use edge_guard.Base.{sym, Bool-cases, ◌<◌, ◌⊎◌, [], ◌∷◌}
use edge_guard.Base.Time.{Time}
use edge_guard.Text.{Text, ◌≟◌}
use edge_guard.Text.Equal.{≟_iff}
use edge_guard.Auth.ApiKeys.{
  ApiKey, find_key, get_by_prefix, Principal, Ports, Moment, known_key, validate_api_key, is_active,
}

get_by_prefix-ok :
    (fault : Option Text) (key_prefix : Text) (ks : List ApiKey) (k : ApiKey)
    → get_by_prefix fault key_prefix ks ≡ ok k
    → find_key (λ k. k.key_prefix ≟ key_prefix) ks ≡ some k
unfolding get_by_prefix
get_by_prefix-ok (some text) key_prefix ks k h = ground arith
get_by_prefix-ok none key_prefix ks k h = ground arith

abbrev pub IsAmong : ApiKey → List ApiKey → Type 0
IsAmong k [] = ⊥
IsAmong k (l ∷ ks) = (l ≡ k) ⊎ IsAmong k ks

abbrev pub IsBefore : Time → Option Time → Type 0
IsBefore now none = Unit
IsBefore now (some t) = now < t

-- A key of the table with the prefix of the key that was presented, whose stored hash matches that of
-- the key that was presented, which is enabled and has no expiry or one that has not been reached.
pub record IsKnown (p : Ports) (m : Moment) (raw : Text) (ks : List ApiKey) (k : ApiKey)
    : Type 0 where
  pub hash : Text
  pub parsed : p.parse_api_key raw ≡ some (k.key_prefix, hash)
  pub among : IsAmong k ks
  pub matched : p.match_hash hash k.key_hash ≡ true
  pub enabled : k.enabled ≡ true
  pub early : IsBefore m.now k.expires_at

found-IsAmong :
    (key_prefix : Text) (ks : List ApiKey) (k : ApiKey)
    → find_key (λ k. k.key_prefix ≟ key_prefix) ks ≡ some k
    → IsAmong k ks × (k.key_prefix ≡ key_prefix)
unfolding find_key
found-IsAmong key_prefix [] k h = ground arith
found-IsAmong key_prefix (l ∷ ks) k h = elim (Bool-cases (l.key_prefix ≟ key_prefix)) [
  | inl same ↦
      let first : l ≡ k = ground arith in
      (inl first, sym (ap (λ t. t.key_prefix) first) ∙ (≟_iff l.key_prefix key_prefix).0 same)
  | inr other ↦
      let (among, named) = found-IsAmong key_prefix ks k (ground arith) in (inr among, named)
]

active_until :
    (k : ApiKey) (now : Time)
    → is_active k now ≡ true
    → (k.enabled ≡ true) × IsBefore now k.expires_at
unfolding is_active
active_until k now h = elim (Option-cases k.expires_at) [
  | inl e ↦ (ground arith, rw e tt)
  | inr (t, e) ↦ (ground arith, rw e (ground arith))
]

known_key-IsKnown :
    (p : Ports) (m : Moment) (raw : Text) (ks : List ApiKey) (k : ApiKey)
    → known_key p m raw ks ≡ ok k
    → IsKnown p m raw ks k
unfolding known_key
known_key-IsKnown p m raw ks k h = elim (Option-cases (p.parse_api_key raw)) [
  | inl out ↦ ground arith
  | inr ((key_prefix, hash), parsed) ↦
      elim (Result-cases (get_by_prefix m.read_fault key_prefix ks)) [
        | inr (e, out) ↦ ground arith
        | inl (key, read) ↦
            let same : key ≡ k = ground arith in
            let (among, named) =
              found-IsAmong key_prefix ks k
                (get_by_prefix-ok m.read_fault key_prefix ks key read ∙ ap some same) in
            let (enabled, early) = active_until k m.now (ground arith) in
            record {
              hash = hash;
              parsed = rw named parsed;
              among = among;
              matched = ground arith;
              enabled = enabled;
              early = early;
            }
      ]
]

-- A key is accepted only if the table that was read has one with its prefix, whose hash matches, that
-- is enabled and whose expiry, if it has one, has not been reached; the principal is that key, for the
-- project of that key.
pub validate_api_key-IsKnown :
    (p : Ports) (m : Moment) (raw : Text) (seen ks : List ApiKey) (principal : Principal)
    → (validate_api_key p m raw seen ks).1 ≡ ok principal
    → (k : ApiKey) × IsKnown p m raw seen k
      × (principal.api_key_id ≡ k.id)
      × (principal.project_id ≡ k.project_id)
unfolding validate_api_key
validate_api_key-IsKnown p m raw seen ks principal h =
    elim (Result-cases (known_key p m raw seen)) [
      | inr (e, out) ↦ ground arith
      | inl (k, known) ↦ (k, known_key-IsKnown p m raw seen k known, ground arith, ground arith)
    ]
