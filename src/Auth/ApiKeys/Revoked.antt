-- ===== src/Auth/ApiKeys/Revoked.antt =====
-- A key that is revoked is never accepted again.
use edge_guard.Base.{
  ◌≡◌, refl, inl, inr, Bool, true, false, not, Bool-cases, Option, none, some, Option-cases, List,
  [], ◌∷◌, ◌++◌, arith, ok, err, Error, sentinel, is_empty, is,
}
use edge_guard.Base.Time.{Time}
use edge_guard.Text.{Text, ◌≟◌, trim_space}
use edge_guard.Auth.ApiKeys.{
  Sentinel, api_key_not_found, invalid_api_key, is_not_found, ApiKey, find_key, update_key,
  disabling, using, Defaults, stored_key, insert_key, disable_key, use_key, Ports, Moment,
  revoke_api_key, known_key, validate_api_key,
}

abbrev pub has_id : Text → ApiKey → Bool
has_id id k = k.id ≟ id

abbrev pub is_disabled : Option ApiKey → Bool
is_disabled none = false
is_disabled (some k) = not k.enabled

-- There is a key with the id, and it is disabled.
abbrev pub IsRevoked : Text → List ApiKey → Type 0
IsRevoked id ks = is_disabled (find_key (has_id id) ks) ≡ true

record Keeps (change : ApiKey → Option ApiKey) : Type 0 where
  same_id : (k k' : ApiKey) → change k ≡ some k' → k'.id ≡ k.id
  disabled : (k k' : ApiKey) → change k ≡ some k' → k.enabled ≡ false → k'.enabled ≡ false

disabling-Keeps : (project_id : Text) (at : Time) → Keeps (disabling project_id at)
disabling-Keeps project_id at = record {
  same_id = λ k k' h. ground arith;
  disabled = λ k k' h d. ground arith;
}

using-Keeps : (at : Time) → Keeps (using at)
using-Keeps at = record { same_id = λ k k' h. ground arith; disabled = λ k k' h d. ground arith }

update_key-IsRevoked :
    (change : ApiKey → Option ApiKey)
    → Keeps change
    → (id l : Text) (ks : List ApiKey) → IsRevoked l ks
    → IsRevoked l (update_key id change ks).0
unfolding update_key find_key
update_key-IsRevoked change keep id l [] h = h
update_key-IsRevoked change keep id l (k ∷ ks) h = elim (Option-cases (change k)) [
  | inl out ↦ ground (arith, update_key-IsRevoked change keep id l ks)
  | inr (k', e) ↦
      ground
        (arith, keep.same_id k k' e, keep.disabled k k' e, update_key-IsRevoked change keep id l ks)
]

find_key-append : (l : Text) (ks us : List ApiKey) → IsRevoked l ks → IsRevoked l (ks ++ us)
unfolding find_key
find_key-append l [] us h = ground arith
find_key-append l (k ∷ ks) us h = ground (arith, find_key-append l ks us)

update_hit :
    (id : Text) (change : ApiKey → Option ApiKey) (ks : List ApiKey)
    → Keeps change
    → (update_key id change ks).1 ≡ true
    → (k : ApiKey) × (k' : ApiKey) × (change k ≡ some k')
      × (find_key (has_id id) ks ≡ some k)
      × (find_key (has_id id) (update_key id change ks).0 ≡ some k')
unfolding update_key find_key
update_hit id change [] keep h = ground arith
update_hit id change (k ∷ ks) keep h = elim (Bool-cases (k.id ≟ id)) [
  | inr other ↦
      let (u, u', e, before, after) = update_hit id change ks keep (rw other at h) in
      (u, u', e, ground arith, ground arith)
  | inl same ↦ elim (Option-cases (change k)) [
    | inl out ↦ ground arith
    | inr (k', e) ↦ (k, k', e, rw same refl, rw (same, e, keep.same_id k k' e, same) refl)
  ]
]

-- The requests that write.
pub data Request : Type 0 where
  creation : Option Text → Defaults → ApiKey → Request
  disablement : Option Text → Text → Text → Time → Request
  use_of : Option Text → Text → Time → Request

unfoldable pub apply : Request → List ApiKey → List ApiKey
unfolding insert_key disable_key use_key
apply (creation fault d k) ks = (insert_key fault d k ks).0
apply (disablement fault project_id id at) ks = (disable_key fault project_id id at ks).0
apply (use_of fault id at) ks = (use_key fault id at ks).0

unfoldable pub apply_all : List Request → List ApiKey → List ApiKey
unfolding apply
apply_all [] ks = ks
apply_all (r ∷ rs) ks = apply_all rs (apply r ks)

apply-IsRevoked :
    (r : Request) (ks : List ApiKey) (l : Text) → IsRevoked l ks → IsRevoked l (apply r ks)
unfolding apply insert_key disable_key use_key
apply-IsRevoked (creation (some text) d k) ks l h = h
apply-IsRevoked (creation none d k) ks l h =
    ground (arith, find_key-append l ks (stored_key d k ∷ []) h)
apply-IsRevoked (disablement (some text) project_id id at) ks l h = h
apply-IsRevoked (disablement none project_id id at) ks l h = ground (
  arith,
  update_key-IsRevoked (disabling project_id at) (disabling-Keeps project_id at) id l ks h,
)
apply-IsRevoked (use_of (some text) id at) ks l h = h
apply-IsRevoked (use_of none id at) ks l h =
    ground (arith, update_key-IsRevoked (using at) (using-Keeps at) id l ks h)

apply_all-IsRevoked :
    (rs : List Request) (ks : List ApiKey) (l : Text)
    → IsRevoked l ks
    → IsRevoked l (apply_all rs ks)
unfolding apply_all
apply_all-IsRevoked [] ks l h = h
apply_all-IsRevoked (r ∷ rs) ks l h =
    apply_all-IsRevoked rs (apply r ks) l (apply-IsRevoked r ks l h)

disable_key_revokes :
    (fault : Option Text) (project_id id : Text) (at : Time) (ks : List ApiKey)
    → (disable_key fault project_id id at ks).1 ≡ ok tt
    → IsRevoked id (disable_key fault project_id id at ks).0
unfolding disable_key
disable_key_revokes (some text) project_id id at ks h = ground arith
disable_key_revokes none project_id id at ks h =
    elim (Bool-cases (update_key id (disabling project_id at) ks).1) [
      | inr miss ↦ ground arith
      | inl hit ↦
          let (k, k', e, before, after) =
            update_hit id (disabling project_id at) ks (disabling-Keeps project_id at) hit in
          ground arith
    ]

use_key_of_revoked :
    (fault : Option Text) (id : Text) (at : Time) (ks : List ApiKey)
    → IsRevoked id ks
    → (e : Error Sentinel) × (use_key fault id at ks ≡ (ks, err e))
unfolding use_key
use_key_of_revoked (some text) id at ks h = (_, refl)
use_key_of_revoked none id at ks h = elim (Bool-cases (update_key id (using at) ks).1) [
  | inr miss ↦ (sentinel api_key_not_found, rw (use_key, miss) refl)
  | inl hit ↦
      let (k, k', e, before, _) = update_hit id (using at) ks (using-Keeps at) hit in ground arith
]

-- The validation of a key that is disabled by the time it is marked as used.
validate_of_revoked :
    (p : Ports) (m : Moment) (raw : Text) (seen ks : List ApiKey) (key : ApiKey)
    → known_key p m raw seen ≡ ok key
    → IsRevoked key.id ks
    → (e : Error Sentinel) × (validate_api_key p m raw seen ks ≡ (ks, err e))
unfolding validate_api_key
validate_of_revoked p m raw seen ks key known revoked =
    let (e, failed) = use_key_of_revoked m.write_fault key.id m.now ks revoked in
    elim (Bool-cases (is is_not_found e)) [
      | inl gone ↦ (sentinel invalid_api_key, rw (validate_api_key, known, failed, gone) refl)
      | inr other ↦ (e, rw (validate_api_key, known, failed, other) refl)
    ]

revoke_api_key-ok :
    (m : Moment) (project_id id : Text) (ks : List ApiKey)
    → (revoke_api_key m project_id id ks).1 ≡ ok tt
    → IsRevoked (trim_space id) (revoke_api_key m project_id id ks).0
unfolding revoke_api_key
revoke_api_key-ok m project_id id ks h = elim (Bool-cases (is_empty (trim_space project_id))) [
  | inl blank ↦ ground arith
  | inr named ↦ elim (Bool-cases (is_empty (trim_space id))) [
    | inl blank ↦ ground arith
    | inr given ↦
        rw (revoke_api_key, named, given)
          (disable_key_revokes m.write_fault (trim_space project_id) (trim_space id) m.now ks
            (rw (revoke_api_key, named, given) at h))
  ]
]

-- Once a key has been revoked, no validation of it succeeds, not even one that read the key before
-- the revocation, whatever other requests run in between: the client gets an error, and the table
-- stays as it is.
pub revoke_ends :
    (p : Ports) (m m' : Moment) (project_id id raw : Text) (ks seen : List ApiKey)
    (rs : List Request) (key : ApiKey)
    → (revoke_api_key m project_id id ks).1 ≡ ok tt
    → known_key p m' raw seen ≡ ok key
    → key.id ≡ trim_space id
    → (e : Error Sentinel) × (validate_api_key p m' raw seen
          (apply_all rs (revoke_api_key m project_id id ks).0)
        ≡ (apply_all rs (revoke_api_key m project_id id ks).0, err e))
revoke_ends p m m' project_id id raw ks seen rs key gone known same =
    validate_of_revoked p m' raw seen (apply_all rs (revoke_api_key m project_id id ks).0) key known
      (rw same (
        apply_all-IsRevoked rs (revoke_api_key m project_id id ks).0 (trim_space id)
          (revoke_api_key-ok m project_id id ks gone)))
