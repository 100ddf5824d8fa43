-- ===== src/Auth/ApiKeys.antt =====
-- API keys: internal/auth/domain/api_key.go, usecase/api_keys.go and
-- infrastructure/postgres/api_keys.go. The primary key is `id`, and `key_prefix`, `key_hash` and the
-- pair of project and name are unique (migrations/000002). Generating, parsing and matching keys are
-- ports, which Service fills. The table of projects and the faults of the database are ports as well;
-- a statement with a fault changes nothing. The casts of ids to `uuid` are left out: an id that a client
-- gives is taken to be in the form that the database prints.
pub mod Revoked
pub mod Accepted
pub mod Service
pub mod Parsed
pub mod Inserted
pub mod Issued
mod Examples
use edge_guard.Base.{
  Bool, true, false, not, ◌&&◌, ◌||◌, Option, none, some, List, [], ◌∷◌, ◌++◌, if◌then◌else◌,
  is_empty, Result, ok, err, Error, sentinel, wrap, opaque, ◌>>=◌, ◌>>◌, guard, is,
}
use edge_guard.Base.Time.{Time, before, after}
use edge_guard.Text.{Text, ◌≟◌, trim_space}

pub data Sentinel : Type 0 where
  invalid_project_id invalid_name invalid_key_prefix invalid_key_hash invalid_expiration : Sentinel
  invalid_api_key invalid_api_key_id api_key_not_found api_key_name_already_exists : Sentinel
  project_not_found : Sentinel

abbrev pub Outcome : Type 0 → Type 0
Outcome A = Result (Error Sentinel) A

pub record ApiKey : Type 0 where
  pub id : Text
  pub project_id : Text
  pub name : Text
  pub key_prefix : Text
  pub key_hash : Text
  pub enabled : Bool
  pub expires_at : Option Time
  pub last_used_at : Option Time
  pub created_at : Time
  pub updated_at : Time

-- `expiresAt != nil && !expiresAt.After(now)`, denied
abbrev is_future : Option Time → Time → Bool
is_future none now = true
is_future (some t) now = after t now

-- The id and the times are the database's to fill in.
unfoldable pub new_api_key : Text → Text → Text → Text → Option Time → Time → Outcome ApiKey
new_api_key given_project given_name given_prefix given_hash expires_at now = do
  let project_id = trim_space given_project
  let name = trim_space given_name
  let key_prefix = trim_space given_prefix
  let key_hash = trim_space given_hash
  guard (not (is_empty project_id)) (sentinel invalid_project_id)
  guard (not (is_empty name)) (sentinel invalid_name)
  guard (not (is_empty key_prefix)) (sentinel invalid_key_prefix)
  guard (not (is_empty key_hash)) (sentinel invalid_key_hash)
  guard (is_future expires_at now) (sentinel invalid_expiration)
  ok (record {
    id = [];
    project_id = project_id;
    name = name;
    key_prefix = key_prefix;
    key_hash = key_hash;
    enabled = true;
    expires_at = expires_at;
    last_used_at = none;
    created_at = 0;
    updated_at = 0;
  })

abbrev not_expired : Option Time → Time → Bool
not_expired none now = true
not_expired (some t) now = before now t

unfoldable pub is_active : ApiKey → Time → Bool
is_active k now = if not k.enabled then false else not_expired k.expires_at now

unfoldable pub find_key : (ApiKey → Bool) → List ApiKey → Option ApiKey
find_key test [] = none
find_key test (k ∷ ks) = if test k then some k else find_key test ks

-- An UPDATE of the row with an id; `none` if the rest of the WHERE clause fails.
unfoldable pub update_key : Text → (ApiKey → Option ApiKey) → List ApiKey → List ApiKey × Bool
update_key id change [] = ([], false)
update_key id change (k ∷ ks) =
    let (rest, hit) = update_key id change ks in
    if k.id ≟ id
    then elim (change k) [ none ↦ (k ∷ ks, false) | some k' ↦ (k' ∷ ks, true) ]
    else (k ∷ rest, hit)

abbrev pub disabling : Text → Time → ApiKey → Option ApiKey
disabling project_id at k =
    if k.project_id ≟ project_id then some (record k { enabled = false; updated_at = at }) else none

abbrev pub using : Time → ApiKey → Option ApiKey
using at k = if k.enabled then some (record k { last_used_at = some at }) else none

pub record Defaults : Type 0 where
  pub id : Text
  pub now : Time
  pub has_project : Text → Bool

abbrev pub stored_key : Defaults → ApiKey → ApiKey
stored_key d k = record k { id = d.id; last_used_at = none; created_at = d.now; updated_at = d.now }

abbrev same_name : ApiKey → ApiKey → Bool
same_name k other = other.project_id ≟ k.project_id && other.name ≟ k.name

abbrev pub same_key : Defaults → ApiKey → ApiKey → Bool
same_key d k other =
    other.id ≟ d.id || other.key_prefix ≟ k.key_prefix || other.key_hash ≟ k.key_hash

-- CreateAPIKey
unfoldable pub insert_key :
    Option Text → Defaults → ApiKey → List ApiKey → List ApiKey × Outcome ApiKey
unfolding find_key
insert_key (some text) d k ks = (ks, err (wrap "create api key" (opaque text)))
insert_key none d k ks =
    if not (is_future k.expires_at d.now)
    then (ks, err (wrap "create api key" (opaque [])))
    else elim (find_key (same_key d k) ks) [
      | some _ ↦ (ks, err (wrap "create api key" (opaque [])))
      | none ↦ elim (find_key (same_name k) ks) [
        | some _ ↦ (ks, err (sentinel api_key_name_already_exists))
        | none ↦
            if d.has_project k.project_id
            then (ks ++ stored_key d k ∷ [], ok (stored_key d k))
            else (ks, err (sentinel project_not_found))
      ]
    ]

-- GetAPIKeyByPrefix
unfoldable pub get_by_prefix : Option Text → Text → List ApiKey → Outcome ApiKey
unfolding find_key
get_by_prefix (some text) key_prefix ks = err (wrap "get api key by prefix" (opaque text))
get_by_prefix none key_prefix ks = elim (find_key (λ k. k.key_prefix ≟ key_prefix) ks) [
  | none ↦ err (sentinel api_key_not_found)
  | some k ↦ ok k
]

-- DisableAPIKey
unfoldable pub disable_key :
    Option Text → Text → Text → Time → List ApiKey → List ApiKey × Outcome (Unit {0})
unfolding update_key
disable_key (some text) project_id id at ks = (ks, err (wrap "disable api key" (opaque text)))
disable_key none project_id id at ks =
    let (ks', hit) = update_key id (disabling project_id at) ks in
    if hit then (ks', ok tt) else (ks, err (sentinel api_key_not_found))

-- UpdateAPIKeyLastUsedAt
unfoldable pub use_key : Option Text → Text → Time → List ApiKey → List ApiKey × Outcome (Unit {0})
unfolding update_key
use_key (some text) id at ks = (ks, err (wrap "update api key last used at" (opaque text)))
use_key none id at ks =
    let (ks', hit) = update_key id (using at) ks in
    if hit then (ks', ok tt) else (ks, err (sentinel api_key_not_found))

pub record Principal : Type 0 where
  pub api_key_id : Text
  pub project_id : Text

pub record Generated : Type 0 where
  pub value : Text
  pub key_prefix : Text
  pub hash : Text

-- The key service: `parse_api_key` gives the prefix and the hash of a key, if it is one.
pub record Ports : Type 0 where
  pub parse_api_key : Text → Option (Text × Text)
  pub match_hash : Text → Text → Bool

pub record Moment : Type 0 where
  pub now : Time
  pub generated : Outcome Generated
  pub defaults : Defaults
  pub read_fault : Option Text
  pub write_fault : Option Text

abbrev pub is_not_found : Sentinel → Bool
is_not_found api_key_not_found = true
is_not_found _ = false

-- `ErrAPIKeyNotFound` turned into `ErrInvalidAPIKey`; other errors are passed on.
abbrev hide {ℓ} : {A : Type ℓ} → Result (Error Sentinel) A → Result (Error Sentinel) A
hide (ok a) = ok a
hide (err e) = if is is_not_found e then err (sentinel invalid_api_key) else err e

-- the value is shown to the client this once
unfoldable pub create_api_key :
    Moment → Text → Text → Option Time → List ApiKey → List ApiKey × Outcome (ApiKey × Text)
create_api_key m given_project given_name expires_at ks = elim new [
  | err e ↦ (ks, err e)
  | ok (key, value) ↦
      let (ks', created) = insert_key m.write_fault m.defaults key ks in
      (ks', created >>= λ k. ok (k, value))
]
  where
    new : Outcome (ApiKey × Text)
    new = do
      let project_id = trim_space given_project
      guard (not (is_empty project_id)) (sentinel invalid_project_id)
      let name = trim_space given_name
      guard (not (is_empty name)) (sentinel invalid_name)
      guard (is_future expires_at m.now) (sentinel invalid_expiration)
      generated ← m.generated
      key ← new_api_key project_id name generated.key_prefix generated.hash expires_at m.now
      ok (key, generated.value)

unfoldable pub revoke_api_key :
    Moment → Text → Text → List ApiKey → List ApiKey × Outcome (Unit {0})
revoke_api_key m given_project given_id ks =
    let project_id = trim_space given_project in
    let id = trim_space given_id in
    if is_empty project_id
    then (ks, err (sentinel invalid_project_id))
    else if is_empty id
    then (ks, err (sentinel invalid_api_key_id))
    else disable_key m.write_fault project_id id m.now ks

module _ (p : Ports) (m : Moment) where
  -- ValidateAPIKey up to the last statement
  unfoldable pub known_key : Text → List ApiKey → Outcome ApiKey
  known_key raw ks = elim (p.parse_api_key raw) [
    | none ↦ err (sentinel invalid_api_key)
    | some (key_prefix, hash) ↦ hide (get_by_prefix m.read_fault key_prefix ks) >>= λ key.
        if not (p.match_hash hash key.key_hash) || not (is_active key m.now)
        then err (sentinel invalid_api_key)
        else ok key
  ]

  -- The key is read from the first table and marked as used in the second, which other requests may
  -- have changed in between.
  unfoldable pub validate_api_key :
      Text → List ApiKey → List ApiKey → List ApiKey × Outcome Principal
  validate_api_key raw seen ks = elim (known_key raw seen) [
    | err e ↦ (ks, err e)
    | ok key ↦
        let (ks', marked) = use_key m.write_fault key.id m.now ks in
        (ks', hide marked >>= λ _. ok (record { api_key_id = key.id; project_id = key.project_id }))
  ]
