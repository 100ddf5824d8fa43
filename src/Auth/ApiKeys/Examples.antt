-- ===== src/Auth/ApiKeys/Examples.antt =====
-- API keys on concrete tables.
use edge_guard.Base.{
  ◌++◌, arith, ◌≡◌, refl, true, none, some, List, [], ◌∷◌, ok, err, Error, sentinel,
}
use edge_guard.Text.{Text, codes, trim_space, ◌≟◌}
use edge_guard.Auth.ApiKeys.{
  Sentinel, invalid_api_key, ApiKey, Principal, Ports, Moment, get_by_prefix, is_active, use_key,
  disable_key, revoke_api_key, create_api_key, insert_key, new_api_key, find_key, known_key,
  validate_api_key,
}
use edge_guard.Auth.ApiKeys.Revoked.{Request, use_of, apply_all, revoke_ends}
use edge_guard.Auth.ApiKeys.Service.{
  Codec, api_key_prefix_size, api_key_secret_size, generate_api_key, hash_api_key, key_service,
}
use edge_guard.Auth.ApiKeys.Parsed.{IsDocumented, IsRead}
use edge_guard.Auth.ApiKeys.Issued.{created_key_accepted}
use edge_guard.Text.Visible.{hex_encode-IsVisible, hex_decode-hex_encode}
use edge_guard.Text.Format.{hex_encode, hex_decode}
use edge_guard.Auth.ApiKeys.Accepted.{IsKnown, validate_api_key-IsKnown}

abbrev key : ApiKey
key = record {
  id = codes "k1";
  project_id = codes "p1";
  name = codes "ci";
  key_prefix = codes "ab";
  key_hash = codes "h";
  enabled = true;
  expires_at = some 50;
  last_used_at = none;
  created_at = 1;
  updated_at = 1;
}

abbrev ports : Ports
ports = record { parse_api_key = λ s. some (codes "ab", s); match_hash = λ s t. s ≟ t }

abbrev moment : Moment
moment = record {
  now = 10;
  generated = err (sentinel invalid_api_key);
  defaults = record { id = codes "k2"; now = 10; has_project = λ _. true };
  read_fault = none;
  write_fault = none;
}

abbrev principal : Principal
principal = record { api_key_id = codes "k1"; project_id = codes "p1" }

accepted : (validate_api_key ports moment (codes "h") (key ∷ []) (key ∷ [])).1 ≡ ok principal
unfolding validate_api_key known_key get_by_prefix is_active use_key ◌≟◌
accepted = refl

validate_api_key-IsKnown_example :
    (k : ApiKey) × IsKnown ports moment (codes "h") (key ∷ []) k
    × (principal.api_key_id ≡ k.id)
    × (principal.project_id ≡ k.project_id)
validate_api_key-IsKnown_example =
    validate_api_key-IsKnown ports moment (codes "h") (key ∷ []) (key ∷ []) principal accepted

known : known_key ports moment (codes "h") (key ∷ []) ≡ ok key
unfolding known_key get_by_prefix is_active ◌≟◌
known = refl

revoked : (revoke_api_key moment (codes "p1") (codes "k1 ") (key ∷ [])).1 ≡ ok tt
unfolding revoke_api_key disable_key trim_space ◌≟◌
revoked = refl

trimmed : key.id ≡ trim_space (codes "k1 ")
unfolding trim_space
trimmed = refl

abbrev between : List Request
between = use_of none (codes "k1") 11 ∷ []

revoke_ends_example :
    (e : Error Sentinel) × (validate_api_key ports moment
        (codes "h")
        (key ∷ [])
        (apply_all between (revoke_api_key moment (codes "p1") (codes "k1 ") (key ∷ [])).0)
      ≡ (apply_all between (revoke_api_key moment (codes "p1") (codes "k1 ") (key ∷ [])).0, err e))
revoke_ends_example =
    revoke_ends ports moment moment (codes "p1") (codes "k1 ") (codes "h") (key ∷ []) (key ∷ [])
      between key revoked known trimmed

-- A codec that satisfies what is asked of it: a constant digest and hexadecimal digits.
abbrev codec : Codec
codec = record {
  sha256 = λ _. codes "0123456789abcdef0123456789abcdef";
  encode = hex_encode;
  decode = hex_decode;
}

codec-IsDocumented : IsDocumented codec
codec-IsDocumented = record {
  digest_bytes = λ s. ground arith;
  encoded_visible = hex_encode-IsVisible;
  decoded = hex_decode-hex_encode;
}

abbrev prefix_bytes : Text
prefix_bytes = codes "abcdefgh"

abbrev secret_bytes : Text
secret_bytes = codes "abcdefghijklmnopqrstuvwxyz012345"

prefix_read : IsRead api_key_prefix_size prefix_bytes
prefix_read = record { read_bytes = ground arith; read_size = refl }

secret_read : IsRead api_key_secret_size secret_bytes
secret_read = record { read_bytes = ground arith; read_size = refl }

abbrev creating : Moment
creating = record moment { generated = generate_api_key codec (ok prefix_bytes) (ok secret_bytes) }

abbrev new_value : Text
new_value =
    codes
      "eg_live_6162636465666768_6162636465666768696a6b6c6d6e6f707172737475767778797a303132333435"

abbrev new_key : ApiKey
new_key = record {
  id = codes "k2";
  project_id = codes "p1";
  name = codes "deploy";
  key_prefix = codes "6162636465666768";
  key_hash = codes "3031323334353637383961626364656630313233343536373839616263646566";
  enabled = true;
  expires_at = some 50;
  last_used_at = none;
  created_at = 10;
  updated_at = 10;
}

created :
    (create_api_key creating (codes "p1") (codes " deploy") (some 50) (key ∷ [])).1
    ≡ ok (new_key, new_value)
unfolding create_api_key generate_api_key hash_api_key hex_encode insert_key new_api_key find_key
    trim_space ◌≟◌
created = refl

sent : trim_space (new_value ++ codes " ") ≡ new_value
unfolding trim_space
sent = refl

still_active : is_active new_key moment.now ≡ true
unfolding is_active
still_active = refl

created_key_accepted_example :
    (trim_space new_value ≡ new_value)
    × ((validate_api_key
          (key_service codec)
          moment
          (new_value ++ codes " ")
          (create_api_key creating (codes "p1") (codes " deploy") (some 50) (key ∷ [])).0
          (create_api_key creating (codes "p1") (codes " deploy") (some 50) (key ∷ [])).0).1
        ≡ ok (record { api_key_id = codes "k2"; project_id = codes "p1" }))
created_key_accepted_example =
    created_key_accepted codec codec-IsDocumented prefix_bytes secret_bytes prefix_read secret_read
      creating moment (codes "p1") (codes " deploy") (new_value ++ codes " ") (some 50) (key ∷ [])
      new_key new_value refl created sent refl refl still_active
