-- ===== src/Auth/ApiKeys/Issued.antt =====
-- Keys that the service has generated: create_api_key and validate_api_key with the functions of
-- Auth.ApiKeys.Service.
use edge_guard.Base.{◌≡◌, refl, sym, ap, ◌∙◌, true, Option, none, some, List, arith, ok}
use edge_guard.Base.Time.{Time}
use edge_guard.Text.{Text, ◌≟◌, trim_space}
use edge_guard.Text.Format.{hex_encode}
use edge_guard.Text.Visible.{trim_space_visible, hex_encode-IsVisible}
use edge_guard.Auth.ApiKeys.{
  Ports, using, Generated, ApiKey, Moment, find_key, update_key, insert_key, get_by_prefix,
  is_active, use_key, create_api_key, known_key, validate_api_key,
}
use edge_guard.Auth.ApiKeys.Service.{
  Codec, hash_api_key, generate_api_key, key_service, api_key_prefix_size, api_key_secret_size,
}
use edge_guard.Auth.ApiKeys.Parsed.{
  IsDocumented, IsRead, value_of, value-IsVisible, parse-value, matched,
}
use edge_guard.Auth.ApiKeys.Inserted.{create_api_key-ok, insert_key-ok, stored_among}

key_accepted :
    (p : Ports) (m : Moment) (raw key_prefix hash : Text) (key : ApiKey) (ks : List ApiKey)
    → p.parse_api_key raw ≡ some (key_prefix, hash)
    → p.match_hash hash key.key_hash ≡ true
    → m.read_fault ≡ none
    → m.write_fault ≡ none
    → is_active key m.now ≡ true
    → find_key (λ k. k.key_prefix ≟ key_prefix) ks ≡ some key
    → (update_key key.id (using m.now) ks).1 ≡ true
    → (validate_api_key p m raw ks ks).1
      ≡ ok (record { api_key_id = key.id; project_id = key.project_id })
unfolding validate_api_key known_key get_by_prefix use_key
key_accepted p m raw key_prefix hash key ks parsed same_hash no_read no_write active found hit =
    let known : known_key p m raw ks ≡ ok key =
      rw (known_key, parsed, get_by_prefix, no_read, found, same_hash, active) refl in
    rw (validate_api_key, known, use_key, no_write, hit) refl

active_enabled : (k : ApiKey) (now : Time) → is_active k now ≡ true → k.enabled ≡ true
unfolding is_active
active_enabled k now h = ground arith

-- What the service generates.
abbrev generated_key : (m : Codec) → Text → Text → Generated
generated_key m p s = record {
  value = value_of m p s;
  key_prefix = hex_encode p;
  hash = hash_api_key m (value_of m p s);
}

hash-IsVisible :
    (m : Codec) (t : Text) → IsDocumented m → trim_space (hash_api_key m t) ≡ hash_api_key m t
unfolding hash_api_key
hash-IsVisible m t doc =
    trim_space_visible _ (hex_encode-IsVisible (m.sha256 t) (doc.digest_bytes t))

-- A key that was created with the service's generator has no white space around it, and is accepted
-- as that key when it is presented, with white space around it or without, while the table is as the
-- creation has left it, the key is active and the database has no fault. The bytes of the random
-- reader are of the sizes asked for, and the digest and the encoding are as documented.
pub created_key_accepted :
    (m : Codec) (doc : IsDocumented m) (p s : Text) (prefix_read : IsRead api_key_prefix_size p)
    (secret_read : IsRead api_key_secret_size s) (now later : Moment) (project_id name raw : Text)
    (expires_at : Option Time) (ks : List ApiKey) (key : ApiKey) (value : Text)
    → now.generated ≡ generate_api_key m (ok p) (ok s)
    → (create_api_key now project_id name expires_at ks).1 ≡ ok (key, value)
    → trim_space raw ≡ value
    → later.read_fault ≡ none
    → later.write_fault ≡ none
    → is_active key later.now ≡ true
    → let ks' = (create_api_key now project_id name expires_at ks).0 in
      (trim_space value ≡ value)
      × ((validate_api_key (key_service m) later raw ks' ks').1
          ≡ ok (record { api_key_id = key.id; project_id = key.project_id }))
created_key_accepted m doc p s prefix_read secret_read now later project_id name raw expires_at ks
      key value made created sent no_read no_write active =
    let made' : now.generated ≡ ok (generated_key m p s) = made ∙ unfold generate_api_key in refl in
    let (v, given, prefix_given, hash_given, on, table, inserted) =
      create_api_key-ok now (generated_key m p s) project_id name expires_at ks key value made'
        created in
    let (same, _, _) = insert_key-ok now.write_fault now.defaults given key ks inserted in
    let prefix_same : key.key_prefix ≡ hex_encode p =
      ap (λ k. k.key_prefix) (sym same)
      ∙ prefix_given
      ∙ trim_space_visible _ (hex_encode-IsVisible p prefix_read.read_bytes) in
    let hash_same : key.key_hash ≡ hash_api_key m (value_of m p s) =
      ap (λ k. k.key_hash) (sym same) ∙ hash_given ∙ hash-IsVisible m (value_of m p s) doc in
    let (found, hit) =
      stored_among now.write_fault now.defaults given key ks later.now inserted
        (active_enabled key later.now active) in
    let compact = trim_space_visible _ (value-IsVisible m doc p s prefix_read secret_read) in
    (
      rw v compact,
      rw table (
          key_accepted (key_service m) later raw (hex_encode p) (hash_api_key m (value_of m p s))
            key (insert_key now.write_fault now.defaults given ks).0
            (parse-value m doc p s prefix_read secret_read raw (sent ∙ v))
            (rw hash_same (matched m doc p s prefix_read secret_read (value_of m p s))) no_read
            no_write active (rw (← prefix_same) found) hit),
    )
