-- ===== src/Auth/ApiKeys/Inserted.antt =====
-- The table after insert_key and create_api_key.
use edge_guard.Base.{
  ◌≡◌, refl, sym, ap, Bool, true, Option, none, some, List, [], ◌∷◌, ◌++◌, arith, ok, inl, inr,
  Result-cases, Option-cases, Bool-cases,
}
use edge_guard.Base.Time.{Time}
use edge_guard.Text.{Text, ◌≟◌, trim_space}
use edge_guard.Text.Equal.{≟_refl}
use edge_guard.Auth.ApiKeys.{
  Defaults, using, stored_key, same_key, Generated, ApiKey, Moment, find_key, update_key,
  insert_key, new_api_key, create_api_key,
}

module _ (test : ApiKey → Bool) where
  find_key-append :
      (ks : List ApiKey) (k : ApiKey)
      → find_key test ks ≡ none
      → test k ≡ true
      → find_key test (ks ++ k ∷ []) ≡ some k
  unfolding find_key
  find_key-append [] k h t = rw t refl
  find_key-append (l ∷ ks) k h t = elim (Bool-cases (test l)) [
    | inl e ↦ ground arith
    | inr e ↦ rw (find_key, e) (find_key-append ks k (ground arith) t)
  ]

-- A key that a test does not find is not found by a stricter one.
find_key_stricter :
    (weak strict : ApiKey → Bool) (ks : List ApiKey)
    → ((k : ApiKey) → strict k ≡ true → weak k ≡ true)
    → find_key weak ks ≡ none
    → find_key strict ks ≡ none
unfolding find_key
find_key_stricter weak strict [] f h = refl
find_key_stricter weak strict (k ∷ ks) f h = elim (Bool-cases (weak k)) [
  | inl e ↦ ground arith
  | inr e ↦ elim (Bool-cases (strict k)) [
    | inl s ↦ ground (arith, f k s)
    | inr s ↦ rw (find_key, s) (find_key_stricter weak strict ks f (ground arith))
  ]
]

update_key-append :
    (id : Text) (change : ApiKey → Option ApiKey) (ks : List ApiKey) (k k' : ApiKey)
    → find_key (λ k. k.id ≟ id) ks ≡ none
    → (k.id ≟ id) ≡ true
    → change k ≡ some k'
    → (update_key id change (ks ++ k ∷ [])).1 ≡ true
unfolding update_key find_key
update_key-append id change [] k k' h t c = rw (update_key, t, c) refl
update_key-append id change (l ∷ ks) k k' h t c = elim (Bool-cases (l.id ≟ id)) [
  | inl e ↦ ground arith
  | inr e ↦ rw (update_key, e) (update_key-append id change ks k k' (ground arith) t c)
]

-- A key that is inserted is the only one with its id and the only one with its prefix.
pub insert_key-ok :
    (fault : Option Text) (d : Defaults) (given key : ApiKey) (ks : List ApiKey)
    → (insert_key fault d given ks).1 ≡ ok key
    → (stored_key d given ≡ key)
      × ((insert_key fault d given ks).0 ≡ ks ++ key ∷ [])
      × (find_key (same_key d given) ks ≡ none)
unfolding insert_key
insert_key-ok (some text) d given key ks h = ground arith
insert_key-ok none d given key ks h = elim (Option-cases (find_key (same_key d given) ks)) [
  | inr (k, e) ↦ ground arith
  | inl e ↦ let same : stored_key d given ≡ key = ground arith in (same, ground arith, e)
]

pub new_api_key-ok :
    (project_id name key_prefix hash : Text) (expires_at : Option Time) (now : Time) (k : ApiKey)
    → new_api_key project_id name key_prefix hash expires_at now ≡ ok k
    → (k.key_prefix ≡ trim_space key_prefix) × (k.key_hash ≡ trim_space hash) × (k.enabled ≡ true)
unfolding new_api_key
new_api_key-ok project_id name key_prefix hash expires_at now k h =
    (ground arith, ground arith, ground arith)

-- What a creation has stored.
pub create_api_key-ok :
    (m : Moment) (g : Generated) (given_project given_name : Text) (expires_at : Option Time)
    (ks : List ApiKey) (key : ApiKey) (value : Text)
    → m.generated ≡ ok g
    → (create_api_key m given_project given_name expires_at ks).1 ≡ ok (key, value)
    → (value ≡ g.value)
      × (given : ApiKey) × (given.key_prefix ≡ trim_space g.key_prefix)
      × (given.key_hash ≡ trim_space g.hash)
      × (given.enabled ≡ true)
      × ((create_api_key m given_project given_name expires_at ks).0
          ≡ (insert_key m.write_fault m.defaults given ks).0)
      × ((insert_key m.write_fault m.defaults given ks).1 ≡ ok key)
unfolding create_api_key
create_api_key-ok m g given_project given_name expires_at ks key value e h =
    let project_id = trim_space given_project in
    let name = trim_space given_name in
    elim (Result-cases (new_api_key project_id name g.key_prefix g.hash expires_at m.now)) [
      | inr (error, out) ↦ ground arith
      | inl (given, made) ↦
          let (p, q, r) =
            new_api_key-ok project_id name g.key_prefix g.hash expires_at m.now given made in
          (ground arith, given, p, q, r, ground arith, ground arith)
    ]

same_key_of_prefix :
    (d : Defaults) (given k : ApiKey)
    → (k.key_prefix ≟ given.key_prefix) ≡ true
    → same_key d given k ≡ true
same_key_of_prefix d given k h = ground arith

same_key_of_id :
    (d : Defaults) (given k : ApiKey) → (k.id ≟ d.id) ≡ true → same_key d given k ≡ true
same_key_of_id d given k h = ground arith

pub stored_among :
    (fault : Option Text) (d : Defaults) (given key : ApiKey) (ks : List ApiKey) (now : Time)
    → (insert_key fault d given ks).1 ≡ ok key
    → key.enabled ≡ true
    → let ks' = (insert_key fault d given ks).0 in
      (find_key (λ k. k.key_prefix ≟ key.key_prefix) ks' ≡ some key)
      × ((update_key key.id (using now) ks').1 ≡ true)
stored_among fault d given key ks now h enabled =
    let (same, table, alone) = insert_key-ok fault d given key ks h in
    let prefix_kept : key.key_prefix ≡ given.key_prefix = ap (λ k. k.key_prefix) (sym same) in
    let id_given : key.id ≡ d.id = ap (λ k. k.id) (sym same) in
    let prefixes =
      find_key_stricter (same_key d given) (λ k. k.key_prefix ≟ key.key_prefix) ks
        (λ k t. same_key_of_prefix d given k (rw (← prefix_kept) t)) alone in
    let ids =
      find_key_stricter (same_key d given) (λ k. k.id ≟ key.id) ks
        (λ k t. same_key_of_id d given k (rw (← id_given) t)) alone in
    rw table (
      find_key-append (λ k. k.key_prefix ≟ key.key_prefix) ks key prefixes (≟_refl key.key_prefix),
      update_key-append key.id (using now) ks key (record key { last_used_at = some now }) ids
          (≟_refl key.id) (rw enabled refl),
    )
