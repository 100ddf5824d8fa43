-- ===== src/Auth/Tokens/Once.antt =====
-- What a client can do with a refresh token that has been used or given up.
use edge_guard.Base.{
  ◌≡◌, refl, sym, ap, ◌∙◌, inl, inr, true, false, Option, none, some, Option-cases, List, arith, ok,
  err, Result-cases, Error, sentinel,
}
use edge_guard.Base.{Bool-cases, ◌<◌, ◌⊎◌, [], ◌∷◌}
use edge_guard.Base.Time.{Time}
use edge_guard.Text.{Text, ◌≟◌}
use edge_guard.Text.Equal.{≟_iff}
use edge_guard.Auth.Tokens.{
  Sentinel, invalid_refresh_token, RefreshToken, is_active, by_id, by_hash, find, rotate,
  revoke_by_hash, get_by_hash, IssuedAccessToken, TokenPair, Ports, User,
}
use edge_guard.Auth.Tokens.Spent.{
  IsSpent, Request, apply_all, apply_all-IsSpent, rotate_spends, rotate_of_spent,
  revoke_by_hash_spends,
}
use edge_guard.Auth.Tokens.Session.{Moment, hash_of, prepare_refresh, refresh, logout}

get_by_hash-ok :
    (fault : Option Text) (hash : Text) (ts : List RefreshToken) (t : RefreshToken)
    → get_by_hash fault hash ts ≡ ok t
    → find by_hash hash ts ≡ some t
unfolding get_by_hash
get_by_hash-ok (some text) hash ts t h = ground arith
get_by_hash-ok none hash ts t h = ground arith

abbrev pub IsAmong : RefreshToken → List RefreshToken → Type 0
IsAmong t [] = ⊥
IsAmong t (s ∷ ts) = (s ≡ t) ⊎ IsAmong t ts

find-IsAmong :
    (hash : Text) (ts : List RefreshToken) (t : RefreshToken)
    → find by_hash hash ts ≡ some t
    → IsAmong t ts × (t.token_hash ≡ hash)
unfolding find
find-IsAmong hash [] t h = ground arith
find-IsAmong hash (s ∷ ts) t h = elim (Bool-cases (s.token_hash ≟ hash)) [
  | inl same ↦
      let first : s ≡ t = ground arith in
      (inl first, sym (ap (λ t. t.token_hash) first) ∙ (≟_iff s.token_hash hash).0 same)
  | inr other ↦ let (among, named) = find-IsAmong hash ts t (ground arith) in (inr among, named)
]

active_until :
    (t : RefreshToken) (now : Time)
    → is_active t now ≡ true
    → (t.revoked_at ≡ none) × (now < t.expires_at)
unfolding is_active
active_until t now h = elim (Option-cases t.revoked_at) [
  | inl e ↦ (e, ground arith)
  | inr (at, e) ↦ ground arith
]

-- A refresh gets as far as its transaction only for a token of the table that has the hash of what
-- was presented, is not revoked and has not reached its expiry, and whose user is known and enabled.
pub prepare_refresh-ok :
    (p : Ports) (m : Moment) (given : Text) (ts : List RefreshToken) (current : RefreshToken)
    (access : IssuedAccessToken) (raw : Text) (replacement : RefreshToken)
    → prepare_refresh p m given ts ≡ ok (current, access, raw, replacement)
    → (hash : Text) × (user : User) × (hash_of p m given ≡ ok hash)
      × IsAmong current ts
      × (current.token_hash ≡ hash)
      × (current.revoked_at ≡ none)
      × (m.now < current.expires_at)
      × (m.user_by_id current.user_id ≡ ok user)
      × (user.enabled ≡ true)
unfolding prepare_refresh
prepare_refresh-ok p m given ts current access raw replacement h =
    elim (Result-cases (hash_of p m given)) [
      | inr (e, out) ↦ ground arith
      | inl (hash, e) ↦ elim (Result-cases (get_by_hash m.read_fault hash ts)) [
        | inr (e', out) ↦ ground arith
        | inl (t, read) ↦
            let found : find by_hash hash ts ≡ some t =
              get_by_hash-ok m.read_fault hash ts t read in
            elim (Result-cases (m.user_by_id t.user_id)) [
              | inr (e', out) ↦ ground arith
              | inl (user, known) ↦
                  let same : t ≡ current = ground arith in
                  let (among, named) = find-IsAmong hash ts current (found ∙ ap some same) in
                  let (kept, early) = active_until current m.now (ground arith) in
                  (
                    hash,
                    user,
                    e,
                    among,
                    named,
                    kept,
                    early,
                    ap (λ t. m.user_by_id t.user_id) (sym same) ∙ known,
                    ground arith,
                  )
            ]
      ]
    ]

-- what a refresh does once it is prepared
refresh_prepared :
    (p : Ports) (m : Moment) (given : Text) (seen ts : List RefreshToken) (current : RefreshToken)
    (access : IssuedAccessToken) (raw : Text) (next : RefreshToken)
    → prepare_refresh p m given seen ≡ ok (current, access, raw, next)
    → ((e : Error Sentinel)
        → (rotate m.write_fault m.defaults current.id next m.now ts).1 ≡ err e
        → refresh p m given seen ts
          ≡ ((rotate m.write_fault m.defaults current.id next m.now ts).0, err e))
      × ((created : RefreshToken)
          → (rotate m.write_fault m.defaults current.id next m.now ts).1 ≡ ok created
          → (refresh p m given seen ts).0
            ≡ (rotate m.write_fault m.defaults current.id next m.now ts).0)
unfolding refresh
refresh_prepared p m given seen ts current access raw next a =
    (λ e h. rw (refresh, a, h) refl, λ c h. rw (refresh, a, h) refl)

-- Two requests that present the same token, however they interleave with each other and with any
-- other requests: once the first has refreshed, the second only gets an error and changes nothing.
pub refresh_once :
    (p : Ports) (m m' : Moment) (given given' : Text) (seen seen' ts : List RefreshToken)
    (pair : TokenPair) (rs : List Request) (current current' : RefreshToken)
    (access access' : IssuedAccessToken) (raw raw' : Text) (next next' : RefreshToken)
    → prepare_refresh p m given seen ≡ ok (current, access, raw, next)
    → prepare_refresh p m' given' seen' ≡ ok (current', access', raw', next')
    → current'.id ≡ current.id
    → (refresh p m given seen ts).1 ≡ ok pair
    → (e : Error Sentinel) × (refresh p m' given' seen' (apply_all rs (refresh p m given seen ts).0)
        ≡ (apply_all rs (refresh p m given seen ts).0, err e))
refresh_once p m m' given given' seen seen' ts pair rs current current' access access' raw raw' next
      next' a b same h =
    let (refused, accepted) = refresh_prepared p m given seen ts current access raw next a in
    elim (Result-cases (rotate m.write_fault m.defaults current.id next m.now ts).1) [
      | inr (e, out) ↦ ground (arith, refused e out)
      | inl (created, done) ↦
          let spent : IsSpent by_id current.id (refresh p m given seen ts).0 =
            rw (accepted created done)
              ((rotate_spends m.write_fault m.defaults current.id next created m.now ts done).1) in
          let later = apply_all-IsSpent rs (refresh p m given seen ts).0 by_id current.id spent in
          let (e, failed) =
            rotate_of_spent m'.write_fault m'.defaults current.id next' m'.now table later in
          let repeated : rotate m'.write_fault m'.defaults current'.id next' m'.now table
              ≡ (table, err e) =
            rw same failed in
          let (refused', _) =
            refresh_prepared p m' given' seen' table current' access' raw' next' b in
          (e, refused' e (ap (λ r. r.1) repeated) ∙ ap (λ r. (r.0, err e)) repeated)
    ]
  where
    table : List RefreshToken
    table = apply_all rs (refresh p m given seen ts).0

-- a refresh with a revoked token
refresh_of_spent :
    (p : Ports) (m : Moment) (given hash : Text) (seen ts : List RefreshToken)
    → hash_of p m given ≡ ok hash
    → m.read_fault ≡ none
    → IsSpent by_hash hash seen
    → refresh p m given seen ts ≡ (ts, err (sentinel invalid_refresh_token))
unfolding refresh prepare_refresh get_by_hash is_active
refresh_of_spent p m given hash seen ts h calm spent =
    elim (Option-cases (find by_hash hash seen)) [
      | inl out ↦ ground arith
      | inr (t, found) ↦
          let read : get_by_hash m.read_fault hash seen ≡ ok t =
            rw (calm, get_by_hash, found) refl in
          let gone : is_active t m.now ≡ false = ground arith in
          rw (refresh, prepare_refresh, h, read, gone) refl
    ]

same_hash : (p : Ports) (m m' : Moment) (given : Text) → hash_of p m given ≡ hash_of p m' given
unfolding hash_of
same_hash p m m' given = refl

-- After a successful logout the token cannot be used to refresh, whatever requests follow, as long
-- as the database answers: the client gets "invalid refresh token", and no table is changed.
pub logout_ends :
    (p : Ports) (m m' : Moment) (given : Text) (ts : List RefreshToken) (rs : List Request)
    (table : List RefreshToken)
    → (logout p m given ts).1 ≡ ok tt
    → m'.read_fault ≡ none
    → refresh p m' given (apply_all rs (logout p m given ts).0) table
      ≡ (table, err (sentinel invalid_refresh_token))
unfolding logout
logout_ends p m m' given ts rs table h calm = elim (Result-cases (hash_of p m given)) [
  | inr (e, out) ↦ ground arith
  | inl (hash, e) ↦ elim (Result-cases (revoke_by_hash m.write_fault hash m.now ts).1) [
    | inr (f, out) ↦ ground arith
    | inl (_, done) ↦
        let spent : IsSpent by_hash hash (logout p m given ts).0 =
          rw (logout, e) (revoke_by_hash_spends m.write_fault hash m.now ts done) in
        refresh_of_spent p m' given hash (apply_all rs (logout p m given ts).0) table
          (same_hash p m' m given ∙ e) calm
          (apply_all-IsSpent rs (logout p m given ts).0 by_hash hash spent)
  ]
]
