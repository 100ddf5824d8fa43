-- ===== src/Auth/Tokens/Spent.antt =====
-- A token that is revoked stays revoked, whatever requests follow.
use edge_guard.Base.{
  ◌≡◌, refl, inl, inr, Bool, true, false, not, Bool-cases, Option, none, some, Option-cases, List,
  [], ◌∷◌, Error, sentinel, ◌++◌, arith, ok, err,
}
use edge_guard.Base.Time.{Time, after}
use edge_guard.Text.{Text, ◌≟◌}
use edge_guard.Auth.Tokens.{
  RefreshToken, Column, by_id, by_hash, value, find, update, revoke_active, revoke_any, Defaults,
  stored, insert, rotate, revoke_by_hash, is_none, Sentinel, invalid_refresh_token,
}

abbrev pub is_revoked : Option RefreshToken → Bool
is_revoked none = false
is_revoked (some t) = not (is_none t.revoked_at)

-- There is a row with the key, and it is revoked.
abbrev pub IsSpent : Column → Text → List RefreshToken → Type 0
IsSpent c k ts = is_revoked (find c k ts) ≡ true

-- An UPDATE that keeps the keys, and takes no revocation back.
record Keeps (change : RefreshToken → Option RefreshToken) : Type 0 where
  key : (c : Column) (t t' : RefreshToken) → change t ≡ some t' → value c t' ≡ value c t
  revoked :
      (t t' : RefreshToken)
      → change t ≡ some t'
      → is_none t.revoked_at ≡ false
      → is_none t'.revoked_at ≡ false

column :
    (c : Column) (t t' : RefreshToken)
    → t'.id ≡ t.id
    → t'.token_hash ≡ t.token_hash
    → value c t' ≡ value c t
column by_id t t' i h = i
column by_hash t t' i h = h

revoke_active-Keeps : (at : Time) → Keeps (revoke_active at)
revoke_active-Keeps at = record {
  key = λ c t t' h. column c t t' (ground arith) (ground arith);
  revoked = λ t t' h r. ground arith;
}

revoke_any-Keeps : (at : Time) → Keeps (revoke_any at)
revoke_any-Keeps at = record {
  key = λ c t t' h. column c t t' (ground arith) (ground arith);
  revoked = λ t t' h r. ground arith;
}

update-IsSpent :
    (change : RefreshToken → Option RefreshToken)
    → Keeps change
    → (c : Column) (k : Text) (d : Column) (l : Text) (ts : List RefreshToken) → IsSpent d l ts
    → IsSpent d l (update c k change ts).0
unfolding update find
update-IsSpent change keep c k d l [] h = h
update-IsSpent change keep c k d l (t ∷ ts) h = elim (Option-cases (change t)) [
  | inl out ↦ ground (arith, update-IsSpent change keep c k d l ts)
  | inr (t', e) ↦
      ground (arith, keep.key d t t' e, keep.revoked t t' e, update-IsSpent change keep c k d l ts)
]

find-append :
    (c : Column) (k : Text) (ts us : List RefreshToken) → IsSpent c k ts → IsSpent c k (ts ++ us)
unfolding find
find-append c k [] us h = ground arith
find-append c k (t ∷ ts) us h = ground (arith, find-append c k ts us)

insert-IsSpent :
    (d : Defaults) (t created : RefreshToken) (ts ts' : List RefreshToken) (c : Column) (k : Text)
    → insert d t ts ≡ some (ts', created)
    → IsSpent c k ts
    → IsSpent c k ts'
unfolding insert
insert-IsSpent d t created ts ts' c k h spent =
    ground (arith, find-append c k ts (stored d t ∷ []) spent)

-- the row that an UPDATE returned
update_hit :
    (c : Column) (k : Text) (change : RefreshToken → Option RefreshToken) (ts : List RefreshToken)
    → Keeps change
    → (update c k change ts).1 ≡ true
    → (t : RefreshToken) × (t' : RefreshToken) × (change t ≡ some t')
      × (find c k ts ≡ some t)
      × (find c k (update c k change ts).0 ≡ some t')
unfolding update find
update_hit c k change [] keep h = ground arith
update_hit c k change (t ∷ ts) keep h = elim (Bool-cases (value c t ≟ k)) [
  | inr other ↦
      let (u, u', e, before, after) = update_hit c k change ts keep (rw other at h) in
      (u, u', e, ground arith, ground arith)
  | inl same ↦ elim (Option-cases (change t)) [
    | inl out ↦ ground arith
    | inr (t', e) ↦ (t, t', e, rw same refl, rw (same, e, keep.key c t t' e, same) refl)
  ]
]

-- The requests that write.
pub data Request : Type 0 where
  rotation : Option Text → Defaults → Text → RefreshToken → Time → Request
  revocation : Option Text → Text → Time → Request
  creation : Defaults → RefreshToken → Request

unfoldable pub apply : Request → List RefreshToken → List RefreshToken
unfolding rotate revoke_by_hash insert
apply (rotation fault d id replacement at) ts = (rotate fault d id replacement at ts).0
apply (revocation fault hash at) ts = (revoke_by_hash fault hash at ts).0
apply (creation d t) ts = elim (insert d t ts) [ none ↦ ts | some (ts', _) ↦ ts' ]

unfoldable pub apply_all : List Request → List RefreshToken → List RefreshToken
unfolding apply
apply_all [] ts = ts
apply_all (r ∷ rs) ts = apply_all rs (apply r ts)

rotate-IsSpent :
    (fault : Option Text) (d : Defaults) (id : Text) (t : RefreshToken) (at : Time)
    (ts : List RefreshToken) (c : Column) (k : Text)
    → IsSpent c k ts
    → IsSpent c k (rotate fault d id t at ts).0
unfolding rotate
rotate-IsSpent (some text) d id t at ts c k h = h
rotate-IsSpent none d id t at ts c k h =
    elim (Option-cases (insert d t (update by_id id (revoke_active at) ts).0)) [
      | inl out ↦ ground arith
      | inr ((ts', created), e) ↦ ground (
        arith,
        insert-IsSpent d t created (update by_id id (revoke_active at) ts).0 ts' c k e,
        update-IsSpent (revoke_active at) (revoke_active-Keeps at) by_id id c k ts,
      )
    ]

apply-IsSpent :
    (r : Request) (ts : List RefreshToken) (c : Column) (k : Text)
    → IsSpent c k ts
    → IsSpent c k (apply r ts)
unfolding apply revoke_by_hash
apply-IsSpent (rotation fault d id t at) ts c k h = rotate-IsSpent fault d id t at ts c k h
apply-IsSpent (revocation (some text) hash at) ts c k h = h
apply-IsSpent (revocation none hash at) ts c k h =
    ground (arith, update-IsSpent (revoke_any at) (revoke_any-Keeps at) by_hash hash c k ts h)
apply-IsSpent (creation d t) ts c k h = elim (Option-cases (insert d t ts)) [
  | inl out ↦ ground arith
  | inr ((ts', created), e) ↦ ground (arith, insert-IsSpent d t created ts ts' c k e h)
]

pub apply_all-IsSpent :
    (rs : List Request) (ts : List RefreshToken) (c : Column) (k : Text)
    → IsSpent c k ts
    → IsSpent c k (apply_all rs ts)
unfolding apply_all
apply_all-IsSpent [] ts c k h = h
apply_all-IsSpent (r ∷ rs) ts c k h =
    apply_all-IsSpent rs (apply r ts) c k (apply-IsSpent r ts c k h)

-- A successful rotation leaves the rotated token revoked, and it was not before.
pub rotate_spends :
    (fault : Option Text) (d : Defaults) (id : Text) (t created : RefreshToken) (at : Time)
    (ts : List RefreshToken)
    → (rotate fault d id t at ts).1 ≡ ok created
    → (is_revoked (find by_id id ts) ≡ false) × IsSpent by_id id (rotate fault d id t at ts).0
unfolding rotate
rotate_spends (some text) d id t created at ts h = ground arith
rotate_spends none d id t created at ts h =
    elim (Bool-cases (update by_id id (revoke_active at) ts).1) [
      | inr miss ↦ ground arith
      | inl hit ↦
          let (u, u', e, before, after) =
            update_hit by_id id (revoke_active at) ts (revoke_active-Keeps at) hit in
          elim (Option-cases (insert d t (update by_id id (revoke_active at) ts).0)) [
            | inl out ↦ ground arith
            | inr ((ts', c), stored) ↦
                let kept : IsSpent by_id id ts' =
                  insert-IsSpent d t c (update by_id id (revoke_active at) ts).0 ts' by_id id stored
                    (ground arith) in
                (ground arith, rw (rotate, hit, stored) kept)
          ]
    ]

-- A revoked token is not rotated: nothing changes, and the caller gets an error.
pub rotate_of_spent :
    (fault : Option Text) (d : Defaults) (id : Text) (t : RefreshToken) (at : Time)
    (ts : List RefreshToken)
    → IsSpent by_id id ts
    → (e : Error Sentinel) × (rotate fault d id t at ts ≡ (ts, err e))
unfolding rotate
rotate_of_spent (some text) d id t at ts h = (_, refl)
rotate_of_spent none d id t at ts h = elim (Bool-cases (update by_id id (revoke_active at) ts).1) [
  | inr miss ↦ (sentinel invalid_refresh_token, rw (rotate, miss))
  | inl hit ↦
      let (u, u', e, before, _) =
        update_hit by_id id (revoke_active at) ts (revoke_active-Keeps at) hit in
      ground arith
]

-- A revocation by hash that succeeds leaves the token revoked.
pub revoke_by_hash_spends :
    (fault : Option Text) (hash : Text) (at : Time) (ts : List RefreshToken)
    → (revoke_by_hash fault hash at ts).1 ≡ ok tt
    → IsSpent by_hash hash (revoke_by_hash fault hash at ts).0
unfolding revoke_by_hash
revoke_by_hash_spends (some text) hash at ts h = ground arith
revoke_by_hash_spends none hash at ts h =
    elim (Bool-cases (update by_hash hash (revoke_any at) ts).1) [
      | inr miss ↦ ground arith
      | inl hit ↦
          let (u, u', e, before, after) =
            update_hit by_hash hash (revoke_any at) ts (revoke_any-Keeps at) hit in
          ground arith
    ]
