-- ===== src/Jobs/Worker/Cleaner/Kept.antt =====
-- What a cleanup deletes, and what it keeps.
use edge_guard.Base.{
  ℕ, zero, suc, ◌≤◌, ◌+◌, ◌-◌, ℤ, pos, negsuc, ◌≤ℤ◌, ◌+ℤ◌, ap, true, false, Option, none, some,
  List, [], ◌∷◌, leb, length, take, map, ok, All, ◌≡◌, ◌≢◌, ◌⊎◌, refl, arith, Bool-cases,
  Option-cases, inl, inr,
}
use edge_guard.Base.Time.{Time}
use edge_guard.Text.{Text, ◌≟◌, contains}
use edge_guard.Text.Equal.{≟_iff, ≟_refl}
use edge_guard.Auth.Tokens.{RefreshToken, by_id, find, is_active}
use edge_guard.Jobs.Payload.{CleanupPayload}
use edge_guard.Jobs.Worker.Cleaner.{
  is_candidate, candidates, by_age, oldest_first, id_of, without, cleanup_expired_tokens,
}

-- The ids are a primary key.
abbrev pub IsKeyed : List RefreshToken → Type 0
IsKeyed [] = Unit
IsKeyed (t ∷ ts) = All (λ u. u.id ≢ t.id) ts × IsKeyed ts

module _ (P : RefreshToken → Type 0) where
  by_age-All : (t : RefreshToken) (ts : List RefreshToken) → P t → All P ts → All P (by_age t ts)
  unfolding by_age
  by_age-All t [] p h = (p, tt)
  by_age-All t (u ∷ us) p (q, h) = elim (Bool-cases (leb t.created_at u.created_at)) [
    | inl first ↦ rw first (p, (q, h))
    | inr later ↦ rw later (q, by_age-All t us p h)
  ]

  oldest_first-All : (ts : List RefreshToken) → All P ts → All P (oldest_first ts)
  unfolding oldest_first
  oldest_first-All [] h = tt
  oldest_first-All (t ∷ ts) (p, h) = by_age-All t (oldest_first ts) p (oldest_first-All ts h)

  take-All : (n : ℕ) (ts : List RefreshToken) → All P ts → All P (take n ts)
  take-All zero ts h = tt
  take-All (suc n) [] h = tt
  take-All (suc n) (t ∷ ts) (p, h) = (p, take-All n ts h)

module _ (P Q R : RefreshToken → Type 0) (f : (t : RefreshToken) → P t → Q t → R t) where
  All-both : (ts : List RefreshToken) → All P ts → All Q ts → All R ts
  All-both [] p q = tt
  All-both (t ∷ ts) (p, ps) (q, qs) = (f t p q, All-both ts ps qs)

-- A token under the key `id`, if it is among the candidates, is the one that the table holds.
abbrev IsAmong : Time → List RefreshToken → RefreshToken → Type 0
IsAmong limit ts t = (is_candidate limit t ≡ true) × (find by_id t.id ts ≡ some t)

kept_by :
    (ids : List Text) (id : Text) (t : RefreshToken) (ts : List RefreshToken)
    → contains id ids ≡ false
    → find by_id id ts ≡ some t
    → find by_id id (without ids ts) ≡ some t
unfolding without find
kept_by ids id t [] h f = ground arith
kept_by ids id t (u ∷ us) h f = ground (arith, ≟_iff u.id id, kept_by ids id t us h)

not_chosen :
    (limit : Time) (ts : List RefreshToken) (id : Text) (t : RefreshToken)
    (chosen : List RefreshToken)
    → find by_id id ts ≡ some t
    → is_candidate limit t ≡ false
    → All (IsAmong limit ts) chosen
    → contains id (map id_of chosen) ≡ false
unfolding contains
not_chosen limit ts id t [] f n h = refl
not_chosen limit ts id t (c ∷ chosen) f n ((q, g), h) =
    ground (arith, ≟_iff c.id id, not_chosen limit ts id t chosen f n h)

found_self : (ts : List RefreshToken) → IsKeyed ts → All (λ t. find by_id t.id ts ≡ some t) ts
unfolding find
found_self [] h = tt
found_self (t ∷ ts) (apart, keyed) = (
  rw (≟_refl t.id) refl,
  All-both (λ u. u.id ≢ t.id) (λ u. find by_id u.id ts ≡ some u)
      (λ u. find by_id u.id (t ∷ ts) ≡ some u)
      (λ u other here. ground (arith, ≟_iff t.id u.id, other)) ts apart (found_self ts keyed),
)

candidates-All :
    (limit : Time) (all ts : List RefreshToken)
    → All (λ t. find by_id t.id all ≡ some t) ts
    → All (IsAmong limit all) (candidates limit ts)
unfolding candidates
candidates-All limit all [] h = tt
candidates-All limit all (t ∷ ts) (f, h) = elim (Bool-cases (is_candidate limit t)) [
  | inl due ↦ rw due ((due, f), candidates-All limit all ts h)
  | inr kept ↦ rw kept (candidates-All limit all ts h)
]

abbrev batch : ℕ → Time → List RefreshToken → List RefreshToken
batch n limit ts = take n (oldest_first (candidates limit ts))

int_cases : (z : ℤ) → ((n : ℕ) × (z ≡ pos n)) ⊎ ((n : ℕ) × (z ≡ negsuc n))
int_cases (pos n) = inl (n, refl)
int_cases (negsuc n) = inr (n, refl)

active_kept :
    (limit now : Time) (t : RefreshToken)
    → is_active t now ≡ true
    → limit ≤ now
    → is_candidate limit t ≡ false
unfolding is_candidate is_active
active_kept limit now t active h = elim (Option-cases t.revoked_at) [
  | inl r ↦ ground arith
  | inr (at, r) ↦ ground arith
]

-- A token that is active at a time no earlier than the cleanup's limit is still in the table after
-- the cleanup, unchanged, whether the database had a fault or not.
pub cleanup_expired_tokens_keeps :
    (fault : Option Text) (payload : CleanupPayload) (ts : List RefreshToken) (id : Text)
    (t : RefreshToken) (now : Time)
    → IsKeyed ts
    → find by_id id ts ≡ some t
    → is_active t now ≡ true
    → payload.before ≤ now
    → find by_id id (cleanup_expired_tokens fault payload ts).0 ≡ some t
unfolding cleanup_expired_tokens
cleanup_expired_tokens_keeps (some text) payload ts id t now keyed f active h = f
cleanup_expired_tokens_keeps none payload ts id t now keyed f active h =
    elim (int_cases payload.batch_size) [
      | inr (n, b) ↦ rw b f
      | inl (n, b) ↦ rw b (
          kept_by (map id_of (batch n payload.before ts)) id t ts
            (not_chosen payload.before ts id t (batch n payload.before ts) f
              (active_kept payload.before now t active h)
              (take-All (IsAmong payload.before ts) n (oldest_first (candidates payload.before ts))
                (oldest_first-All (IsAmong payload.before ts) (candidates payload.before ts)
                  (candidates-All payload.before ts ts (found_self ts keyed)))))
            f)
    ]

drops_one :
    (id : Text) (ts : List RefreshToken) → All (λ u. u.id ≢ id) ts → without (id ∷ []) ts ≡ ts
unfolding without contains
drops_one id [] h = refl
drops_one id (t ∷ ts) (other, h) = ground (arith, ≟_iff id t.id, other, drops_one id ts h)

drops_at_most_one :
    (id : Text) (ts : List RefreshToken)
    → IsKeyed ts
    → length ts ≤ length (without (id ∷ []) ts) + 1
unfolding without contains
drops_at_most_one id [] h = omega arith
drops_at_most_one id (t ∷ ts) (apart, keyed) = elim (Bool-cases (id ≟ t.id)) [
  | inr other ↦ rw (without, contains, other) (omega (arith, drops_at_most_one id ts keyed))
  | inl same ↦
      let apart' : All (λ u. u.id ≢ id) ts = rw ((≟_iff id t.id).0 same) apart in
      rw (same, drops_one id ts apart') (omega arith)
]

without-All :
    (P : RefreshToken → Type 0) (ids : List Text) (ts : List RefreshToken)
    → All P ts
    → All P (without ids ts)
unfolding without
without-All P ids [] h = tt
without-All P ids (t ∷ ts) (p, h) = elim (Bool-cases (contains t.id ids)) [
  | inl gone ↦ rw gone (without-All P ids ts h)
  | inr stays ↦ rw stays (p, without-All P ids ts h)
]

without-IsKeyed : (ids : List Text) (ts : List RefreshToken) → IsKeyed ts → IsKeyed (without ids ts)
unfolding without
without-IsKeyed ids [] h = tt
without-IsKeyed ids (t ∷ ts) (apart, keyed) = elim (Bool-cases (contains t.id ids)) [
  | inl gone ↦ rw gone (without-IsKeyed ids ts keyed)
  | inr stays ↦ rw stays (without-All (λ u. u.id ≢ t.id) ids ts apart, without-IsKeyed ids ts keyed)
]

one_by_one :
    (id : Text) (ids : List Text) (ts : List RefreshToken)
    → without (id ∷ ids) ts ≡ without (id ∷ []) (without ids ts)
unfolding without contains
one_by_one id ids [] = refl
one_by_one id ids (t ∷ ts) = elim (Bool-cases (contains t.id ids)) [
  | inl gone ↦ ground (arith, one_by_one id ids ts)
  | inr stays ↦ ground (arith, one_by_one id ids ts)
]

drops_none : (ts : List RefreshToken) → without [] ts ≡ ts
unfolding without contains
drops_none [] = refl
drops_none (t ∷ ts) = ap (λ us. t ∷ us) (drops_none ts)

length-without : (ids : List Text) (ts : List RefreshToken) → length (without ids ts) ≤ length ts
unfolding without
length-without ids [] = omega arith
length-without ids (t ∷ ts) = ground (arith, length-without ids ts)

drops_at_most :
    (ids : List Text) (ts : List RefreshToken)
    → IsKeyed ts
    → length ts ≤ length (without ids ts) + length ids
drops_at_most [] ts keyed = rw (drops_none ts) (omega arith)
drops_at_most (id ∷ ids) ts keyed = rw (one_by_one id ids ts) (
    omega (
      arith,
      drops_at_most ids ts keyed,
      drops_at_most_one id (without ids ts) (without-IsKeyed ids ts keyed),
    ))

length-batch : (n : ℕ) (ts : List RefreshToken) → length (map id_of (take n ts)) ≤ n
length-batch zero ts = omega arith
length-batch (suc n) [] = omega arith
length-batch (suc n) (t ∷ ts) = omega (arith, length-batch n ts)

-- A cleanup that succeeds reports the number of rows that are gone, which is at most the batch size.
pub cleanup_expired_tokens_bound :
    (fault : Option Text) (payload : CleanupPayload) (ts : List RefreshToken) (deleted : ℤ)
    → IsKeyed ts
    → (cleanup_expired_tokens fault payload ts).1 ≡ ok deleted
    → (deleted ≤ℤ payload.batch_size)
      × (pos (length ts) ≡ deleted +ℤ pos (length (cleanup_expired_tokens fault payload ts).0))
unfolding cleanup_expired_tokens ◌+ℤ◌
cleanup_expired_tokens_bound (some text) payload ts deleted keyed h = ground arith
cleanup_expired_tokens_bound none payload ts deleted keyed h = elim (int_cases payload.batch_size) [
  | inr (n, b) ↦ ground arith
  | inl (n, b) ↦
      let ids = map id_of (batch n payload.before ts) in
      let few = drops_at_most ids ts keyed in
      let small = length-batch n (oldest_first (candidates payload.before ts)) in
      let fewer = length-without ids ts in
      let counted : deleted ≡ pos (length ts - length (without ids ts)) = ground arith in
      rw (b, counted) (omega (arith, few, small, fewer), ground (arith, few, small, fewer))
]
