-- ===== src/Jobs/Worker/Cleaner.antt =====
-- internal/jobworker/infrastructure/postgres/cleanup.go: the deletion of expired and revoked refresh
-- tokens, on the table of the auth service. Tokens of the same creation time come in the table's
-- order here; Postgres promises none.
pub mod Kept
use edge_guard.Base.{
  ℕ, zero, suc, ◌≤◌, ◌+◌, ◌-◌, ◌<◌, ℤ, pos, negsuc, Bool, true, false, not, ◌&&◌, ◌||◌, Option,
  none, some, List, [], ◌∷◌, if◌then◌else◌, leb, ltb, length, take, map, Result, ok, err, All, ◌≡◌,
  refl, arith, Bool-cases, Option-cases, inl, inr,
}
use edge_guard.Base.Time.{Time, before}
use edge_guard.Text.{Text, ◌≟◌, codes, contains}
use edge_guard.Text.Equal.{≟_iff, ≟_refl}
use edge_guard.Auth.Tokens.{RefreshToken, by_id, find, is_active, is_none}
use edge_guard.Jobs.Payload.{CleanupPayload}
use edge_guard.Jobs.Worker.{Failure, plain, context}

abbrev revoked_before : Time → Option Time → Bool
revoked_before limit none = false
revoked_before limit (some t) = before t limit

-- the WHERE clause of the candidates
unfoldable pub is_candidate : Time → RefreshToken → Bool
is_candidate limit t = before t.expires_at limit || revoked_before limit t.revoked_at

unfoldable pub candidates : Time → List RefreshToken → List RefreshToken
unfolding is_candidate
candidates limit [] = []
candidates limit (t ∷ ts) =
    let rest = candidates limit ts in if is_candidate limit t then t ∷ rest else rest

-- ORDER BY created_at
unfoldable pub by_age : RefreshToken → List RefreshToken → List RefreshToken
by_age t [] = t ∷ []
by_age t (u ∷ us) =
    let rest = by_age t us in if leb t.created_at u.created_at then t ∷ u ∷ us else u ∷ rest

unfoldable pub oldest_first : List RefreshToken → List RefreshToken
unfolding by_age
oldest_first [] = []
oldest_first (t ∷ ts) = by_age t (oldest_first ts)

abbrev id_of : RefreshToken → Text
id_of t = t.id

-- DELETE … WHERE token.id = candidates.id
unfoldable pub without : List Text → List RefreshToken → List RefreshToken
unfolding contains
without ids [] = []
without ids (t ∷ ts) = let rest = without ids ts in if contains t.id ids then rest else t ∷ rest

-- CleanupExpiredTokens: the rows that are left, and how many were deleted.
unfoldable pub cleanup_expired_tokens :
    Option Text → CleanupPayload → List RefreshToken → List RefreshToken × Result Failure ℤ
unfolding candidates oldest_first without
cleanup_expired_tokens (some text) payload ts =
    (ts, err (context (codes "delete expired refresh tokens") (plain text)))
cleanup_expired_tokens none payload ts = elim payload.batch_size [
  | negsuc _ ↦ (
    ts,
    err (
        context (codes "delete expired refresh tokens")
          (plain (codes "LIMIT must not be negative"))),
  )
  | pos limit ↦
      let chosen = take limit (oldest_first (candidates payload.before ts)) in
      let left = without (map id_of chosen) ts in (left, ok (pos (length ts - length left)))
]
