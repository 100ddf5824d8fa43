-- ===== src/Analytics/Query/Scan.antt =====
-- When the sums of a summary fit into the fields that they are scanned into.
use edge_guard.Base.{
  ℕ, ◌<◌, ◌^◌, ◌≡◌, refl, sym, ◌∙◌, ◌⊎◌, inl, inr, Bool, true, false, ◌&&◌, Bool-cases, ltb, arith,
  ok, err, Error, opaque,
}
use edge_guard.Text.{codes}
use edge_guard.Analytics.Store.{Sentinel, Counts}
use edge_guard.Analytics.Query.{scans, scan, summary_of}

-- the counts that are asked for are in the range of int64
pub record IsInt64 (c : Counts) : Type 0 where
  pub request_count_fits : c.request_count < 2 ^ 63
  pub status_1xx_fits : c.status_1xx < 2 ^ 63
  pub status_2xx_fits : c.status_2xx < 2 ^ 63
  pub status_3xx_fits : c.status_3xx < 2 ^ 63
  pub status_4xx_fits : c.status_4xx < 2 ^ 63
  pub status_5xx_fits : c.status_5xx < 2 ^ 63
  pub rate_limited_fits : c.rate_limited < 2 ^ 63
  pub max_duration_ms_fits : c.max_duration_ms < 2 ^ 63
  pub total_response_bytes_fits : c.total_response_bytes < 2 ^ 63

both : {a b : Bool} → a ≡ true → b ≡ true → (a && b) ≡ true
both h k = rw (h, k) refl

small : (n : ℕ) → n < 2 ^ 63 → ltb n (2 ^ 63) ≡ true
small n h = ground arith

clash : false ≡ true → ⊥
clash h = ground arith

IsInt64-scans : (c : Counts) → IsInt64 c → scans c ≡ true
unfolding scans
IsInt64-scans c r =
    both
      (both
        (both
          (both
            (both
              (both
                (both
                  (both (small c.request_count r.request_count_fits)
                    (small c.status_1xx r.status_1xx_fits))
                  (small c.status_2xx r.status_2xx_fits))
                (small c.status_3xx r.status_3xx_fits))
              (small c.status_4xx r.status_4xx_fits))
            (small c.status_5xx r.status_5xx_fits))
          (small c.rate_limited r.rate_limited_fits))
        (small c.max_duration_ms r.max_duration_ms_fits))
      (small c.total_response_bytes r.total_response_bytes_fits)

pub scan_cases :
    (c : Counts)
    → (IsInt64 c × (scan c ≡ ok (summary_of c)))
      ⊎ (¬ IsInt64 c × ((e : Error Sentinel) × (scan c ≡ err e)))
unfolding scan scans
scan_cases c = elim (Bool-cases (scans c)) [
  | inl fits ↦ inl (
    record {
      request_count_fits = ground arith;
      status_1xx_fits = ground arith;
      status_2xx_fits = ground arith;
      status_3xx_fits = ground arith;
      status_4xx_fits = ground arith;
      status_5xx_fits = ground arith;
      rate_limited_fits = ground arith;
      max_duration_ms_fits = ground arith;
      total_response_bytes_fits = ground arith;
    },
    rw (scan, fits) refl,
  )
  | inr not_fits ↦ inr (
    λ r. clash (sym not_fits ∙ IsInt64-scans c r),
    (opaque (codes "cannot scan numeric into int64"), rw (scan, not_fits) refl),
  )
]
