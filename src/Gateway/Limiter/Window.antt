-- ===== src/Gateway/Limiter/Window.antt =====
-- The arithmetic of the fixed windows.
use Prim.Native.Nat.{max}
use edge_guard.Base.{ap, ℕ, ◌+◌, ◌-◌, ◌*◌, ◌/◌, ◌≤◌, ◌<◌, ◌≡◌, pos, arith, ◌+ℤ◌, ◌*ℤ◌, ◌/ℤ◌, ◌↔◌}
use edge_guard.Base.Time.{Time, millisecond, second, unix_epoch, unix_milli, of_unix_milli}
use edge_guard.Gateway.Limiter.{current_window, window_end, script_ttl}

-- milliseconds since 1970
abbrev pub epoch_ms : Time → ℕ
epoch_ms now = now / millisecond - unix_epoch * 1000

current_window_lem :
    (now : Time) (w : ℕ)
    → unix_epoch * second ≤ now
    → current_window now (pos w) ≡ pos (epoch_ms now / w)
unfolding current_window unix_milli ◌/ℤ◌
current_window_lem now w h = ground arith

window_end_lem :
    (q w : ℕ) → window_end (pos q) (pos w) ≡ unix_epoch * second + (q + 1) * w * millisecond
unfolding window_end of_unix_milli ◌+ℤ◌ ◌*ℤ◌
window_end_lem q w = ground arith

quotient_bounds : (z w : ℕ) → 0 < w → (z < (z / w + 1) * w) × ((z / w + 1) * w ≤ z + w)
quotient_bounds z w h = omega arith

end_bounds :
    (now p w : ℕ)
    → unix_epoch * second ≤ now
    → epoch_ms now < p
    → p ≤ epoch_ms now + w
    → (now < unix_epoch * second + p * millisecond)
      × (unix_epoch * second + p * millisecond ≤ now + w * millisecond)
end_bounds now p w h lo hi = omega arith

pub window_end_bounds :
    (now : Time) (w : ℕ)
    → unix_epoch * second ≤ now
    → 0 < w
    → (now < window_end (current_window now (pos w)) (pos w))
      × (window_end (current_window now (pos w)) (pos w) ≤ now + w * millisecond)
window_end_bounds now w h k =
    let q = epoch_ms now / w in
    let b = quotient_bounds (epoch_ms now) w k in
    rw (current_window_lem now w h)
      (rw (window_end_lem q w) (end_bounds now ((q + 1) * w) w h b.0 b.1))

script_ttl_bounds :
    (reset_at now w : ℕ)
    → 0 < w
    → now < reset_at
    → reset_at ≤ now + w * millisecond
    → (ttl : ℕ) × (script_ttl reset_at now ≡ pos ttl) × (1 ≤ ttl) × (ttl ≤ w)
unfolding script_ttl
script_ttl_bounds reset_at now w k lo hi =
    (max (reset_at - now) millisecond / millisecond, ground arith, omega arith, omega arith)

rest_reached :
    (now p : ℕ)
    → unix_epoch * second ≤ now
    → now < unix_epoch * second + p * millisecond
    → p
      ≤ epoch_ms now
        + max (unix_epoch * second + p * millisecond - now) millisecond / millisecond
        + 1
rest_reached now p h lt = omega arith

-- The time to live falls short of the rest of a window by less than two milliseconds.
pub script_ttl_reaches :
    (now : Time) (q w : ℕ)
    → unix_epoch * second ≤ now
    → 0 < w
    → current_window now (pos w) ≡ pos q
    → (ttl : ℕ) × (script_ttl (window_end (pos q) (pos w)) now ≡ pos ttl)
      × (1 ≤ ttl)
      × ((q + 1) * w ≤ epoch_ms now + ttl + 1)
unfolding script_ttl
script_ttl_reaches now q w h k e =
    let bounds = rw (e, window_end_lem) at (window_end_bounds now w h k) in
    let reset_at = window_end (pos q) (pos w) in
    let at_ms = window_end_lem q w in
    (
      max (reset_at - now) millisecond / millisecond,
      ground arith,
      omega arith,
      rw at_ms (rest_reached now ((q + 1) * w) h bounds.0),
    )

-- The window of a time from 1970 on ends after that time, at most one window length later, and the
-- script gets a time to live of at least one millisecond and at most one window length.
pub window_bounds :
    (now : Time) (w : ℕ)
    → unix_epoch * second ≤ now
    → 0 < w
    → (now < window_end (current_window now (pos w)) (pos w))
      × (window_end (current_window now (pos w)) (pos w) ≤ now + w * millisecond)
      × ((ttl : ℕ) × (script_ttl (window_end (current_window now (pos w)) (pos w)) now ≡ pos ttl)
          × (1 ≤ ttl)
          × (ttl ≤ w))
window_bounds now w h k =
    let (lo, hi) = window_end_bounds now w h k in (lo, hi, script_ttl_bounds _ now w k lo hi)

same_quotient : (a b w : ℕ) → 0 < w → a ≤ b → b < (a / w + 1) * w → b / w ≡ a / w
same_quotient a b w k le lt = grind arith

before_end :
    (later p : ℕ) → later < unix_epoch * second + p * millisecond → 0 < p → epoch_ms later < p
before_end later p h k = omega arith

-- From 1970 on, a later time belongs to the window of an earlier one exactly as long as that window
-- has not ended.
pub same_window_iff :
    (earlier later : Time) (w : ℕ)
    → unix_epoch * second ≤ earlier
    → earlier ≤ later
    → 0 < w
    → (current_window later (pos w) ≡ current_window earlier (pos w))
      ↔ (later < window_end (current_window earlier (pos w)) (pos w))
same_window_iff earlier later w h le k = (
  λ e. rw e at (window_end_bounds later w (omega arith) k).0,
  λ lt.
      rw (current_window_lem earlier w h, current_window_lem later w (omega arith))
        (ap pos (
          same_quotient (epoch_ms earlier) (epoch_ms later) w k (omega arith) (
            before_end later ((epoch_ms earlier / w + 1) * w)
              (rw (current_window_lem earlier w h, window_end_lem) at lt)
              (omega (arith, quotient_bounds (epoch_ms earlier) w k))))),
)
