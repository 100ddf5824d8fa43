-- ===== src/Gateway/Limiter/Script.antt =====
-- The script `fixedWindowScript`, over an abstract Redis, and what the limiter makes of a run of
-- requests in one window.
use edge_guard.Base.{
  ℕ, zero, suc, ◌+◌, ◌-◌, ◌*◌, ◌≤◌, ◌≡◌, refl, ap, ◌∙◌, sym, ℤ, pos, int_le, Bool, true, false, ◌<◌,
  none, some, List, [], ◌∷◌, if◌then◌else◌, ◌==◌, leb, ok, err, arith, is_empty, ◌/ℤ◌, length, All,
}
use edge_guard.Base.Time.{Time, millisecond, second, unix_epoch}
use edge_guard.Text.{Text, trim_space}
use edge_guard.Gateway.Route.{RateLimitRequest, RateLimitResult}
use edge_guard.Gateway.Usecase.{Outcome}
use edge_guard.Gateway.Limiter.Redis.{Clock, Entry, Redis}
use edge_guard.Gateway.Limiter.Window.{epoch_ms, script_ttl_reaches}
use edge_guard.Gateway.Limiter.{
  int64_value, Reply, array, Limiter, redis_key, current_window, window_end, script_ttl,
  limit_result, executed, parse_script_result, allow,
}

-- The counter of a window that ends at `end`, after `n` requests: it expires no more than one
-- millisecond before the end.
abbrev IsKept : Entry → ℕ → Clock → Type 0
IsKept none n end = n ≡ 0
IsKept (some (c, none)) n end = ⊥
IsKept (some (c, some d)) n end = (n ≡ c) × (1 ≤ c) × (end ≤ d + 1)

module _ (redis : Redis) where
  open redis use {State, incr, pexpire, pttl, stored, gone}

  -- the Lua text
  unfoldable pub fixed_window_script : Clock → State → Text → ℤ → Outcome Reply × State
  fixed_window_script now s key ttl =
      let (s', current) = incr s now key in
      let s'' = if current == 1 then pexpire s' now key ttl else s' in
      (ok (array (int64_value (pos current) ∷ int64_value (pttl s'' now key) ∷ [])), s'')

  -- the state after the script
  abbrev after : Clock → State → Text → ℤ → State
  after now s key ttl = (fixed_window_script now s key ttl).1

  counted_entry :
      (now : Clock) (s : State) (key : Text) (ttl n : ℕ) (end : Clock) (entry : Entry)
      → stored s key ≡ entry
      → IsKept entry n end
      → now + 1 < end
      → 1 ≤ ttl
      → end ≤ now + ttl + 1
      → ((incr s now key).1 ≡ n + 1) × IsKept (stored (after now s key (pos ttl)) key) (n + 1) end
  unfolding fixed_window_script
  counted_entry now s key ttl n end none e kept early h reach =
      let returned : (incr s now key).1 ≡ 1 = redis.incr_returns s now key ∙ rw e refl in
      let entry : stored (incr s now key).0 key ≡ some (1, none) =
        redis.stored-incr s now key ∙ rw e refl in
      (
        returned ∙ omega arith,
        rw (returned, redis.stored-pexpire (incr s now key).0 now key ttl 1 h entry)
            (omega arith, omega arith, omega arith),
      )
  counted_entry now s key ttl n end (some (c, none)) e kept early h reach = absurd kept
  counted_entry now s key ttl n end (some (c, some d)) e (same, some_counted, late) early h reach =
      let there : gone d now ≡ false = redis.there_before d now (omega arith) in
      let returned : (incr s now key).1 ≡ c + 1 =
        redis.incr_returns s now key ∙ rw (e, there) refl in
      let entry : stored (incr s now key).0 key ≡ some (c + 1, some d) =
        redis.stored-incr s now key ∙ rw (e, there) refl in
      let later : ((incr s now key).1 == 1) ≡ false = rw returned (ground arith) in
      (returned ∙ omega arith, rw (later, entry) (omega arith, omega arith, late))

-- A request that passes the checks of `Allow`: a positive limit, a window of `w` whole milliseconds,
-- and names that are not blank.
pub record IsCounted (request : RateLimitRequest) (limit w : ℕ) : Type 0 where
  pub limit_is : request.policy.limit ≡ pos limit
  pub limit_pos : 1 ≤ limit
  pub window_is : request.policy.window /ℤ millisecond ≡ pos w
  pub window_pos : 1 ≤ w
  pub window_set : int_le request.policy.window (pos 0) ≡ false
  pub route_set : is_empty (trim_space request.route_key) ≡ false
  pub client_set : is_empty (trim_space request.client_id) ≡ false

-- The first `free` of `n` answers are true.
abbrev pub quota : ℕ → ℕ → List Bool
quota free zero = []
quota zero (suc n) = false ∷ quota zero n
quota (suc free) (suc n) = true ∷ quota free n

abbrev pub is_allowed : Outcome RateLimitResult → Bool
is_allowed (ok r) = r.allowed
is_allowed (err _) = false

quota-step :
    (free limit k n : ℕ)
    → limit - k ≡ free
    → quota free (suc n) ≡ leb (k + 1) limit ∷ quota (limit - (k + 1)) n
quota-step zero limit k n e =
    let none_left : limit - (k + 1) ≡ 0 = omega arith in rw none_left (ground arith)
quota-step (suc free) limit k n e =
    let one_less : limit - (k + 1) ≡ free = omega arith in rw one_less (ground arith)

-- A call of Allow at a time of the window number `q`, and the time of Redis' clock, which is no earlier,
-- at which the script runs; more than a millisecond of the window is left.
pub record IsWithin (w q : ℕ) (at : Time) (now : Clock) : Type 0 where
  pub from_1970 : unix_epoch * second ≤ at
  pub same_window : current_window at (pos w) ≡ pos q
  pub no_earlier : epoch_ms at ≤ now
  pub early : now + 1 < (q + 1) * w

module _ (redis : Redis) (l : Limiter) (request : RateLimitRequest) where
  open redis use {State, stored}

  -- The answers to the request, each at a time and at a time of Redis' clock, one after the other.
  unfoldable pub admissions : List (Time × Clock) → State → List Bool
  admissions [] s = []
  admissions ((t, now) ∷ calls) s =
      let (r, s') = allow (fixed_window_script redis now) l request t s in
      is_allowed r ∷ admissions calls s'

  abbrev pub counter : ℕ → Text
  counter q = redis_key l request.route_key request.client_id (pos q)

  counted_call :
      (eval : State → Text → ℤ → Outcome Reply × State) (limit w q : ℕ) (t : Time) (s : State)
      → IsCounted request limit w
      → current_window t (pos w) ≡ pos q
      → let reset_at = window_end (pos q) (pos w) in
        let (reply, s') = eval s (counter q) (script_ttl reset_at t) in
        allow eval l request t s ≡ (executed reply request t reset_at, s')
  unfolding allow
  counted_call eval limit w q t s c same =
      rw (c.window_is, c.window_set, c.route_set, c.client_set, c.limit_is, same)
        (ground (arith, c.limit_pos, c.window_pos))

  executed_within :
      (limit w n : ℕ) (t reset_at : Time) (now : Clock) (s : State) (key : Text) (ttl : ℤ)
      → IsCounted request limit w
      → (redis.incr s now key).1 ≡ n + 1
      → is_allowed (executed (fixed_window_script redis now s key ttl).0 request t reset_at)
        ≡ leb (n + 1) limit
  unfolding fixed_window_script parse_script_result limit_result
  executed_within limit w n t reset_at now s key ttl c returned =
      rw (c.limit_is, returned) (ground arith)

  step_within :
      (limit w q n : ℕ) (t : Time) (now : Clock) (s : State)
      → IsCounted request limit w
      → IsWithin w q t now
      → IsKept (stored s (counter q)) n ((q + 1) * w)
      → let (answer, s') = allow (fixed_window_script redis now) l request t s in
        (is_allowed answer ≡ leb (n + 1) limit)
        × IsKept (stored s' (counter q)) (n + 1) ((q + 1) * w)
  step_within limit w q n t now s c within kept =
      let (ttl, ttl_is, ttl_pos, reach) =
        script_ttl_reaches t q w within.from_1970 c.window_pos within.same_window in
      let (returned, still_kept) =
        counted_entry redis now s (counter q) ttl n ((q + 1) * w) (stored s (counter q)) refl kept
          within.early ttl_pos (omega (arith, within.no_earlier)) in
      rw (counted_call (fixed_window_script redis now) limit w q t s c within.same_window) (
        executed_within limit w n t (window_end (pos q) (pos w)) now s (counter q)
            (script_ttl (window_end (pos q) (pos w)) t) c returned,
        rw ttl_is still_kept,
      )

  admissions_kept :
      (limit w q n : ℕ) (calls : List (Time × Clock)) (s : State)
      → IsCounted request limit w
      → IsKept (stored s (counter q)) n ((q + 1) * w)
      → All (λ call. IsWithin w q call.0 call.1) calls
      → admissions calls s ≡ quota (limit - n) (length calls)
  unfolding admissions
  admissions_kept limit w q n [] s c kept h = refl
  admissions_kept limit w q n ((t, now) ∷ calls) s c kept (within, h) =
      let (answer, still_kept) = step_within limit w q n t now s c within kept in
      let s' = (allow (fixed_window_script redis now) l request t s).1 in
      rw answer (
        ap (λ r. leb (n + 1) limit ∷ r) (admissions_kept limit w q (n + 1) calls s' c still_kept h)
        ∙ sym (quota-step _ limit n (length calls) refl))

  -- In one window, whose counter is not there yet, the requests are allowed as long as the limit is not
  -- used up, and refused from then on, whatever their times in the window are, if the script runs no
  -- earlier than Allow has read its clock and more than a millisecond before the end of the window: the
  -- counter is not deleted before.
  pub admissions-eq-quota :
      (limit w q : ℕ) (calls : List (Time × Clock)) (s : State)
      → IsCounted request limit w
      → stored s (counter q) ≡ none
      → All (λ call. IsWithin w q call.0 call.1) calls
      → admissions calls s ≡ quota limit (length calls)
  admissions-eq-quota limit w q calls s c fresh h =
      let whole : limit - 0 ≡ limit = omega arith in
      admissions_kept limit w q 0 calls s c (rw fresh refl) h
      ∙ ap (λ f. quota f (length calls)) whole
