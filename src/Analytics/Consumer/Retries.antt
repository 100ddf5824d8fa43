-- ===== src/Analytics/Consumer/Retries.antt =====
-- The attempts at one event: how many there are, how long the consumer waits between them, and that
-- the loop ends.
use edge_guard.Base.{
  ℕ, zero, suc, ◌+◌, ◌<◌, ◌≤◌, ◌^◌, ◌*◌, ◌/◌, ℤ, pos, int_le, int_lt, ◌≤ℤ◌, ◌<ℤ◌, pos_part, negsuc,
  ◌∙◌, ◌/ℤ◌, ◌*ℤ◌, int64_small, ◌≡◌, refl, arith, Bool, true, false, Bool-cases, Option-cases,
  Result-cases, inl, inr, Option, some, [], ◌∷◌, All, All-map, ok, err, length,
}
use edge_guard.Text.{Text}
use edge_guard.Analytics.Event.{GatewayAccessEvent}
use edge_guard.Analytics.Store.{Outcome, IngestionResult}
use edge_guard.Analytics.Consumer.{
  ClientConfig, Config, new_consumer, Consumer, Ports, Processed, finished, again, is_last,
  next_retry_delay, retry, is_invalid,
}
use edge_guard.Analytics.Consumer.Delivery.{process_with_retry}

-- A delay of at least `low` and at most `high`.
abbrev pub IsBetween : ℕ → ℕ → ℤ → Type 0
IsBetween low high delay = (d : ℕ) × (delay ≡ pos d) × (low ≤ d) × (d ≤ high)

doubled :
    (low high d : ℕ)
    → high < 2 ^ 63
    → low ≤ d
    → d ≤ high
    → IsBetween low high (next_retry_delay (pos d) (pos high))
unfolding next_retry_delay ◌/ℤ◌ ◌*ℤ◌
doubled low high d h lower upper = elim (Bool-cases (int_le (pos high) (pos d))) [
  | inl reached ↦ rw reached (high, refl, omega arith, omega arith)
  | inr below ↦ elim (Bool-cases (int_lt (pos (high / 2)) (pos d))) [
    | inl near ↦ rw (below, near) (high, refl, omega arith, omega arith)
    | inr far ↦
        rw (below, far, int64_small (d * 2) (ground arith)) (d * 2, refl, omega arith, ground arith)
  ]
]

next_retry_delay-IsBetween :
    (low high : ℕ) (delay : ℤ)
    → high < 2 ^ 63
    → IsBetween low high delay
    → IsBetween low high (next_retry_delay delay (pos high))
next_retry_delay-IsBetween low high delay h (d, e, lower, upper) =
    rw e (doubled low high d h lower upper)

module _ {S : Type 0} (c : Consumer) (p : Ports S) (event : GatewayAccessEvent)
    (low high max : ℕ) where
  -- What the loop makes of its attempts from the given one on.
  record IsBounded (attempt : ℕ) (result : Option (Processed S)) : Type 0 where
    done : Processed S
    is_done : result ≡ some done
    few : done.calls + attempt ≤ max + 1
    waits : length done.delays ≤ done.calls
    in_range : All (IsBetween low high) done.delays

  finished-IsBounded :
      (attempt : ℕ) (s : S) (outcome : Outcome IngestionResult)
      → attempt ≤ max
      → IsBounded attempt (finished c p event s outcome)
  finished-IsBounded attempt s outcome h = record {
    done = record { state = s; calls = 1; delays = []; outcome = outcome };
    is_done = refl;
    few = omega arith;
    waits = omega arith;
    in_range = tt;
  }

  again-IsBounded :
      (attempt : ℕ) (delay : ℤ) (result : Option (Processed S))
      → IsBetween low high delay
      → IsBounded (attempt + 1) result
      → IsBounded attempt (again c p event delay result)
  again-IsBounded attempt delay result between b = record {
    done = record b.done { calls = b.done.calls + 1; delays = delay ∷ b.done.delays };
    is_done = rw b.is_done refl;
    few = omega (arith, b.few);
    waits = omega (arith, b.waits);
    in_range = (between, b.in_range);
  }

  stopped-IsBounded :
      (attempt : ℕ) (delay : ℤ) (s : S) (outcome : Outcome IngestionResult)
      → attempt ≤ max
      → IsBetween low high delay
      → IsBounded attempt
          (some (record { state = s; calls = 1; delays = delay ∷ []; outcome = outcome }))
  stopped-IsBounded attempt delay s outcome h between = record {
    done = record { state = s; calls = 1; delays = delay ∷ []; outcome = outcome };
    is_done = refl;
    few = omega arith;
    waits = omega arith;
    in_range = (between, tt);
  }

  further :
      (attempt : ℕ)
      → c.max_process_attempts ≡ pos max
      → attempt ≤ max
      → is_last attempt c.max_process_attempts ≡ false
      → attempt + 1 ≤ max
  further attempt m within more = ground arith

  retry-IsBounded :
      (rounds attempt : ℕ) (delay : ℤ) (s : S)
      → c.max_process_attempts ≡ pos max
      → c.retry_max ≡ pos high
      → high < 2 ^ 63
      → IsBetween low high delay
      → attempt ≤ max
      → max < rounds + attempt
      → IsBounded attempt (retry c p event rounds attempt delay s)
  unfolding retry
  retry-IsBounded zero attempt delay s m r h between within left = ground arith
  retry-IsBounded (suc rounds) attempt delay s m r h between within left =
      elim (Result-cases (p.process attempt event s).1) [
        | inl (result, e) ↦ rw (retry, entered, e) (finished-IsBounded attempt _ (ok result) within)
        | inr (fault, e) ↦ elim (Bool-cases (is_invalid fault)) [
          | inl invalid ↦
              rw (retry, entered, e, invalid) (finished-IsBounded attempt _ (err fault) within)
          | inr valid ↦ elim (Option-cases (p.over_after attempt)) [
            | inr (over, o) ↦
                rw (retry, entered, e, valid, o) (finished-IsBounded attempt _ _ within)
            | inl o ↦ elim (Bool-cases (is_last attempt c.max_process_attempts)) [
              | inl last ↦
                  rw (retry, entered, e, valid, o, last) (finished-IsBounded attempt _ _ within)
              | inr more ↦ elim (Option-cases (p.over_in_wait attempt)) [
                | inr (over, w) ↦
                    rw (retry, entered, e, valid, o, more, w)
                      (stopped-IsBounded attempt delay _ _ within between)
                | inl w ↦
                    rw (retry, entered, e, valid, o, more, w)
                      (again-IsBounded attempt delay _ between (
                        retry-IsBounded rounds (attempt + 1) (next_retry_delay delay c.retry_max)
                          (p.process attempt event s).0 m r h
                          (rw r (next_retry_delay-IsBetween low high delay h between))
                          (further attempt m within more) (omega arith)))
              ]
            ]
          ]
        ]
      ]
    where
      entered : int_le (pos attempt) c.max_process_attempts ≡ true
      entered = rw m (ground arith)

positive : (z : ℤ) → int_lt (pos 0) z ≡ true → (n : ℕ) × (z ≡ pos n) × (1 ≤ n)
positive (pos n) h = (n, refl, ground arith)
positive (negsuc n) h = ground arith

upper :
    (low : ℕ) (a z : ℤ)
    → a ≡ pos low
    → int_le a z ≡ true
    → z <ℤ pos (2 ^ 63)
    → (n : ℕ) × (z ≡ pos n) × (low ≤ n) × (n < 2 ^ 63)
upper low a (pos n) e h k = (n, refl, ground arith, ground arith)
upper low a (negsuc n) e h k = ground arith

within_limits :
    (low high : ℕ) (a z : ℤ)
    → a ≡ pos low
    → z ≡ pos high
    → (delay : ℤ) → IsBetween low high delay
    → (a ≤ℤ delay) × (delay ≤ℤ z)
within_limits low high a z l r delay (d, e, lower, higher) = rw (l, r, e) (omega arith, omega arith)

at_most : (calls max : ℕ) (z : ℤ) → z ≡ pos max → calls ≤ max → pos calls ≤ℤ z
at_most calls max z e h = rw e (omega arith)

enough : (max : ℕ) (z : ℤ) → z ≡ pos max → max < suc (pos_part z) + 1
enough max z e = rw e (omega arith)

record IsConfigured (c : Consumer) (config : Config) : Type 0 where
  retry_min : c.retry_min ≡ config.retry_min
  retry_max : c.retry_max ≡ config.retry_max
  attempts : c.max_process_attempts ≡ config.max_process_attempts
  min_positive : int_lt (pos 0) config.retry_min ≡ true
  ordered : int_le config.retry_min config.retry_max ≡ true
  some_attempt : int_lt (pos 0) config.max_process_attempts ≡ true

configured :
    (new_client ping : ClientConfig → Option Text) (processor log : Bool) (config : Config)
    (c : Consumer)
    → new_consumer new_client ping processor log config ≡ ok c
    → IsConfigured c config
unfolding new_consumer
configured new_client ping processor log config c h = record {
  retry_min = ground arith;
  retry_max = ground arith;
  attempts = ground arith;
  min_positive = ground arith;
  ordered = ground arith;
  some_attempt = ground arith;
}

-- A consumer that `New` has made, with a maximal delay that fits its type, is done with any event
-- after finitely many rounds: it calls the processor at most as many times as it is configured to,
-- it waits no more often than it calls, and each wait is between the two configured delays.
pub process_with_retry_ends :
    {S : Type 0} (new_client ping : ClientConfig → Option Text) (processor log : Bool)
    (config : Config) (c : Consumer) (p : Ports S) (event : GatewayAccessEvent) (s : S)
    → new_consumer new_client ping processor log config ≡ ok c
    → config.retry_max <ℤ pos (2 ^ 63)
    → (done : Processed S) × (process_with_retry c p event s ≡ some done)
      × (pos done.calls ≤ℤ config.max_process_attempts)
      × (length done.delays ≤ done.calls)
      × All (λ delay. (config.retry_min ≤ℤ delay) × (delay ≤ℤ config.retry_max)) done.delays
unfolding process_with_retry
process_with_retry_ends new_client ping processor log config c p event s made h =
    let is = configured new_client ping processor log config c made in
    let (low, l, one) = positive config.retry_min is.min_positive in
    let (max, m, some_attempt) = positive config.max_process_attempts is.some_attempt in
    let (high, r, ordered, fits) = upper low config.retry_min config.retry_max l is.ordered h in
    let b =
      retry-IsBounded c p event low high max (suc (pos_part c.max_process_attempts)) 1 c.retry_min s
        (is.attempts ∙ m) (is.retry_max ∙ r) fits (low, is.retry_min ∙ l, omega arith, ordered)
        some_attempt (enough max c.max_process_attempts (is.attempts ∙ m)) in
    (
      b.done,
      b.is_done,
      at_most b.done.calls max config.max_process_attempts m (omega (arith, b.few)),
      b.waits,
      All-map (IsBetween low high)
          (λ delay. (config.retry_min ≤ℤ delay) × (delay ≤ℤ config.retry_max))
          (within_limits low high config.retry_min config.retry_max l r) b.done.delays b.in_range,
    )
