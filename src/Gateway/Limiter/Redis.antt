-- ===== src/Gateway/Limiter/Redis.antt =====
-- The interface of Redis that the script of the rate limiter uses.
use edge_guard.Base.{
  ℕ, ◌+◌, ◌≤◌, ◌<◌, ◌≡◌, ℤ, pos, Bool, true, false, Option, none, some, if◌then◌else◌,
}
use edge_guard.Text.{Text}

-- The milliseconds of Redis' clock.
abbrev pub Clock : Type 0
Clock = ℕ

-- A counter: its count, and the time at which it expires, if it does.
abbrev pub Entry : Type 0
Entry = Option (ℕ × Option Clock)

-- What there is of an entry at a time, where `gone` says of an expiry and a time whether the expired
-- key has been deleted.
abbrev pub live : (Clock → Clock → Bool) → Entry → Clock → Entry
live gone none now = none
live gone (some (c, none)) now = some (c, none)
live gone (some (c, some d)) now = if gone d now then none else some (c, some d)

abbrev pub raised : Entry → ℕ × Option Clock
raised none = (1, none)
raised (some (c, d)) = (c + 1, d)

-- The commands that the script calls, each at a time of Redis' clock, with what Redis documents of
-- them. `INCR` counts a key up from its count, 0 for a key that is not there, keeps its expiry, and
-- returns the new count; `PEXPIRE` with a positive time to live sets the expiry of a key that is there.
-- A key is there until its expiry, and is deleted after it.
pub record Redis : Type 1 where
  pub State : Type 0
  pub incr : State → Clock → Text → State × ℕ
  pub pexpire : State → Clock → Text → ℤ → State
  pub pttl : State → Clock → Text → ℤ
  pub stored : State → Text → Entry
  pub gone : Clock → Clock → Bool
  pub there_before : (expiry now : Clock) → now < expiry → gone expiry now ≡ false
  pub gone_after : (expiry now : Clock) → expiry < now → gone expiry now ≡ true
  pub incr_returns :
      (s : State) (now : Clock) (k : Text)
      → (incr s now k).1 ≡ (raised (live gone (stored s k) now)).0
  pub stored-incr :
      (s : State) (now : Clock) (k : Text)
      → stored (incr s now k).0 k ≡ some (raised (live gone (stored s k) now))
  pub stored-pexpire :
      (s : State) (now : Clock) (k : Text) (ttl c : ℕ)
      → 1 ≤ ttl
      → stored s k ≡ some (c, none)
      → stored (pexpire s now k (pos ttl)) k ≡ some (c, some (now + ttl))
