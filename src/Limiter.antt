-- ===== src/Limiter.antt =====
-- internal/infrastructure/ratelimit/ratelimit.go: the limits of requests by address. The mutex of a
-- bucket makes Allow one step; the clock is an argument, in nanoseconds. A limit that is negative
-- in the configuration refuses everything, as 0 does.
pub mod Window
pub mod Janitor
mod Examples
use code_runner_backend.Prelude.{
  ℕ, zero, suc, ◌+◌, ◌-◌, ◌*◌, Bool, true, false, ◌||◌, List, [], ◌∷◌, Option, none, some, ltb, leb,
  if◌then◌else◌,
}
use code_runner_backend.Prelude.Text.{Text, same}
use code_runner_backend.Prelude.TextMap.{TextMap, empty, load, store, sweep}

pub record Config : Type 0 where
  pub per_minute : ℕ
  pub per_day : ℕ

pub record IpBucket : Type 0 where
  pub minute_count : ℕ
  pub minute_reset : ℕ
  pub day_count : ℕ
  pub day_reset : ℕ
  pub last_seen : ℕ

abbrev pub minute : ℕ
minute = 60_000_000_000

abbrev pub day : ℕ
day = 86_400_000_000_000

abbrev pub Buckets : Type 0
Buckets = TextMap IpBucket

-- What LoadOrStore puts there for an address that is new; `lastSeen` is the zero time.
abbrev pub fresh : ℕ → IpBucket
fresh now = record {
  minute_count = 0;
  minute_reset = now + minute;
  day_count = 0;
  day_reset = now + day;
  last_seen = 0;
}

-- The two resets.
unfoldable pub refresh : ℕ → IpBucket → IpBucket
refresh now b = record {
  minute_count = if ltb b.minute_reset now then 0 else b.minute_count;
  minute_reset = if ltb b.minute_reset now then now + minute else b.minute_reset;
  day_count = if ltb b.day_reset now then 0 else b.day_count;
  day_reset = if ltb b.day_reset now then now + day else b.day_reset;
  last_seen = now;
}

unfoldable pub admit : Config → IpBucket → Bool × IpBucket
admit cfg b =
    if leb cfg.per_minute b.minute_count || leb cfg.per_day b.day_count
    then (false, b)
    else (true, record b { minute_count = b.minute_count + 1; day_count = b.day_count + 1 })

unfoldable pub bucket_of : Text → ℕ → Buckets → IpBucket
bucket_of ip stored_at m = elim (load ip m) [ none ↦ fresh stored_at | some b ↦ b ]

-- `stored_at` and `now` are the two readings of the clock.
unfoldable pub allow : Config → Text → ℕ → ℕ → Buckets → Bool × Buckets
unfolding bucket_of refresh admit
allow cfg ip stored_at now m =
    let (allowed, b) = admit cfg (refresh now (bucket_of ip stored_at m)) in (allowed, store ip b m)

-- One tick of the janitor: buckets not seen for a day go. `now - day` before the epoch is no time.
unfoldable pub janitor_tick : ℕ → Buckets → Buckets
janitor_tick now m = sweep (λ b. ltb (b.last_seen + day) now) m
