-- ===== src/Limiter/Janitor.antt =====
-- ratelimit.go: the clean-up forgets no count that still matters.
use code_runner_backend.Prelude.{ℕ, ◌+◌, ◌≤◌, ◌≡◌, inl, inr, some, arith, ltb, Option-cases}
use code_runner_backend.Prelude.Text.{Text}
use code_runner_backend.Prelude.TextMap.{load, load-sweep}
use code_runner_backend.Limiter.{
  Config, IpBucket, Buckets, minute, day, refresh, admit, bucket_of, allow, janitor_tick,
}
use code_runner_backend.Limiter.Window.{allow-entry}

-- A window of a bucket ends at most its length after the bucket was last used.
abbrev pub IsTimely : IpBucket → Type 0
IsTimely b = (b.minute_reset ≤ b.last_seen + minute) × (b.day_reset ≤ b.last_seen + day)

abbrev pub AllTimely : Buckets → Type 0
AllTimely m = (j : Text) (b : IpBucket) → load j m ≡ some b → IsTimely b

-- The clock does not run backwards: the call comes after the last use of its bucket, and after the
-- bucket was stored.
abbrev pub NotBefore : Text → ℕ → Buckets → Type 0
NotBefore ip now m = (b : IpBucket) → load ip m ≡ some b → b.last_seen ≤ now

pub allow-AllTimely :
    (cfg : Config) (ip : Text) (stored_at now : ℕ) (m : Buckets)
    → stored_at ≤ now
    → NotBefore ip now m
    → AllTimely m
    → AllTimely (allow cfg ip stored_at now m).1
unfolding bucket_of refresh admit
allow-AllTimely cfg ip stored_at now m s n v j b h = elim (Option-cases (load ip m)) [
  | inl e ↦ ground (arith, allow-entry cfg ip stored_at now m j, v j b)
  | inr (c, e) ↦ ground (arith, allow-entry cfg ip stored_at now m j, v j b, v ip c, n c)
]

-- Where every window ends within its length after the last use of its bucket, a tick of the janitor
-- at any time before a call changes nothing in what Allow answers.
pub allow-janitor_tick :
    (cfg : Config) (ip : Text) (tick stored_at now : ℕ) (m : Buckets)
    → AllTimely m
    → tick ≤ stored_at
    → stored_at ≤ now
    → (allow cfg ip stored_at now (janitor_tick tick m)).0 ≡ (allow cfg ip stored_at now m).0
unfolding allow bucket_of refresh admit janitor_tick
allow-janitor_tick cfg ip tick stored_at now m v t s = elim (Option-cases (load ip m)) [
  | inl e ↦ ground (arith, load-sweep (λ (b : IpBucket). ltb (b.last_seen + day) tick) ip m)
  | inr (c, e) ↦
      ground (arith, load-sweep (λ (b : IpBucket). ltb (b.last_seen + day) tick) ip m, v ip c)
]
