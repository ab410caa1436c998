-- ===== src/Limiter/Examples.antt =====
-- Runs of the limiter, and its theorems at concrete inputs.
use code_runner_backend.Prelude.{ℕ, ◌≡◌, refl, List, [], ◌∷◌, arith}
use code_runner_backend.Prelude.Text.{Text, codes, same}
use code_runner_backend.Prelude.TextMap.{empty, load, store, load-empty}
use code_runner_backend.Limiter.{Config, IpBucket, Buckets, allow}
use code_runner_backend.Limiter.Window.{Call, allowed_of, InMinute}
use code_runner_backend.Limiter.Janitor.{AllTimely, allow-AllTimely}

abbrev two_a_minute : Config
two_a_minute = record { per_minute = 2; per_day = 100 }

abbrev call_at : Text → ℕ → Call
call_at ip t = record { ip = ip; stored_at = t; now = t }

abbrev busy : List Call
busy =
    call_at (codes "x") 100
    ∷ call_at (codes "x") 200
    ∷ call_at (codes "y") 250
    ∷ call_at (codes "x") 300
    ∷ []

busy_allowed : allowed_of two_a_minute (codes "x") busy empty ≡ 2
unfolding allowed_of allow load store empty
busy_allowed = refl

busy-InMinute : InMinute (codes "x") 100 busy
unfolding same
busy-InMinute = omega arith

empty-AllTimely : AllTimely empty
empty-AllTimely j b h = absurd (cc (load-empty {V = IpBucket} j))

abbrev one_seen : Buckets
one_seen = (allow two_a_minute (codes "x") 100 100 empty).1

one_seen-AllTimely : AllTimely one_seen
one_seen-AllTimely =
    allow-AllTimely two_a_minute (codes "x") 100 100 empty (omega arith)
      (λ b h. absurd (cc (load-empty {V = IpBucket} (codes "x")))) empty-AllTimely
