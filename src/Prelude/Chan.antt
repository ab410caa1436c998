-- ===== src/Prelude/Chan.antt =====
-- Go's buffered channels: a bounded queue that can be closed.
use Prim.Native.Nat.{ℕ, ◌<◌}
use mathlib.Core.Path.{◌≡◌}
use mathlib.Core.Bool.{Bool, true, false}
use mathlib.Core.List.{List, [], ◌∷◌, ◌++◌}
use native.Mathlib.Omega.{arith}
use code_runner_backend.Prelude.Tests.{ltb, if◌then◌else◌}
use code_runner_backend.Prelude.Lists.{length}

pub record Chan {ℓ} (A : Type ℓ) : Type ℓ where
  pub buffer : List A
  pub capacity : ℕ
  pub is_closed : Bool

-- A send completes, waits for room, or panics because the channel is closed.
pub data Sent {ℓ} (A : Type ℓ) : Type ℓ where
  sent : Chan A → Sent A
  send_waits send_panics : Sent A

-- A receive takes the oldest value, waits, or (closed and drained) returns `ok = false`.
pub data Received {ℓ} (A : Type ℓ) : Type ℓ where
  received : A → Chan A → Received A
  receive_waits drained : Received A

module _ {ℓ} {A : Type ℓ} where
  -- `make(chan A, n)`
  unfoldable pub make : ℕ → Chan A
  make n = record { buffer = []; capacity = n; is_closed = false }

  unfoldable pub send : A → Chan A → Sent A
  send a c =
      if c.is_closed
      then send_panics
      else if ltb (length c.buffer) c.capacity
      then sent (record c { buffer = c.buffer ++ a ∷ [] })
      else send_waits

  abbrev receive_from : List A → Chan A → Received A
  receive_from [] c = if c.is_closed then drained else receive_waits
  receive_from (a ∷ rest) c = received a (record c { buffer = rest })

  unfoldable pub receive : Chan A → Received A
  receive c = receive_from c.buffer c

  unfoldable pub close : Chan A → Chan A
  close c = record c { is_closed = true }

  -- A channel with room that is open takes the value at its end.
  pub send-room :
      (a : A) (c : Chan A)
      → c.is_closed ≡ false
      → length c.buffer < c.capacity
      → send a c ≡ sent (record c { buffer = c.buffer ++ a ∷ [] })
  unfolding send
  send-room a c h r = ground arith
