-- ===== src/Limiter/Window.antt =====
-- ratelimit.go: how many requests of one address pass.
use code_runner_backend.Prelude.{
  ℕ, suc, ◌+◌, ◌-◌, ◌*◌, ◌≤◌, ◌≡◌, subst, inl, inr, Bool, true, ◌&&◌, List, [], ◌∷◌, Option, none,
  some, arith, ltb, if◌then◌else◌, Bool-cases, Option-cases,
}
use code_runner_backend.Prelude.Text.{Text, same, same_iff, same_refl}
use code_runner_backend.Prelude.TextMap.{load, load-store}
use code_runner_backend.Limiter.{
  Config, IpBucket, Buckets, minute, refresh, admit, bucket_of, allow,
}

-- A call of Allow.
pub record Call : Type 0 where
  pub ip : Text
  pub stored_at : ℕ
  pub now : ℕ

-- How many of the calls of an address are allowed, one call after the other.
unfoldable pub allowed_of : Config → Text → List Call → Buckets → ℕ
allowed_of cfg ip [] m = 0
allowed_of cfg ip (c ∷ calls) m =
    let (ok, m') = allow cfg c.ip c.stored_at c.now m in
    let rest = allowed_of cfg ip calls m' in if same c.ip ip && ok then suc rest else rest

-- Every call of the address is made in the minute from `from` on.
abbrev pub InMinute : Text → ℕ → List Call → Type 0
InMinute ip from [] = Unit
InMinute ip from (c ∷ calls) =
    (same c.ip ip ≡ true → (from ≤ c.stored_at) × (from ≤ c.now) × (c.now ≤ from + minute))
    × InMinute ip from calls

-- What a bucket can still allow by the end of the minute: its window may end once in between.
quota : Config → ℕ → IpBucket → ℕ
quota cfg from b =
    if ltb b.minute_reset (from + minute)
    then cfg.per_minute - b.minute_count + cfg.per_minute
    else cfg.per_minute - b.minute_count

bit : Bool → ℕ
bit ok = if ok then 1 else 0

quota-admit :
    (cfg : Config) (from now : ℕ) (b : IpBucket)
    → from ≤ now
    → now ≤ from + minute
    → bit (admit cfg (refresh now b)).0 + quota cfg from (admit cfg (refresh now b)).1
      ≤ quota cfg from b
unfolding quota bit admit refresh
quota-admit cfg from now b h k = ground arith

entry_quota : Config → ℕ → Option IpBucket → ℕ
entry_quota cfg from none = cfg.per_minute
entry_quota cfg from (some b) = quota cfg from b

pub allow-entry :
    (cfg : Config) (ip : Text) (stored_at now : ℕ) (m : Buckets) (j : Text)
    → load j (allow cfg ip stored_at now m).1 ≡ (
        if same ip j then some (admit cfg (refresh now (bucket_of ip stored_at m))).1 else load j m)
unfolding allow
allow-entry cfg ip stored_at now m j =
    load-store ip j (admit cfg (refresh now (bucket_of ip stored_at m))).1 m

quota-bucket_of :
    (cfg : Config) (ip : Text) (from stored_at : ℕ) (m : Buckets)
    → from ≤ stored_at
    → quota cfg from (bucket_of ip stored_at m) ≤ entry_quota cfg from (load ip m)
unfolding quota entry_quota bucket_of
quota-bucket_of cfg ip from stored_at m s = ground arith

allow-quota :
    (cfg : Config) (ip : Text) (from stored_at now : ℕ) (m : Buckets)
    → from ≤ stored_at
    → from ≤ now
    → now ≤ from + minute
    → bit (allow cfg ip stored_at now m).0
        + entry_quota cfg from (load ip (allow cfg ip stored_at now m).1)
      ≤ entry_quota cfg from (load ip m)
unfolding allow entry_quota
allow-quota cfg ip from stored_at now m s h k =
    let b = bucket_of ip stored_at m in
    let entry : load ip (allow cfg ip stored_at now m).1 ≡ some (admit cfg (refresh now b)).1 =
      ground (arith, allow-entry cfg ip stored_at now m ip, same_refl ip) in
    rw entry
      (omega (arith, quota-admit cfg from now b h k, quota-bucket_of cfg ip from stored_at m s))

allowed_of-quota :
    (cfg : Config) (ip : Text) (from : ℕ) (calls : List Call) (m : Buckets)
    → InMinute ip from calls
    → allowed_of cfg ip calls m ≤ entry_quota cfg from (load ip m)
unfolding allowed_of
allowed_of-quota cfg ip from [] m h = omega arith
allowed_of-quota cfg ip from (c ∷ calls) m h =
    let next = (allow cfg c.ip c.stored_at c.now m).1 in
    let later = allowed_of-quota cfg ip from calls next h.1 in
    elim (Bool-cases (same c.ip ip)) [
      | inl mine ↦
          let name : c.ip ≡ ip = (same_iff c.ip ip).0 mine in
          let times = h.0 mine in
          let spent =
            subst
              (λ t.
                bit (allow cfg c.ip c.stored_at c.now m).0 + entry_quota cfg from (load t next)
                ≤ entry_quota cfg from (load t m))
              name (allow-quota cfg c.ip from c.stored_at c.now m times.0 times.1 times.2) in
          rw mine (counted (allow cfg c.ip c.stored_at c.now m).0 spent later)
      | inr foreign ↦
          let kept : load ip next ≡ load ip m =
            ground (arith, allow-entry cfg c.ip c.stored_at c.now m ip) in
          rw foreign (rw (← kept) later)
    ]
  where
    counted :
        (ok : Bool) {k q r : ℕ} → bit ok + q ≤ r → k ≤ q → (if true && ok then suc k else k) ≤ r
    counted ok h k = unfold bit in ground arith

-- The calls of an address in a minute that are let through are at most twice its limit, whatever
-- came before and whatever other addresses do.
pub allowed_of-le :
    (cfg : Config) (ip : Text) (from : ℕ) (calls : List Call) (m : Buckets)
    → InMinute ip from calls
    → allowed_of cfg ip calls m ≤ 2 * cfg.per_minute
unfolding quota entry_quota
allowed_of-le cfg ip from calls m h = elim (Option-cases (load ip m)) [
  | inl e ↦ ground (arith, allowed_of-quota cfg ip from calls m h)
  | inr (b, e) ↦ ground (arith, allowed_of-quota cfg ip from calls m h)
]
