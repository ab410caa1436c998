-- ===== src/Pool.antt =====
-- internal/infrastructure/containerBasic/pool.go: the pool of idle containers, one buffered channel
-- for each language. The docker client is not modelled: whether a restart works is an argument.
pub mod System
pub mod Setup
pub mod Startup
pub mod Conservation
pub mod Capacity
pub mod Places
mod Examples
use code_runner_backend.Prelude.{
  ℕ, zero, suc, ◌+◌, Bool, true, false, length, List, [], ◌∷◌, ◌++◌, Option, none, some, ltb, not,
  if◌then◌else◌,
}
use code_runner_backend.Prelude.Text.{Text, codes, decimal}
use code_runner_backend.Prelude.TextMap.{TextMap, empty, of_list, load, store}
use code_runner_backend.Prelude.Chan.{
  Chan, Sent, sent, send_waits, send_panics, Received, received, receive_waits, drained, make, send,
  receive, close,
}

pub record ContainerSlot : Type 0 where
  pub name : Text
  pub host_path : Text

pub record LangPool : Type 0 where
  pub idle : Chan ContainerSlot
  pub lang : Text
  pub size : ℕ
  pub image : Text

pub record ContainerPool : Type 0 where
  pub pools : TextMap LangPool
  pub closed : Bool

pub data PoolError : Type 0 where
  pool_closed : PoolError
  unsupported_language pool_exhausted : Text → PoolError

-- `langHostDir`
unfoldable pub lang_host_dir : TextMap Text
unfolding of_list
lang_host_dir = of_list (
    (codes "golang", codes "golang")
    ∷ (codes "python", codes "python")
    ∷ (codes "javascript", codes "javascript")
    ∷ (codes "java", codes "java")
    ∷ (codes "c", codes "c")
    ∷ [])

-- The i-th container of a language: `<image>-<i>`, mounted at `/app/tmp/<dir>-<i>`.
unfoldable pub make_slot : Text → Text → ℕ → ContainerSlot
make_slot prefix dir i = record {
  name = prefix ++ b'-' ∷ decimal i;
  host_path = codes "/app/tmp/" ++ dir ++ b'-' ∷ decimal i;
}

-- The loop that fills a channel, `rounds` rounds from `i` on. `none`: it waits for ever.
unfoldable pub fill_idle : Text → Text → ℕ → ℕ → Chan ContainerSlot → Option (Chan ContainerSlot)
fill_idle prefix dir zero i c = some c
fill_idle prefix dir (suc rounds) i c = elim (send (make_slot prefix dir i) c) [
  | sent c' ↦ fill_idle prefix dir rounds (i + 1) c'
  | send_waits ↦ none
  | send_panics ↦ none
]

-- A missing key of a Go map of strings reads as the empty string.
abbrev pub text_at : Text → TextMap Text → Text
text_at k m = elim (load k m) [ none ↦ [] | some t ↦ t ]

unfoldable pub new_lang_pool : TextMap Text → Text → ℕ → Option LangPool
new_lang_pool images lang size =
    let prefix = text_at lang images in
    elim (fill_idle prefix (text_at lang lang_host_dir) size 0 (make size)) [
      | none ↦ none
      | some idle ↦ some (record { idle = idle; lang = lang; size = size; image = prefix })
    ]

-- The loop over `poolSizes`, in the order in which the map is ranged over.
unfoldable pub fill_pools :
    TextMap Text → List (Text × ℕ) → TextMap LangPool → Option (TextMap LangPool)
fill_pools images [] pools = some pools
fill_pools images ((lang, size) ∷ rest) pools = elim (new_lang_pool images lang size) [
  | none ↦ none
  | some lp ↦ fill_pools images rest (store lang lp pools)
]

unfoldable pub new_container_pool : List (Text × ℕ) → TextMap Text → Option ContainerPool
new_container_pool sizes images = elim (fill_pools images sizes empty) [
  | none ↦ none
  | some pools ↦ some (record { pools = pools; closed = false })
]

pub data Acquired : Type 0 where
  got : ContainerSlot → ContainerPool → Acquired
  refused : PoolError → Acquired
  acquire_waits : Acquired

abbrev set_idle : Text → LangPool → Chan ContainerSlot → ContainerPool → ContainerPool
set_idle lang lp c p = record p { pools = store lang (record lp { idle = c }) p.pools }

-- The `select` of Acquire. `cancelled`: the branch of `ctx.Done()` is the one that runs.
abbrev select_slot : ContainerPool → Text → LangPool → Bool → Received ContainerSlot → Acquired
select_slot p lang lp true r = refused (pool_exhausted lang)
select_slot p lang lp false (received slot c) = got slot (set_idle lang lp c p)
select_slot p lang lp false receive_waits = acquire_waits
select_slot p lang lp false drained = refused pool_closed

unfoldable pub acquire : ContainerPool → Text → Bool → Acquired
acquire p lang cancelled = if p.closed then refused pool_closed else elim (load lang p.pools) [
  | none ↦ refused (unsupported_language lang)
  | some lp ↦ select_slot p lang lp cancelled (receive lp.idle)
]

-- What Release decides before it sends: drop the slot, send it back, or start `replenish`.
pub data Plan : Type 0 where
  discard give_back rebuild : Plan

unfoldable pub release_plan : ContainerPool → Text → Bool → Plan
release_plan p lang healthy = if p.closed then discard else elim (load lang p.pools) [
  | none ↦ discard
  | some lp ↦ if healthy then give_back else rebuild
]

-- `lp.idle <- slot` under `recover`: a send on a closed channel loses the slot and does not fail.
pub data PutBack : Type 0 where
  back : ContainerPool → PutBack
  slot_lost put_back_waits : PutBack

abbrev put_result : ContainerPool → Text → LangPool → Sent ContainerSlot → PutBack
put_result p lang lp (sent c) = back (set_idle lang lp c p)
put_result p lang lp send_waits = put_back_waits
put_result p lang lp send_panics = slot_lost

unfoldable pub put_back : ContainerPool → Text → ContainerSlot → PutBack
put_back p lang slot = elim (load lang p.pools) [
  | none ↦ slot_lost
  | some lp ↦ put_result p lang lp (send slot lp.idle)
]

abbrev pub max_replenish_retries : ℕ
max_replenish_retries = 3

-- The restart loop of `replenish`: the attempt that starts the container, if one does.
unfoldable pub restart_loop : (ℕ → Bool) → ℕ → ℕ → Option ℕ
restart_loop starts zero attempt = none
restart_loop starts (suc left) attempt =
    let again = restart_loop starts left (attempt + 1) in
    if starts attempt then some attempt else again

-- `replenish` up to its send: is the rebuilt slot to be sent back?
unfoldable pub replenish : ContainerPool → (ℕ → Bool) → Bool
unfolding restart_loop
replenish p starts = elim (restart_loop starts max_replenish_retries 1) [
  | none ↦ false
  | some attempt ↦ not p.closed
]

-- Close raises the flag first and closes the channels afterwards, one by one.
unfoldable pub mark_closed : ContainerPool → ContainerPool
mark_closed p = record p { closed = true }

unfoldable pub close_idle : Text → ContainerPool → ContainerPool
close_idle lang p = elim (load lang p.pools) [
  | none ↦ p
  | some lp ↦ set_idle lang lp (close lp.idle) p
]

unfoldable pub idle_count : ContainerPool → Text → ℕ
idle_count p lang = elim (load lang p.pools) [ none ↦ 0 | some lp ↦ length lp.idle.buffer ]
