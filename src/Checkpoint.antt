-- ===== src/Checkpoint.antt =====
-- internal/agent/checkpoint/store.go: the states of interrupted runs, kept in memory for a while.
use code_runner_backend.Prelude.{
  ℕ, ◌+◌, ◌-◌, ◌≤◌, ◌≡◌, refl, sym, ◌∙◌, Bool, true, false, List, [], ◌∷◌, Option, none, some,
  arith, ltb, if◌then◌else◌, inl, inr, Option-cases,
}
use code_runner_backend.Prelude.Text.{Text, same, same_iff}
use code_runner_backend.Prelude.TextMap.{
  TextMap, load, store, delete, sweep, discard, load-store, load-delete, load-sweep,
}
mod Examples

pub record Item : Type 0 where
  pub data_of : List ℕ
  pub updated_at : ℕ

pub record CheckPointStore : Type 0 where
  pub ttl : ℕ
  pub items : TextMap Item

-- `time.Since(it.updatedAt) > s.ttl`
abbrev is_old : ℕ → ℕ → Item → Bool
is_old ttl now it = ltb ttl (now - it.updated_at)

unfoldable pub get_item : Text → ℕ → CheckPointStore → Option (List ℕ) × CheckPointStore
get_item id now s = elim (load id s.items) [
  | none ↦ (none, s)
  | some it ↦
      if is_old s.ttl now it
      then (none, record s { items = delete id s.items })
      else (some it.data_of, s)
]

unfoldable pub set_item : Text → List ℕ → ℕ → CheckPointStore → CheckPointStore
set_item id data_of now s = record s {
  items = store id (record { data_of = data_of; updated_at = now }) s.items;
}

unfoldable pub delete_item : Text → CheckPointStore → CheckPointStore
delete_item id s = record s { items = delete id s.items }

-- One tick of the clean-up.
unfoldable pub clean_items : ℕ → CheckPointStore → CheckPointStore
clean_items now s = record s { items = sweep (is_old s.ttl now) s.items }

-- Neither a clean-up nor a Get of any id changes what a later Get finds.
pub get_item-clean_items :
    (i j : Text) (now later : ℕ) (s : CheckPointStore)
    → now ≤ later
    → ((get_item j later (clean_items now s)).0 ≡ (get_item j later s).0)
      × ((get_item j later (get_item i now s).1).0 ≡ (get_item j later s).0)
unfolding get_item clean_items
get_item-clean_items i j now later s t = elim (Option-cases (load j s.items)) [
  | inl e ↦
      ground (arith, same_iff i j, load-delete i j s.items, load-sweep (is_old s.ttl now) j s.items)
  | inr (it, e) ↦
      ground (arith, same_iff i j, load-delete i j s.items, load-sweep (is_old s.ttl now) j s.items)
]

-- What was set is found for the time to live, and no other id is concerned; after a delete it is not
-- found.
pub get_item-set_item :
    (i j : Text) (data_of : List ℕ) (now later : ℕ) (s : CheckPointStore)
    → ((get_item j later (set_item i data_of now s)).0 ≡ (
        if same i j
        then (if ltb s.ttl (later - now) then none else some data_of)
        else (get_item j later s).0))
      × ((get_item j later (delete_item i s)).0
          ≡ (if same i j then none else (get_item j later s).0))
unfolding get_item set_item delete_item
get_item-set_item i j data_of now later s =
    let it : Item = record { data_of = data_of; updated_at = now } in
    ground (arith, same_iff i j, load-store i j it s.items, load-delete i j s.items)
