-- ===== src/Checkpoint/Examples.antt =====
-- The theorems of the checkpoint store at concrete inputs.
use code_runner_backend.Prelude.{◌≡◌, refl, [], ◌∷◌, none, some}
use code_runner_backend.Prelude.Text.{codes}
use code_runner_backend.Prelude.TextMap.{empty, load, store}
use code_runner_backend.Checkpoint.{CheckPointStore, get_item, set_item}

abbrev one_item : CheckPointStore
unfolding set_item
one_item = set_item (codes "a") (1 ∷ []) 100 (record { ttl = 50; items = empty })

item_expires :
    ((get_item (codes "a") 150 one_item).0 ≡ some (1 ∷ []))
    × ((get_item (codes "a") 151 one_item).0 ≡ none)
unfolding one_item get_item load store empty
item_expires = (refl, refl)
