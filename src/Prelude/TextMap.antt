-- ===== src/Prelude/TextMap.antt =====
-- Go's maps and `sync.Map` with string keys: an association list in which a key stands once.
-- Clients have `load`, `store`, `delete`, `sweep` and their laws.
use code_runner_backend.Prelude.Text.{Text, same, same_iff}
use code_runner_backend.Prelude.Tests.{if◌then◌else◌, Bool-cases}
use code_runner_backend.Prelude.Lists.{any, every}
use mathlib.Core.Logic.{inl, inr}
use mathlib.Core.Path.{◌≡◌, refl}
use mathlib.Core.Bool.{Bool, true, false}
use mathlib.Core.Option.{Option, none, some}
use mathlib.Core.List.{List, [], ◌∷◌, map, Mem, mem-cons_self, mem-cons_of_mem}
use native.Mathlib.Omega.{arith}

module _ {ℓ} {V : Type ℓ} where
  find_entry : Text → List (Text × V) → Option V
  find_entry k [] = none
  find_entry k ((j, v) ∷ l) = if same j k then some v else find_entry k l

  put_entry : Text → V → List (Text × V) → List (Text × V)
  put_entry k v [] = (k, v) ∷ []
  put_entry k v ((j, w) ∷ l) = if same j k then (k, v) ∷ l else (j, w) ∷ put_entry k v l

  drop_entry : Text → List (Text × V) → List (Text × V)
  drop_entry k [] = []
  drop_entry k ((j, w) ∷ l) = let rest = drop_entry k l in if same j k then rest else (j, w) ∷ rest

  find_entry-put_entry :
      (k j : Text) (v : V) (l : List (Text × V))
      → find_entry j (put_entry k v l) ≡ (if same k j then some v else find_entry j l)
  unfolding find_entry put_entry
  find_entry-put_entry k j v [] = refl
  find_entry-put_entry k j v ((i, w) ∷ l) =
      ground (arith, same_iff k j, same_iff i k, same_iff i j, find_entry-put_entry k j v l)

  find_entry-drop_entry :
      (k j : Text) (l : List (Text × V))
      → find_entry j (drop_entry k l) ≡ (if same k j then none else find_entry j l)
  unfolding find_entry drop_entry
  find_entry-drop_entry k j [] = ground arith
  find_entry-drop_entry k j ((i, w) ∷ l) =
      ground (arith, same_iff k j, same_iff i k, same_iff i j, find_entry-drop_entry k j l)

pub record TextMap {ℓ} (V : Type ℓ) : Type ℓ where
  entries : List (Text × V)

module _ {ℓ} {V : Type ℓ} where
  unfoldable pub empty : TextMap V
  empty = record { entries = [] }

  unfoldable pub load : Text → TextMap V → Option V
  unfolding find_entry same
  load k m = find_entry k m.entries

  unfoldable pub store : Text → V → TextMap V → TextMap V
  unfolding put_entry same
  store k v m = record { entries = put_entry k v m.entries }

  unfoldable pub delete : Text → TextMap V → TextMap V
  unfolding drop_entry same
  delete k m = record { entries = drop_entry k m.entries }

  -- A map literal, whose keys are distinct.
  unfoldable pub of_list : List (Text × V) → TextMap V
  of_list l = record { entries = l }

  find_entry-every :
      (p : V → Bool) (k : Text) (l : List (Text × V)) {v : V}
      → every (λ e. p e.1) l ≡ true
      → find_entry k l ≡ some v
      → p v ≡ true
  unfolding find_entry
  find_entry-every p k [] h e = cc
  find_entry-every p k ((j, w) ∷ l) {v} h e = ground (arith, find_entry-every p k l {v = v})

  -- What a test says of every value of a literal holds of a value found in it.
  pub load-of_list :
      (p : V → Bool) (k : Text) (l : List (Text × V)) {v : V}
      → every (λ e. p e.1) l ≡ true
      → load k (of_list l) ≡ some v
      → p v ≡ true
  unfolding load of_list
  load-of_list p k l h e = find_entry-every p k l h e

  pub load-empty : (k : Text) → load k empty ≡ none
  unfolding load empty
  load-empty k = refl

  pub load-store :
      (k j : Text) (v : V) (m : TextMap V)
      → load j (store k v m) ≡ (if same k j then some v else load j m)
  unfolding load store
  load-store k j v m = find_entry-put_entry k j v m.entries

  pub load-delete :
      (k j : Text) (m : TextMap V) → load j (delete k m) ≡ (if same k j then none else load j m)
  unfolding load delete
  load-delete k j m = find_entry-drop_entry k j m.entries

  unfoldable pub keys : TextMap V → List Text
  keys m = map (λ e. e.0) m.entries

  visit : (V → Bool) → Text → TextMap V → TextMap V
  unfolding load delete
  visit p k m = elim (load k m) [ none ↦ m | some v ↦ if p v then delete k m else m ]

  sweep_keys : (V → Bool) → List Text → TextMap V → TextMap V
  sweep_keys p [] m = m
  sweep_keys p (k ∷ ks) m = sweep_keys p ks (visit p k m)

  -- `Range` with a callback that deletes the entries which pass a test.
  unfoldable pub sweep : (V → Bool) → TextMap V → TextMap V
  unfolding keys visit sweep_keys
  sweep p m = sweep_keys p (keys m) m

  -- `Range`, collecting the values.
  unfoldable pub values : TextMap V → List V
  values m = map (λ e. e.1) m.entries

  abbrev pub discard : (V → Bool) → Option V → Option V
  discard p none = none
  discard p (some v) = if p v then none else some v

  load-visit :
      (p : V → Bool) (k j : Text) (m : TextMap V)
      → load j (visit p k m) ≡ (if same k j then discard p (load j m) else load j m)
  unfolding visit
  load-visit p k j m = ground (arith, same_iff k j, load-delete k j m)

  load-sweep_keys :
      (p : V → Bool) (j : Text) (ks : List Text) (m : TextMap V)
      → load j (sweep_keys p ks m)
        ≡ (if any (λ k. same k j) ks then discard p (load j m) else load j m)
  unfolding sweep_keys
  load-sweep_keys p j [] m = refl
  load-sweep_keys p j (k ∷ ks) m =
      ground (arith, load-visit p k j m, load-sweep_keys p j ks (visit p k m))

  find_entry-absent :
      (j : Text) (l : List (Text × V))
      → any (λ k. same k j) (map (λ e. e.0) l) ≡ false
      → find_entry j l ≡ none
  unfolding find_entry
  find_entry-absent j [] h = refl
  find_entry-absent j ((k, v) ∷ l) h = ground (arith, find_entry-absent j l)

  -- Only the keys are found.
  pub load-keys :
      (j : Text) (m : TextMap V) → any (λ k. same k j) (keys m) ≡ false → load j m ≡ none
  unfolding keys load
  load-keys j m h = find_entry-absent j m.entries h

  -- Every entry is visited, and exactly those that pass the test are gone.
  pub load-sweep :
      (p : V → Bool) (j : Text) (m : TextMap V) → load j (sweep p m) ≡ discard p (load j m)
  unfolding sweep
  load-sweep p j m = elim (Bool-cases (any (λ k. same k j) (keys m))) [
    | inl here ↦ ground (arith, load-sweep_keys p j (keys m) m)
    | inr away ↦ ground (arith, load-sweep_keys p j (keys m) m, load-keys j m away)
  ]

  find_entry-mem :
      (k : Text) (l : List (Text × V)) (v : V) → find_entry k l ≡ some v → Mem v (map (λ e. e.1) l)
  unfolding find_entry
  find_entry-mem k [] v h = absurd (cc)
  find_entry-mem k ((j, w) ∷ l) v h = elim (Bool-cases (same j k)) [
    | inl hit ↦ let found : w ≡ v = ground arith in rw found mem-cons_self
    | inr miss ↦ mem-cons_of_mem w (find_entry-mem k l v (ground arith))
  ]

  -- A value that is found is among the values.
  pub load-values : (k : Text) (m : TextMap V) (v : V) → load k m ≡ some v → Mem v (values m)
  unfolding load values
  load-values k m v h = find_entry-mem k m.entries v h

pub ruleset map_laws = (load-empty, load-store, load-delete, load-sweep)
