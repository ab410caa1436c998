-- ===== src/Runner/Release.antt =====
-- RunCode of runCode.go: what becomes of the slot and of the directory.
use mathlib.Core.List.{append_assoc}
use code_runner_backend.Prelude.{
  ℕ, ◌≡◌, refl, sym, Bool, true, false, not, List, [], ◌∷◌, ◌++◌, Option, none, some, arith, Result,
  ok, err, Option-cases, inl, inr, ◌⊎◌, map, count_if, count_if-append,
}
use code_runner_backend.Prelude.Text.{Text}
use code_runner_backend.Api.{ExecuteRequest}
use code_runner_backend.Pool.{ContainerSlot}
use code_runner_backend.Runner.Language.{normalize_lang, extension_of}
use code_runner_backend.Runner.Files.{
  os_error, FileEffect, RunCode, create_file, new_run_code, create_file_partial,
}
use code_runner_backend.Runner.Flow.{
  RunError, file_failed, Effect, file_effect, removed_dir, released, World, Outcome,
  run_code_container, is_timeout, with_slot, run_code, finish, container_path,
}

abbrev pub is_release : Effect → Bool
is_release (released _ _ _) = true
is_release _ = false

abbrev pub is_removal : Effect → Bool
is_removal (removed_dir _) = true
is_removal _ = false

count_file_effects :
    (p : Effect → Bool) (es : List FileEffect)
    → ((e : FileEffect) → p (file_effect e) ≡ false)
    → count_if p (map file_effect es) ≡ 0
count_file_effects p [] h = refl
count_file_effects p (e ∷ es) h = rw (h e) (count_file_effects p es h)

-- Is the slot reported broken? Only when the run ended in the exec timeout.
abbrev pub kept_healthy : Option RunError → Bool
kept_healthy none = true
kept_healthy (some e) = not (is_timeout e)

-- One release, the last effect of all.
abbrev pub ReleasesLast : Text → ContainerSlot → Outcome → Type 0
ReleasesLast language slot o =
    (before : List Effect) × (o.effects
      ≡ before ++ released language slot (kept_healthy o.error) ∷ [])
    × (count_if is_release before ≡ 0)

run_code_container_unreleased :
    (w : World) (language path : Text) (slot : ContainerSlot)
    → count_if is_release (run_code_container w language path slot).1 ≡ 0
unfolding run_code_container
run_code_container_unreleased w language path slot = ground arith

finish-ReleasesLast :
    (w : World) (request : ExecuteRequest) (language : Text) (slot : ContainerSlot) (rc : RunCode)
    (r : Result RunError (ℕ × Text)) (ran : List Effect)
    → count_if is_release ran ≡ 0
    → ReleasesLast language slot (finish w request language slot rc (r, ran))
finish-ReleasesLast w request language slot rc r ran h =
    let files = map file_effect rc.effects in
    let before = files ++ ran ++ removed_dir rc.path ∷ [] in
    let quiet : count_if is_release before ≡ 0 = omega (
      arith,
      count_if-append is_release (files ++ ran) (removed_dir rc.path ∷ []),
      count_if-append is_release files ran,
      count_file_effects is_release rc.effects (λ e. refl),
    ) in
    (before, shape r, quiet)
  where
    shape :
        (q : Result RunError (ℕ × Text))
        → (finish w request language slot rc (q, ran)).effects
          ≡ (map file_effect rc.effects ++ ran ++ removed_dir rc.path ∷ [])
            ++ released language slot
                (kept_healthy (finish w request language slot rc (q, ran)).error)
              ∷ []
    shape (ok (ms, output)) = sym (
        append_assoc (map file_effect rc.effects ++ ran) (removed_dir rc.path ∷ [])
          (released language slot true ∷ []))
    shape (err e) = sym (
        append_assoc (map file_effect rc.effects ++ ran) (removed_dir rc.path ∷ [])
          (released language slot (not (is_timeout e)) ∷ []))

with_slot-ReleasesLast :
    (w : World) (request : ExecuteRequest) (language : Text) (slot : ContainerSlot)
    → ReleasesLast language slot (with_slot w request language slot)
unfolding with_slot
with_slot-ReleasesLast w request language slot =
    let rc =
      create_file w.disk language request.code_block (slot.host_path ++ b'/' ∷ w.uuid)
        new_run_code in
    elim (Option-cases rc.err) [
      | inl e ↦
          rw (e, with_slot)
            (finish-ReleasesLast w request language slot rc
              (run_code_container w language (container_path w rc) slot).0
              (run_code_container w language (container_path w rc) slot).1
              (run_code_container_unreleased w language (container_path w rc) slot))
      | inr (x, e) ↦
          rw (e, with_slot)
            (map file_effect rc.effects, refl, count_file_effects is_release rc.effects (λ f. refl))
    ]

-- A request for which the pool of its normalized language gave a slot gives it back exactly once, as
-- its last act, under that language, and as broken exactly when the run ended in the execution
-- timeout.
pub run_code-ReleasesLast :
    (w : World) (request : ExecuteRequest) (slot : ContainerSlot)
    → w.acquired (normalize_lang request.language) ≡ ok slot
    → ReleasesLast (normalize_lang request.language) slot (run_code w request)
unfolding run_code
run_code-ReleasesLast w request slot e =
    rw (e, run_code) (with_slot-ReleasesLast w request (normalize_lang request.language) slot)

-- Once the directory is made, a failure to create or to write the file leaves it on the disk: the
-- call that removes it is not deferred yet.
pub run_code_leaves_dir :
    (w : World) (request : ExecuteRequest) (slot : ContainerSlot) (ext reason : Text)
    → w.acquired (normalize_lang request.language) ≡ ok slot
    → extension_of (normalize_lang request.language) ≡ some ext
    → w.disk.mkdir ≡ none
    → (w.disk.create ≡ some reason) ⊎ (w.disk.create ≡ none) × (w.disk.write ≡ some reason)
    → ((run_code w request).error ≡ some (file_failed (os_error reason)))
      × (count_if is_removal (run_code w request).effects ≡ 0)
unfolding run_code with_slot
run_code_leaves_dir w request slot ext reason a x m f =
    let language = normalize_lang request.language in
    let path = slot.host_path ++ b'/' ∷ w.uuid in
    let rc = create_file w.disk language request.code_block path new_run_code in
    let failed = (create_file_partial w.disk language request.code_block path ext reason x m f).0 in
    (
      rw (a, run_code) (rw (failed, with_slot) refl),
      rw (a, run_code)
          (rw (failed, with_slot)
            (rw
              (
                count_if-append is_removal (map file_effect rc.effects)
                    (released language slot true ∷ []),
                count_file_effects is_removal rc.effects (λ g. refl),
              )
              refl)),
    )
