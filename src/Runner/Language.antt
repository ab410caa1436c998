-- ===== src/Runner/Language.antt =====
-- runCode.go: language names, file extensions and commands.
use code_runner_backend.Prelude.{
  ◌≡◌, refl, Bool, true, false, not, ◌&&◌, List, [], ◌∷◌, ◌++◌, Option, none, some, if◌then◌else◌,
  Option-cases, inl, inr, every, ap,
}
use code_runner_backend.Prelude.Text.{
  Text, codes, same, same_iff, trim_space, lower, is_empty, trim_suffix, base_name, dir_name,
}
use code_runner_backend.Prelude.TextMap.{load, of_list, load-of_list}

-- `langAliases`
unfoldable pub alias_entries : List (Text × Text)
alias_entries =
    (codes "go", codes "golang")
    ∷ (codes "golang", codes "golang")
    ∷ (codes "py", codes "python")
    ∷ (codes "python", codes "python")
    ∷ (codes "js", codes "javascript")
    ∷ (codes "javascript", codes "javascript")
    ∷ (codes "java", codes "java")
    ∷ (codes "c", codes "c")
    ∷ []

unfoldable pub normalize_lang : Text → Text
normalize_lang lang = elim (load (lower (trim_space lang)) (of_list alias_entries)) [
  | none ↦ lang
  | some v ↦ v
]

-- `extensionMap`
unfoldable pub extension_entries : List (Text × Text)
extension_entries =
    (codes "golang", codes "go")
    ∷ (codes "python", codes "py")
    ∷ (codes "javascript", codes "js")
    ∷ (codes "java", codes "java")
    ∷ (codes "c", codes "c")
    ∷ []

unfoldable pub extension_of : Text → Option Text
extension_of lang = load (lower lang) (of_list extension_entries)

unfoldable pub c_command : Text → Text
unfolding trim_suffix
c_command path =
    let output = trim_suffix path (codes ".c") in
    codes "gcc -Wall -Wextra -Werror -O2 -o " ++ output ++ b' ' ∷ path ++ codes " && " ++ output

unfoldable pub java_command : Text → Text
unfolding trim_suffix base_name dir_name
java_command path =
    let class_name = trim_suffix (base_name path) (codes ".java") in
    let file_dir = dir_name path in
    codes "javac -d "
    ++ file_dir
    ++ b' ' ∷ path
    ++ codes " && java -cp "
    ++ file_dir
    ++ b' ' ∷ class_name

-- The command and its arguments; no command for a language that is not known.
unfoldable pub get_command : Text → Text → Text × List Text
unfolding c_command java_command same
get_command language path =
    if same language (codes "golang")
    then (codes "go", codes "run" ∷ path ∷ [])
    else if same language (codes "c")
    then (codes "sh", codes "-c" ∷ c_command path ∷ [])
    else if same language (codes "python")
    then (codes "python", path ∷ [])
    else if same language (codes "java")
    then (codes "sh", codes "-c" ∷ java_command path ∷ [])
    else if same language (codes "javascript")
    then (codes "node", path ∷ [])
    else ([], [])

-- The languages that the runner can serve: they have an extension and a command.
unfoldable pub has_runtime : Text → Bool
unfolding extension_of get_command
has_runtime lang =
    (elim (extension_of lang) [ none ↦ false | some _ ↦ true ])
    && not (is_empty (get_command lang (codes "/app/id/main")).0)

aliases_served : every (λ (e : Text × Text). has_runtime e.1) alias_entries ≡ true
unfolding alias_entries has_runtime extension_of extension_entries of_list load lower
aliases_served = refl

-- An alias, whatever its case and the white space round it, names a language that has both.
pub alias-has_runtime :
    (lang v : Text)
    → load (lower (trim_space lang)) (of_list alias_entries) ≡ some v
    → (normalize_lang lang ≡ v) × (has_runtime v ≡ true)
unfolding normalize_lang
alias-has_runtime lang v e = (
  rw (e, normalize_lang),
  load-of_list has_runtime (lower (trim_space lang)) alias_entries aliases_served e,
)

aliases_fixed : every (λ (e : Text × Text). same (normalize_lang e.1) e.1) alias_entries ≡ true
unfolding alias_entries normalize_lang of_list load lower trim_space
aliases_fixed = refl

-- Normalising twice changes nothing more.
pub normalize_lang_idem : (lang : Text) → normalize_lang (normalize_lang lang) ≡ normalize_lang lang
unfolding normalize_lang
normalize_lang_idem lang =
    elim (Option-cases (load (lower (trim_space lang)) (of_list alias_entries))) [
      | inl e ↦
          let kept : normalize_lang lang ≡ lang = rw (e, normalize_lang) in ap normalize_lang kept
      | inr (v, e) ↦
          let found : normalize_lang lang ≡ v = rw (e, normalize_lang) in
          let fixed : normalize_lang v ≡ v = (same_iff (normalize_lang v) v).0 (
            load-of_list (λ w. same (normalize_lang w) w) (lower (trim_space lang)) alias_entries
              aliases_fixed e) in
          rw found fixed
    ]
