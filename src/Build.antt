-- ===== src/Build.antt =====
-- build.rs: the version and the commit that are compiled into the metrics. The environment, git and
-- the file system are parameters.
use Prim.Native.String.{◌++◌, count}
use mathlib.Core.List
use psst_rs.Prelude.{
  String, Bool, ◌==◌, not, ◌&&◌, Option, none, some, List, [], ◌∷◌, if◌then◌else◌, ℕ, zero, suc,
}
use psst_rs.Prelude.Text.{is_empty, trim}
use psst_rs.Config.Load.{Lookup}
use psst_rs.Http.Pages.Templates.{starts_with}

-- What running git gives: `None` if it cannot be started, else whether it succeeded and what it wrote,
-- if that is UTF-8.
pub record GitOutput : Type 0 where
  pub success : Bool
  pub stdout : Option String

-- `Path::join`, `fs::read_to_string` and `Path::exists`
pub record Files : Type 0 where
  pub join : String → String → String
  pub read_to_string : String → Option String
  pub exists : String → Bool

-- `Option::filter` with `!value.trim().is_empty()`, and `Option::or_else`
abbrev pub not_blank : Option String → Option String
not_blank none = none
not_blank (some value) = if is_empty (trim value) then none else some value

infixr 20 ◌or_else◌
abbrev pub ◌or_else◌ : Option String → Option String → Option String
none or_else other = other
some value or_else other = some value

-- `str::strip_prefix`
abbrev pub drop : ℕ → String → String
drop n String.[] = ""
drop zero text = text
drop (suc n) (String.◌∷◌ c text) = drop n text

abbrev pub strip_prefix : String → String → Option String
strip_prefix prefix text = if starts_with prefix text then some (drop (count prefix) text) else none

module _ (var : Lookup) (git : List String → Option GitOutput) where
  abbrev text_of : Option String → Option String
  text_of none = none
  text_of (some stdout) =
      let trimmed = trim stdout in if is_empty trimmed then none else some trimmed

  abbrev output_of : Option GitOutput → Option String
  output_of none = none
  output_of (some output) = if output.success then text_of output.stdout else none

  unfoldable pub git_output : List String → Option String
  git_output args = output_of (git args)

  unfoldable pub git_exact_tag : Option String
  unfolding git_output
  git_exact_tag = git_output ("describe" ∷ "--tags" ∷ "--exact-match" ∷ "HEAD" ∷ [])

  abbrev tag_name : Option String → Option String → Option String
  tag_name (some ref_type) (some ref_name) =
      if (ref_type == "tag") && not (is_empty (trim ref_name)) then some ref_name else none
  tag_name _ _ = none

  unfoldable pub github_tag_version : Option String
  github_tag_version = tag_name (var "GITHUB_REF_TYPE") (var "GITHUB_REF_NAME")

  unfoldable pub build_version : Option String
  unfolding github_tag_version git_exact_tag
  build_version =
      not_blank (var "PSST_RS_BUILD_VERSION") or_else github_tag_version or_else git_exact_tag

  unfoldable pub build_commit : Option String
  unfolding git_output
  build_commit =
      not_blank (var "PSST_RS_BUILD_COMMIT")
      or_else var "GITHUB_SHA"
      or_else git_output ("rev-parse" ∷ "--short=12" ∷ "HEAD" ∷ [])

  module _ (files : Files) where
    abbrev changed : String → String
    changed path = "cargo:rerun-if-changed=" ++ path

    abbrev reference_path : String → Option String → List String
    reference_path git_dir none = []
    reference_path git_dir (some reference) = changed (files.join git_dir (trim reference)) ∷ []

    abbrev head_reference : String → Option String → List String
    head_reference git_dir none = []
    head_reference git_dir (some head_contents) =
        reference_path git_dir (strip_prefix "ref:" head_contents)

    abbrev git_paths : Option String → List String
    git_paths none = []
    git_paths (some git_dir) =
        let head_path = files.join git_dir "HEAD" in
        let packed_refs = files.join git_dir "packed-refs" in
        List.◌++◌ (changed head_path ∷ head_reference git_dir (files.read_to_string head_path))
          (if files.exists packed_refs then changed packed_refs ∷ [] else [])

    -- The lines that are printed.
    unfoldable pub register_git_rerun_paths : List String
    unfolding git_output
    register_git_rerun_paths = git_paths (git_output ("rev-parse" ∷ "--git-dir" ∷ []))

    abbrev setting : String → Option String → List String
    setting key none = []
    setting key (some value) = ("cargo:rustc-env=" ++ (key ++ ("=" ++ value))) ∷ []

    -- The lines that `main` prints for cargo.
    unfoldable pub main : List String
    unfolding build_version build_commit register_git_rerun_paths
    main =
        List.◌++◌
          ("cargo:rerun-if-env-changed=PSST_RS_BUILD_VERSION"
            ∷ "cargo:rerun-if-env-changed=PSST_RS_BUILD_COMMIT"
            ∷ "cargo:rerun-if-env-changed=GITHUB_REF_NAME"
            ∷ "cargo:rerun-if-env-changed=GITHUB_REF_TYPE" ∷ "cargo:rerun-if-env-changed=GITHUB_SHA"
            ∷ [])
          (List.◌++◌ register_git_rerun_paths (
            List.◌++◌ (setting "PSST_RS_BUILD_VERSION" build_version)
              (setting "PSST_RS_BUILD_COMMIT" build_commit)))
