-- ===== src/Output/Resolve.antt =====
-- renderers/shared/output-path.mjs: `resolveOutputPath`.
use codearmory_blacksmith.Base.{
  Text, codes, List, [], ◌∷◌, Bool, true, false, not, ◌&&◌, text_eq, if◌then◌else◌,
}
use codearmory_blacksmith.Output.Paths.{
  Answer, done, failed, ◌>>=◌, Platform, canonical_future_path,
}
use codearmory_blacksmith.Output.Aliases.{paths_alias, path_is_inside}

pub data Source : Type 0 where
  cli meta default : Source

-- An absent or empty output is empty.
pub record Request : Type 0 where
  pub requested_output : Text
  pub authored_output : Text
  pub default_output : Text
  pub input_paths : List Text
  pub other_output_paths : List Text
  pub cwd : Text
  pub required_extension : Text

-- The output with where it comes from, the first that is not empty.
abbrev choose : Text → Text → Text → Text × Source
choose (c ∷ cs) authored otherwise = (c ∷ cs, cli)
choose [] (c ∷ cs) otherwise = (c ∷ cs, meta)
choose [] [] otherwise = (otherwise, default)

abbrev pub raw_output : Request → Text
raw_output r = (choose r.requested_output r.authored_output r.default_output).0

abbrev pub source_of : Request → Source
source_of r = (choose r.requested_output r.authored_output r.default_output).1

abbrev pub html : Text
html = codes ".html"

-- `if (!test) throw new OutputPathError(…)`
abbrev pub require : Bool → Text → Answer (Unit {0})
require true code = done tt
require false code = failed code

module _ (os : Platform) where
  abbrev pub has_extension : Text → Text → Bool
  has_extension extension path = text_eq (os.to_lower_case (os.extname path)) extension

  abbrev pub output_path_of : Request → Text
  output_path_of r = os.resolve r.cwd (raw_output r ∷ [])

  -- The checks of an output that the diagram itself names.
  abbrev pub check_meta : Request → Answer (Unit {0})
  check_meta r = do
    _ ← require (not (os.is_absolute_anywhere (raw_output r))) (codes "output/meta-absolute")
    _ ← require (has_extension html (raw_output r)) (codes "output/meta-extension")
    canonical ← canonical_future_path os (output_path_of r)
    _ ← require (has_extension html canonical) (codes "output/meta-resolved-extension")
    inside ← path_is_inside os r.cwd (output_path_of r)
    require inside (codes "output/meta-outside-cwd")

  unfoldable pub check_distinct : Text → Text → List Text → Answer (Unit {0})
  unfolding paths_alias
  check_distinct code output [] = done tt
  check_distinct code output (p ∷ ps) =
      let rest = check_distinct code output ps in
      do alias ← paths_alias os output p; if alias then failed code else rest

  abbrev pub check_cli : Request → Answer (Unit {0})
  check_cli r = do
    canonical ← canonical_future_path os (output_path_of r)
    let authored = has_extension r.required_extension (raw_output r)
    require (authored && has_extension r.required_extension canonical)
        (if authored then codes "output/cli-resolved-extension" else codes "output/cli-extension")

  abbrev pub if_meta : Source → Answer (Unit {0}) → Answer (Unit {0})
  if_meta meta check = check
  if_meta cli check = done tt
  if_meta default check = done tt

  abbrev pub if_cli : Source → Answer (Unit {0}) → Answer (Unit {0})
  if_cli cli check = check
  if_cli meta check = done tt
  if_cli default check = done tt

  unfoldable pub resolve_output_path : Request → Answer (Text × Source)
  unfolding text_eq canonical_future_path path_is_inside check_distinct
  resolve_output_path r = do
    _ ← if_meta (source_of r) (check_meta r)
    _ ← check_distinct (codes "output/input-alias") (output_path_of r) r.input_paths
    _ ← check_distinct (codes "output/target-alias") (output_path_of r) r.other_output_paths
    _ ← if_cli (source_of r) (check_cli r)
    done (output_path_of r, source_of r)
