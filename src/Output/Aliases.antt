-- ===== src/Output/Aliases.antt =====
-- renderers/shared/output-path.mjs: which paths name one file, and which lie in a directory.
use codearmory_blacksmith.Base.{
  ℕ, zero, suc, length, Text, codes, [], ◌++◌, Bool, true, false, not, ◌&&◌, ◌||◌, ◌==◌, Option,
  none, some, text_eq, if◌then◌else◌, strip_prefix,
}
use codearmory_blacksmith.Output.Paths.{
  Answer, done, failed, ◌>>=◌, Stat, Directory, Found, a_directory, a_file, no_stat, Semantics,
  Platform, canonical_future_path,
}

abbrev pub has_file_identity : Stat → Bool
has_file_identity s = not (s.ino == 0)

abbrev pub same_file_identity : Stat → Stat → Bool
same_file_identity l r =
    has_file_identity l && has_file_identity r && l.dev == r.dev && l.ino == r.ino

abbrev pub same_directory : Directory → Directory → Bool
same_directory l r = text_eq l.path r.path || same_file_identity l.stat r.stat

-- `answer !== false`
abbrev pub may_be : Option Bool → Bool
may_be none = true
may_be (some b) = b

module _ (os : Platform) where
  -- The loop goes on where nothing is found; the directory above is shorter than the path, whose
  -- length is the fuel.
  abbrev is_absent : Text → Bool
  is_absent code = text_eq code (codes "ENOENT") || text_eq code (codes "ENOTDIR")

  abbrev named_directory : Stat → Answer Text → Option Directory → Option Directory
  named_directory s (done path) above = some (record { path = path; stat = s })
  named_directory s (failed code) above = if is_absent code then above else none

  abbrev found_directory : Text → Found → Option Directory → Option Directory
  found_directory path (a_directory s) above = named_directory s (os.realpath path) above
  found_directory path a_file above = above
  found_directory path (no_stat code) above = if is_absent code then above else none

  unfoldable pub nearest_from : ℕ → Text → Option Directory
  unfolding text_eq
  nearest_from zero path = none
  nearest_from (suc fuel) path =
      let above = nearest_from fuel (os.dirname path) in
      found_directory path (os.stat_directory path)
        (if text_eq (os.dirname path) path then none else above)

  unfoldable pub nearest_existing_directory : Text → Option Directory
  unfolding nearest_from
  nearest_existing_directory path = nearest_from (suc (length path)) (os.dirname path)

  -- The rest of a path below a directory, as that directory may compare it.
  abbrev pub comparable : Semantics → Text → Text
  comparable how t =
      let normal = if may_be how.normalization_insensitive then os.to_nfc t else t in
      if may_be how.case_insensitive then os.to_lower_case normal else normal

  abbrev pub same_below : Text → Text → Option Directory → Option Directory → Bool
  same_below left right none r = false
  same_below left right (some l) none = false
  same_below left right (some l) (some r) =
      let how = os.probe_directory_semantics l in
      if same_directory l r
      then text_eq (comparable how (os.relative l.path left))
          (comparable how (os.relative r.path right))
      else false

  unfoldable pub future_paths_alias : Text → Text → Answer Bool
  unfolding canonical_future_path text_eq nearest_existing_directory
  future_paths_alias left_path right_path = do
    left ← canonical_future_path os left_path
    right ← canonical_future_path os right_path
    done (
        if text_eq left right
        then true
        else same_below left right (nearest_existing_directory left)
            (nearest_existing_directory right))

  -- A `statSync` that throws makes the paths different.
  abbrev pub same_stat : Option Stat → Option Stat → Bool
  same_stat none r = false
  same_stat (some l) none = false
  same_stat (some l) (some r) = same_file_identity l r

  unfoldable pub paths_alias : Text → Text → Answer Bool
  unfolding future_paths_alias
  paths_alias left right = do
    alias ← future_paths_alias left right
    done (if alias then true else same_stat (os.stat left) (os.stat right))

  abbrev starts_with : Option Text → Bool
  starts_with none = false
  starts_with (some rest) = true

  -- A relative path that does not lead out of its directory.
  abbrev pub stays_inside : Text → Bool
  stays_inside relative =
      text_eq relative []
      || (not (os.is_absolute relative)
          && not (text_eq relative (codes ".."))
          && not (starts_with (strip_prefix (codes ".." ++ os.separator) relative)))

  unfoldable pub path_is_inside : Text → Text → Answer Bool
  unfolding canonical_future_path text_eq
  path_is_inside directory target = do
    from ← canonical_future_path os directory
    to ← canonical_future_path os target
    done (stays_inside (os.relative from to))
