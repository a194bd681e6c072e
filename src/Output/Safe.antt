-- ===== src/Output/Safe.antt =====
-- What `resolveOutputPath` of renderers/shared/output-path.mjs lets pass.
use codearmory_blacksmith.Base.{
  ◌≡◌, ◌≢◌, refl, sym, ap, Option, none, some, Bool-cases, inl, inr, ◌⊎◌, text_eq_iff, ◌∙◌, Text,
  codes, List, [], ◌∷◌, Bool, true, false, text_eq_refl, if◌then◌else◌, Each, arith,
}
use codearmory_blacksmith.Output.Paths.{
  Answer, done, failed, ◌>>=◌, Platform, canonical_future_path, Stat, Directory, Semantics,
}
use codearmory_blacksmith.Output.Aliases.{
  same_file_identity, same_directory, may_be, nearest_existing_directory, comparable, same_below,
  same_stat, future_paths_alias, paths_alias, stays_inside, path_is_inside,
}
use codearmory_blacksmith.Output.Resolve.{
  Source, cli, meta, default, Request, raw_output, source_of, html, has_extension, output_path_of,
  check_meta, check_distinct, check_cli, if_meta, if_cli, resolve_output_path,
}

-- The four checks, one after the other.
abbrev in_turn :
    Answer (Unit {0})
    → Answer (Unit {0})
    → Answer (Unit {0})
    → Answer (Unit {0})
    → Text × Source
    → Answer (Text × Source)
in_turn a b c d x = do _ ← a; _ ← b; _ ← c; _ ← d; done x

module _ (os : Platform) where
  -- The path with its links followed.
  abbrev pub IsCanonical : Text → Text → Type 0
  IsCanonical path c = canonical_future_path os path ≡ done c

  -- What `statSync` tells of the two is not one file of one device. The number 0 names no file.
  abbrev IsOtherFile : Stat → Stat → Type 0
  IsOtherFile l r = l.dev ≡ r.dev → l.ino ≡ r.ino → l.ino ≡ 0

  abbrev IsSameDirectory : Directory → Directory → Type 0
  IsSameDirectory l r = (l.path ≡ r.path) ⊎ ¬ IsOtherFile l.stat r.stat

  -- A name as a directory compares it, where `answer` says whether it folds names by `fold`.
  abbrev folded : (Text → Text) → Option Bool → Text → Text
  folded fold (some false) name = name
  folded fold (some true) name = fold name
  folded fold none name = fold name

  abbrev read_by : Semantics → Text → Text
  read_by how name =
      folded os.to_lower_case how.case_insensitive
        (folded os.to_nfc how.normalization_insensitive name)

  -- If the nearest directories that exist are the same, the paths below it are different as it
  -- compares them.
  abbrev IsOtherName : Text → Text → Type 0
  IsOtherName at its =
      (l r : Directory)
      → nearest_existing_directory os at ≡ some l
      → nearest_existing_directory os its ≡ some r
      → IsSameDirectory l r
      → read_by (os.probe_directory_semantics l) (os.relative l.path at)
        ≢ read_by (os.probe_directory_semantics l) (os.relative r.path its)

  -- Both have a canonical path, and these are different, also as their directory compares them, and
  -- are not two names of one file.
  pub record IsElsewhere (output path : Text) : Type 0 where
    pub at : Text
    pub its : Text
    pub left : IsCanonical output at
    pub right : IsCanonical path its
    pub apart : at ≢ its
    pub names : IsOtherName at its
    pub files : (l r : Stat) → os.stat output ≡ some l → os.stat path ≡ some r → IsOtherFile l r

  folds :
      (fold : Text → Text) (answer : Option Bool) (name : Text)
      → (if may_be answer then fold name else name) ≡ folded fold answer name
  folds fold none name = refl
  folds fold (some true) name = refl
  folds fold (some false) name = refl

  comparable_lem : (how : Semantics) (name : Text) → comparable os how name ≡ read_by how name
  comparable_lem how name =
      folds os.to_lower_case how.case_insensitive _
      ∙ ap (folded os.to_lower_case how.case_insensitive)
          (folds os.to_nfc how.normalization_insensitive name)

  identity-IsOtherFile : (l r : Stat) → same_file_identity l r ≡ false → IsOtherFile l r
  identity-IsOtherFile l r h dev ino = ground arith

  same_directory-false : (l r : Directory) → same_directory l r ≡ false → IsSameDirectory l r → ⊥
  same_directory-false l r h (inl path) = ground (arith, text_eq_iff l.path r.path)
  same_directory-false l r h (inr file) = file (identity-IsOtherFile l.stat r.stat (ground arith))

  below-IsOtherName :
      (at its : Text)
      → same_below os at its (nearest_existing_directory os at) (nearest_existing_directory os its)
        ≡ false
      → IsOtherName at its
  below-IsOtherName at its h l r e f same read =
      let how = os.probe_directory_semantics l in
      let alike : comparable os how (os.relative l.path at)
          ≡ comparable os how (os.relative r.path its) =
        comparable_lem how _ ∙ read ∙ sym (comparable_lem how _) in
      let found : same_below os at its (some l) (some r) ≡ false = rw (e, f) at h in
      elim (Bool-cases (same_directory l r)) [
        | inr other ↦ same_directory-false l r other same
        | inl here ↦ ground (
          arith,
          found,
          here,
          alike,
          text_eq_iff (comparable os how (os.relative l.path at))
              (comparable os how (os.relative r.path its)),
        )
      ]

  -- An output that the diagram names: a relative path to a file of HTML below the working directory,
  -- before and after the links are followed.
  pub record IsMetaOutput (r : Request) : Type 0 where
    pub relative : os.is_absolute_anywhere (raw_output r) ≡ false
    pub extension : has_extension os html (raw_output r) ≡ true
    pub at : Text
    pub directory : Text
    pub canonical : IsCanonical (output_path_of os r) at
    pub below : IsCanonical r.cwd directory
    pub resolved : has_extension os html at ≡ true
    pub inside : stays_inside os (os.relative directory at) ≡ true

  pub record IsCliOutput (r : Request) : Type 0 where
    pub extension : has_extension os r.required_extension (raw_output r) ≡ true
    pub at : Text
    pub canonical : IsCanonical (output_path_of os r) at
    pub resolved : has_extension os r.required_extension at ≡ true

  pub record IsSafe (r : Request) (output : Text) (source : Source) : Type 0 where
    pub resolved : output ≡ os.resolve r.cwd (raw_output r ∷ [])
    pub from : source ≡ source_of r
    pub named : source ≡ meta → IsMetaOutput r
    pub asked : source ≡ cli → IsCliOutput r
    pub inputs : Each (IsElsewhere output) r.input_paths
    pub others : Each (IsElsewhere output) r.other_output_paths

  alias-IsElsewhere :
      (output path : Text) → paths_alias os output path ≡ done false → IsElsewhere output path
  unfolding paths_alias future_paths_alias
  alias-IsElsewhere output path h =
      by_canonical (canonical_future_path os output) (canonical_future_path os path) refl refl
    where
      by_canonical :
          (l r : Answer Text)
          → canonical_future_path os output ≡ l
          → canonical_future_path os path ≡ r
          → IsElsewhere output path
      by_canonical (failed c) r e f = ground (arith)
      by_canonical (done a) (failed c) e f = ground (arith)
      by_canonical (done a) (done b) e f =
          let below : same_below os a b (nearest_existing_directory os a)
                (nearest_existing_directory os b)
              ≡ false =
            ground arith in
          let stats : same_stat os (os.stat output) (os.stat path) ≡ false = ground arith in
          record {
            at = a;
            its = b;
            left = e;
            right = f;
            apart = λ same. ground (arith, text_eq_refl a);
            names = below-IsOtherName a b below;
            files = λ l r k m. identity-IsOtherFile l r (rw (k, m) at stats);
          }

  check_distinct-Each :
      (code output : Text) (ps : List Text) {u : Unit {0}}
      → check_distinct os code output ps ≡ done u
      → Each (IsElsewhere output) ps
  unfolding check_distinct
  check_distinct-Each code output [] h = tt
  check_distinct-Each code output (p ∷ ps) h =
      by_alias (check_distinct-Each code output ps) (paths_alias os output p) refl h
    where
      by_alias :
          (check_distinct os code output ps ≡ done tt → Each (IsElsewhere output) ps)
          → (alias : Answer Bool) → paths_alias os output p ≡ alias
          → (alias >>= λ same. if same then failed code else check_distinct os code output ps)
            ≡ done tt
          → IsElsewhere output p × Each (IsElsewhere output) ps
      by_alias more (failed c) known e = cc
      by_alias more (done true) known e = cc
      by_alias more (done false) known e = (alias-IsElsewhere output p known, more e)

  check_meta-IsMetaOutput : (r : Request) {u : Unit {0}} → check_meta os r ≡ done u → IsMetaOutput r
  unfolding path_is_inside
  check_meta-IsMetaOutput r h =
      by_canonical (canonical_future_path os (output_path_of os r)) (canonical_future_path os r.cwd)
        refl refl
    where
      by_canonical :
          (out dir : Answer Text)
          → canonical_future_path os (output_path_of os r) ≡ out
          → canonical_future_path os r.cwd ≡ dir
          → IsMetaOutput r
      by_canonical (failed c) dir e f = ground arith
      by_canonical (done a) (failed c) e f = ground arith
      by_canonical (done a) (done b) e f = record {
        relative = ground arith;
        extension = ground arith;
        at = a;
        directory = b;
        canonical = e;
        below = f;
        resolved = ground arith;
        inside = ground arith;
      }

  check_cli-IsCliOutput : (r : Request) {u : Unit {0}} → check_cli os r ≡ done u → IsCliOutput r
  check_cli-IsCliOutput r h = by_canonical (canonical_future_path os (output_path_of os r)) refl
    where
      by_canonical :
          (out : Answer Text) → canonical_future_path os (output_path_of os r) ≡ out → IsCliOutput r
      by_canonical (failed c) e = ground arith
      by_canonical (done a) e = record {
        extension = ground arith;
        at = a;
        canonical = e;
        resolved = ground arith;
      }

  named_output :
      (s : Source) (r : Request) {u : Unit {0}}
      → if_meta os s (check_meta os r) ≡ done u
      → s ≡ meta
      → IsMetaOutput r
  named_output meta r h e = check_meta-IsMetaOutput r h
  named_output cli r h e = cc
  named_output default r h e = cc

  asked_output :
      (s : Source) (r : Request) {u : Unit {0}}
      → if_cli os s (check_cli os r) ≡ done u
      → s ≡ cli
      → IsCliOutput r
  asked_output cli r h e = check_cli-IsCliOutput r h
  asked_output meta r h e = cc
  asked_output default r h e = cc

  -- An output that is resolved is the requested path, from the working directory, and is apart from
  -- every input and other output: where the links lead the paths differ, also as the directory that
  -- is the nearest to both compares names, and `statSync` does not show one file; if the diagram
  -- names it, it is relative, a file of HTML and below the working directory, also where the links
  -- lead, and if the command line does, it has the required extension, also where the links lead.
  pub resolve_output_path-IsSafe :
      (r : Request) (output : Text) (source : Source)
      → resolve_output_path os r ≡ done (output, source)
      → IsSafe r output source
  unfolding resolve_output_path
  resolve_output_path-IsSafe r output source h =
      by_steps (if_meta os (source_of r) (check_meta os r))
        (check_distinct os (codes "output/input-alias") (output_path_of os r) r.input_paths)
        (check_distinct os (codes "output/target-alias") (output_path_of os r) r.other_output_paths)
        (if_cli os (source_of r) (check_cli os r)) refl refl refl refl h
    where
      by_steps :
          (a b c d : Answer (Unit {0}))
          → if_meta os (source_of r) (check_meta os r) ≡ a
          → check_distinct os (codes "output/input-alias") (output_path_of os r) r.input_paths ≡ b
          → check_distinct os
              (codes "output/target-alias")
              (output_path_of os r)
              r.other_output_paths
            ≡ c
          → if_cli os (source_of r) (check_cli os r) ≡ d
          → in_turn a b c d (output_path_of os r, source_of r) ≡ done (output, source)
          → IsSafe r output source
      by_steps (failed x) b c d ea eb ec ed e = cc
      by_steps (done a) (failed x) c d ea eb ec ed e = cc
      by_steps (done a) (done b) (failed x) d ea eb ec ed e = cc
      by_steps (done a) (done b) (done c) (failed x) ea eb ec ed e = cc
      by_steps (done a) (done b) (done c) (done d) ea eb ec ed e =
          let same_output : output ≡ output_path_of os r = ground arith in
          let same_source : source ≡ source_of r = ground arith in
          record {
            resolved = same_output;
            from = same_source;
            named = λ is_meta. named_output (source_of r) r ea (sym same_source ∙ is_meta);
            asked = λ is_cli. asked_output (source_of r) r ed (sym same_source ∙ is_cli);
            inputs = rw same_output (check_distinct-Each _ _ _ eb);
            others = rw same_output (check_distinct-Each _ _ _ ec);
          }
