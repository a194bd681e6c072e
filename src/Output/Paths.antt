-- ===== src/Output/Paths.antt =====
-- renderers/shared/output-path.mjs: paths with their symbolic links followed.
use codearmory_blacksmith.Base.{
  ℕ, zero, suc, Text, codes, List, [], ◌∷◌, Bool, Option, text_eq, if◌then◌else◌,
}

pub data Answer {ℓ} (A : Type ℓ) : Type ℓ where
  done : A → Answer A
  failed : Text → Answer A

infixl 5 ◌>>=◌
abbrev pub ◌>>=◌ {ℓ κ} : {A : Type ℓ} {B : Type κ} → Answer A → (A → Answer B) → Answer B
done a >>= f = f a
failed code >>= f = failed code

-- What `lstatSync` tells of a path: not there, an error, a symbolic link with its text, or another
-- file.
pub data Entry : Type 0 where
  missing : Entry
  unreadable : Text → Entry
  link : Text → Entry
  other : Entry

-- An identity is the device and the inode.
pub record Stat : Type 0 where
  pub dev : ℕ
  pub ino : ℕ

pub record Directory : Type 0 where
  pub path : Text
  pub stat : Stat

-- How `statSync` of a directory ends: an error of the system by its code.
pub data Found : Type 0 where
  a_directory : Stat → Found
  a_file : Found
  no_stat : Text → Found

-- `none` where the probe could not tell.
pub record Semantics : Type 0 where
  pub case_insensitive : Option Bool
  pub normalization_insensitive : Option Bool

-- Node's `path`, the texts' normal forms, and a state of the file system.
pub record Platform : Type 0 where
  pub separator : Text
  pub is_absolute : Text → Bool
  -- by this platform, by POSIX or by Windows
  pub is_absolute_anywhere : Text → Bool
  pub root : Text → Text
  pub segments : Text → List Text
  pub join : Text → List Text → Text
  pub resolve : Text → List Text → Text
  pub normalize : Text → Text
  pub dirname : Text → Text
  pub relative : Text → Text → Text
  pub extname : Text → Text
  pub to_lower_case : Text → Text
  pub to_nfc : Text → Text
  pub lstat : Text → Entry
  pub realpath : Text → Answer Text
  pub stat : Text → Option Stat
  pub stat_directory : Text → Found
  pub probe_directory_semantics : Directory → Semantics

abbrev pub max_symlink_depth : ℕ
max_symlink_depth = 64

-- The code of the system's error.
abbrev loop_code : Text
loop_code = codes "ELOOP"

-- `catch (error)`: a cycle of links becomes an error of the output.
abbrev pub named_cycle : {A : Type 0} → Answer A → Answer A
named_cycle (done a) = done a
named_cycle (failed code) =
    if text_eq code loop_code then failed (codes "output/symlink-cycle") else failed code

module _ (os : Platform) where
  -- Where a link leads from the place that it stands at.
  abbrev link_target : Text → Text → Text
  link_target candidate text =
      if os.is_absolute text then text else os.resolve (os.dirname candidate) (text ∷ [])

  -- The loop over the segments, with the links that may still be followed.
  unfoldable pub canonicalize : ℕ → Text → List Text → Answer Text
  canonicalize left current [] = done (os.normalize current)
  canonicalize zero current (s ∷ rest) = elim (os.lstat (os.join current (s ∷ []))) [
    | missing ↦ done (os.resolve current (s ∷ rest))
    | unreadable code ↦ failed code
    | link text ↦ failed loop_code
    | other ↦ elim (os.realpath (os.join current (s ∷ []))) [
      | done path ↦ canonicalize zero path rest
      | failed code ↦ failed code
    ]
  ]
  canonicalize (suc left) current (s ∷ rest) = elim (os.lstat (os.join current (s ∷ []))) [
    | missing ↦ done (os.resolve current (s ∷ rest))
    | unreadable code ↦ failed code
    | link text ↦
        let next = os.resolve (os.join (link_target (os.join current (s ∷ [])) text) rest) [] in
        canonicalize left (os.root next) (os.segments next)
    | other ↦ elim (os.realpath (os.join current (s ∷ []))) [
      | done path ↦ canonicalize (suc left) path rest
      | failed code ↦ failed code
    ]
  ]

  unfoldable pub canonical_future_path : Text → Answer Text
  unfolding canonicalize text_eq
  canonical_future_path path =
      let absolute = os.resolve path [] in
      named_cycle (canonicalize max_symlink_depth (os.root absolute) (os.segments absolute))
