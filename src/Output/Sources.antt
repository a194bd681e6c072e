-- ===== src/Output/Sources.antt =====
-- renderers/shared/repository-evidence.mjs: what `verifyRepositoryEvidence` makes of the sources of the
-- components, once the repository and its revision are known. What Git answers is a parameter; an
-- error is its code.
use codearmory_blacksmith.Base.{
  ℕ, suc, ◌+◌, ◌-◌, Text, codes, List, [], ◌∷◌, ◌++◌, map, Bool, true, false, not, ◌&&◌, ◌||◌,
  Option, none, some, text_eq, if◌then◌else◌, any, length, ltb, leb, ◌==◌,
}
use codearmory_blacksmith.Base.Trim.{trim}
use codearmory_blacksmith.Json.{join_texts}
use codearmory_blacksmith.Json.Size.{natural_number}
use codearmory_blacksmith.Output.Paths.{Answer, done, failed, ◌>>=◌}
use codearmory_blacksmith.Output.Resolve.{require}

-- An absent line is 0, an absent label empty.
pub record Authored : Type 0 where
  pub path : Text
  pub line : ℕ
  pub end_line : ℕ
  pub label : Text

pub record Verified : Type 0 where
  pub source : Authored
  pub href : Text

pub record Component : Type 0 where
  pub id : Text
  pub sources : List Authored

-- The answer of a run of Git: `none` is an exit with an error.
pub record Git : Type 0 where
  pub object_type : Text → Answer (Option Text)
  pub show : Text → Answer (Option Text)
  pub encode_uri_component : Text → Text

abbrev pub put_first : ℕ → List Text → List Text
put_first c [] = (c ∷ []) ∷ []
put_first c (t ∷ ts) = (c ∷ t) ∷ ts

-- `text.split(separator)`
unfoldable pub split_on : ℕ → Text → List Text
split_on sep [] = [] ∷ []
split_on sep (c ∷ cs) =
    let rest = split_on sep cs in if c == sep then [] ∷ rest else put_first c rest

abbrev is_control : ℕ → Bool
is_control c = ltb c 0x20 || c == 0x7f

abbrev starts_with_slash : Text → Bool
starts_with_slash [] = true
starts_with_slash (c ∷ cs) = c == b'/'

-- An empty path, an absolute one, or one with a backslash or a control character.
abbrev pub is_foreign : Text → Bool
is_foreign path = starts_with_slash path || any (λ c. c == 0x5c) path || any is_control path

abbrev pub is_dotted : Text → Bool
is_dotted s = text_eq s [] || text_eq s (codes ".") || text_eq s (codes "..")

abbrev pub is_git : List Text → Bool
is_git [] = false
is_git (s ∷ ss) = text_eq s (codes ".git")

unfoldable pub verified_source_path : Text → Answer Text
unfolding split_on text_eq join_texts
verified_source_path path =
    if is_foreign path
    then failed (codes "repository-evidence/path-invalid")
    else if any is_dotted (split_on b'/' path) || is_git (split_on b'/' path)
    then failed (codes "repository-evidence/path-escape")
    else done (join_texts (codes "/") (split_on b'/' path))

abbrev is_break : ℕ → Bool
is_break c = c == 0xa || c == 0xd

-- The line breaks, of which a carriage return with a line feed is one.
unfoldable pub line_breaks : Text → ℕ
line_breaks [] = 0
line_breaks (c ∷ []) = if is_break c then 1 else 0
line_breaks (c ∷ d ∷ rest) =
    let both = suc (line_breaks rest) in
    let more = line_breaks (d ∷ rest) in
    if c == 0xd && d == 0xa then both else if is_break c then suc more else more

abbrev ends_in_break : Text → Bool
ends_in_break [] = false
ends_in_break (c ∷ []) = is_break c
ends_in_break (c ∷ d ∷ rest) = ends_in_break (d ∷ rest)

unfoldable pub source_line_count : Text → ℕ
unfolding line_breaks
source_line_count [] = 0
source_line_count (c ∷ cs) = line_breaks (c ∷ cs) + 1 - (if ends_in_break (c ∷ cs) then 1 else 0)

abbrev pub is_given : ℕ → Bool
is_given n = ltb 0 n

abbrev pub requested_line : Authored → ℕ
requested_line s = if is_given s.end_line then s.end_line else s.line

abbrev line_fragment : Authored → Text
line_fragment s =
    if is_given s.line
    then codes "#L"
      ++ ((natural_number s.line).text
          ++ (if is_given s.end_line && not (s.end_line == s.line)
              then codes "-L" ++ (natural_number s.end_line).text
              else []))
    else []

abbrev pub is_blob : Option Text → Bool
is_blob none = false
is_blob (some t) = text_eq (trim t) (codes "blob")

abbrev pub enough_lines : Authored → Option Text → Answer (Unit {0})
enough_lines s none = failed (codes "repository-evidence/file-unreadable")
enough_lines s (some content) =
    require (leb (requested_line s) (source_line_count content))
      (codes "repository-evidence/line-out-of-range")

-- `nodes[component.id] = verified`
unfoldable pub put_node :
    Text → List Verified → List (Text × List Verified) → List (Text × List Verified)
unfolding text_eq
put_node id vs [] = (id, vs) ∷ []
put_node id vs (n ∷ ns) =
    let rest = put_node id vs ns in if text_eq n.0 id then (id, vs) ∷ ns else n ∷ rest

pub record Evidence : Type 0 where
  pub reference_count : ℕ
  pub nodes : List (Text × List Verified)

abbrev pub with_component : Component → List Verified → Evidence → Evidence
with_component c vs e = record {
  reference_count = e.reference_count + length vs;
  nodes = put_node c.id vs e.nodes;
}

abbrev pub is_empty : List Authored → Bool
is_empty [] = true
is_empty (a ∷ rest) = false

module _ (git : Git) (repository_url revision : Text) where
  abbrev pub object_of : Text → Text
  object_of path = revision ++ (b':' ∷ path)

  unfoldable pub source_href : Authored → Text
  unfolding split_on join_texts natural_number
  source_href s =
      repository_url
      ++ (codes "/blob/"
          ++ (revision
              ++ (b'/'
                  ∷ (join_texts (codes "/") (map git.encode_uri_component (split_on b'/' s.path))
                      ++ line_fragment s))))

  abbrev pub check_lines : Authored → Answer (Unit {0})
  check_lines s =
      if is_given s.line then git.show (object_of s.path) >>= enough_lines s else done tt

  abbrev pub verified : Authored → Verified
  verified s = record { source = s; href = source_href s }

  abbrev pub check_source : Authored → Answer Verified
  check_source s = do
    _ ←
        require (not (is_given s.end_line && not (is_given s.line)))
          (codes "repository-evidence/line-required")
    _ ←
        require (not (is_given s.end_line && ltb s.end_line s.line))
          (codes "repository-evidence/line-range-invalid")
    kind ← git.object_type (object_of s.path)
    _ ← require (is_blob kind) (codes "repository-evidence/file-missing")
    _ ← check_lines s
    done (verified s)

  unfoldable pub verify_source : Authored → Answer Verified
  unfolding verified_source_path source_line_count text_eq source_href
  verify_source a = verified_source_path a.path >>= λ path. check_source (record a { path = path })

  unfoldable pub verify_sources : List Authored → Answer (List Verified)
  unfolding verify_source
  verify_sources [] = done []
  verify_sources (a ∷ rest) =
      let others = verify_sources rest in verify_source a >>= λ v. others >>= λ vs. done (v ∷ vs)

  unfoldable pub verify_components : List Component → Evidence → Answer Evidence
  unfolding verify_sources put_node
  verify_components [] e = done e
  verify_components (c ∷ cs) e =
      let skipped = verify_components cs e in
      let taken = λ (vs : List Verified). verify_components cs (with_component c vs e) in
      if is_empty c.sources then skipped else verify_sources c.sources >>= taken

  unfoldable pub verify_evidence : List Component → Answer Evidence
  unfolding verify_components
  verify_evidence cs = do
    e ← verify_components cs (record { reference_count = 0; nodes = [] })
    _ ← require (is_given e.reference_count) (codes "repository-evidence/source-required")
    done e
