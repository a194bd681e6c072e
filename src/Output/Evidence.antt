-- ===== src/Output/Evidence.antt =====
-- What the evidence of renderers/shared/repository-evidence.mjs vouches for.
use codearmory_blacksmith.Base.{
  ℕ, suc, ◌+◌, ◌≤◌, ◌≡◌, ◌≢◌, ◌==◌, text_eq_iff, refl, ap, Text, codes, List, [], ◌∷◌, true, false,
  Option, none, some, text_eq, if◌then◌else◌, any, length, Each, arith, if_elim, ◌<◌,
}
use codearmory_blacksmith.Json.{join_texts}
use codearmory_blacksmith.Output.Paths.{Answer, done, failed, ◌>>=◌}
use codearmory_blacksmith.Output.Sources.{
  Authored, Verified, Component, Git, split_on, put_first, is_dotted, is_git, verified_source_path,
  source_line_count, is_given, requested_line, object_of, source_href, is_blob, check_lines,
  verified, check_source, verify_source, verify_sources, put_node, Evidence, with_component,
  is_empty, verify_components, verify_evidence,
}

-- The sources of all components.
abbrev pub total : List Component → ℕ
total [] = 0
total (c ∷ cs) = length c.sources + total cs

-- A segment is one name.
abbrev pub HasNoSlash : Text → Type 0
HasNoSlash s = Each (λ c. c ≢ b'/') s

-- A segment that names an entry of its directory.
abbrev pub IsPlain : Text → Type 0
IsPlain s = (s ≢ []) × ((s ≢ codes ".") × (s ≢ codes ".."))

abbrev pub IsOutsideGit : List Text → Type 0
IsOutsideGit [] = Unit
IsOutsideGit (s ∷ rest) = s ≢ codes ".git"

put_first-HasNoSlash :
    (c : ℕ) (ts : List Text)
    → (c == b'/') ≡ false
    → Each HasNoSlash ts
    → Each HasNoSlash (put_first c ts)
put_first-HasNoSlash c [] h k = ((ground arith, tt), tt)
put_first-HasNoSlash c (t ∷ ts) h k = ((ground arith, k.0), k.1)

split_on-HasNoSlash : (t : Text) → Each HasNoSlash (split_on b'/' t)
unfolding split_on
split_on-HasNoSlash [] = (tt, tt)
split_on-HasNoSlash (c ∷ cs) =
    let rest = split_on-HasNoSlash cs in
    if_elim (Each HasNoSlash) (c == b'/') _ _ (λ e. (tt, rest))
      (λ e. put_first-HasNoSlash c (split_on b'/' cs) e rest)

text_ne : (a b : Text) → text_eq a b ≡ false → a ≢ b
text_ne a b h e = ground (arith, text_eq_iff a b)

dotted-IsPlain : (ss : List Text) → any is_dotted ss ≡ false → Each IsPlain ss
dotted-IsPlain [] h = tt
dotted-IsPlain (s ∷ ss) h = (
  (
    text_ne s [] (ground arith),
    (text_ne s (codes ".") (ground arith), text_ne s (codes "..") (ground arith)),
  ),
  dotted-IsPlain ss (ground arith),
)

git-IsOutsideGit : (ss : List Text) → is_git ss ≡ false → IsOutsideGit ss
git-IsOutsideGit [] h = tt
git-IsOutsideGit (s ∷ ss) h = text_ne s (codes ".git") h

module _ (git : Git) (url revision : Text) where
  -- A path of segments without slashes that stay in the repository and out of `.git`, where Git has a
  -- file at the revision that has the requested lines.
  pub record IsVerified (v : Verified) : Type 0 where
    pub segments : List Text
    pub path : v.source.path ≡ join_texts (codes "/") segments
    pub single : Each HasNoSlash segments
    pub plain : Each IsPlain segments
    pub outside_git : IsOutsideGit segments
    pub kind : Option Text
    pub known : git.object_type (object_of git url revision v.source.path) ≡ done kind
    pub blob : is_blob kind ≡ true
    pub range :
        is_given v.source.end_line ≡ true
        → (is_given v.source.line ≡ true) × (v.source.line ≤ v.source.end_line)
    pub lines :
        is_given v.source.line ≡ true
        → (content : Text) × (git.show (object_of git url revision v.source.path)
            ≡ done (some content))
          × (requested_line v.source ≤ source_line_count content)
    pub link : v.href ≡ source_href git url revision v.source

  check_lines-done :
      (s : Authored) {u : Unit {0}}
      → check_lines git url revision s ≡ done u
      → is_given s.line ≡ true
      → (content : Text) × (git.show (object_of git url revision s.path) ≡ done (some content))
        × (requested_line s ≤ source_line_count content)
  check_lines-done s h given = by_content (git.show (object_of git url revision s.path)) refl
    where
      by_content :
          (shown : Answer (Option Text))
          → git.show (object_of git url revision s.path) ≡ shown
          → (content : Text) × (git.show (object_of git url revision s.path) ≡ done (some content))
            × (requested_line s ≤ source_line_count content)
      by_content (failed c) e = ground arith
      by_content (done none) e = ground arith
      by_content (done (some content)) e = (content, e, ground arith)

  verified_source_path-done :
      (p q : Text)
      → verified_source_path p ≡ done q
      → (q ≡ join_texts (codes "/") (split_on b'/' p))
        × ((any is_dotted (split_on b'/' p) ≡ false) × (is_git (split_on b'/' p) ≡ false))
  unfolding verified_source_path
  verified_source_path-done p q h = (ground arith, (ground arith, ground arith))

  -- A source whose path is verified, by the answers about it.
  check_source-IsVerified :
      (s : Authored) (segments : List Text)
      → s.path ≡ join_texts (codes "/") segments
      → Each HasNoSlash segments
      → Each IsPlain segments
      → IsOutsideGit segments
      → (v : Verified) → check_source git url revision s ≡ done v
      → IsVerified v
  check_source-IsVerified s segments path single plain outside v h =
      by_answers (git.object_type (object_of git url revision s.path))
        (check_lines git url revision s) refl refl
    where
      by_answers :
          (kind : Answer (Option Text)) (lines : Answer (Unit {0}))
          → git.object_type (object_of git url revision s.path) ≡ kind
          → check_lines git url revision s ≡ lines
          → IsVerified v
      by_answers (failed c) lines e f = ground arith
      by_answers (done k) (failed c) e f = ground arith
      by_answers (done k) (done u) e f =
          let same : v ≡ verified git url revision s = ground arith in
          rw same (record {
            segments = segments;
            path = path;
            single = single;
            plain = plain;
            outside_git = outside;
            kind = k;
            known = e;
            blob = ground arith;
            range = λ g. (ground arith, ground arith);
            lines = check_lines-done s f;
            link = refl;
          })

  verify_source-IsVerified :
      (a : Authored) (v : Verified) → verify_source git url revision a ≡ done v → IsVerified v
  unfolding verify_source
  verify_source-IsVerified a v h = by_path (verified_source_path a.path) refl h
    where
      by_path :
          (path : Answer Text)
          → verified_source_path a.path ≡ path
          → (path >>= λ p. check_source git url revision (record a { path = p })) ≡ done v
          → IsVerified v
      by_path (failed c) e k = cc
      by_path (done p) e k =
          let (joined, (plain, outside)) = verified_source_path-done a.path p e in
          check_source-IsVerified (record a { path = p }) (split_on b'/' a.path) joined
            (split_on-HasNoSlash a.path) (dotted-IsPlain _ plain) (git-IsOutsideGit _ outside) v k

  -- As many sources as were authored, each of them verified.
  abbrev IsComplete : List Authored → List Verified → Type 0
  IsComplete given vs = (length vs ≡ length given) × Each IsVerified vs

  verify_sources-IsComplete :
      (given : List Authored) (vs : List Verified)
      → verify_sources git url revision given ≡ done vs
      → IsComplete given vs
  unfolding verify_sources
  verify_sources-IsComplete [] [] h = (refl, tt)
  verify_sources-IsComplete [] (v ∷ vs) h = ground arith
  verify_sources-IsComplete (a ∷ given) vs h =
      by_answers (verify_source git url revision a) (verify_sources git url revision given) refl
        refl (verify_sources-IsComplete given) h
    where
      by_answers :
          (now : Answer Verified) (rest : Answer (List Verified))
          → verify_source git url revision a ≡ now
          → verify_sources git url revision given ≡ rest
          → ((ws : List Verified)
              → verify_sources git url revision given ≡ done ws
              → IsComplete given ws)
          → (now >>= λ v. rest >>= λ ws. done (v ∷ ws)) ≡ done vs
          → IsComplete (a ∷ given) vs
      by_answers (failed c) rest e f more k = cc
      by_answers (done v) (failed c) e f more k = cc
      by_answers (done v) (done ws) e f more k =
          let same : vs ≡ v ∷ ws = ground arith in
          let (counted, each) = more ws f in
          rw same (ap suc counted, (verify_source-IsVerified a v e, each))

  abbrev HasVerified : List (Text × List Verified) → Type 0
  HasVerified nodes = Each (λ n. Each IsVerified n.1) nodes

  put_node-HasVerified :
      (id : Text) (vs : List Verified) (nodes : List (Text × List Verified))
      → Each IsVerified vs
      → HasVerified nodes
      → HasVerified (put_node id vs nodes)
  unfolding put_node
  put_node-HasVerified id vs [] h k = (h, tt)
  put_node-HasVerified id vs (n ∷ ns) h k =
      if_elim HasVerified (text_eq n.0 id) _ _ (λ e. (h, k.1))
        (λ e. (k.0, put_node-HasVerified id vs ns h k.1))

  abbrev Follows : List Component → Evidence → Evidence → Type 0
  Follows cs e e' = (e'.reference_count ≡ e.reference_count + total cs) × HasVerified e'.nodes

  verify_components-Follows :
      (cs : List Component) (e e' : Evidence)
      → HasVerified e.nodes
      → verify_components git url revision cs e ≡ done e'
      → Follows cs e e'
  unfolding verify_components
  verify_components-Follows [] e e' h k =
      let same : e ≡ e' = ground arith in rw (← same) (omega arith, h)
  verify_components-Follows (c ∷ cs) e e' h k =
      by_sources c.sources refl (verify_sources git url revision c.sources) refl
        (verify_components-Follows cs e e' h)
        (λ vs. verify_components-Follows cs (with_component c vs e) e') k
    where
      by_sources :
          (given : List Authored)
          → c.sources ≡ given
          → (answer : Answer (List Verified)) → verify_sources git url revision c.sources ≡ answer
          → (verify_components git url revision cs e ≡ done e' → Follows cs e e')
          → ((vs : List Verified)
              → HasVerified (with_component c vs e).nodes
              → verify_components git url revision cs (with_component c vs e) ≡ done e'
              → Follows cs (with_component c vs e) e')
          → (if is_empty given
              then verify_components git url revision cs e
              else answer >>= λ vs. verify_components git url revision cs (with_component c vs e))
            ≡ done e'
          → Follows (c ∷ cs) e e'
      by_sources [] none_given answer found skip take k =
          let (counted, each) = skip k in (omega (arith, ap length none_given), each)
      by_sources (a ∷ given) same_sources (failed code) found skip take k = cc
      by_sources (a ∷ given) same_sources (done vs) found skip take k =
          let (many, each_new) = verify_sources-IsComplete c.sources vs found in
          let (counted, each) = take vs (put_node-HasVerified c.id vs e.nodes each_new h) k in
          (omega arith, each)

  -- If the sources of the components pass, there is at least one, all are counted, and each that
  -- the evidence lists has a path of segments without slashes, none of them empty, a dot or two
  -- dots, and the first not `.git`, where Git has a file at the revision, with a range of lines
  -- that the file has.
  pub verify_evidence-IsVerified :
      (cs : List Component) (e : Evidence)
      → verify_evidence git url revision cs ≡ done e
      → (0 < e.reference_count)
        × ((e.reference_count ≡ total cs) × Each (λ n. Each IsVerified n.1) e.nodes)
  unfolding verify_evidence
  verify_evidence-IsVerified cs e h =
      by_components (verify_components git url revision cs none_yet) refl
    where
      none_yet : Evidence
      none_yet = record { reference_count = 0; nodes = [] }

      by_components :
          (answer : Answer (Evidence))
          → verify_components git url revision cs none_yet ≡ answer
          → (0 < e.reference_count)
            × ((e.reference_count ≡ total cs) × Each (λ n. Each IsVerified n.1) e.nodes)
      by_components (failed c) k = ground arith
      by_components (done e') k =
          let same : e ≡ e' = ground arith in
          let (counted, each) = verify_components-Follows cs none_yet e' tt k in
          rw same (ground arith, (omega arith, each))
