-- ===== src/Output/Examples.antt =====
-- The properties of the output of a renderer, on a small platform, where no file exists yet, and of the
-- evidence of a repository, on one with a single file.
use codearmory_blacksmith.Base.{
  ◌≡◌, refl, Text, codes, List, [], ◌∷◌, ◌++◌, Bool, false, Option, none, some, text_eq,
  if◌then◌else◌, ◌==◌, strip_prefix, ◌<◌, Each,
}
use codearmory_blacksmith.Base.Trim.{trim_start, trim_end}
use codearmory_blacksmith.Json.{join_texts}
use codearmory_blacksmith.Json.Size.{natural_number, digits_of}
use codearmory_blacksmith.Output.Paths.{
  done, missing, no_stat, Platform, canonicalize, canonical_future_path,
}
use codearmory_blacksmith.Output.Aliases.{
  nearest_existing_directory, nearest_from, future_paths_alias, paths_alias, path_is_inside,
}
use codearmory_blacksmith.Output.Resolve.{meta, Request, check_distinct, resolve_output_path}
use codearmory_blacksmith.Output.Sources.{
  Authored, Component, Git, Evidence, split_on, verified_source_path, line_breaks,
  source_line_count, source_href, verify_source, verify_sources, put_node, verify_components,
  verify_evidence,
}
use codearmory_blacksmith.Output.Evidence.{IsVerified, total, verify_evidence-IsVerified}
use codearmory_blacksmith.Output.Safe.{IsSafe, resolve_output_path-IsSafe}

abbrev joined : Text → List Text → Text
joined base [] = base
joined base (p ∷ ps) = joined (base ++ p) ps

abbrev from_dot : Text → Text
from_dot [] = []
from_dot (c ∷ cs) = let rest = from_dot cs in if c == b'.' then c ∷ cs else rest

abbrev starts_with_slash : Text → Bool
starts_with_slash [] = false
starts_with_slash (c ∷ cs) = c == b'/'

abbrev or_whole : Option Text → Text → Text
or_whole none t = t
or_whole (some rest) t = rest

-- A path has one segment, and a directory ends in a slash.
abbrev flat : Platform
flat = record {
  separator = codes "/";
  is_absolute = starts_with_slash;
  is_absolute_anywhere = starts_with_slash;
  root = λ p. [];
  segments = λ p. p ∷ [];
  join = joined;
  resolve = joined;
  normalize = λ p. p;
  dirname = λ p. p;
  relative = λ from to. or_whole (strip_prefix from to) to;
  extname = from_dot;
  to_lower_case = λ t. t;
  to_nfc = λ t. t;
  lstat = λ p. missing;
  realpath = done;
  stat = λ p. none;
  stat_directory = λ p. no_stat (codes "ENOENT");
  probe_directory_semantics =
      λ d. record { case_insensitive = some false; normalization_insensitive = some false };
}

abbrev named_by_diagram : Request
named_by_diagram = record {
  requested_output = [];
  authored_output = codes "map.html";
  default_output = [];
  input_paths = codes "/work/map.json" ∷ [];
  other_output_paths = codes "/work/map.md" ∷ [];
  cwd = codes "/work/";
  required_extension = codes ".html";
}

map_runs : resolve_output_path flat named_by_diagram ≡ done (codes "/work/map.html", meta)
unfolding resolve_output_path check_distinct paths_alias future_paths_alias path_is_inside
    nearest_existing_directory nearest_from canonical_future_path canonicalize text_eq
map_runs = refl

output_example : IsSafe flat named_by_diagram (codes "/work/map.html") meta
output_example =
    resolve_output_path-IsSafe flat named_by_diagram (codes "/work/map.html") meta map_runs

-- The file has two lines, the last of which is not ended.
abbrev one_file : Git
one_file = record {
  object_type = λ o.
      done
        (if text_eq o (codes "f00d:src/main.js") then some (codes "blob" ++ (0xa ∷ [])) else none);
  show = λ o. done (some (codes "one" ++ (0xa ∷ codes "two")));
  encode_uri_component = λ t. t;
}

abbrev site : Text
site = codes "https://github.com/owner/tool"

abbrev main_source : Authored
main_source = record { path = codes "src/main.js"; line = 1; end_line = 2; label = [] }

abbrev parts : List Component
parts =
    record { id = codes "app"; sources = main_source ∷ [] }
    ∷ record { id = codes "user"; sources = [] }
    ∷ []

abbrev found_evidence : Evidence
found_evidence = record {
  reference_count = 1;
  nodes =
      (
        codes "app",
        record { source = main_source; href = site ++ codes "/blob/f00d/src/main.js#L1-L2" } ∷ [],
      )
      ∷ [];
}

sources_pass : verify_evidence one_file site (codes "f00d") parts ≡ done found_evidence
unfolding verify_evidence verify_components verify_sources verify_source verified_source_path
    split_on text_eq join_texts source_line_count line_breaks put_node source_href trim_start
    trim_end natural_number digits_of
sources_pass = refl

evidence_example :
    (0 < found_evidence.reference_count)
    × ((found_evidence.reference_count ≡ total parts)
        × Each (λ n. Each (IsVerified one_file site (codes "f00d")) n.1) found_evidence.nodes)
evidence_example =
    verify_evidence-IsVerified one_file site (codes "f00d") parts found_evidence sources_pass
