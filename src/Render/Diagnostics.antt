-- ===== src/Render/Diagnostics.antt =====
-- renderers/shared/diagnostics.mjs: what a diagnostic is, how the module records it, and what a
-- renderer reports of an error. The environment variable and the arguments of the process are
-- parameters; writing the report and the end of the process are left out.
use codearmory_blacksmith.Base.{
  ℕ, suc, ◌-◌, Text, codes, List, [], ◌∷◌, ◌++◌, map, Bool, not, ◌||◌, Option, none, some, includes,
  if◌then◌else◌, ltb,
}
use codearmory_blacksmith.Base.Trim.{trim, trim_start, trim_end}
use codearmory_blacksmith.Json.{
  Value, Items, Fields, undefined, str, arr, obj, nil, cons, end, field, get, coerce, is_truthy,
  is_text, join_texts,
}

pub data Severity : Type 0 where
  warning error : Severity

pub record Diagnostic : Type 0 where
  pub code : Text
  pub severity : Severity
  pub message : Text
  pub subject : Fields
  pub evidence : Fields
  pub supported_fixes : List Text
  pub suppresses : Option (List Text)

abbrev pub defined_fields : Fields → Fields
defined_fields end = end
defined_fields (field k undefined rest) = defined_fields rest
defined_fields (field k v rest) = field k v (defined_fields rest)

abbrev pub plain_object : Value → Fields
plain_object (obj fs) = defined_fields fs
plain_object _ = end

-- `String(value || otherwise)`
abbrev pub text_or : Text → Value → Text
text_or otherwise v = if is_truthy v then coerce v else otherwise

-- `[...new Set(texts)]`, without the texts seen before
abbrev pub new_texts : List Text → List Text → List Text
new_texts seen [] = []
new_texts seen (t ∷ rest) =
    let skipped = new_texts seen rest in
    let taken = t ∷ new_texts (t ∷ seen) rest in if includes t seen then skipped else taken

abbrev pub add_filled : Text → List Text → List Text
add_filled [] rest = rest
add_filled (c ∷ cs) rest = (c ∷ cs) ∷ rest

-- `.map((fix) => String(fix).trim()).filter(Boolean)`
abbrev pub filled_texts : Items → List Text
filled_texts nil = []
filled_texts (cons v rest) = add_filled (trim (coerce v)) (filled_texts rest)

abbrev pub fixes_of : Value → List Text
fixes_of (arr xs) = new_texts [] (filled_texts xs)
fixes_of _ = []

abbrev pub suppresses_of : Value → Option (List Text)
suppresses_of (arr xs) = some (new_texts [] (filled_texts xs))
suppresses_of _ = none

abbrev pub severity_of : Value → Severity
severity_of v = if is_text v (codes "warning") then warning else error

unfoldable pub normalized_diagnostic : Value → Diagnostic
unfolding get coerce trim_start trim_end includes
normalized_diagnostic diagnostic = record {
  code = text_or (codes "internal/unclassified") (get diagnostic (codes "code"));
  severity = severity_of (get diagnostic (codes "severity"));
  message = trim (
      text_or (codes "Archify could not classify this failure.")
        (get diagnostic (codes "message")));
  subject = plain_object (get diagnostic (codes "subject"));
  evidence = plain_object (get diagnostic (codes "evidence"));
  supported_fixes = fixes_of (get diagnostic (codes "supportedFixes"));
  suppresses = suppresses_of (get diagnostic (codes "suppresses"));
}

abbrev pub items_of : List Text → Items
items_of [] = nil
items_of (t ∷ rest) = cons (str t) (items_of rest)

abbrev pub suppresses_field : Option (List Text) → Fields
suppresses_field none = end
suppresses_field (some ts) = field (codes "suppresses") (arr (items_of ts)) end

abbrev pub severity_text : Severity → Text
severity_text warning = codes "warning"
severity_text error = codes "error"

-- The object that `normalizedDiagnostic` returns.
abbrev pub diagnostic_value : Diagnostic → Value
diagnostic_value d = obj (
    field (codes "code") (str d.code) (
      field (codes "severity") (str (severity_text d.severity)) (
        field (codes "message") (str d.message) (
          field (codes "subject") (obj d.subject) (
            field (codes "evidence") (obj d.evidence) (
              field (codes "supportedFixes") (arr (items_of d.supported_fixes))
                (suppresses_field d.suppresses)))))))

-- What the module keeps: `DIAGNOSTIC_MODE`, `recordingSuppressionDepth`, `recorded` and
-- `recordedMessages`.
pub record Recorder : Type 0 where
  pub diagnostic_mode : Bool
  pub depth : ℕ
  pub recorded : List Diagnostic
  pub messages : List Text

abbrev pub new_recorder : Bool → Recorder
new_recorder mode = record { diagnostic_mode = mode; depth = 0; recorded = []; messages = [] }

unfoldable pub note_diagnostic : Diagnostic → Recorder → Recorder
unfolding includes
note_diagnostic d r = if includes d.message r.messages then r else record {
  diagnostic_mode = r.diagnostic_mode;
  depth = r.depth;
  recorded = r.recorded ++ d ∷ [];
  messages = d.message ∷ r.messages;
}

unfoldable pub record_diagnostic : Value → Recorder → Recorder
unfolding note_diagnostic
record_diagnostic v r =
    if not r.diagnostic_mode || ltb 0 r.depth
    then r
    else note_diagnostic (normalized_diagnostic v) r

abbrev pub at_depth : ℕ → Recorder → Recorder
at_depth n r = record {
  diagnostic_mode = r.diagnostic_mode;
  depth = n;
  recorded = r.recorded;
  messages = r.messages;
}

-- `finally` runs whether the callback returns or throws, so `A` is either outcome.
abbrev pub with_diagnostic_recording_suppressed {ℓ} :
    {A : Type ℓ} → (Recorder → A × Recorder) → Recorder → A × Recorder
with_diagnostic_recording_suppressed callback r =
    let done = callback (at_depth (suc r.depth) r) in (done.0, at_depth (done.1.depth - 1) done.1)

pub record Thrown : Type 0 where
  pub message : Text
  pub archify_diagnostics : List Diagnostic

unfoldable pub record_all : List Value → Recorder → Recorder
unfolding record_diagnostic
record_all [] r = r
record_all (v ∷ rest) r = record_all rest (record_diagnostic v r)

unfoldable pub throw_diagnostic_error : Text → List Value → Recorder → Thrown × Recorder
unfolding record_all
throw_diagnostic_error message diagnostics r = (
  record { message = message; archify_diagnostics = map normalized_diagnostic diagnostics },
  record_all diagnostics r,
)

abbrev pub problem_value : Text → Fields → Text → Value
problem_value code subject message = obj (
    field (codes "code") (str code) (
      field (codes "severity") (str (codes "error")) (
        field (codes "message") (str message) (
          field (codes "subject") (obj subject)
            (field (codes "evidence") (obj end) (field (codes "supportedFixes") (arr nil) end))))))

abbrev bullet : Text
bullet = 10 ∷ codes "- "

-- `${prefix}:\n- ${messages.join('\n- ')}`
abbrev pub problems_text : Text → List Text → Text
unfolding join_texts
problems_text prefix messages = prefix ++ (codes ":" ++ (bullet ++ join_texts bullet messages))

unfoldable pub throw_diagnostic_problems :
    Text → List Text → Text → Fields → Recorder → Thrown × Recorder
unfolding throw_diagnostic_error join_texts
throw_diagnostic_problems prefix messages code subject r =
    throw_diagnostic_error (problems_text prefix messages)
      (map (λ m. diagnostic_value (normalized_diagnostic (problem_value code subject m))) messages)
      r

-- What the module reads of an error, and the absolute path of the input, if the process has one.
pub record Failure : Type 0 where
  pub is_syntax_error : Bool
  pub code : Value
  pub message : Value
  pub name : Value
  pub archify_diagnostics : Value

abbrev is_read_error : Value → Bool
is_read_error v =
    is_text v (codes "ENOENT") || is_text v (codes "EACCES") || is_text v (codes "EISDIR")

abbrev or_default : Value → Text → Value
or_default v t = if is_truthy v then v else str t

abbrev diagnostic_fields : Text → Value → Fields → Fields → Items → Value
diagnostic_fields code message subject evidence fixes = obj (
    field (codes "code") (str code) (
      field (codes "severity") (str (codes "error")) (
        field (codes "message") message (
          field (codes "subject") (obj subject) (
            field (codes "evidence") (obj evidence)
              (field (codes "supportedFixes") (arr fixes) end))))))

unfoldable pub fallback_diagnostic : Value → Failure → Diagnostic
unfolding coerce
fallback_diagnostic input e =
    let subject = field (codes "input") input end in
    if e.is_syntax_error
    then normalized_diagnostic (
        diagnostic_fields (codes "input/json-parse")
          (str (codes "Input JSON could not be parsed: " ++ coerce e.message)) subject
          (field (codes "reason") e.message end)
          (cons (str (codes "repair the JSON syntax and run validation again")) nil))
    else if is_read_error e.code
    then normalized_diagnostic (
        diagnostic_fields (codes "input/read")
          (str (codes "Input could not be read: " ++ coerce e.message)) subject
          (field (codes "systemCode") e.code (field (codes "reason") e.message end))
          (cons (str (codes "provide one readable JSON input file")) nil))
    else normalized_diagnostic (
        diagnostic_fields (codes "internal/unclassified")
          (or_default e.message (codes "Renderer failed without a diagnostic.")) subject
          (field (codes "errorName") (or_default e.name (codes "Error")) end) nil)

abbrev pub normalized_items : Items → List Diagnostic
normalized_items nil = []
normalized_items (cons v rest) = normalized_diagnostic v ∷ normalized_items rest

abbrev pub attached_diagnostics : Value → List Diagnostic
attached_diagnostics (arr xs) = normalized_items xs
attached_diagnostics _ = []

-- `first.length ? first : second`
abbrev pub first_filled {ℓ} : {A : Type ℓ} → List A → List A → List A
first_filled [] ys = ys
first_filled (x ∷ xs) ys = x ∷ xs

-- What the renderer writes of an error that nothing caught.
pub record Report : Type 0 where
  pub error : Value
  pub diagnostics : List Diagnostic

unfoldable pub renderer_failure : Value → Failure → Recorder → Report
renderer_failure input e r = record {
  error = or_default e.message (codes "Renderer failed without a diagnostic.");
  diagnostics = first_filled r.recorded (
      first_filled (attached_diagnostics e.archify_diagnostics) (fallback_diagnostic input e ∷ []));
}
