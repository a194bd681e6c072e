-- ===== src/Render/Recorded.antt =====
-- What the recorder holds, and what of it reaches the report of a failure.
use codearmory_blacksmith.Base.{
  ◌≡◌, ◌≢◌, refl, sym, ap, codes, ◌∙◌, Text, List, [], ◌∷◌, ◌++◌, map, Bool, true, false, not, ◌&&◌,
  ◌||◌, text_eq_iff, text_eq, includes, arith, Bool-cases, inl, inr, ltb, if_elim,
}
use codearmory_blacksmith.Base.Trim.{trim, trim_start, trim_end, trim_idem}
use codearmory_blacksmith.Json.{Value, Fields, str, get, lookup, coerce}
use codearmory_blacksmith.Update.State.Acknowledge.{includes-append}
use codearmory_blacksmith.Render.Diagnostics.{
  Diagnostic, normalized_diagnostic, Recorder, note_diagnostic, record_diagnostic, record_all,
  Failure, first_filled, renderer_failure, throw_diagnostic_error, throw_diagnostic_problems,
  problem_value, diagnostic_value, text_or, problems_text,
}

abbrev pub messages_of : List Diagnostic → List Text
messages_of ds = map (λ (d : Diagnostic). d.message) ds

unfoldable pub distinct_texts : List Text → Bool
unfolding includes
distinct_texts [] = true
distinct_texts (t ∷ rest) = not (includes t rest) && distinct_texts rest

-- No message is recorded twice, `recordedMessages` is the set of the recorded ones, and outside the
-- diagnostic mode nothing is recorded.
pub record IsRecorder (r : Recorder) : Type 0 where
  pub distinct : distinct_texts (messages_of r.recorded) ≡ true
  pub same : (m : Text) → includes m (messages_of r.recorded) ≡ includes m r.messages
  pub silent : r.diagnostic_mode ≡ false → r.recorded ≡ []

messages_of-append :
    (xs ys : List Diagnostic) → messages_of (xs ++ ys) ≡ messages_of xs ++ messages_of ys
messages_of-append [] ys = refl
messages_of-append (x ∷ xs) ys = ap (λ ms. x.message ∷ ms) (messages_of-append xs ys)

distinct_texts-append :
    (t : Text) (ts : List Text)
    → distinct_texts ts ≡ true
    → includes t ts ≡ false
    → distinct_texts (ts ++ t ∷ []) ≡ true
unfolding includes distinct_texts
distinct_texts-append t [] h k = refl
distinct_texts-append t (s ∷ ts) h k = ground (
  arith,
  distinct_texts-append t ts,
  includes-append s ts (t ∷ []),
  text_eq_iff s t,
  text_eq_iff t s,
)

note_diagnostic-IsRecorder :
    (d : Diagnostic) (r : Recorder)
    → r.diagnostic_mode ≡ true
    → IsRecorder r
    → IsRecorder (note_diagnostic d r)
unfolding note_diagnostic includes
note_diagnostic-IsRecorder d r mode w =
    if_elim IsRecorder (includes d.message r.messages) r _ (λ h. w)
      (λ h. record {
        distinct =
            ap distinct_texts (messages_of-append r.recorded (d ∷ []))
            ∙ distinct_texts-append d.message (messages_of r.recorded) w.distinct
                (w.same d.message ∙ h);
        same = λ m. ground (
          arith,
          messages_of-append r.recorded (d ∷ []),
          includes-append m (messages_of r.recorded) (d.message ∷ []),
          w.same m,
        );
        silent = λ k. cc;
      })

record_diagnostic-IsRecorder :
    (v : Value) (r : Recorder) → IsRecorder r → IsRecorder (record_diagnostic v r)
unfolding record_diagnostic
record_diagnostic-IsRecorder v r w =
    if_elim IsRecorder (not r.diagnostic_mode || ltb 0 r.depth) r _ (λ h. w)
      (λ h. note_diagnostic-IsRecorder (normalized_diagnostic v) r (ground arith) w)

-- A recorder that keeps what it is given.
abbrev pub is_recording : Recorder → Bool
is_recording r = r.diagnostic_mode && not (ltb 0 r.depth)

abbrev pub messages_for : List Value → List Text
messages_for vs = messages_of (map normalized_diagnostic vs)

Extends : Recorder → List Text → Recorder → Type 0
unfolding includes
Extends r ms s =
    (is_recording s ≡ true)
    × ((m : Text) → includes m s.messages ≡ (includes m r.messages || includes m ms))

includes_absorb :
    (t m : Text) (ts : List Text)
    → includes t ts ≡ true
    → includes m ts ≡ (includes m ts || includes m (t ∷ []))
unfolding includes
includes_absorb t m ts h = ground (arith, text_eq_iff t m, ap (λ (x : Text). includes x ts))

note_diagnostic-Extends :
    (d : Diagnostic) (r : Recorder)
    → is_recording r ≡ true
    → Extends r (d.message ∷ []) (note_diagnostic d r)
unfolding note_diagnostic includes Extends
note_diagnostic-Extends d r mode =
    if_elim (Extends r (d.message ∷ [])) (includes d.message r.messages) r _
      (λ h. (mode, λ m. includes_absorb d.message m r.messages h)) (λ h. (mode, λ m. ground arith))

record_diagnostic-Extends :
    (v : Value) (r : Recorder)
    → is_recording r ≡ true
    → Extends r (messages_for (v ∷ [])) (record_diagnostic v r)
unfolding record_diagnostic
record_diagnostic-Extends v r mode =
    if_elim (Extends r (messages_for (v ∷ []))) (not r.diagnostic_mode || ltb 0 r.depth) r _
      (λ h. ground arith) (λ h. note_diagnostic-Extends (normalized_diagnostic v) r mode)

record_all-IsRecorder :
    (vs : List Value) (r : Recorder) → IsRecorder r → IsRecorder (record_all vs r)
unfolding record_all
record_all-IsRecorder [] r w = w
record_all-IsRecorder (v ∷ vs) r w =
    record_all-IsRecorder vs (record_diagnostic v r) (record_diagnostic-IsRecorder v r w)

record_all-Extends :
    (vs : List Value) (r : Recorder)
    → is_recording r ≡ true
    → Extends r (messages_for vs) (record_all vs r)
unfolding record_all Extends includes
record_all-Extends [] r mode = (mode, λ m. ground arith)
record_all-Extends (v ∷ vs) r mode =
    let first = record_diagnostic-Extends v r mode in
    let rest = record_all-Extends vs (record_diagnostic v r) first.0 in
    (rest.0, λ m. ground (arith, first.1 m, rest.1 m))

-- Recording a list of diagnostics keeps the recorded messages distinct and equal to the set of
-- messages, and adds to them the messages of the list and no others.
record_all-recorded :
    (vs : List Value) (r : Recorder)
    → is_recording r ≡ true
    → IsRecorder r
    → IsRecorder (record_all vs r)
      × ((m : Text)
          → includes m (messages_of (record_all vs r).recorded)
            ≡ (includes m (messages_of r.recorded) || includes m (messages_for vs)))
unfolding Extends
record_all-recorded vs r mode w =
    let after = record_all-IsRecorder vs r w in
    let extends = record_all-Extends vs r mode in
    (after, λ m. ground (arith, after.same m, extends.1 m, w.same m))

includes-first_filled :
    (m : Text) (xs ys : List Diagnostic)
    → includes m (messages_of xs) ≡ true
    → includes m (messages_of (first_filled xs ys)) ≡ true
unfolding includes
includes-first_filled m [] ys h = cc
includes-first_filled m (x ∷ xs) ys h = h

thrown_reported :
    (prefix : Text) (vs : List Value) (r : Recorder) (input : Value) (e : Failure)
    → is_recording r ≡ true
    → IsRecorder r
    → (m : Text) → includes m (messages_for vs) ≡ true
    → includes m
        (messages_of (renderer_failure input e (throw_diagnostic_error prefix vs r).1).diagnostics)
      ≡ true
unfolding throw_diagnostic_error renderer_failure
thrown_reported prefix vs r input e mode w m h =
    let exact = record_all-recorded vs r mode w in
    includes-first_filled m (record_all vs r).recorded _ (exact.1 m ∙ ground (arith, h))

text_or-str : (otherwise t : Text) → trim t ≢ [] → text_or otherwise (str t) ≡ t
unfolding coerce trim_start trim_end
text_or-str otherwise [] h = elim (h refl) [ ]
text_or-str otherwise (c ∷ cs) h = refl

abbrev unclassified : Text
unclassified = codes "Archify could not classify this failure."

abbrev normalized_problem : Text → Fields → Text → Value
normalized_problem code subject m =
    diagnostic_value (normalized_diagnostic (problem_value code subject m))

problem_message :
    (code : Text) (subject : Fields) (m : Text)
    → trim m ≢ []
    → (normalized_diagnostic (normalized_problem code subject m)).message ≡ trim m
unfolding normalized_diagnostic get lookup text_eq
problem_message code subject m h =
    ap (λ (x : Text). trim (text_or unclassified (str (trim x)))) (text_or-str unclassified m h)
    ∙ ap (λ (x : Text). trim x) (text_or-str unclassified (trim m) (λ k. h (sym (trim_idem m) ∙ k)))
    ∙ trim_idem m

abbrev normalized_message : Text → Fields → Text → Text
normalized_message code subject n =
    (normalized_diagnostic (normalized_problem code subject n)).message

includes-problems :
    (code : Text) (subject : Fields) (m : Text) (ms : List Text)
    → trim m ≢ []
    → includes m ms ≡ true
    → includes (trim m) (messages_for (map (normalized_problem code subject) ms)) ≡ true
unfolding includes
includes-problems code subject m [] h k = cc
includes-problems code subject m (n ∷ ms) h k = elim (Bool-cases (text_eq n m)) [
  | inl e ↦
      let message = normalized_message code subject in
      let same = ap message ((text_eq_iff n m).0 e) ∙ problem_message code subject m h in
      ground (arith, (text_eq_iff (message n) (trim m)).1 same)
  | inr e ↦ ground (arith, includes-problems code subject m ms h)
]

-- While diagnostics are recorded, each problem that is thrown and not blank is in the report of the
-- failure, without the white space around it, whatever was recorded before and whichever error is
-- reported.
pub throw_diagnostic_problems-reported :
    (prefix : Text) (problems : List Text) (code : Text) (subject : Fields) (r : Recorder)
    (input : Value) (e : Failure)
    → is_recording r ≡ true
    → IsRecorder r
    → (m : Text) → includes m problems ≡ true
    → trim m ≢ []
    → includes (trim m) (
        messages_of
          (renderer_failure input e
            (throw_diagnostic_problems prefix problems code subject r).1).diagnostics)
      ≡ true
unfolding throw_diagnostic_problems
throw_diagnostic_problems-reported prefix problems code subject r input e mode w m h k =
    thrown_reported (problems_text prefix problems) (map (normalized_problem code subject) problems)
      r input e mode w (trim m) (includes-problems code subject m problems k h)
