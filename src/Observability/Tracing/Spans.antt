-- ===== src/Observability/Tracing/Spans.antt =====
-- Tracing changes nothing, and its spans are nested.
use mathlib.Core.List.{append_assoc}
use nyc_taxi.Base.{
  String, Bool, true, false, Option, none, some, List, [], ◌∷◌, ◌++◌, ◌≡◌, refl, sym, ap, ◌∙◌,
  subst,
}
use nyc_taxi.Python.{Value, Error, Result, ok, err, Runtime, error_message}
use nyc_taxi.Observability.Tracing.{
  Call, start_as_current_span, record_exception, set_error_status, end_span, Tracer, Function,
  attribute_calls, left, name_of, span, traced,
}

-- What a span is told when it is left.
abbrev pub told : Runtime → Option Error → List Call
told rt none = []
told rt (some e) = record_exception e ∷ set_error_status (error_message rt e) ∷ []

-- Spans that lie behind and within each other, each with its attributes first and, when it was left by
-- an exception, with that exception last.
pub data Nested (rt : Runtime) : List Call → Type 0 where
  no_span : Nested rt []
  one_span :
      (name : String) (attributes : List (String × Value)) (raised : Option Error)
      {inner rest calls : List Call}
      → Nested rt inner
      → Nested rt rest
      → calls
        ≡ start_as_current_span name
          ∷ (attribute_calls rt attributes ++ (inner ++ (told rt raised ++ end_span ∷ rest)))
      → Nested rt calls

abbrev raised_by {ℓ} : {A : Type ℓ} → Result A → Option Error
raised_by (ok a) = none
raised_by (err e) = some e

module _ {ℓ κ} {S : Type ℓ} {A : Type κ} (rt : Runtime) where
  left_lem :
      (end : Result A × (S × List Call))
      → left rt end ≡ (end.0, (end.1.0, end.1.1 ++ (told rt (raised_by end.0) ++ end_span ∷ [])))
  left_lem (ok a, (s, made)) = refl
  left_lem (err e, (s, made)) = refl

  -- A traced function ends as the plain one, and adds nested spans to the calls.
  pub record EndsAs (plain : Result A × S) (calls : List Call) (end : Result A × (S × List Call))
      : Type (ℓ ⊔ κ) where
    pub same_result : end.0 ≡ plain.0
    pub same_state : end.1.0 ≡ plain.1
    pub added : List Call
    pub nested : Nested rt added
    pub same_calls : end.1.1 ≡ calls ++ added

  left-EndsAs :
      (plain : Result A × S) (calls : List Call) (name : String)
      (attributes : List (String × Value)) (end : Result A × (S × List Call))
      → EndsAs plain (calls ++ start_as_current_span name ∷ attribute_calls rt attributes) end
      → EndsAs plain calls (left rt end)
  left-EndsAs plain calls name attributes end h =
      let tail : List Call = told rt (raised_by end.0) ++ end_span ∷ [] in
      subst (EndsAs plain calls) (sym (left_lem end)) (record {
        same_result = h.same_result;
        same_state = h.same_state;
        added = start_as_current_span name ∷ (attribute_calls rt attributes ++ (h.added ++ tail));
        nested = one_span name attributes (raised_by end.0) h.nested no_span refl;
        same_calls = ap (λ c. c ++ tail) h.same_calls ∙ simp append_assoc;
      })

  -- A function of the state `plain`, whose parts may be traced already: when it is decorated by `traced`,
  -- it returns or raises the same and leaves the same state, whether there is a tracer or not.
  pub traced-EndsAs :
      (plain : S → Result A × S) (func : Function S A)
      → ((s : S) (calls : List Call) → EndsAs (plain s) calls (func (s, calls)))
      → (available : Bool) (tracer : Tracer) (span_name : Option String)
        (span_attrs : List (String × Value)) (module_name qualname : String) (s : S)
        (calls : List Call)
      → EndsAs
          (plain s)
          calls
          (traced rt available tracer span_name span_attrs module_name qualname func (s, calls))
  unfolding traced span
  traced-EndsAs plain func h available none span_name attributes module_name qualname s calls =
      h s calls
  traced-EndsAs plain func h false (some t) span_name attributes module_name qualname s calls =
      h s calls
  traced-EndsAs plain func h true (some t) span_name attributes module_name qualname s calls =
      left-EndsAs (plain s) calls (name_of span_name module_name qualname) attributes _ (
        h s (
          calls
          ++ start_as_current_span (name_of span_name module_name qualname)
            ∷ attribute_calls rt attributes))
