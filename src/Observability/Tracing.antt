-- ===== src/Observability/Tracing.antt =====
-- etl/observability/tracing.py. The program works on a state of any kind; beside it stand the calls of
-- the OpenTelemetry API, in order. These return, as that API documents.
pub mod Spans
use nyc_taxi.Base.{
  if◌then◌else◌, String, Bool, true, false, Option, none, some, List, [], ◌∷◌, ◌++◌, str_eq,
}
use nyc_taxi.Python.{Value, Error, Result, ok, err, concat, Runtime, error_message}

pub data Call : Type 0 where
  start_as_current_span : String → Call
  set_attribute : String → String → Call
  record_exception : Error → Call
  set_error_status : String → Call
  end_span : Call

-- `_tracer`, by the name of its service.
abbrev pub Tracer : Type 0
Tracer = Option String

-- The `try` of `setup_tracing`, by what it raises, if anything.
abbrev pub initialised : String → Option Error → Tracer
initialised service_name none = some service_name
initialised service_name (some e) = none

-- `setup_tracing`, with `_OTEL_AVAILABLE`.
unfoldable pub setup_tracing : Bool → Option Error → String → Tracer → Tracer
setup_tracing available raised service_name tracer =
    if available then initialised service_name raised else tracer

-- A function that has been given its arguments: it returns or raises, and changes the state.
abbrev pub Function {ℓ κ} : Type ℓ → Type κ → Type (ℓ ⊔ κ)
Function S A = S × List Call → Result A × (S × List Call)

abbrev pub attribute_calls : Runtime → List (String × Value) → List Call
attribute_calls rt [] = []
attribute_calls rt ((key, value) ∷ attributes) =
    set_attribute key (rt.text_of value) ∷ attribute_calls rt attributes

-- `span_name or f"{func.__module__}.{func.__qualname__}"`
abbrev pub name_of : Option String → String → String → String
name_of none module_name qualname = concat (module_name ∷ "." ∷ qualname ∷ [])
name_of (some name) module_name qualname =
    if str_eq name "" then concat (module_name ∷ "." ∷ qualname ∷ []) else name

module _ {ℓ κ} {S : Type ℓ} {A : Type κ} (rt : Runtime) where
  -- The `except` clause of `span`, which raises again, and the end of the span.
  abbrev pub left : Result A × (S × List Call) → Result A × (S × List Call)
  left (ok a, (s, calls)) = (ok a, (s, calls ++ end_span ∷ []))
  left (err e, (s, calls)) = (
    err e,
    (s, calls ++ record_exception e ∷ set_error_status (error_message rt e) ∷ end_span ∷ []),
  )

  -- `with span(name, **attributes): body`
  unfoldable pub span : Bool → Tracer → String → List (String × Value) → Function S A → Function S A
  span available none name attributes body (s, calls) = body (s, calls)
  span false (some t) name attributes body (s, calls) = body (s, calls)
  span true (some t) name attributes body (s, calls) =
      left (body (s, calls ++ start_as_current_span name ∷ attribute_calls rt attributes))

  -- `traced(span_name, **span_attrs)(func)`, called.
  unfoldable pub traced :
      Bool
      → Tracer
      → Option String
      → List (String × Value)
      → String
      → String
      → Function S A
      → Function S A
  unfolding span concat
  traced available tracer span_name span_attrs module_name qualname func =
      span available tracer (name_of span_name module_name qualname) span_attrs func
