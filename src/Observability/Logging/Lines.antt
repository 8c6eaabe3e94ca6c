-- ===== src/Observability/Logging/Lines.antt =====
-- What a log line says.
pub mod UniqueKeys
use mathlib.Core.Option
use text.Mathlib.Text.{starts_with}
use text.Mathlib.TextPositions.{eq_refl}
use nyc_taxi.Base.{
  if◌then◌else◌, String, ◌≡◌, refl, ◌∙◌, subst, Bool-cases, inl, inr, false, Option, none, some, [],
  ◌∷◌, arith, str_eq, eq_iff, ℕ, leb, ap,
}
use nyc_taxi.Python.{
  Value, str, Dict, empty, entry, get?, set, get?-set, get?-set_self, ok, Runtime,
}
use nyc_taxi.Json.{JsonModule, jsonable, jsonable_dict, dumps, loads}
use nyc_taxi.Json.RoundTrip.{
  ReadsBack, HasUniqueKeys, DictHasUniqueKeys, loads-dumps, get?-jsonable_dict,
}
use nyc_taxi.Observability.Correlation.{Context}
use nyc_taxi.Observability.Logging.{
  standard_log_fields, is_standard, LogRecord, Loggers, is_extra, add_extra, with_text,
  standard_entry, log_entry, format, setup_logging, emit,
}
use nyc_taxi.Observability.Logging.Lines.UniqueKeys.{log_entry-HasUniqueKeys}

-- An extra field comes before what the line had.
abbrev pub or_else : Option Value → Option Value → Option Value
or_else none w = w
or_else (some v) w = some v

abbrev kept : String → Dict → Option Value
kept key d = if is_extra key then get? key d else none

-- An attribute that is neither one of a plain record nor begins with "_".
abbrev pub extra : String → Dict → Option Value
extra key d =
    if is_standard key standard_log_fields
    then none
    else if starts_with key "_"
    then none
    else get? key d

kept-extra : (key : String) (d : Dict) → kept key d ≡ extra key d
unfolding is_extra
kept-extra key d = elim (Bool-cases (is_standard key standard_log_fields)) [
  | inl standard ↦ rw standard refl
  | inr more ↦ elim (Bool-cases (starts_with key "_")) [
    | inl private ↦ rw (more, private) refl
    | inr public ↦ rw (more, public) refl
  ]
]

or_else-none : (o : Option Value) → or_else o none ≡ o
or_else-none none = refl
or_else-none (some v) = refl

kept_absent : (key : String) (d : Dict) → get? key d ≡ none → kept key d ≡ none
kept_absent key d h = elim (Bool-cases (is_extra key)) [
  | inl yes_extra ↦ rw yes_extra h
  | inr standard ↦ rw standard refl
]

-- One turn of the loop, at the key of the turn and at another.
added_self :
    (key : String) (v : Value) (rest made : Dict)
    → get? key rest ≡ none
    → or_else (kept key rest) (get? key (if is_extra key then set key v made else made))
      ≡ or_else (kept key (entry key v rest)) (get? key made)
unfolding get?
added_self key v rest made h = elim (Bool-cases (is_extra key)) [
  | inl more ↦ rw (more, h, get?-set_self key v made, eq_refl key) refl
  | inr standard ↦ rw standard refl
]

added_other :
    (k key : String) (v : Value) (rest made : Dict)
    → str_eq k key ≡ false
    → or_else (kept key rest) (get? key (if is_extra k then set k v made else made))
      ≡ or_else (kept key (entry k v rest)) (get? key made)
unfolding get?
added_other k key v rest made differ = elim (Bool-cases (is_extra k)) [
  | inl more ↦ rw (more, get?-set k key v made, differ) refl
  | inr standard ↦ rw (standard, differ) refl
]

get?-add_extra :
    (key : String) (d made : Dict)
    → DictHasUniqueKeys d
    → get? key (add_extra d made) ≡ or_else (kept key d) (get? key made)
unfolding add_extra
get?-add_extra key empty made h = rw (kept_absent key empty (unfold get? in refl)) refl
get?-add_extra key (entry k v d) made h =
    get?-add_extra key d (if is_extra k then set k v made else made) h.2
    ∙ elim (Bool-cases (str_eq k key)) [
      | inl same ↦
          subst
            (λ j.
              or_else (kept j d) (get? j (if is_extra k then set k v made else made))
              ≡ or_else (kept j (entry k v d)) (get? j made))
            ((eq_iff k key).0 same) (added_self k v d made h.0)
      | inr differ ↦ added_other k key v d made differ
    ]

-- What a line says of a record apart from its kept fields.
abbrev pub standard_field : LogRecord → String → String → Option Value
standard_field r message key =
    if str_eq "timestamp" key
    then some (str r.created)
    else if str_eq "level" key
    then some (str r.levelname)
    else if str_eq "logger" key
    then some (str r.name)
    else if str_eq "message" key
    then some (str message)
    else if str_eq "exception" key
    then Option.map str r.exception
    else if str_eq "stack_info" key
    then Option.map str r.stack
    else none

get?-with_text :
    (k key : String) (t : Option String) (d : Dict)
    → get? key (with_text k t d)
      ≡ (if str_eq k key then or_else (Option.map str t) (get? key d) else get? key d)
get?-with_text k key none d = elim (Bool-cases (str_eq k key)) [
  | inl same ↦ rw same refl
  | inr differ ↦ rw differ refl
]
get?-with_text k key (some t) d = get?-set k key (str t) d

at_key :
    (P : String → Type 0) (name key : String) → P name → (str_eq name key ≡ false → P key) → P key
at_key P name key of_name of_other = elim (Bool-cases (str_eq name key)) [
  | inl same ↦ subst P ((eq_iff name key).0 same) of_name
  | inr differ ↦ of_other differ
]

get?-standard_entry :
    (key : String) (r : LogRecord) (message : String)
    → get? key (standard_entry r message) ≡ standard_field r message key
unfolding standard_entry get?
get?-standard_entry key r message =
    let Agrees : String → Type 0 =
      λ k. get? k (standard_entry r message) ≡ standard_field r message k in
    at_key Agrees "timestamp" key (rw (get?-with_text, get?-with_text) refl) λ a.
      at_key Agrees "level" key (rw (get?-with_text, get?-with_text) refl) λ b.
        at_key Agrees "logger" key (rw (get?-with_text, get?-with_text) refl) λ c.
          at_key Agrees "message" key (rw (get?-with_text, get?-with_text) refl) λ d.
            at_key Agrees "exception" key
              (rw (get?-with_text, get?-with_text) (or_else-none (Option.map str r.exception)))
              λ e.
                at_key Agrees "stack_info" key
                  (rw (get?-with_text, get?-with_text) (or_else-none (Option.map str r.stack)))
                  λ f. rw (get?-with_text, get?-with_text, a, b, c, d, e, f) refl

get?-log_entry :
    (key : String) (r : LogRecord) (message : String)
    → DictHasUniqueKeys r.attributes
    → get? key (log_entry r message)
      ≡ or_else (extra key r.attributes) (standard_field r message key)
unfolding log_entry
get?-log_entry key r message unique =
    get?-add_extra key r.attributes (standard_entry r message) unique
    ∙ ap (or_else (kept key r.attributes)) (get?-standard_entry key r message)
    ∙ ap (λ o. or_else o (standard_field r message key)) (kept-extra key r.attributes)

-- Whatever `setup_logging` finds and whatever correlation id is set: a line that is written of a record
-- whose attributes have unique keys is read back as a dict which has, under each key, the attribute
-- of that name, if it is neither one of a plain record nor begins with "_", and else the standard
-- field of that name, if there is one.
pub loads-emit :
    (effective : Loggers → String → ℕ) (upper : String → String) (attribute : String → Option ℕ)
    (level : String) (l : Loggers) (rt : Runtime) (j : JsonModule) (s : Context) (levelno : ℕ)
    (r : LogRecord) (message line : String)
    → ReadsBack j
    → DictHasUniqueKeys r.attributes
    → r.get_message ≡ ok message
    → emit effective rt j (setup_logging upper attribute level l) s levelno r ≡ ok line ∷ []
    → (d : Dict) × (loads j line ≡ ok d)
      × ((key : String)
          → get? key d
            ≡ Option.map
                (jsonable rt)
                (or_else (extra key r.attributes) (standard_field r message key)))
unfolding emit setup_logging format
loads-emit effective upper attribute level l rt j s levelno r message line back unique said
      written =
    let after = setup_logging upper attribute level l in
    elim (Bool-cases (leb (effective after r.name) levelno)) [
      | inl passes ↦
          let formatted : format rt j r ≡ ok line = cc (rw passes at written) in
          let dumped : dumps rt j (log_entry r message) ≡ ok line = rw said at formatted in
          (
            jsonable_dict rt (log_entry r message),
            loads-dumps rt j (log_entry r message) line back
                (log_entry-HasUniqueKeys r message unique) dumped,
            λ key.
                get?-jsonable_dict rt key (log_entry r message)
                ∙ ap (Option.map (jsonable rt)) (get?-log_entry key r message unique),
          )
      | inr below ↦ absurd (cc (rw below at written))
    ]
