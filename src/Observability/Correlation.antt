-- ===== src/Observability/Correlation.antt =====
-- etl/observability/correlation.py: the context variable, and the `with` blocks that set it.
pub mod Scopes
use nyc_taxi.Base.{
  if◌then◌else◌, length, get_elem?, ℕ, zero, suc, ◌+◌, String, Bool, true, false, Option, none,
  some, List, [], ◌∷◌, ◌++◌, str_eq,
}
use nyc_taxi.Python.{Error, value_error, runtime_error, Result, ok, err}

-- A token is its place in the list: the value that it goes back to, `none` where the variable was not
-- set, and whether it was used. `seen` is what `get_correlation_id` gave at each place where the id was looked
-- up, with its label; `drawn` counts the uuids.
pub record Context : Type 0 where
  pub correlation_id : Option String
  pub tokens : List (Option String × Bool)
  pub seen : List (String × String)
  pub drawn : ℕ

-- `uuid.uuid4()`, the n-th time.
abbrev pub Uuids : Type 0
Uuids = ℕ → String

-- `new_correlation_id`
unfoldable pub new_correlation_id : Uuids → Context → String × Context
new_correlation_id uuid s = (uuid s.drawn, record s { drawn = s.drawn + 1 })

-- `set_correlation_id`
unfoldable pub set_correlation_id : String → Context → ℕ × Context
set_correlation_id id s = (
  length s.tokens,
  record s { correlation_id = some id; tokens = s.tokens ++ (s.correlation_id, false) ∷ [] },
)

-- `get_correlation_id`, with the default "".
unfoldable pub get_correlation_id : Context → String
get_correlation_id s = elim s.correlation_id [ none ↦ "" | some id ↦ id ]

abbrev pub mark_used : ℕ → List (Option String × Bool) → List (Option String × Bool)
mark_used n [] = []
mark_used zero (t ∷ ts) = (t.0, true) ∷ ts
mark_used (suc n) (t ∷ ts) = t ∷ mark_used n ts

abbrev pub reset_to : ℕ → Option (Option String × Bool) → Context → Result (Unit {0}) × Context
reset_to n none s = (err (value_error "created in a different Context"), s)
reset_to n (some (old, true)) s = (err (runtime_error "Token has already been used once"), s)
reset_to n (some (old, false)) s =
    (ok tt, record s { correlation_id = old; tokens = mark_used n s.tokens })

-- `reset_correlation_id`
unfoldable pub reset_correlation_id : ℕ → Context → Result (Unit {0}) × Context
reset_correlation_id token s = reset_to token (get_elem? s.tokens token) s

-- `CorrelationFilter.filter`, on the field of a record: "" leaves it out.
unfoldable pub filter_record : Context → Option String → Option String
unfolding get_correlation_id
filter_record s field = let id = get_correlation_id s in if str_eq id "" then field else some id

-- What the code in a block does: look the id up, raise, or enter a block, with an id or with none.
pub data Body : Type 0 where
  done : Body
  raising : Error → Body
  look_up : String → Body → Body
  within : Option String → Body → Body → Body

-- `BatchCorrelationContext.__init__`: `correlation_id or new_correlation_id()`
unfoldable pub new_context : Uuids → Option String → Context → String × Context
unfolding new_correlation_id
new_context uuid none s = new_correlation_id uuid s
new_context uuid (some id) s = if str_eq id "" then new_correlation_id uuid s else (id, s)

-- `__exit__`: what it raises takes the place of what the block did.
abbrev pub exited : Result (Unit {0}) → Result (Unit {0}) × Context → Result (Unit {0}) × Context
exited result (ok u, s) = (result, s)
exited result (err e, s) = (err e, s)

module _ (uuid : Uuids) where
  abbrev pub and_then :
      (Context → Result (Unit {0}) × Context)
      → Result (Unit {0}) × Context
      → Result (Unit {0}) × Context
  and_then rest (ok u, s) = rest s
  and_then rest (err e, s) = (err e, s)

  abbrev pub left : ℕ → Result (Unit {0}) × Context → Result (Unit {0}) × Context
  left token (result, s) = exited result (reset_correlation_id token s)

  -- A program; `within` is `with BatchCorrelationContext(id):` and what follows it.
  unfoldable pub run_body : Body → Context → Result (Unit {0}) × Context
  unfolding new_context set_correlation_id get_correlation_id reset_correlation_id
  run_body done s = (ok tt, s)
  run_body (raising e) s = (err e, s)
  run_body (look_up label rest) s =
      run_body rest (record s { seen = s.seen ++ (label, get_correlation_id s) ∷ [] })
  run_body (within given body rest) s =
      let (id, made) = new_context uuid given s in
      let (token, entered) = set_correlation_id id made in
      and_then (run_body rest) (left token (run_body body entered))
