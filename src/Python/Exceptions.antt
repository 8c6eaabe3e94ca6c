-- ===== src/Python/Exceptions.antt =====
-- Exceptions as values: those of etl/domain/trip/exceptions.py beside the built-in ones that the
-- pipeline meets, and functions that return or raise.
use Prim.Native.String.{◌++◌ as ◌⧺◌}
use nyc_taxi.Base.{
  ◌⊎◌, inl, inr, String, Bool, true, false, List, [], ◌∷◌, Option, none, some, ℤ, ◌≡◌, refl,
}
use nyc_taxi.Python.Data.{Value, Float, Datetime}

-- `"".join(parts)`, and an f-string from its parts.
unfoldable pub concat : List String → String
concat [] = ""
concat (s ∷ rest) = s ⧺ concat rest

-- `sep.join(parts)`
unfoldable pub join : String → List String → String
join sep [] = ""
join sep (s ∷ []) = s
join sep (s ∷ t ∷ rest) = s ⧺ (sep ⧺ join sep (t ∷ rest))

-- A DomainError by its class and the arguments of its constructor; then the built-in exceptions
-- that the pipeline raises; then any other, by class name and message.
pub data Error : Type 0 where
  domain_error : String → Error
  invalid_trip_duration : ℤ → Error
  negative_money : String → Float → Error
  invalid_passenger_count : ℤ → Error
  invalid_pickup_datetime : Datetime → String → Error
  zone_not_found : ℤ → Error
  trip_parse_error : String → Value → String → Error
  value_error key_error overflow_error type_error runtime_error : String → Error
  invalid_operation : Error
  other : String → String → Error

-- `isinstance(exc, DomainError)`
unfoldable pub is_domain_error : Error → Bool
is_domain_error (domain_error m) = true
is_domain_error (invalid_trip_duration s) = true
is_domain_error (negative_money f a) = true
is_domain_error (invalid_passenger_count c) = true
is_domain_error (invalid_pickup_datetime d r) = true
is_domain_error (zone_not_found i) = true
is_domain_error (trip_parse_error f v r) = true
is_domain_error _ = false

-- `type(exc).__name__`
unfoldable pub error_type : Error → String
error_type (domain_error m) = "DomainError"
error_type (invalid_trip_duration s) = "InvalidTripDurationError"
error_type (negative_money f a) = "NegativeMoneyError"
error_type (invalid_passenger_count c) = "InvalidPassengerCountError"
error_type (invalid_pickup_datetime d r) = "InvalidPickupDatetimeError"
error_type (zone_not_found i) = "ZoneNotFoundError"
error_type (trip_parse_error f v r) = "TripParseError"
error_type (value_error m) = "ValueError"
error_type (key_error k) = "KeyError"
error_type (overflow_error m) = "OverflowError"
error_type (type_error m) = "TypeError"
error_type (runtime_error m) = "RuntimeError"
error_type invalid_operation = "InvalidOperation"
error_type (other n m) = n

-- What a call gives: it raises, or returns a value.
pub data Result {κ} (Out : Type κ) : Type κ where
  ok : Out → Result Out
  err : Error → Result Out

abbrev pub raise_if : Bool → Error → Result (Unit {0})
raise_if true e = err e
raise_if false e = ok tt

abbrev pub or_raise {ℓ} : {A : Type ℓ} → Error → Option A → Result A
or_raise e none = err e
or_raise e (some a) = ok a

-- A statement after which the function goes on only if it did not raise, with and without a value.
abbrev pub ◌>>=◌ {κ μ} : {In : Type κ} {Out : Type μ} → Result In → (In → Result Out) → Result Out
err raised >>= rest = err raised
ok value >>= rest = rest value

abbrev pub ◌>>◌ {μ} : {Out : Type μ} → Result (Unit {0}) → Result Out → Result Out
statement >> rest = statement >>= λ nothing. rest

infixl 5 ◌>>=◌ ◌>>◌
-- A chain that returned, taken apart at its first call.
pub >>=-elim {ℓ κ μ} :
    {A : Type ℓ} {B : Type κ} {Q : Type μ} (m : Result A) (f : A → Result B) {b : B}
    → (m >>= f) ≡ ok b
    → ((a : A) → m ≡ ok a → f a ≡ ok b → Q)
    → Q
>>=-elim (err x) f returned use_parts = absurd (cc)
>>=-elim (ok a) f returned use_parts = use_parts a refl returned

pub ok-injective {ℓ} : {A : Type ℓ} {a b : A} → ok a ≡ ok b → a ≡ b
ok-injective h = cc

-- The same as a triple.
pub >>=-parts {κ μ} :
    {In : Type κ} {Out : Type μ} (call : Result In) (rest : In → Result Out) {end : Out}
    → (call >>= rest) ≡ ok end
    → (mid : In) × (call ≡ ok mid) × (rest mid ≡ ok end)
>>=-parts call rest returned = >>=-elim call rest returned λ mid was after. (mid, was, after)

-- To split on what a call did and keep the equation.
pub Result-cases {ℓ} :
    {A : Type ℓ} (r : Result A) → ((a : A) × (r ≡ ok a)) ⊎ ((e : Error) × (r ≡ err e))
Result-cases (ok a) = inl (a, refl)
Result-cases (err e) = inr (e, refl)
