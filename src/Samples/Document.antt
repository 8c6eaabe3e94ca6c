-- ===== src/Samples/Document.antt =====
-- A json module that writes one value only, as the text "line", and reads it from there.
use native.Mathlib.Decide.{ℕ_discrete}
use nyc_taxi.Base.{
  if◌then◌else◌, Bool-cases, String, ◌≡◌, refl, sym, ap, subst, inl, inr, false, str_eq, eq_iff,
}
use nyc_taxi.Python.{Value, value_error, type_error, Result, ok, err, ok-injective}
use nyc_taxi.Json.{JsonModule}
use nyc_taxi.Json.RoundTrip.{ReadsBack}
use nyc_taxi.Pipeline.{WritesText}

String-discrete : Discrete String
String-discrete s t = elim (Bool-cases (str_eq s t)) [
  | inl same ↦ yes ((eq_iff s t).0 same)
  | inr differ ↦ no (λ h. absurd (cc (differ, (eq_iff s t).1 h)))
]

pub Value-discrete : Discrete Value
Value-discrete = hlevel (ℕ_discrete, String-discrete)

abbrev pub written {ℓ} : {A : Type ℓ} → Dec A → Result String
written (yes a) = ok "line"
written (no a) = err (type_error "not the document")

abbrev pub document : Value → JsonModule
document v = record {
  json_dumps = λ w. written (Value-discrete w v);
  json_loads = λ s. if str_eq s "line" then ok v else err (value_error "Expecting value");
}

pub dumps-document : (v : Value) → (document v).json_dumps v ≡ ok "line"
dumps-document v = decided (Value-discrete v v)
  where
    decided : (d : Dec (v ≡ v)) → written d ≡ ok "line"
    decided (yes same) = refl
    decided (no differ) = absurd (differ refl)

pub document-ReadsBack : (v : Value) → ReadsBack (document v)
document-ReadsBack v w s json wrote = decided (Value-discrete w v) wrote
  where
    decided : (d : Dec (w ≡ v)) → written d ≡ ok s → (document v).json_loads s ≡ ok w
    decided (yes same) e =
        subst (λ s. (document v).json_loads s ≡ ok w) (ok-injective e) (ap ok (sym same))
    decided (no differ) e = absurd (cc)

pub document-WritesText : (v : Value) → WritesText (document v)
document-WritesText v w s wrote = decided (Value-discrete w v) wrote
  where
    decided : (d : Dec (w ≡ v)) → written d ≡ ok s → str_eq s "" ≡ false
    decided (yes same) e = subst (λ s. str_eq s "" ≡ false) (ok-injective e) refl
    decided (no differ) e = absurd (cc)
