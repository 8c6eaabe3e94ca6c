-- ===== src/Observability/Logging/Lines/UniqueKeys.antt =====
-- That the entry of a line has unique keys.
use text.Mathlib.Text.{}
use text.Mathlib.TextPositions.{}
use nyc_taxi.Base.{
  if◌then◌else◌, String, ◌≡◌, refl, subst, Bool-cases, inl, inr, false, Option, none, some, arith,
  str_eq, eq_iff,
}
use nyc_taxi.Python.{Value, str, Dict, empty, entry, get?, set, get?-set}
use nyc_taxi.Json.{}
use nyc_taxi.Json.RoundTrip.{HasUniqueKeys, DictHasUniqueKeys}
use nyc_taxi.Observability.Correlation.{}
use nyc_taxi.Observability.Logging.{
  LogRecord, is_extra, add_extra, with_text, standard_entry, log_entry,
}

str_eq-flip : (j k : String) → str_eq j k ≡ false → str_eq k j ≡ false
str_eq-flip j k h = ground (arith, eq_iff j k, eq_iff k j)

set-HasUniqueKeys :
    (k : String) (v : Value) (d : Dict)
    → HasUniqueKeys v
    → DictHasUniqueKeys d
    → DictHasUniqueKeys (set k v d)
unfolding set
set-HasUniqueKeys k v empty of_v h = (unfold get? in refl, of_v, tt)
set-HasUniqueKeys k v (entry j w d) of_v h = elim (Bool-cases (str_eq j k)) [
  | inl same ↦ rw same (subst (λ i. get? i d ≡ none) ((eq_iff j k).0 same) h.0, of_v, h.2)
  | inr differ ↦
      let there : get? j (set k v d) ≡ none = rw (get?-set k j v d, str_eq-flip j k differ) h.0 in
      rw differ (there, h.1, set-HasUniqueKeys k v d of_v h.2)
]

with_text-HasUniqueKeys :
    (k : String) (t : Option String) (d : Dict)
    → DictHasUniqueKeys d
    → DictHasUniqueKeys (with_text k t d)
with_text-HasUniqueKeys k none d h = h
with_text-HasUniqueKeys k (some t) d h = set-HasUniqueKeys k (str t) d tt h

standard_entry-HasUniqueKeys :
    (r : LogRecord) (message : String) → DictHasUniqueKeys (standard_entry r message)
unfolding standard_entry get?
standard_entry-HasUniqueKeys r message = with_text-HasUniqueKeys "stack_info" r.stack _ (
    with_text-HasUniqueKeys "exception" r.exception _
      (refl, tt, (refl, tt, (refl, tt, (refl, tt, tt)))))

add_extra-HasUniqueKeys :
    (d made : Dict)
    → DictHasUniqueKeys d
    → DictHasUniqueKeys made
    → DictHasUniqueKeys (add_extra d made)
unfolding add_extra
add_extra-HasUniqueKeys empty made of_d of_made = of_made
add_extra-HasUniqueKeys (entry k v d) made of_d of_made =
    add_extra-HasUniqueKeys d (if is_extra k then set k v made else made) of_d.2
      (elim (Bool-cases (is_extra k)) [
        | inl more ↦ rw more (set-HasUniqueKeys k v made of_d.1 of_made)
        | inr standard ↦ rw standard of_made
      ])

pub log_entry-HasUniqueKeys :
    (r : LogRecord) (message : String)
    → DictHasUniqueKeys r.attributes
    → DictHasUniqueKeys (log_entry r message)
unfolding log_entry
log_entry-HasUniqueKeys r message unique =
    add_extra-HasUniqueKeys r.attributes (standard_entry r message) unique
      (standard_entry-HasUniqueKeys r message)
