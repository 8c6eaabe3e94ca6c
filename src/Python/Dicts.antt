-- ===== src/Python/Dicts.antt =====
-- The laws of dict access.
use nyc_taxi.Base.{
  Bool-cases, none, ap, inl, inr, if◌then◌else◌, String, ◌≡◌, refl, some, arith, str_eq, eq_iff,
}
use text.Mathlib.TextPositions.{eq_refl}
use nyc_taxi.Python.Data.{Value, Dict, empty, entry, get?, get_or, set}

pub get?-set :
    (k j : String) (v : Value) (d : Dict)
    → get? j (set k v d) ≡ (if str_eq k j then some v else get? j d)
unfolding get? set
get?-set k j v empty = refl
get?-set k j v (entry i w d) = ground (arith, eq_iff k j, eq_iff i k, eq_iff i j, get?-set k j v d)

pub get?-set_self : (k : String) (v : Value) (d : Dict) → get? k (set k v d) ≡ some v
get?-set_self k v d = simp (get?-set, eq_refl)

pub get_or-of_get? : (k : String) (v w : Value) (d : Dict) → get? k d ≡ some w → get_or k v d ≡ w
unfolding get_or
get_or-of_get? k v w d h = rw h

-- One dict behind another.
abbrev pub behind : Dict → Dict → Dict
behind empty e = e
behind (entry k v d) e = entry k v (behind d e)

pub behind_assoc : (d e f : Dict) → behind (behind d e) f ≡ behind d (behind e f)
behind_assoc empty e f = refl
behind_assoc (entry k v d) e f = ap (entry k v) (behind_assoc d e f)

pub behind-empty : (d : Dict) → behind d empty ≡ d
behind-empty empty = refl
behind-empty (entry k v d) = ap (entry k v) (behind-empty d)

-- A new key comes last.
pub set-behind :
    (k : String) (v : Value) (d : Dict) → get? k d ≡ none → set k v d ≡ behind d (entry k v empty)
unfolding set get?
set-behind k v empty h = refl
set-behind k v (entry j w d) h = elim (Bool-cases (str_eq j k)) [
  | inl same ↦ absurd (cc (rw same at h))
  | inr differ ↦ rw differ (ap (entry j w) (set-behind k v d (rw differ at h)))
]
