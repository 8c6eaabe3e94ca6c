-- ===== src/Json/RoundTrip.antt =====
-- What was written as JSON reads back.
use mathlib.Core.Option
use nyc_taxi.Base.{Bool-cases, String, ◌≡◌, refl, inl, inr, none, str_eq}
use nyc_taxi.Python.{
  Value, null, bool, int, float, str, decimal, datetime, list, dict, Items, nil, cons, Dict, empty,
  entry, get?, ok, Runtime,
}
use nyc_taxi.Json.{JsonModule, jsonable, jsonable_items, jsonable_dict, dumps, loads}

-- A dict of the program has each key once, also in the dicts inside it.
abbrev mutual
  pub HasUniqueKeys : Value → Type 0
  HasUniqueKeys (list vs) = ItemsHaveUniqueKeys vs
  HasUniqueKeys (dict d) = DictHasUniqueKeys d
  HasUniqueKeys v = Unit

  pub ItemsHaveUniqueKeys : Items → Type 0
  ItemsHaveUniqueKeys nil = Unit
  ItemsHaveUniqueKeys (cons v vs) = HasUniqueKeys v × ItemsHaveUniqueKeys vs

  pub DictHasUniqueKeys : Dict → Type 0
  DictHasUniqueKeys empty = Unit
  DictHasUniqueKeys (entry k v d) = (get? k d ≡ none) × HasUniqueKeys v × DictHasUniqueKeys d

-- A value that JSON has: no Decimal and no datetime at any depth, and unique keys.
abbrev mutual
  pub IsJson : Value → Type 0
  IsJson (decimal d) = ⊥
  IsJson (datetime d) = ⊥
  IsJson (list vs) = ItemsAreJson vs
  IsJson (dict d) = DictIsJson d
  IsJson v = Unit

  pub ItemsAreJson : Items → Type 0
  ItemsAreJson nil = Unit
  ItemsAreJson (cons v vs) = IsJson v × ItemsAreJson vs

  pub DictIsJson : Dict → Type 0
  DictIsJson empty = Unit
  DictIsJson (entry k v d) = (get? k d ≡ none) × IsJson v × DictIsJson d

-- What the json module documents: a text that it wrote for a value that JSON has reads back as that
-- value.
abbrev pub ReadsBack : JsonModule → Type 0
ReadsBack j = (v : Value) (s : String) → IsJson v → j.json_dumps v ≡ ok s → j.json_loads s ≡ ok v

module _ (rt : Runtime) where
  pub get?-jsonable_dict :
      (k : String) (d : Dict) → get? k (jsonable_dict rt d) ≡ Option.map (jsonable rt) (get? k d)
  unfolding get? jsonable_dict
  get?-jsonable_dict k empty = refl
  get?-jsonable_dict k (entry j v d) = elim (Bool-cases (str_eq j k)) [
    | inl same ↦ rw same refl
    | inr differ ↦ rw differ (get?-jsonable_dict k d)
  ]

  mutual
    unfolding jsonable

    jsonable-IsJson : (v : Value) → HasUniqueKeys v → IsJson (jsonable rt v)
    jsonable-IsJson (list vs) h = jsonable_items-AreJson vs h
    jsonable-IsJson (dict d) h = jsonable_dict-IsJson d h
    jsonable-IsJson null h = tt
    jsonable-IsJson (bool b) h = tt
    jsonable-IsJson (int n) h = tt
    jsonable-IsJson (float x) h = tt
    jsonable-IsJson (str s) h = tt
    jsonable-IsJson (decimal d) h = tt
    jsonable-IsJson (datetime d) h = tt

    jsonable_items-AreJson :
        (vs : Items) → ItemsHaveUniqueKeys vs → ItemsAreJson (jsonable_items rt vs)
    jsonable_items-AreJson nil h = tt
    jsonable_items-AreJson (cons v vs) h = (jsonable-IsJson v h.0, jsonable_items-AreJson vs h.1)

    jsonable_dict-IsJson : (d : Dict) → DictHasUniqueKeys d → DictIsJson (jsonable_dict rt d)
    jsonable_dict-IsJson empty h = tt
    jsonable_dict-IsJson (entry k v d) h =
        (rw (get?-jsonable_dict k d, h.0) refl, jsonable-IsJson v h.1, jsonable_dict-IsJson d h.2)

  -- A dict whose keys are unique at every depth, once written by `dumps`, is read by `loads` as the
  -- same dict with its datetimes as ISO texts and its Decimals as floats.
  pub loads-dumps :
      (j : JsonModule) (d : Dict) (s : String)
      → ReadsBack j
      → DictHasUniqueKeys d
      → dumps rt j d ≡ ok s
      → loads j s ≡ ok (jsonable_dict rt d)
  unfolding dumps loads jsonable
  loads-dumps j d s back unique written =
      rw (back (dict (jsonable_dict rt d)) s (jsonable_dict-IsJson d unique) written) refl
