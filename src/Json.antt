-- ===== src/Json.antt =====
-- etl/utils/json.py: what is written as JSON, and what is read from it. `json.dumps` on values that
-- JSON has, and `json.loads`, are the interpreter's.

pub mod RoundTrip
pub mod Files
use nyc_taxi.Base.{String, [], ◌∷◌}
use nyc_taxi.Python.{
  Value, null, bool, int, float, str, decimal, datetime, list, dict, Items, nil, cons, Dict, empty,
  entry, concat, type_error, Result, ok, err, ◌>>=◌, ◌>>◌, Runtime,
}

pub record JsonModule : Type 0 where
  -- json.dumps(v), with the encoding of its text as UTF-8
  pub json_dumps : Value → Result String
  -- json.loads(s), with the decoding of its bytes
  pub json_loads : String → Result Value

module _ (rt : Runtime) where
  unfoldable mutual
    -- `ETLJSONEncoder.default`, wherever the encoder meets a value that JSON does not have.
    pub jsonable : Value → Value
    jsonable null = null
    jsonable (bool b) = bool b
    jsonable (int n) = int n
    jsonable (float x) = float x
    jsonable (str s) = str s
    jsonable (decimal d) = float (rt.float_of_decimal d)
    jsonable (datetime d) = str (rt.isoformat d)
    jsonable (list vs) = list (jsonable_items vs)
    jsonable (dict d) = dict (jsonable_dict d)

    pub jsonable_items : Items → Items
    jsonable_items nil = nil
    jsonable_items (cons v vs) = cons (jsonable v) (jsonable_items vs)

    pub jsonable_dict : Dict → Dict
    jsonable_dict empty = empty
    jsonable_dict (entry k v d) = entry k (jsonable v) (jsonable_dict d)

  -- `dumps`, on a dict
  unfoldable pub dumps : JsonModule → Dict → Result String
  dumps j d = j.json_dumps (jsonable (dict d))

-- `type(v).__name__`
abbrev pub type_name : Value → String
type_name null = "NoneType"
type_name (bool b) = "bool"
type_name (int n) = "int"
type_name (float x) = "float"
type_name (str s) = "str"
type_name (decimal d) = "Decimal"
type_name (datetime d) = "datetime"
type_name (list vs) = "list"
type_name (dict d) = "dict"

abbrev pub top_level : Value → Result Dict
top_level (dict d) = ok d
top_level v = err (type_error (concat ("Expected top-level JSON object, got " ∷ type_name v ∷ [])))

-- `loads`
unfoldable pub loads : JsonModule → String → Result Dict
loads j s = do v ← j.json_loads s; top_level v
