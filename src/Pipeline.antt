-- ===== src/Pipeline.antt =====
-- The trips on their way: published by the producer (kafka/producer.py), received and inserted by
-- the consumer process (entrypoints/consumer.py).
pub mod Arrival
pub mod Consuming
pub mod Delivered
pub mod Storage
pub mod Process
pub mod Overflow
pub mod Waiting
pub mod Stored
use mathlib.Core.List.{append_assoc}
use nyc_taxi.Base.{
  arith, ℕ, String, ◌≡◌, refl, sym, ap, ◌∙◌, subst, false, some, List, [], ◌∷◌, ◌++◌, map, arith,
  str_eq,
}
use nyc_taxi.Python.{Value, Dict, get?, Result, ok, err, >>=-elim, ok-injective, Runtime}
use nyc_taxi.Json.{JsonModule, jsonable_dict, dumps, loads}
use nyc_taxi.Json.RoundTrip.{DictHasUniqueKeys, ReadsBack, loads-dumps}
use nyc_taxi.Trip.Model.{Trip, to_dict}
use nyc_taxi.Producer.{Client, serialize, encoded}
use nyc_taxi.Producer.Attempts.{Attempts, complete, broken_off, encode_all}
use nyc_taxi.Consumer.{Ports, none_if_undecodable, deserialize}
use nyc_taxi.Consumer.Persistence.{decoded, rows_of}
use nyc_taxi.Consumer.Order.{rows_of-append}

-- What the json module writes is never empty.
abbrev pub WritesText : JsonModule → Type 0
WritesText j = (v : Value) (s : String) → j.json_dumps v ≡ ok s → str_eq s "" ≡ false

abbrev pub values : List (String × String) → List String
values messages = map (λ m. m.1) messages

module _ (rt : Runtime) where
  -- A trip's row has no Decimal and no datetime object left, and each key once.
  jsonable_dict-to_dict : (t : Trip) → jsonable_dict rt (to_dict rt t) ≡ to_dict rt t
  unfolding jsonable_dict to_dict
  jsonable_dict-to_dict t = refl

  to_dict-DictHasUniqueKeys : (t : Trip) → DictHasUniqueKeys (to_dict rt t)
  unfolding to_dict get?
  to_dict-DictHasUniqueKeys t = ground arith

module _ (c : Client) (p : Ports) (same : p.json ≡ c.json) (back : ReadsBack c.json)
    (text : WritesText c.json) where
  serialize-dumps :
      (d : Dict) (r : Result String) (value : String)
      → dumps c.runtime c.json d ≡ r
      → serialize c d ≡ ok value
      → dumps c.runtime c.json d ≡ ok value
  unfolding serialize
  serialize-dumps d (ok s) value e h = e ∙ (rw e at h)
  serialize-dumps d (err x) value e h = absurd (ground (arith, e, h))

  deserialize-serialize :
      (t : Trip) (value : String)
      → serialize c (to_dict c.runtime t) ≡ ok value
      → deserialize p value ≡ ok (some (to_dict c.runtime t))
  unfolding deserialize none_if_undecodable dumps
  deserialize-serialize t value h =
      let d : Dict = to_dict c.runtime t in
      let written : dumps c.runtime c.json d ≡ ok value =
        serialize-dumps d (dumps c.runtime c.json d) value refl h in
      let read : loads c.json value ≡ ok d =
        loads-dumps c.runtime c.json d value back (to_dict-DictHasUniqueKeys c.runtime t) written
        ∙ ap ok (jsonable_dict-to_dict c.runtime t) in
      rw (same, text _ value written, read) refl

  values-append :
      (left right : List (String × String)) → values (left ++ right) ≡ values left ++ values right
  values-append [] right = refl
  values-append (m ∷ left) right = ap (λ l. m.1 ∷ l) (values-append left right)

  abbrev pub read_from : List (String × String) → List Dict
  read_from messages = rows_of p (values messages)

  read_from-append :
      (left right : List (String × String))
      → read_from (left ++ right) ≡ read_from left ++ read_from right
  read_from-append left right =
      ap (rows_of p) (values-append left right) ∙ rows_of-append p (values left) (values right)

  pub read_from-Attempts :
      {whole : List (String × String)} {n : ℕ} {messages : List (String × String)}
      → Attempts whole n messages
      → Attempts (read_from whole) n (read_from messages)
  read_from-Attempts complete = complete
  read_from-Attempts (broken_off {rest = rest} begun left_out cut more) =
      subst (Attempts (read_from _) _) (sym (read_from-append begun rest)) (
        broken_off (read_from begun) (read_from left_out)
          (sym (read_from-append begun left_out) ∙ ap read_from cut) (read_from-Attempts more))

  abbrev pub rows : List Trip → List Dict
  rows trips = map (to_dict c.runtime) trips

  pub read_from-encode_all :
      (trips : List Trip) (whole : List (String × String))
      → encode_all c (rows trips) ≡ ok whole
      → read_from whole ≡ rows trips
  unfolding encode_all encoded
  read_from-encode_all [] whole h = subst (λ w. read_from w ≡ []) (ok-injective h) refl
  read_from-encode_all (t ∷ trips) whole h =
      >>=-elim (encoded c (to_dict c.runtime t)) _ h λ kv made after.
        >>=-elim (encode_all c (rows trips)) _ after λ rest encodings both.
          >>=-elim (serialize c (to_dict c.runtime t)) _ made λ value written paired.
            subst (λ w. read_from w ≡ rows (t ∷ trips)) (ok-injective both)
              (subst
                (λ (m : String × String).
                  decoded p (deserialize p m.1) ++ read_from rest ≡ rows (t ∷ trips))
                (ok-injective paired)
                (rw (deserialize-serialize t value written)
                  (ap (λ l. to_dict c.runtime t ∷ l) (read_from-encode_all trips rest encodings))))
