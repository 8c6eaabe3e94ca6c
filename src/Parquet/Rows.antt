-- ===== src/Parquet/Rows.antt =====
-- The rows that the reader yields for the columns that pyarrow gives it.
use nyc_taxi.Base.{
  subst, ◌+◌, ◌≤◌, arith, length, get_elem?, All, ℕ, zero, suc, ◌<◌, String, ◌≡◌, refl, sym, ap,
  ◌∙◌, Option, none, some, List, [], ◌∷◌, map, arith,
}
use nyc_taxi.Python.{
  behind, behind_assoc, behind-empty, set-behind, Error, Value, null, Dict, empty, entry, get?, set,
  ok, get?-set,
}
use nyc_taxi.Parquet.{
  RecordBatch, ParquetReader, ParquetFile, available_columns, required_columns, rows_from,
  rename_columns, batch_to_dicts, read_batches, iter_batches, new_name, row_at, rename_onto,
}
use nyc_taxi.Parquet.Names.{
  AreDistinct, IsFresh, same_name, available-AreDistinct, required-distinct,
}

-- The keys are not in the dict.
abbrev AreNew : (String → String) → Dict → List String → Type 0
AreNew f made [] = Unit
AreNew f made (n ∷ names) = (get? (f n) made ≡ none) × AreNew f made names

AreNew-step :
    (f : String → String) (name : String) (v : Value) (made : Dict) (names : List String)
    → IsFresh f name names
    → AreNew f made names
    → AreNew f (set (f name) v made) names
AreNew-step f name v made [] fresh new = tt
AreNew-step f name v made (n ∷ names) fresh new = (
  rw (get?-set (f name) (f n) v made, fresh.0) new.0,
  AreNew-step f name v made names fresh.1 new.1,
)

AreNew-empty : (f : String → String) (names : List String) → AreNew f empty names
unfolding get?
AreNew-empty f [] = tt
AreNew-empty f (n ∷ names) = (refl, AreNew-empty f names)

abbrev value_or_null : Option Value → Value
value_or_null none = null
value_or_null (some v) = v

abbrev pub value_at : ℕ → List Value → Value
value_at i vs = value_or_null (get_elem? vs i)

module _ (f : String → String) where
  -- The i-th row of the columns, under the new names.
  abbrev pub transposed_row : ℕ → List (String × List Value) → Dict
  transposed_row i [] = empty
  transposed_row i ((col, vs) ∷ columnar) =
      entry (f col) (value_at i vs) (transposed_row i columnar)

abbrev pub names_of : List (String × List Value) → List String
names_of columnar = map (λ c. c.0) columnar

abbrev pub HaveLength : ℕ → List (String × List Value) → Type 0
HaveLength n columnar = All (λ c. length c.1 ≡ n) columnar

get_elem?-below : (vs : List Value) (i : ℕ) → i < length vs → get_elem? vs i ≡ some (value_at i vs)
get_elem?-below [] i h = absurd (omega (arith, h))
get_elem?-below (v ∷ vs) zero h = refl
get_elem?-below (v ∷ vs) (suc i) h = get_elem?-below vs i (omega (arith, h))

row_at-transposed :
    (n i : ℕ) (columnar : List (String × List Value)) (made : Dict)
    → i < n
    → HaveLength n columnar
    → AreDistinct same_name (names_of columnar)
    → AreNew same_name made (names_of columnar)
    → row_at i columnar made ≡ ok (behind made (transposed_row same_name i columnar))
unfolding row_at
row_at-transposed n i [] made below long distinct new = ap ok (sym (behind-empty made))
row_at-transposed n i ((col, vs) ∷ columnar) made below long distinct new =
    let v = value_at i vs in
    rw (get_elem?-below vs i (omega (arith, below, long.0))) (
      row_at-transposed n i columnar (set col v made) below long.1 distinct.1
        (AreNew-step same_name col v made (names_of columnar) distinct.0 new.1)
      ∙ ap ok (
          ap (λ d. behind d (transposed_row same_name i columnar)) (set-behind col v made new.0)
          ∙ behind_assoc made (entry col v empty) (transposed_row same_name i columnar)))

rename_onto-transposed :
    (i : ℕ) (columnar : List (String × List Value)) (made : Dict)
    → AreDistinct new_name (names_of columnar)
    → AreNew new_name made (names_of columnar)
    → rename_onto (transposed_row same_name i columnar) made
      ≡ behind made (transposed_row new_name i columnar)
unfolding rename_onto
rename_onto-transposed i [] made distinct new = sym (behind-empty made)
rename_onto-transposed i ((col, vs) ∷ columnar) made distinct new =
    let v = value_at i vs in
    rename_onto-transposed i columnar (set (new_name col) v made) distinct.1
      (AreNew-step new_name col v made (names_of columnar) distinct.0 new.1)
    ∙ ap (λ d. behind d (transposed_row new_name i columnar))
        (set-behind (new_name col) v made new.0)
    ∙ behind_assoc made (entry (new_name col) v empty) (transposed_row new_name i columnar)

-- So many rows of the columns from the `i`-th on, under the new names.
abbrev pub transposed_rows : ℕ → ℕ → List (String × List Value) → List Dict
transposed_rows zero i columnar = []
transposed_rows (suc n) i columnar =
    transposed_row new_name i columnar ∷ transposed_rows n (suc i) columnar

pub length-transposed_rows :
    (n i : ℕ) (columnar : List (String × List Value)) → length (transposed_rows n i columnar) ≡ n
length-transposed_rows zero i columnar = refl
length-transposed_rows (suc n) i columnar = ap suc (length-transposed_rows n (suc i) columnar)

rows_from-transposed :
    (total n i : ℕ) (columnar : List (String × List Value))
    → i + n ≤ total
    → HaveLength total columnar
    → AreDistinct same_name (names_of columnar)
    → AreDistinct new_name (names_of columnar)
    → rows_from n i columnar ≡ ok (transposed_rows n i columnar)
unfolding rows_from rename_columns
rows_from-transposed total zero i columnar fits long distinct renamed = refl
rows_from-transposed total (suc n) i columnar fits long distinct renamed =
    rw
      (
        row_at-transposed total i columnar empty (omega (arith, fits)) long distinct
            (AreNew-empty same_name (names_of columnar)),
        rows_from-transposed total n (suc i) columnar (omega (arith, fits)) long distinct renamed,
        rename_onto-transposed i columnar empty renamed (AreNew-empty new_name (names_of columnar)),
      )
      refl

-- What pyarrow documents of the batches for a size and some columns: these columns in their order,
-- each with a value for each row, and no more rows than the size.
abbrev pub IsAsAsked : ℕ → List String → RecordBatch → Type 0
IsAsAsked size columns b =
    (names_of b.columnar ≡ columns) × HaveLength b.num_rows b.columnar × (b.num_rows ≤ size)

batch_to_dicts-transposed :
    (size : ℕ) (names : List String) (b : RecordBatch)
    → IsAsAsked size (available_columns names) b
    → batch_to_dicts b ≡ ok (transposed_rows b.num_rows 0 b.columnar)
unfolding batch_to_dicts available_columns
batch_to_dicts-transposed size names b (asked, long, few) =
    rows_from-transposed b.num_rows b.num_rows 0 b.columnar (omega arith) long
      (subst (AreDistinct same_name) (sym asked)
        (available-AreDistinct same_name names required_columns required-distinct.0))
      (subst (AreDistinct new_name) (sym asked)
        (available-AreDistinct new_name names required_columns required-distinct.1))

read_batches-transposed :
    (size : ℕ) (names : List String) (batches : List RecordBatch) (end : Option Error)
    → All (IsAsAsked size (available_columns names)) batches
    → (read_batches batches end ≡ (map (λ b. transposed_rows b.num_rows 0 b.columnar) batches, end))
      × All
          (λ rows. length rows ≤ size)
          (map (λ b. transposed_rows b.num_rows 0 b.columnar) batches)
unfolding read_batches
read_batches-transposed size names [] end h = (refl, tt)
read_batches-transposed size names (b ∷ batches) end h =
    let rest = read_batches-transposed size names batches end h.1 in
    (
      rw (read_batches, batch_to_dicts-transposed size names b h.0, rest.0) refl,
      (omega (arith, length-transposed_rows b.num_rows 0 b.columnar, h.0.2), rest.1),
    )

-- For a file that pyarrow reads as documented, the reader yields one list for each record batch, of at
-- most `batch_size` dicts: the columns transposed, each value under the new name of its column, and
-- no two columns under one name. It raises nothing but what pyarrow raises.
pub iter_batches-transposed :
    (reader : ParquetReader) (file : ParquetFile)
    → All
        (IsAsAsked reader.batch_size (available_columns file.names))
        (file.batches reader.batch_size (available_columns file.names)).0
    → (let read = file.batches reader.batch_size (available_columns file.names) in
        let rows = map (λ b. transposed_rows b.num_rows 0 b.columnar) read.0 in
        (iter_batches reader (ok file) ≡ (rows, read.1))
        × All (λ r. length r ≤ reader.batch_size) rows)
unfolding iter_batches
iter_batches-transposed reader file h =
    let read = file.batches reader.batch_size (available_columns file.names) in
    read_batches-transposed reader.batch_size file.names read.0 read.1 h
