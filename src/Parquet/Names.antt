-- ===== src/Parquet/Names.antt =====
-- The names of the columns that the reader asks for.
use nyc_taxi.Base.{
  Bool-cases, String, ◌≡◌, refl, inl, inr, Bool, true, false, ◌&&◌, not, List, [], ◌∷◌, arith,
  str_eq,
}
use nyc_taxi.Parquet.{required_columns, new_name, contains, available_among}

-- No name comes twice under the renaming.
abbrev pub IsFresh : (String → String) → String → List String → Type 0
IsFresh f name [] = Unit
IsFresh f name (n ∷ names) = (str_eq (f name) (f n) ≡ false) × IsFresh f name names

abbrev pub AreDistinct : (String → String) → List String → Type 0
AreDistinct f [] = Unit
AreDistinct f (n ∷ names) = IsFresh f n names × AreDistinct f names

-- The name as it is in the file.
abbrev pub same_name : String → String
same_name name = name

-- The names of the columns that are asked for are distinct, and so are the new ones.
abbrev is_fresh : (String → String) → String → List String → Bool
is_fresh f name [] = true
is_fresh f name (n ∷ names) = not (str_eq (f name) (f n)) && is_fresh f name names

abbrev are_distinct : (String → String) → List String → Bool
are_distinct f [] = true
are_distinct f (n ∷ names) = is_fresh f n names && are_distinct f names

is_fresh-IsFresh :
    (f : String → String) (name : String) (names : List String)
    → is_fresh f name names ≡ true
    → IsFresh f name names
is_fresh-IsFresh f name [] h = tt
is_fresh-IsFresh f name (n ∷ names) h =
    (ground (arith, h), is_fresh-IsFresh f name names (ground (arith, h)))

are_distinct-AreDistinct :
    (f : String → String) (names : List String) → are_distinct f names ≡ true → AreDistinct f names
are_distinct-AreDistinct f [] h = tt
are_distinct-AreDistinct f (n ∷ names) h = (
  is_fresh-IsFresh f n names (ground (arith, h)),
  are_distinct-AreDistinct f names (ground (arith, h)),
)

available-IsFresh :
    (f : String → String) (name : String) (names cols : List String)
    → IsFresh f name cols
    → IsFresh f name (available_among names cols)
unfolding available_among
available-IsFresh f name names [] h = tt
available-IsFresh f name names (col ∷ cols) h = elim (Bool-cases (contains col names)) [
  | inl there ↦ rw there (h.0, available-IsFresh f name names cols h.1)
  | inr missing ↦ rw missing (available-IsFresh f name names cols h.1)
]

pub available-AreDistinct :
    (f : String → String) (names cols : List String)
    → AreDistinct f cols
    → AreDistinct f (available_among names cols)
unfolding available_among
available-AreDistinct f names [] h = tt
available-AreDistinct f names (col ∷ cols) h = elim (Bool-cases (contains col names)) [
  | inl there ↦
      rw there (available-IsFresh f col names cols h.0, available-AreDistinct f names cols h.1)
  | inr missing ↦ rw missing (available-AreDistinct f names cols h.1)
]

pub required-distinct :
    AreDistinct same_name required_columns × AreDistinct new_name required_columns
unfolding new_name
required-distinct = (
  are_distinct-AreDistinct same_name required_columns refl,
  are_distinct-AreDistinct new_name required_columns refl,
)
