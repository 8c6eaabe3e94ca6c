-- ===== src/Json/Files.antt =====
-- The JSON Lines files of etl/utils/compression.py, and `dumps_lines` of etl/utils/json.py. A file is
-- its lines; gzip gives back the lines that were written.
use mathlib.Core.List.{append_assoc, append-nil, map}
use nyc_taxi.Base.{
  if◌then◌else◌, ℕ, suc, pos, String, ◌≡◌, refl, sym, ap, ◌∙◌, false, Bool-cases, inl, inr, Option,
  none, some, List, [], ◌∷◌, ◌++◌, All, str_eq,
}
use nyc_taxi.Python.{
  int, Dict, value_error, other, concat, join, Result, ok, err, ◌>>=◌, >>=-elim, ok-injective,
  Result-cases, Runtime, error_message,
}
use nyc_taxi.Json.{JsonModule, jsonable_dict, dumps, loads}
use nyc_taxi.Json.RoundTrip.{ReadsBack, DictHasUniqueKeys, loads-dumps}

module _ (rt : Runtime) (j : JsonModule) where
  -- `write_jsonl_gz`, on the lines that the file has: what was written before an exception stays.
  unfoldable pub write_jsonl_gz : List Dict → List String → Result (Unit {0}) × List String
  write_jsonl_gz [] lines = (ok tt, lines)
  write_jsonl_gz (d ∷ records) lines = elim (dumps rt j d) [
    | ok line ↦ write_jsonl_gz records (lines ++ line ∷ [])
    | err e ↦ (err e, lines)
  ]

  abbrev pub dumped : List Dict → Result (List String)
  dumped [] = ok []
  dumped (d ∷ records) = do line ← dumps rt j d; lines ← dumped records; ok (line ∷ lines)

  -- `dumps_lines`
  unfoldable pub dumps_lines : List Dict → Result String
  dumps_lines records = do lines ← dumped records; ok (join "\n" lines)

module _ (rt : Runtime) (j : JsonModule) (strip : String → String) (path : String) where
  -- `raise ValueError(...) from exc`
  abbrev pub or_malformed : ℕ → Result Dict → Result Dict
  or_malformed n (ok d) = ok d
  or_malformed n (err e) = err (
      value_error (
        concat (
          "Malformed JSON on line "
          ∷ rt.text_of (int (pos n))
          ∷ " of "
          ∷ path
          ∷ ": "
          ∷ error_message rt e
          ∷ [])))

  -- The loop of `read_jsonl_gz`, from a line with this number on.
  unfoldable pub read_from : ℕ → List String → Result (List Dict)
  unfolding concat
  read_from n [] = ok []
  read_from n (line ∷ lines) =
      let rest = read_from (suc n) lines in
      let text = strip line in
      if str_eq text ""
      then rest
      else (or_malformed n (loads j text) >>= λ d. rest >>= λ ds. ok (d ∷ ds))

  -- `read_jsonl_gz`; `none` is a file that is not there.
  unfoldable pub read_jsonl_gz : Option (List String) → Result (List Dict)
  unfolding read_from concat
  read_jsonl_gz none =
      err (other "FileNotFoundError" (concat ("Compressed file not found: " ∷ path ∷ [])))
  read_jsonl_gz (some lines) = read_from 1 lines

  -- What the json module writes has no white space around it and is not empty.
  abbrev pub IsStripped : Type 0
  IsStripped = (d : Dict) (s : String) → dumps rt j d ≡ ok s → (strip s ≡ s) × (str_eq s "" ≡ false)

  read_from-append :
      (n : ℕ) (lines : List String) (last : String) (old : List Dict) (d : Dict)
      → read_from n lines ≡ ok old
      → str_eq (strip last) "" ≡ false
      → loads j (strip last) ≡ ok d
      → read_from n (lines ++ last ∷ []) ≡ ok (old ++ d ∷ [])
  unfolding read_from
  read_from-append n [] last old d h text read =
      rw (text, read) (ap (λ o. ok (o ++ d ∷ [])) (ok-injective h))
  read_from-append n (line ∷ lines) last old d h text read =
      elim (Bool-cases (str_eq (strip line) "")) [
        | inl blank ↦ rw blank (read_from-append (suc n) lines last old d (rw blank at h) text read)
        | inr more ↦
            >>=-elim (or_malformed n (loads j (strip line))) _ (rw more at h) λ a of_a after.
              >>=-elim (read_from (suc n) lines) _ after λ ds of_ds made.
                rw (more, of_a, read_from-append (suc n) lines last ds d of_ds text read)
                  (ap (λ o. ok (o ++ d ∷ [])) (ok-injective made))
      ]

  -- What a file holds after `write_jsonl_gz`.
  pub record Appends (records old : List Dict) (end : Result (Unit {0}) × List String)
      : Type 0 where
    pub sent : List Dict
    pub unsent : List Dict
    pub split : records ≡ sent ++ unsent
    pub reads : read_jsonl_gz (some end.1) ≡ ok (old ++ map (jsonable_dict rt) sent)
    pub all_sent : end.0 ≡ ok tt → unsent ≡ []

  -- When records are written to a file that can be read, it can be read after that, and holds what it held and
  -- behind that the first of the records, all of them if the call returns, as JSON values.
  pub write_jsonl_gz-Appends :
      (records old : List Dict) (lines : List String)
      → ReadsBack j
      → IsStripped
      → All DictHasUniqueKeys records
      → read_jsonl_gz (some lines) ≡ ok old
      → Appends records old (write_jsonl_gz rt j records lines)
  unfolding write_jsonl_gz read_jsonl_gz
  write_jsonl_gz-Appends [] old lines back stripped unique held = record {
    sent = [];
    unsent = [];
    split = refl;
    reads = held ∙ ap ok (sym (append-nil old));
    all_sent = λ e. refl;
  }
  write_jsonl_gz-Appends (d ∷ records) old lines back stripped unique held =
      elim (Result-cases (dumps rt j d)) [
        | inl (line, wrote) ↦
            let (same, text) = stripped d line wrote in
            let read : loads j line ≡ ok (jsonable_dict rt d) =
              loads-dumps rt j d line back unique.0 wrote in
            let held' =
              read_from-append 1 lines line old (jsonable_dict rt d) held (rw same text)
                (rw same read) in
            let h =
              write_jsonl_gz-Appends records (old ++ jsonable_dict rt d ∷ []) (lines ++ line ∷ [])
                back stripped unique.1 held' in
            rw (wrote, write_jsonl_gz)
              (record {
                sent = d ∷ h.sent;
                unsent = h.unsent;
                split = ap (λ l. d ∷ l) h.split;
                reads =
                    h.reads
                    ∙ ap ok (
                        append_assoc old (jsonable_dict rt d ∷ []) (map (jsonable_dict rt) h.sent));
                all_sent = h.all_sent;
              })
        | inr (e, raised) ↦
            rw (raised, write_jsonl_gz)
              (record {
                sent = [];
                unsent = d ∷ records;
                split = refl;
                reads = held ∙ ap ok (sym (append-nil old));
                all_sent = λ x. absurd (cc (x));
              })
      ]
