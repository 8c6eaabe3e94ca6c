-- ===== src/Settings/Groups/Etl.antt =====
-- The group of settings for the pipeline.
use nyc_taxi.Base.{ℤ, pos, ◌≤ℤ◌, String, ◌≡◌, refl, sym, ◌∙◌, subst}
use nyc_taxi.Settings.{valid, ◌⊛◌, Source, EtlSettings, ge_le, text_field, int_field, etl_settings}
use nyc_taxi.Settings.Laws.{
  IsValid, valid-injective, IsValid-parts, IsGoodInt, int_field-InBounds, int_field_iff,
  text_field-IsValid,
}
use nyc_taxi.Base.{arith}

pub record IsUsableEtl (e : EtlSettings) : Type 0 where
  pub least_size : pos 1 ≤ℤ e.parquet_batch_size
  pub greatest_size : e.parquet_batch_size ≤ℤ pos 100_000

module _ (s : Source) where
  pub record IsGoodEtl : Type 0 where
    pub parquet_batch_size : IsGoodInt s "PARQUET_BATCH_SIZE" (ge_le (pos 1) (pos 100_000))

  etl_settings-built :
      (parquet_file_path : String) (zone_lookup_path : String) (rejected_dir : String)
      (parquet_batch_size : ℤ)
      → text_field s "PARQUET_FILE_PATH" "data/raw/yellow_tripdata_2024-01.parquet"
        ≡ valid parquet_file_path
      → text_field s "ZONE_LOOKUP_PATH" "data/reference/taxi_zone_lookup.csv"
        ≡ valid zone_lookup_path
      → text_field s "REJECTED_DIR" "data/rejected" ≡ valid rejected_dir
      → int_field s "PARQUET_BATCH_SIZE" (ge_le (pos 1) (pos 100_000)) (pos 1_000)
        ≡ valid parquet_batch_size
      → etl_settings s
        ≡ valid (record {
          parquet_file_path = parquet_file_path;
          zone_lookup_path = zone_lookup_path;
          rejected_dir = rejected_dir;
          parquet_batch_size = parquet_batch_size;
        })
  unfolding etl_settings ◌⊛◌
  etl_settings-built parquet_file_path zone_lookup_path rejected_dir parquet_batch_size e0 e1 e2
        e3 =
      rw (e0, e1, e2, e3) refl

  pub etl_settings-valid : (v : EtlSettings) → etl_settings s ≡ valid v → IsGoodEtl × IsUsableEtl v
  unfolding etl_settings
  etl_settings-valid v h =
      let (h3, (parquet_batch_size, e3)) = IsValid-parts _ _ (v, h) in
      let (h2, (rejected_dir, e2)) = IsValid-parts _ _ h3 in
      let (h1, (zone_lookup_path, e1)) = IsValid-parts _ _ h2 in
      let (h0, (parquet_file_path, e0)) = IsValid-parts _ _ h1 in
      let same : record {
        parquet_file_path = parquet_file_path;
        zone_lookup_path = zone_lookup_path;
        rejected_dir = rejected_dir;
        parquet_batch_size = parquet_batch_size;
      }
          ≡ v =
        valid-injective (
          sym (
            etl_settings-built parquet_file_path zone_lookup_path rejected_dir parquet_batch_size e0
              e1 e2 e3)
          ∙ h) in
      (
        record {
          parquet_batch_size =
              (int_field_iff s "PARQUET_BATCH_SIZE" (ge_le (pos 1) (pos 100_000)) (pos 1_000)).0
                (parquet_batch_size, e3);
        },
        subst IsUsableEtl same (record {
          least_size =
              (int_field-InBounds s "PARQUET_BATCH_SIZE" (ge_le (pos 1) (pos 100_000)) (pos 1_000)
                parquet_batch_size (ground arith) e3).0;
          greatest_size =
              (int_field-InBounds s "PARQUET_BATCH_SIZE" (ge_le (pos 1) (pos 100_000)) (pos 1_000)
                parquet_batch_size (ground arith) e3).1;
        }),
      )

  pub etl_settings-made : IsGoodEtl → IsValid (etl_settings s)
  etl_settings-made good =
      let (parquet_file_path, e0) =
        text_field-IsValid s "PARQUET_FILE_PATH" "data/raw/yellow_tripdata_2024-01.parquet" in
      let (zone_lookup_path, e1) =
        text_field-IsValid s "ZONE_LOOKUP_PATH" "data/reference/taxi_zone_lookup.csv" in
      let (rejected_dir, e2) = text_field-IsValid s "REJECTED_DIR" "data/rejected" in
      let (parquet_batch_size, e3) =
        (int_field_iff s "PARQUET_BATCH_SIZE" (ge_le (pos 1) (pos 100_000)) (pos 1_000)).1
          good.parquet_batch_size in
      (
        _,
        etl_settings-built parquet_file_path zone_lookup_path rejected_dir parquet_batch_size e0 e1
            e2 e3,
      )
