-- ===== src/Witnesses/TimeLaws.antt =====
-- The conversions of timestamps at concrete values.
use nyc_taxi.Base.{pos, negsuc, ◌≡◌, sym, ap, inl, inr, some}
use nyc_taxi.Python.{
  Datetime, Value, null, bool, int, float, str, decimal, datetime, list, dict, ok, ok-injective,
}
use nyc_taxi.Samples.{sample_fromtimestamp, rt}
use nyc_taxi.Timestamp.Laws.{EpochInUtc}

sample_epoch : (v : Value) (d : Datetime) → sample_fromtimestamp v ≡ ok d → d.offset ≡ some (pos 0)
sample_epoch (int (pos n)) d h = ap (λ (x : Datetime). x.offset) (sym (ok-injective h))
sample_epoch (int (negsuc n)) d h = absurd (cc)
sample_epoch null d h = absurd (cc)
sample_epoch (bool b) d h = absurd (cc)
sample_epoch (float x) d h = absurd (cc)
sample_epoch (str s) d h = absurd (cc)
sample_epoch (decimal x) d h = absurd (cc)
sample_epoch (datetime x) d h = absurd (cc)
sample_epoch (list x) d h = absurd (cc)
sample_epoch (dict x) d h = absurd (cc)

epoch_in_utc : EpochInUtc rt
epoch_in_utc v d (inl h) = sample_epoch v d h
epoch_in_utc v d (inr h) = sample_epoch v d h
