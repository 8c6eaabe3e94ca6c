-- ===== src/Monitoring/Laws.antt =====
-- What the health report and the lag say.
use nyc_taxi.Base.{
  +ℤ_parts, -ℤ_parts, leb, if◌then◌else◌, Bool-cases, All, ℤ, pos, negsuc, ◌-ℤ◌, ◌≤ℤ◌, ltb_ℤ, ℕ,
  ◌≡◌, refl, sym, ◌⊎◌, inl, inr, Bool, true, false, ◌||◌, List, [], ◌∷◌, arith, str_eq,
}
use nyc_taxi.Python.{error_type, Result, ok, err, ok-injective}
use nyc_taxi.Monitoring.{
  HealthStatus, healthy, degraded, down, ComponentHealth, is_down, is_degraded, any_status, overall,
  PartitionLag, lag, total_lag, Monitor, poll,
}

abbrev pub severity : HealthStatus → ℕ
severity healthy = 0
severity degraded = 1
severity down = 2

-- The greatest severity of a component; 0 if there is none.
abbrev pub worst : List ComponentHealth → ℕ
worst [] = 0
worst (c ∷ cs) =
    let rest = worst cs in if leb (severity c.status) rest then rest else severity c.status

overall_step :
    (s : HealthStatus) (some_down some_degraded : Bool) (w : ℕ)
    → severity (if some_down then down else if some_degraded then degraded else healthy) ≡ w
    → severity (
        if is_down s || some_down
        then down
        else if is_degraded s || some_degraded
        then degraded
        else healthy)
      ≡ (if leb (severity s) w then w else severity s)
overall_step healthy d g w h = ground (arith, h)
overall_step degraded true g w h = ground (arith, h)
overall_step degraded false true w h = ground (arith, h)
overall_step degraded false false w h = ground (arith, h)
overall_step down true g w h = ground (arith, h)
overall_step down false true w h = ground (arith, h)
overall_step down false false w h = ground (arith, h)

-- For every list of components, the overall status is as severe as the most severe of them, and OK
-- if there is none.
pub overall-worst : (cs : List ComponentHealth) → severity (overall cs) ≡ worst cs
unfolding overall any_status
overall-worst [] = refl
overall-worst (c ∷ cs) =
    overall_step c.status (any_status is_down cs) (any_status is_degraded cs) (worst cs)
      (overall-worst cs)

-- A watermark is not negative.
abbrev pub HasWatermark : PartitionLag → Type 0
HasWatermark p = pos 0 ≤ℤ p.current_offset

-- The lag of a partition is at least 0 and at most its watermark.
pub lag_bounds :
    (p : PartitionLag) → HasWatermark p → (pos 0 ≤ℤ lag p) × (lag p ≤ℤ p.current_offset)
unfolding lag
lag_bounds p h = elim (Bool-cases (ltb_ℤ p.committed_offset (pos 0))) [
  | inl never ↦ rw never (ground (arith, h))
  | inr once ↦
      let d : ℤ = p.current_offset -ℤ p.committed_offset in
      elim (Bool-cases (ltb_ℤ (pos 0) d)) [
        | inl behind ↦
            rw (once, behind)
              (
                ground (arith, once, behind, h, -ℤ_parts p.current_offset p.committed_offset),
                ground (arith, once, behind, h, -ℤ_parts p.current_offset p.committed_offset),
              )
        | inr even ↦ rw (once, even) (ground (arith, h), ground (arith, h))
      ]
]

total_lag_pos : (ps : List PartitionLag) → All HasWatermark ps → pos 0 ≤ℤ total_lag ps
unfolding total_lag
total_lag_pos [] h = ground arith
total_lag_pos (p ∷ ps) h =
    ground (arith, (lag_bounds p h.0).0, total_lag_pos ps h.1, +ℤ_parts (lag p) (total_lag ps))

-- The watermarks that were fetched, if any, are not negative.
abbrev pub HaveWatermarks : Result (List PartitionLag) → Type 0
HaveWatermarks (ok lags) = All HasWatermark lags
HaveWatermarks (err e) = Unit

-- When `poll` returns a number, with watermarks that are not negative: either it is -1 and the
-- monitor is as before, or it is at least 0 and both the gauge and `total_lag` are that number.
pub poll_lem :
    (r : Result (List PartitionLag)) (m : Monitor) (n : ℤ)
    → HaveWatermarks r
    → (poll r m).0 ≡ ok n
    → ((n ≡ negsuc 0) × ((poll r m).1 ≡ m))
      ⊎ ((pos 0 ≤ℤ n) × ((poll r m).1.gauge ≡ n) × (total_lag (poll r m).1.partition_lags ≡ n))
unfolding poll
poll_lem (ok lags) m n h returned =
    let same : total_lag lags ≡ n = ok-injective returned in
    inr (rw (sym same) (total_lag_pos lags h), same, same)
poll_lem (err e) m n h returned = elim (Bool-cases (str_eq (error_type e) "KafkaException")) [
  | inl kafka ↦ inl (sym (ok-injective (rw kafka at returned)), refl)
  | inr else_ ↦ absurd (cc (rw else_ at returned))
]
