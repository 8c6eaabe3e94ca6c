-- ===== src/Settings/Process.antt =====
-- The consumer process with the limits of the settings: `KafkaConsumerAdapter.__init__` of
-- etl/infrastructure/kafka/consumer.py, as `startup` calls it.
use nyc_taxi.Base.{
  length, ℤ, pos_part, ℕ, zero, suc, ◌*◌, ◌≤◌, ◌<◌, ◌≡◌, Option, none, some, List, arith,
}
use nyc_taxi.Python.{ok}
use nyc_taxi.Settings.{Source, KafkaSettings, Settings, get_settings}
use nyc_taxi.Settings.Environment.{get_settings-IsUsable}
use nyc_taxi.Consumer.{Event, Ports, State, started, Progress, running, finished, raised, consume}
use nyc_taxi.Consumer.Limit.{IsBelow, consume-IsBelow}

-- `size or default`, where 0 counts as not given.
abbrev pub given_or : Option ℕ → ℤ → ℕ
given_or none default = pos_part default
given_or (some zero) default = pos_part default
given_or (some (suc n)) default = suc n

-- What the accumulator is made with; `should_flush` compares seconds of the clock, here nanoseconds.
unfoldable pub with_limits : Option ℕ → Option ℕ → KafkaSettings → Ports → Ports
with_limits batch_size batch_timeout_seconds k p = record p {
  max_size = given_or batch_size k.batch_size;
  max_wait = given_or batch_timeout_seconds k.batch_timeout_seconds * 1_000_000_000;
}

abbrev pub HasFewRows : ℕ → Progress × State → Type 0
HasFewRows n (running, s) = length s.rows < n
HasFewRows n (finished, s) = Unit
HasFewRows n (raised e, s) = Unit

IsBelow-HasFewRows :
    (p : Ports) (n : ℕ) (u : Progress × State) → p.max_size ≤ n → IsBelow p u → HasFewRows n u
IsBelow-HasFewRows p n (running, s) small h = omega (arith, small, h)
IsBelow-HasFewRows p n (finished, s) small h = tt
IsBelow-HasFewRows p n (raised e, s) small h = tt

-- From whatever variables the settings were made, when `get_settings` returns, fewer than 10000 rows
-- wait in the accumulator of the consumer after every turn after which the loop goes on.
pub consume-with_limits :
    (source : Source) (v : Settings) (p : Ports) (now : ℕ) (es : List Event)
    → (get_settings source none).0 ≡ ok v
    → HasFewRows 10_000 (consume (with_limits none none v.kafka p) es (running, started now))
unfolding with_limits
consume-with_limits source v p now es returned =
    let (usable, later) = get_settings-IsUsable source source v returned in
    let q : Ports = with_limits none none v.kafka p in
    IsBelow-HasFewRows q 10_000 (consume q es (running, started now))
      (ground (arith, usable.0.greatest_size))
      (consume-IsBelow q now es (ground (arith, usable.0.least_size)))
