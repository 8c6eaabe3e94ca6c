-- ===== src/ClickHouse/Client.antt =====
-- The other methods of etl/infrastructure/clickhouse/client.py, which the pipeline does not call, and
-- `close`. Rows and data frames are sent as lists of values.
use nyc_taxi.Base.{String, Option, List, [], ◌∷◌}
use nyc_taxi.Python.{Value, concat, Result, ok, err}
use nyc_taxi.Retry.{retry}
use nyc_taxi.ClickHouse.{
  Driver, Server, Called, slept, execute_once, insert_attempts, one_second, two_seconds, execute,
  ping,
}
use nyc_taxi.ClickHouse.Insert.{IsExecuted, retry-IsExecuted}

-- A method that returns None.
abbrev pub without_rows : Called → Result (Unit {0}) × Server
without_rows (ok rows, s) = (ok tt, s)
without_rows (err e, s) = (err e, s)

module _ (o : Driver) where
  -- `execute_many`
  unfoldable pub execute_many : String → List (List Value) → Server → Result (Unit {0}) × Server
  unfolding retry execute_once
  execute_many query rows s = without_rows (
      retry o.is_clickhouse_error o.times (slept o) (two_seconds o) (execute_once o query rows)
        (insert_attempts o) (one_second o) s)

  -- `insert_dataframe`, whose `column_names` is not used.
  unfoldable pub insert_dataframe :
      String → List (List Value) → Option (List String) → Server → Result (Unit {0}) × Server
  unfolding retry execute_once concat
  insert_dataframe table dataframe column_names s = without_rows (
      retry o.is_clickhouse_error o.times (slept o) (two_seconds o)
        (execute_once o (concat ("INSERT INTO " ∷ table ∷ " VALUES" ∷ [])) dataframe)
        (insert_attempts o) (one_second o) s)

  -- `execute` and `ping` have their statement executed when they return, and again only by calls that
  -- failed; for an error of ClickHouse or the system they raise after three calls, or five.
  pub execute-IsExecuted :
      (query : String) (columns : List (List Value)) (s : Server)
      → IsExecuted o 3 query columns s (execute o query columns s)
        × IsExecuted o 5 "SELECT 1" [] s (ping o s)
  unfolding execute ping
  execute-IsExecuted query columns s = (
    retry-IsExecuted o 2 (two_seconds o) (one_second o) query columns s,
    retry-IsExecuted o 4 (one_second o) (two_seconds o) "SELECT 1" [] s,
  )

-- `close`, given what `disconnect` did: every exception is logged only.
unfoldable pub close : Result (Unit {0}) → Result (Unit {0})
close (ok u) = ok u
close (err e) = ok tt
