-- ===== src/Replay/Run.antt =====
-- `ReplayDlqUseCase.handle` with the choice of the files (`list_rejected_files` of
-- etl/utils/compression.py).
pub mod Balance
pub mod Recovery
use nyc_taxi.Base.{
  if◌then◌else◌, ℕ, String, Bool, false, ◌||◌, Option, none, some, List, [], ◌∷◌, str_eq,
}
use nyc_taxi.Python.{other, Result, ok, err}
use nyc_taxi.DeadLetter.Publisher.{Dlq, rejected_file_path}
use nyc_taxi.Replay.{Ports, State, replay_file}

pub data ReplaySource : Type 0 where
  disk : ReplaySource
  kafka : ReplaySource

-- The directory of the command is that of the dead letter publisher.
pub record ReplayDlqCommand : Type 0 where
  pub source : ReplaySource
  pub batch_id : Option String

-- `sorted(rejected_dir.glob("*.jsonl.gz"))` sorts the names of the files.
unfoldable pub file_names : List (String × List String) → List String
file_names [] = []
file_names ((path, lines) ∷ files) = path ∷ file_names files

-- `target.exists()`
unfoldable pub exists : String → List String → Bool
exists path [] = false
exists path (name ∷ names) = str_eq name path || exists path names

module _ (p : Ports) (sorted : List String → List String) where
  -- A batch id that is empty counts as none.
  unfoldable pub chosen_files : Option String → Dlq → List String
  unfolding file_names exists rejected_file_path
  chosen_files none d = sorted (file_names d.files)
  chosen_files (some id) d =
      let target = rejected_file_path id in
      if str_eq id ""
      then sorted (file_names d.files)
      else if exists target (file_names d.files)
      then target ∷ []
      else []

  -- The loop of `handle` over the files; `none` when the fuel runs out.
  unfoldable pub replay_files : ℕ → List String → State → Option (Result (Unit {0}) × State)
  unfolding replay_file
  replay_files fuel [] s = some (ok tt, s)
  replay_files fuel (path ∷ paths) s = elim (replay_file p fuel path 0 s) [
    | none ↦ none
    | some ended ↦
        (let (result, t) = ended in
          elim result [ ok u ↦ replay_files fuel paths t | err e ↦ some (err e, t) ])
  ]

  -- `handle`: the replay of the Kafka topic is not implemented.
  unfoldable pub handle : ℕ → ReplayDlqCommand → State → Option (Result (Unit {0}) × State)
  unfolding replay_files chosen_files
  handle fuel command s = elim command.source [
    | kafka ↦ some (
      err (
          other "NotImplementedError"
            "Kafka DLQ replay requires a dedicated consumer group. Use ReplaySource.DISK and replay from data/rejected/ files."),
      s,
    )
    | disk ↦ replay_files fuel (chosen_files command.batch_id s.dlq) s
  ]
