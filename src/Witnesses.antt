-- ===== src/Witnesses.antt =====
-- Tests of the definitions, and the theorems at concrete inputs.
mod StorageLaws
mod RestartLaws
mod TripTests
mod TripLaws
mod RowLaws
mod RunLaws
mod ConsumerLaws
mod ReplayLaws
mod FlowLaws
mod ArrivalLaws
mod ProcessLaws
mod FileLaws
mod ServiceLaws
mod TimeLaws
mod MigrationLaws
mod EnvironmentLaws
