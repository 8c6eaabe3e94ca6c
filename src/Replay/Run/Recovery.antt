-- ===== src/Replay/Run/Recovery.antt =====
-- Replaying all files, when their records are accepted now.
use nyc_taxi.Base.{
  length, All, ℕ, ◌+◌, ◌<◌, String, ◌≡◌, refl, sym, ap, ◌∙◌, subst, Option, some, List, [], ◌∷◌,
  arith,
}
use nyc_taxi.Python.{ok}
use nyc_taxi.DeadLetter.Publisher.{Dlq, lines_of}
use nyc_taxi.Replay.{Ports, State}
use nyc_taxi.Replay.Recovery.{Recovers, replay_file_recovers}
use nyc_taxi.Replay.Run.{disk, chosen_files, replay_files, handle}

-- The lines of all these files.
abbrev pub total_lines : Dlq → List String → ℕ
total_lines d [] = 0
total_lines d (path ∷ paths) = length (lines_of path d.files) + total_lines d paths

abbrev pub AllFiles : (String → Type 0) → ℕ → Dlq → List String → Type 0
AllFiles P fuel d paths =
    All (λ path. All P (lines_of path d.files) × (length (lines_of path d.files) < fuel)) paths

module _ (p : Ports) (sorted : List String → List String) (P : String → Type 0)
    (recovers : Recovers p P) where
  replay_files_recovers :
      (fuel : ℕ) (paths : List String) (s : State)
      → AllFiles P fuel s.dlq paths
      → (t : State) × (replay_files p sorted fuel paths s ≡ some (ok tt, t))
        × (t.total_replayed ≡ s.total_replayed + total_lines s.dlq paths)
        × (t.recovered ≡ s.recovered + total_lines s.dlq paths)
        × (t.still_invalid ≡ s.still_invalid)
        × (length t.published ≡ length s.published + total_lines s.dlq paths)
        × (t.dlq ≡ s.dlq)
  unfolding replay_files
  replay_files_recovers fuel [] s all = (s, refl, omega arith, omega arith, refl, omega arith, refl)
  replay_files_recovers fuel (path ∷ paths) s ((all, fuelled), rest) =
      let n = length (lines_of path s.dlq.files) in
      let (t, ends, total, recovered, invalid, published, dlq) =
        replay_file_recovers p path P recovers n 0 fuel s all (omega arith) fuelled in
      let (u, ends_all, total_all, recovered_all, invalid_all, published_all, dlq_all) =
        replay_files_recovers fuel paths t (subst (λ d. AllFiles P fuel d paths) (sym dlq) rest) in
      let same : total_lines t.dlq paths ≡ total_lines s.dlq paths =
        ap (λ d. total_lines d paths) dlq in
      (
        u,
        rw (replay_files, ends) ends_all,
        omega (arith, total, total_all, same),
        omega (arith, recovered, recovered_all, same),
        invalid_all ∙ invalid,
        omega (arith, published, published_all, same),
        dlq_all ∙ dlq,
      )

  -- When every line of the chosen files holds a record that is accepted now, and the fuel is above the
  -- number of lines of each: the replay returns, it has replayed, recovered and published as many
  -- records as these files have lines, none is still invalid, and the dead letters are as before.
  pub handle_recovers :
      (fuel : ℕ) (batch_id : Option String) (s : State)
      → AllFiles P fuel s.dlq (chosen_files p sorted batch_id s.dlq)
      → (t : State) × (handle p sorted fuel (record { source = disk; batch_id = batch_id }) s
          ≡ some (ok tt, t))
        × (t.total_replayed
            ≡ s.total_replayed + total_lines s.dlq (chosen_files p sorted batch_id s.dlq))
        × (t.recovered ≡ s.recovered + total_lines s.dlq (chosen_files p sorted batch_id s.dlq))
        × (t.still_invalid ≡ s.still_invalid)
        × (length t.published
            ≡ length s.published + total_lines s.dlq (chosen_files p sorted batch_id s.dlq))
        × (t.dlq ≡ s.dlq)
  unfolding handle
  handle_recovers fuel batch_id s all =
      replay_files_recovers fuel (chosen_files p sorted batch_id s.dlq) s all
