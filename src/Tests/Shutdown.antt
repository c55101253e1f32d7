-- ===== src/Tests/Shutdown.antt =====
-- A server that is told to stop, twice; and temporary files that are left when it is terminated.
use distplusplus.Base.{◌≡◌, ◌⊎◌, ◌↔◌, refl, true, false, List, [], ◌∷◌, some, none, Option, ℕ}
use distplusplus.Base.Text.{Text, codes, is_one_of}
use distplusplus.Base.FileSystem.{Node, lookup}
use distplusplus.Common.Tempfile.{Temps, tempfile_cleaner}
use distplusplus.Common.Tempfile.Cleaner.{tempfile_cleaner_leaves}
use distplusplus.Server.Main.{
  Signal, Reaper, Stage, Process, fresh_process, Event, deliver_to, handled, reap_from, event, step,
  is_over, run,
}
use distplusplus.Server.Main.Shutdown.{run_shuts, run_exits}

abbrev both_handled : List Event
both_handled = Event.reap ∷ Event.reap ∷ Event.deliver Signal.sigterm ∷ []

abbrev told : Process
told = record fresh_process {
  handles_int = true;
  handles_term = true;
  signal_flag = true;
  reaper = Reaper.polling;
}

reached : run both_handled fresh_process ≡ told
unfolding run step event deliver_to handled reap_from is_over
reached = refl

run_exits_example :
    (run (Event.reap ∷ Event.deliver Signal.sigint ∷ Event.advance ∷ Event.advance ∷ []) told).stage
    ≡ Stage.exited
run_exits_example =
    run_exits both_handled [] (Event.deliver Signal.sigint ∷ []) [] [] told reached refl refl
      (λ e. cc)

run_shuts_example :
    ((told.shut_down ≡ false) ⊎ ((true ≡ true) × (Reaper.polling ≡ Reaper.finished)))
    × ((told.shut_down ≡ true)
        ⊎ ((Stage.waiting ≡ Stage.waiting) × (told.stop_requested ≡ false))
        ⊎ (Stage.waiting ≡ Stage.killed))
unfolding run step event deliver_to handled reap_from is_over
run_shuts_example = run_shuts both_handled

-- A signal that comes before its handler is registered kills the process.
early : (run (Event.deliver Signal.sigterm ∷ []) fresh_process).stage ≡ Stage.killed
unfolding run step event deliver_to handled is_over
early = refl

abbrev left_over : Temps
left_over = record {
  temp_dir = codes "/tmp";
  registered = codes "/tmp/a1/x.c" ∷ [];
  files =
      (codes "/tmp/a1/x.c", Node.file (codes "int x;"))
      ∷ (codes "/tmp/a1", Node.directory)
      ∷ (codes "/home/y.c", Node.file (codes "int y;"))
      ∷ [];
}

abbrev allow_all : Text → Option ℕ
allow_all p = none

tempfile_cleaner_leaves_example :
    (lookup (codes "/home/y.c") (tempfile_cleaner allow_all left_over).files
      ≡ some (Node.file (codes "int y;")))
    ↔ ((is_one_of (codes "/home/y.c") left_over.registered ≡ false)
        × (lookup (codes "/home/y.c") left_over.files ≡ some (Node.file (codes "int y;"))))
tempfile_cleaner_leaves_example =
    tempfile_cleaner_leaves allow_all left_over (codes "/home/y.c") (codes "int y;") refl
