-- ===== src/Server/Main/Shutdown.antt =====
-- src/server/main.cpp: when the server is shut down, and that it is.
use distplusplus.Base.{
  ℕ, ◌-◌, ◌≤◌, ◌≡◌, ◌≢◌, refl, Bool, true, false, List, [], ◌∷◌, ◌++◌, ◌⊎◌, inl, inr, arith,
  Bool-cases,
}
use distplusplus.Server.Main.{
  Signal, Reaper, Stage, Process, fresh_process, Event, deliver_to, handled, reap_from,
  advance_from, is_finished, is_over, event, step, run,
}

-- What holds of a process between two pieces.
pub record IsSound (p : Process) : Type 0 where
  pub first : p.reaper ≢ Reaper.fresh → p.handles_int ≡ true
  pub both : (p.reaper ≡ Reaper.polling) ⊎ (p.reaper ≡ Reaper.finished) → p.handles_term ≡ true
  pub last : p.handles_term ≡ true → (p.reaper ≡ Reaper.polling) ⊎ (p.reaper ≡ Reaper.finished)
  pub shut : p.shut_down ≡ true → (p.signal_flag ≡ true) × (p.reaper ≡ Reaper.finished)
  pub stopped : p.stop_requested ≡ true → p.shut_down ≡ true
  pub finished : p.reaper ≡ Reaper.finished → p.shut_down ≡ true
  pub joining : p.stage ≡ Stage.joining → p.shut_down ≡ true
  pub exited : p.stage ≡ Stage.exited → p.shut_down ≡ true

fresh-IsSound : IsSound fresh_process
fresh-IsSound = ground arith

deliver-IsSound : (b : Bool) (p : Process) → IsSound p → IsSound (deliver_to b p)
unfolding deliver_to
deliver-IsSound b p s = ground arith

reap-IsSound : (p : Process) → IsSound p → IsSound (reap_from p.reaper p)
unfolding reap_from
reap-IsSound p s = ground arith

advance-IsSound : (p : Process) → IsSound p → IsSound (advance_from p.stage p)
unfolding advance_from
advance-IsSound p s = ground arith

step-IsSound : (e : Event) (p : Process) → IsSound p → IsSound (step e p)
unfolding step event
step-IsSound e p s = elim (Bool-cases (is_over p.stage)) [
  | inl over ↦ rw (over, step) s
  | inr goes ↦ rw (goes, step) (by_event e)
]
  where
    by_event : (e : Event) → IsSound (event e p)
    by_event (Event.deliver g) = deliver-IsSound (handled g p) p s
    by_event Event.reap = reap-IsSound p s
    by_event Event.advance = advance-IsSound p s

run-IsSound : (es : List Event) (p : Process) → IsSound p → IsSound (run es p)
unfolding run
run-IsSound [] p s = s
run-IsSound (e ∷ es) p s = run-IsSound es (step e p) (step-IsSound e p s)

-- In every state that `main` reaches while it waits, shutting down and returning come only after a
-- signal that was handled: where the server is shut down, the flag is set and the reaper is behind
-- its loop, and where `main` has gone on or returned, the server is shut down.
pub run_shuts :
    (es : List Event)
    → let p = run es fresh_process in
      ((p.shut_down ≡ false) ⊎ ((p.signal_flag ≡ true) × (p.reaper ≡ Reaper.finished)))
      × ((p.shut_down ≡ true)
          ⊎ ((p.stage ≡ Stage.waiting) × (p.stop_requested ≡ false))
          ⊎ (p.stage ≡ Stage.killed))
run_shuts es =
    let s = run-IsSound es fresh_process fresh-IsSound in
    ground (arith, s.shut, s.joining, s.exited, s.stopped)

-- A process whose reaper will see the flag: how many pieces it still needs.
pub record IsStopping (p : Process) : Type 0 where
  pub sound : IsSound p
  pub flag : p.signal_flag ≡ true
  pub handlers : (p.handles_int ≡ true) × (p.handles_term ≡ true)
  pub alive : p.stage ≢ Stage.killed
  pub seen : (p.reaper ≡ Reaper.polling) ⊎ (p.reaper ≡ Reaper.finished)

rank_at : Stage → Reaper → ℕ
rank_at Stage.exited r = 0
rank_at Stage.joining r = 1
rank_at Stage.killed r = 4
rank_at Stage.waiting Reaper.finished = 2
rank_at Stage.waiting Reaper.polling = 3
rank_at Stage.waiting Reaper.fresh = 4
rank_at Stage.waiting Reaper.half = 4

rank : Process → ℕ
unfolding rank_at
rank p = rank_at p.stage p.reaper

abbrev Keeps : Process → Process → Type 0
Keeps p p' = IsStopping p' × (rank p' ≤ rank p)

event-Keeps : (e : Event) (p : Process) → IsStopping p → Keeps p (event e p)
unfolding event rank rank_at deliver_to handled reap_from advance_from is_over is_finished
event-Keeps (Event.deliver Signal.sigint) p s =
    ground (arith, deliver-IsSound (handled Signal.sigint p) p s.sound)
event-Keeps (Event.deliver Signal.sigterm) p s =
    ground (arith, deliver-IsSound (handled Signal.sigterm p) p s.sound)
event-Keeps Event.reap p s = ground (arith, reap-IsSound p s.sound)
event-Keeps Event.advance p s = ground (arith, advance-IsSound p s.sound)

step-Keeps : (e : Event) (p : Process) → IsStopping p → Keeps p (step e p)
unfolding step
step-Keeps e p s = elim (Bool-cases (is_over p.stage)) [
  | inl over ↦ rw (over, step) (s, omega arith)
  | inr goes ↦ rw (goes, step) (event-Keeps e p s)
]

run-Keeps : (es : List Event) (p : Process) → IsStopping p → Keeps p (run es p)
unfolding run
run-Keeps [] p s = (s, omega arith)
run-Keeps (e ∷ es) p s =
    let (s', le) = step-Keeps e p s in let (t, le') = run-Keeps es (step e p) s' in (t, omega arith)

reap_falls : (p : Process) → IsStopping p → rank (step Event.reap p) ≤ 2
unfolding step event reap_from rank rank_at is_over
reap_falls p s = ground arith

advance_falls : (p : Process) → IsStopping p → rank p ≤ 2 → rank (step Event.advance p) ≤ rank p - 1
unfolding step event advance_from rank rank_at is_over is_finished
advance_falls p s h = ground arith

rank_zero : (p : Process) → IsStopping p → rank p ≤ 0 → p.stage ≡ Stage.exited
unfolding rank rank_at
rank_zero p s h = ground arith

run-append : (es fs : List Event) (p : Process) → run (es ++ fs) p ≡ run fs (run es p)
unfolding run
run-append [] fs p = refl
run-append (e ∷ es) fs p = run-append es fs (step e p)

stopping_exits :
    (a b c d : List Event) (p : Process)
    → IsStopping p
    → (run (a ++ (Event.reap ∷ (b ++ (Event.advance ∷ (c ++ (Event.advance ∷ d)))))) p).stage
      ≡ Stage.exited
unfolding run
stopping_exits a b c d p s =
    let (s₁, _) = run-Keeps a p s in
    let p₁ = run a p in
    let (s₂, _) = step-Keeps Event.reap p₁ s₁ in
    let p₂ = step Event.reap p₁ in
    let (s₃, l₃) = run-Keeps b p₂ s₂ in
    let p₃ = run b p₂ in
    let (s₄, _) = step-Keeps Event.advance p₃ s₃ in
    let p₄ = step Event.advance p₃ in
    let (s₅, l₅) = run-Keeps c p₄ s₄ in
    let p₅ = run c p₄ in
    let (s₆, _) = step-Keeps Event.advance p₅ s₅ in
    let p₆ = step Event.advance p₅ in
    let (s₇, l₇) = run-Keeps d p₆ s₆ in
    let r₂ = reap_falls p₁ s₁ in
    let r₄ = advance_falls p₃ s₃ (omega arith) in
    let r₆ = advance_falls p₅ s₅ (omega arith) in
    rw (run-append a _ p, run-append b _ p₂, run-append c _ p₄)
      (rank_zero (run d p₆) s₇ (omega arith))

-- If in a state that is reached from the start both handlers are registered, the flag is set and
-- `main` has not been killed, then `main` returns on every schedule on which the reaper comes up and
-- after it the main thread twice, whatever else happens before, between and after.
pub run_exits :
    (es a b c d : List Event) (p : Process)
    → run es fresh_process ≡ p
    → p.handles_term ≡ true
    → p.signal_flag ≡ true
    → p.stage ≢ Stage.killed
    → (run (a ++ (Event.reap ∷ (b ++ (Event.advance ∷ (c ++ (Event.advance ∷ d)))))) p).stage
      ≡ Stage.exited
run_exits es a b c d p e handles flag alive =
    let sound : IsSound p = rw (← e) (run-IsSound es fresh_process fresh-IsSound) in
    stopping_exits a b c d p (record {
      sound = sound;
      flag = flag;
      handlers = (sound.first (ground (arith, sound.last)), handles);
      alive = alive;
      seen = sound.last handles;
    })
