-- ===== src/Server/Main.antt =====
-- src/server/main.cpp: `main`, its signal handler and the thread `signalReaper`. gRPC is a parameter:
-- whether the builder can listen on an address, and `Wait`, which returns once the server is shut down.
pub mod Shutdown
pub mod Launched
use distplusplus.Base.{
  ℕ, Bool, true, false, List, [], ◌∷◌, Option, Result, ok, err, ◌>>=◌, if◌then◌else◌,
}
use distplusplus.Base.Text.{Text}
use distplusplus.Common.Compression.{CompressionType}
use distplusplus.Server.Jobs.{Server, new_server}
use distplusplus.Server.Config.{Exit, Config, Options, get_config}

pub data Signal : Type 0 where
  sigint sigterm : Signal

-- Where `signalReaper` is: before each of its two calls of std::signal, in its loop, or behind it.
pub data Reaper : Type 0 where
  fresh half polling finished : Reaper

-- Where the main thread is; a signal without a handler kills the process.
pub data Stage : Type 0 where
  waiting joining exited killed : Stage

-- `handles_int` and `handles_term` say whether `signalHandler` is registered for the signal.
pub record Process : Type 0 where
  pub handles_int : Bool
  pub handles_term : Bool
  pub signal_flag : Bool
  pub stop_requested : Bool
  pub shut_down : Bool
  pub reaper : Reaper
  pub stage : Stage

abbrev pub fresh_process : Process
fresh_process = record {
  handles_int = false;
  handles_term = false;
  signal_flag = false;
  stop_requested = false;
  shut_down = false;
  reaper = Reaper.fresh;
  stage = Stage.waiting;
}

-- How `main` can end before it waits.
pub data Ended : Type 0 where
  exits : ℕ → Ended
  throws : Text → Ended
  -- `Wait` is called on the null pointer that `BuildAndStart` gives where it cannot listen.
  null_server : Ended

unfoldable pub of_exit : {A : Type 0} → Result Exit A → Result Ended A
of_exit (err (Exit.exits code)) = err (Ended.exits code)
of_exit (err (Exit.throws message)) = err (Ended.throws message)
of_exit (ok a) = ok a

unfoldable pub of_thrown : {A : Type 0} → Result Text A → Result Ended A
of_thrown (err message) = err (Ended.throws message)
of_thrown (ok a) = ok a

module _ (cores : ℕ) (default_compression : Text) (env : Text → Option Text) (options : Options)
    (ndebug : Bool) (listens : Text → Bool) where
  -- `main` up to `Wait`.
  unfoldable pub launch : Result Ended (Server × Process)
  unfolding of_exit of_thrown
  launch = of_exit (get_config cores default_compression env options) >>= λ c.
      of_thrown (
        new_server ndebug c.max_jobs c.reservation_timeout (record {
          compression_type = c.compression_type;
          compression_level = c.compression_level;
        }))
      >>= λ s. if listens c.listen_address then ok (s, fresh_process) else err Ended.null_server

-- A signal arrives, or one of the two threads goes on by one piece.
pub data Event : Type 0 where
  deliver : Signal → Event
  reap advance : Event

-- `signalHandler`, which registers itself again.
unfoldable pub deliver_to : Bool → Process → Process
deliver_to true p = record p { signal_flag = true }
deliver_to false p = record p { stage = Stage.killed }

unfoldable pub handled : Signal → Process → Bool
handled Signal.sigint p = p.handles_int
handled Signal.sigterm p = p.handles_term

-- `signalReaper`: a call of std::signal, or one round of its loop up to the sleep.
unfoldable pub reap_from : Reaper → Process → Process
reap_from Reaper.fresh p = record p { handles_int = true; reaper = Reaper.half }
reap_from Reaper.half p = record p { handles_term = true; reaper = Reaper.polling }
reap_from Reaper.polling p =
    if p.signal_flag
    then record p { shut_down = true; reaper = Reaper.finished }
    else if p.stop_requested
    then record p { reaper = Reaper.finished }
    else p
reap_from Reaper.finished p = p

unfoldable pub is_finished : Reaper → Bool
is_finished Reaper.finished = true
is_finished Reaper.fresh = false
is_finished Reaper.half = false
is_finished Reaper.polling = false

-- The end of `main`: `Wait` and the request to stop, then `join` and the return.
unfoldable pub advance_from : Stage → Process → Process
unfolding is_finished
advance_from Stage.waiting p =
    if p.shut_down then record p { stop_requested = true; stage = Stage.joining } else p
advance_from Stage.joining p = if is_finished p.reaper then record p { stage = Stage.exited } else p
advance_from Stage.exited p = p
advance_from Stage.killed p = p

unfoldable pub is_over : Stage → Bool
is_over Stage.waiting = false
is_over Stage.joining = false
is_over Stage.exited = true
is_over Stage.killed = true

unfoldable pub event : Event → Process → Process
unfolding deliver_to handled reap_from advance_from
event (Event.deliver s) p = deliver_to (handled s p) p
event Event.reap p = reap_from p.reaper p
event Event.advance p = advance_from p.stage p

-- A thread that is blocked, and a process that is over, stay as they are.
unfoldable pub step : Event → Process → Process
unfolding event is_over
step e p = if is_over p.stage then p else event e p

unfoldable pub run : List Event → Process → Process
unfolding step
run [] p = p
run (e ∷ es) p = run es (step e p)
