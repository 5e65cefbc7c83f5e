-- ===== src/Supervisor.antt =====
-- The STT server's supervisor: crates/daemon/src/stt_server.rs. What it asks of the system is listed
-- in `events`, the newest first; a process is known by its id. Durations and times are in
-- nanoseconds.
pub mod Delays
pub mod Ready
pub mod Children
use Delays.{Backoff, delay, fail, reset}
use whispy.Base.{
  ℕ, ◌+◌, Bool, true, false, ◌&&◌, ◌||◌, not, Option, none, some, List, [], ◌∷◌, ◌++◌, any, ltb,
  leb, find_map, is_some, if◌then◌else◌, Result, ok, err,
}
use whispy.Choice.{ComputeBackend}
use whispy.Engine.{Engine, server_name, extra_server_args}
use whispy.Text.Decimal.{decimal}
use whispy.Text.{Text, codes}

-- `Timing`, and `Timing::DAEMON`.
pub record Timing : Type 0 where
  pub poll : ℕ
  pub backoff_cap : ℕ
  pub ready_timeout : ℕ
  pub ready_poll : ℕ

abbrev pub daemon_timing : Timing
daemon_timing = record {
  poll = 2000000000;
  backoff_cap = 60000000000;
  ready_timeout = 60000000000;
  ready_poll = 200000000;
}

-- `config::Stt`, as far as the supervisor reads it; the paths are those of `server_bin_path`,
-- `model_file` and `log_path`.
pub record Server : Type 0 where
  pub engine : Engine
  pub bin : Text
  pub model : Text
  pub language : Text
  pub host : Text
  pub port : ℕ
  pub backend : ComputeBackend
  pub log_path : Text

-- What a look of `Halt::sleep` sees: the clock, and whether either flag is set.
pub record Nap : Type 0 where
  pub now : ℕ
  pub halted : Bool

-- One turn of the loop of `Halt::sleep`.
unfoldable pub nap : ℕ → Nap → Option Bool
nap deadline l = if l.halted then some false else if leb deadline l.now then some true else none

-- `Halt::sleep`.
unfoldable pub sleep : ℕ → List Nap → Option Bool
unfolding nap
sleep deadline naps = find_map (nap deadline) naps

-- What a look of `wait_ready` sees: the clock, the flags, whether `try_wait` says anything but that the
-- child runs, and which addresses take a connection.
pub record Look : Type 0 where
  pub now : ℕ
  pub halted : Bool
  pub exited : Bool
  pub connected : List Bool

-- One turn of the loop of `wait_ready`.
unfoldable pub look : ℕ → Look → Option Bool
look deadline l =
    if not (ltb l.now deadline)
    then some false
    else if l.halted || l.exited
    then some false
    else if any (λ c. c) l.connected
    then some true
    else none

-- The loop of `wait_ready`.
unfoldable pub await_port : ℕ → List Look → Option Bool
unfolding look
await_port deadline looks = find_map (look deadline) looks

-- What a wait for readiness meets: whether the host has an address, the clock at its start, the looks.
pub record Wait : Type 0 where
  pub resolved : Bool
  pub start : ℕ
  pub looks : List Look

abbrev pub or_false : Option Bool → Bool
or_false none = false
or_false (some b) = b

-- `wait_ready`.
unfoldable pub wait_ready : Timing → Wait → Bool
unfolding await_port
wait_ready timing w =
    if w.resolved then or_false (await_port (w.start + timing.ready_timeout) w.looks) else false

-- The arguments of the server.
unfoldable pub server_args : Server → List Text
unfolding extra_server_args
server_args cfg =
    codes "-m"
    ∷ cfg.model
    ∷ codes "-l"
    ∷ cfg.language
    ∷ codes "--host"
    ∷ cfg.host
    ∷ codes "--port"
    ∷ decimal cfg.port
    ∷ extra_server_args cfg.engine cfg.backend

-- What `spawn` meets: whether the files are there, whether the log can be written, and the process.
pub record Launch : Type 0 where
  pub bin_exists : Bool
  pub model_exists : Bool
  pub log : Result Text (Unit {0})
  pub run : Text → List Text → Result Text ℕ

abbrev with_log : Result Text (Unit {0}) → Result Text ℕ → Result Text ℕ
with_log (err e) process = err e
with_log (ok _) process = process

-- `spawn`.
unfoldable pub spawn : Server → Launch → Result Text ℕ
unfolding server_args server_name
spawn cfg l =
    if not l.bin_exists
    then err (server_name cfg.engine ++ (codes " binary not found at " ++ cfg.bin))
    else if not l.model_exists
    then err (codes "model file not found at " ++ cfg.model)
    else with_log l.log (l.run cfg.bin (server_args cfg))

pub data Event : Type 0 where
  slept spawned killed reaped : ℕ → Event

-- `terminate`.
abbrev pub terminate : ℕ → List Event → List Event
terminate pid es = reaped pid ∷ killed pid ∷ es

-- `Monitor`, less what does not change.
pub record Monitor : Type 0 where
  pub child : Option ℕ
  pub backoff : Backoff
  pub events : List Event

-- What a restart meets.
pub record Attempt : Type 0 where
  pub launch : Launch
  pub wait : Wait
  pub halted : Bool

-- One turn of the loop of `run`: whether `try_wait` says that the child runs, and what a restart meets.
pub record Round : Type 0 where
  pub running : Bool
  pub attempt : Attempt

abbrev pub reap : Option ℕ → List Event → List Event
reap none es = es
reap (some pid) es = reaped pid ∷ es

abbrev pub stop_child : Option ℕ → List Event → List Event
stop_child none es = es
stop_child (some pid) es = terminate pid es

module _ (cfg : Server) (timing : Timing) where
  -- `restart`, behind `spawn`.
  unfoldable pub restarted : Attempt → Result Text ℕ → Monitor → Monitor
  unfolding wait_ready fail reset
  restarted a (err e) m = record m { backoff = fail m.backoff }
  restarted a (ok pid) m = record m {
    child = some pid;
    events = spawned pid ∷ m.events;
    backoff =
        if wait_ready timing a.wait
        then reset m.backoff
        else if not a.halted
        then fail m.backoff
        else m.backoff;
  }

  -- `restart`.
  unfoldable pub restart : Attempt → Monitor → Monitor
  unfolding restarted spawn
  restart a m =
      restarted a (spawn cfg a.launch) (record m { child = none; events = reap m.child m.events })

  -- One turn of the loop of `run`, behind the sleep.
  unfoldable pub turn : Round → Monitor → Monitor
  unfolding restart
  turn r m = if r.running && is_some m.child then m else restart r.attempt m

  -- The sleep of a turn.
  abbrev pub asleep : Monitor → Monitor
  asleep m = record m { events = slept (delay m.backoff) ∷ m.events }

  -- `run`: the rounds behind each sleep that is not cut short, and the end behind the one that is.
  unfoldable pub run : List Round → Monitor → List Event
  unfolding turn delay
  run [] m = let m1 = asleep m in stop_child m1.child m1.events
  run (r ∷ rs) m = run rs (turn r (asleep m))

  -- `start_with`, behind `spawn`.
  unfoldable pub started : Wait → Result Text ℕ → Result Text Monitor × List Event
  unfolding wait_ready server_name
  started w (err e) = (err e, [])
  started w (ok pid) =
      if not (wait_ready timing w)
      then (
        err (
            server_name cfg.engine
            ++ (codes " did not become ready (see " ++ (cfg.log_path ++ codes " for details)"))),
        terminate pid (spawned pid ∷ []),
      )
      else (
        ok (record {
          child = some pid;
          backoff = Delays.new timing.poll timing.backoff_cap;
          events = spawned pid ∷ [];
        }),
        spawned pid ∷ [],
      )

  -- `start_with`. First comes what `create_dir_all` says of the state directory; a failed rotation
  -- of the log is only logged.
  unfoldable pub start : Result Text (Unit {0}) → Launch → Wait → Result Text Monitor × List Event
  unfolding started spawn
  start (err e) l w = (err e, [])
  start (ok _) l w = started w (spawn cfg l)

  -- The life of a supervisor: all that it asked of the system.
  abbrev pub after_start : List Round → Result Text Monitor × List Event → List Event
  after_start rounds (err e, es) = es
  after_start rounds (ok m, es) = run rounds m

  unfoldable pub supervise : Result Text (Unit {0}) → Launch → Wait → List Round → List Event
  unfolding start run
  supervise dir_made l w rounds = after_start rounds (start dir_made l w)
