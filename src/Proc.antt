-- ===== src/Proc.antt =====
-- Subprocesses with deadlines: crates/daemon/src/proc.rs. Times are in nanoseconds. A function gives
-- its result with what it did to the child and with the time at its end.
pub mod Bounds
use whispy.Base.{
  ℕ, ◌+◌, ◌-◌, ◌≤◌, min, Bool, true, false, Option, none, some, List, [], ◌∷◌, ◌++◌, leb, find_map,
  if◌then◌else◌, Result, ok, err,
}
use whispy.Text.{Text, Bytes, codes}

-- `io::Error`, by the kinds that the module tells apart.
pub data IoError : Type 0 where
  timed_out other : Text → IoError
  broken_pipe : IoError

-- `CLIPBOARD`, `KEYS`, `TYPING`, `PROBE`, `POLL` and `PIPE_GRACE`.
abbrev pub clipboard : ℕ
clipboard = 2000000000

abbrev pub keys : ℕ
keys = 5000000000

abbrev pub typing : ℕ
typing = 30000000000

abbrev pub probe : ℕ
probe = 2000000000

abbrev pub poll : ℕ
poll = 5000000

abbrev pub pipe_grace : ℕ
pipe_grace = 200000000

-- What is done to a child that overran.
pub data Act : Type 0 where
  kill wait : Act

-- `ExitStatus`: the code, or `none` for a signal.
abbrev pub ExitStatus : Type 0
ExitStatus = Option ℕ

-- What one look of `wait_until` sees.
pub record Look : Type 0 where
  pub waited : Result IoError (Option ExitStatus)
  pub now : ℕ

-- How a wait ends: its result, what was done to the child, and when.
pub record Ending (A : Type 0) : Type 0 where
  pub result : Result IoError A
  pub acts : List Act
  pub at : ℕ

abbrev pub overran : ℕ → ℕ → Option (Ending ExitStatus)
overran deadline now =
    if leb deadline now
    then some
        (record { result = err (timed_out (codes "timed out")); acts = kill ∷ wait ∷ []; at = now })
    else none

abbrev pub judge_wait : ℕ → ℕ → Result IoError (Option ExitStatus) → Option (Ending ExitStatus)
judge_wait deadline now (err e) = some (record { result = err e; acts = []; at = now })
judge_wait deadline now (ok (some status)) =
    some (record { result = ok status; acts = []; at = now })
judge_wait deadline now (ok none) = overran deadline now

-- One turn of the loop of `wait_until`.
unfoldable pub look_once : ℕ → Look → Option (Ending ExitStatus)
look_once deadline l = judge_wait deadline l.now l.waited

-- `wait_until`.
unfoldable pub wait_until : ℕ → List Look → Option (Ending ExitStatus)
unfolding look_once
wait_until deadline looks = find_map (look_once deadline) looks

-- A child that was started: when, and what its looks see.
pub record Started : Type 0 where
  pub start : ℕ
  pub looks : List Look

abbrev failed_at : {A : Type 0} → IoError → Option (Ending A)
failed_at e = some (record { result = err e; acts = []; at = 0 })

-- `status`.
unfoldable pub status : ℕ → Result IoError Started → Option (Ending ExitStatus)
unfolding wait_until
status timeout (err e) = failed_at e
status timeout (ok child) = wait_until (child.start + timeout) child.looks

-- How the thread that writes the input ends: `none` if it panicked.
abbrev pub join_writer : Option (Result IoError (Unit {0})) → ExitStatus → Result IoError ExitStatus
join_writer (some (ok _)) s = ok s
join_writer (some (err broken_pipe)) s = ok s
join_writer (some (err (timed_out e))) s = err (timed_out e)
join_writer (some (err (other e))) s = err (other e)
join_writer none s = err (other (codes "stdin writer panicked"))

abbrev pub and_join : Option (Result IoError (Unit {0})) → Ending ExitStatus → Ending ExitStatus
and_join writer e = elim e.result [ err x ↦ e | ok s ↦ record e { result = join_writer writer s } ]

abbrev pub map_ending :
    {A B : Type 0} → (Ending A → Ending B) → Option (Ending A) → Option (Ending B)
map_ending f none = none
map_ending f (some e) = some (f e)

-- `with_stdin`.
unfoldable pub with_stdin :
    ℕ
    → Result IoError Started
    → Bool
    → Option (Result IoError (Unit {0}))
    → Option (Ending ExitStatus)
unfolding wait_until
with_stdin timeout (err e) has_stdin writer = failed_at e
with_stdin timeout (ok child) false writer = failed_at (other (codes "child stdin unavailable"))
with_stdin timeout (ok child) true writer =
    map_ending (and_join writer) (wait_until (child.start + timeout) child.looks)

-- What a drained pipe sends, and when: `none` if it stays open.
pub record Pipe : Type 0 where
  pub sent_at : Option ℕ
  pub message : Result IoError Bytes

-- `deadline.saturating_duration_since(now) + PIPE_GRACE`.
abbrev pub patience : ℕ → ℕ → ℕ
patience deadline now = (deadline - now) + pipe_grace

abbrev pub still_open : ℕ → ℕ → Ending Bytes
still_open deadline now = record {
  result = err (timed_out (codes "output pipe still open after exit"));
  acts = [];
  at = now + patience deadline now;
}

-- `collect`, from the given time on.
unfoldable pub collect : Pipe → ℕ → ℕ → Ending Bytes
collect p deadline now = elim p.sent_at [
  | none ↦ still_open deadline now
  | some t ↦
      if leb t (now + patience deadline now)
      then record { result = p.message; acts = []; at = now + (t - now) }
      else still_open deadline now
]

-- `Output`.
pub record Output : Type 0 where
  pub exit : ExitStatus
  pub stdout : Bytes
  pub stderr : Bytes

abbrev pub second : ExitStatus → Bytes → Ending Bytes → Ending Output
second s out e = record {
  result = elim e.result [
    | err x ↦ err x
    | ok errors ↦ ok (record { exit = s; stdout = out; stderr = errors })
  ];
  acts = [];
  at = e.at;
}

-- The two calls of `collect`, one behind the other.
unfoldable pub collect_both : Pipe → Pipe → ℕ → Ending ExitStatus → Ending Output
unfolding collect
collect_both out errors deadline e = elim e.result [
  | err x ↦ record { result = err x; acts = e.acts; at = e.at }
  | ok s ↦
      let first = collect out deadline e.at in
      elim first.result [
        | err x ↦ record { result = err x; acts = []; at = first.at }
        | ok bytes ↦ second s bytes (collect errors deadline first.at)
      ]
]

-- `output`.
unfoldable pub output : ℕ → Result IoError Started → Pipe → Pipe → Option (Ending Output)
unfolding wait_until collect_both
output timeout (err e) out errors = failed_at e
output timeout (ok child) out errors =
    let deadline = child.start + timeout in
    map_ending (collect_both out errors deadline) (wait_until deadline child.looks)
