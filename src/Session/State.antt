-- ===== src/Session/State.antt =====
-- The state of the dictation session: crates/daemon/src/app.rs, its types and the methods that
-- only touch the lifecycle. What is asked of the ports is listed in `events`, the newest first. A
-- capture is known by its recording's id.
use whispy.Base.{
  ℕ, Bool, true, false, not, Option, none, some, List, [], ◌∷◌, ◌++◌, ltb, ◌==◌, if◌then◌else◌,
  Result, any,
}
use whispy.Filter.{FilterConfig, Hallucinations}
use whispy.Float.{F64}
use whispy.Protocol.{StateSnapshot}
use whispy.Status.{Status, Env}
pub use whispy.Pipeline.{AppContext}
pub use whispy.Stt.{Samples, Transcription}
use whispy.Text.Chars.{Chars}
use whispy.Text.{Text, Bytes}

pub record Recording : Type 0 where
  pub id : ℕ
  pub ctx : AppContext

pub record Clip : Type 0 where
  pub id : ℕ
  pub samples : Samples
  pub ctx : AppContext

pub record Lifecycle : Type 0 where
  pub recording : Option Recording
  pub next_id : ℕ
  pub cancelled_below : ℕ

pub data Outcome : Type 0 where
  was_delivered was_cancelled : Outcome
  failed : Text → Text → Option Text → Outcome

-- The calls that leave the session.
pub data Event : Type 0 where
  opened capture_cancelled finished : ℕ → Event
  logged : ℕ → Option Text → Event
  injected : ℕ → Text → AppContext → Event
  inject_failed : ℕ → Event
  notified : Text → Text → Event

-- What other threads of the session have still to do.
pub data Job : Type 0 where
  -- The thread that the `silence` callback spawns.
  auto_finish : ℕ → Job
  -- `close`, after the recording was taken.
  closing : Recording → Job
  -- `cancel`, after the lifecycle lock was released.
  cancelling : Option Recording → Job
  -- `process`: before the transcription, before `deliver`, inside the injection, and after it.
  processing : Clip → Job
  delivering : Clip → Text → Job
  injecting : Clip → Text → Job
  reporting : ℕ → Outcome → Job

-- `App`, with the flags of the captures that reached the duration cap.
pub record App : Type 0 where
  pub status : Status
  pub lifecycle : Lifecycle
  pub inject_lock : Bool
  pub auto_stopped : List ℕ
  pub jobs : List Job
  pub events : List Event

-- What does not change in a session.
pub record Setup : Type 0 where
  pub chars : Chars
  pub similarity : Text → Text → F64
  pub encode : StateSnapshot → Option Bytes
  pub filter : FilterConfig
  pub blacklist : Hallucinations

-- The answers of the ports to one job.
pub record Answers : Type 0 where
  pub samples : Option Samples
  pub transcription : Result Text Transcription
  pub injection : Result Text (Unit {0})
  pub env : Env

abbrev pub emit : Event → App → App
emit e a = record a { events = e ∷ a.events }

abbrev pub spawn : Job → App → App
spawn j a = record a { jobs = a.jobs ++ (j ∷ []) }

abbrev pub put_recording : Option Recording → App → App
put_recording r a = record a { lifecycle = record (a.lifecycle) { recording = r } }

-- `Capture::auto_stopped`.
unfoldable pub is_stopped : App → ℕ → Bool
is_stopped a id = any (λ i. i == id) a.auto_stopped

-- `Lifecycle::is_recording`.
unfoldable pub is_recording : App → Bool
is_recording a = elim a.lifecycle.recording [ none ↦ false | some r ↦ not (is_stopped a r.id) ]

-- The first lines of `start`: an overrun recording is torn down.
unfoldable pub reclaim : App → App
reclaim a = elim a.lifecycle.recording [
  | none ↦ a
  | some r ↦ if is_stopped a r.id then emit (capture_cancelled r.id) (put_recording none a) else a
]

-- `take_recording`.
unfoldable pub take_recording : (Recording → Bool) → App → App × Option Recording
take_recording which a = elim a.lifecycle.recording [
  | none ↦ (a, none)
  | some r ↦ if which r then (put_recording none a, some r) else (a, none)
]

-- `cancelled`.
unfoldable pub is_cancelled : ℕ → App → Bool
is_cancelled id a = ltb id a.lifecycle.cancelled_below

-- `report`.
unfoldable pub report : ℕ → (Status → Status) → App → App × Bool
unfolding is_cancelled
report id publish a =
    if is_cancelled id a
    then (a, false)
    else (if not (is_recording a) then record a { status = publish a.status } else a, true)

-- `outcome` at its call of `deliver`: already an outcome, or the accepted text.
pub data Judged : Type 0 where
  ended : Outcome → Judged
  accepted : Text → Judged
