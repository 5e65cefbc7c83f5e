-- ===== src/Status.antt =====
-- The published state: crates/daemon/src/state.rs. `Status` is the shared snapshot with the state
-- file behind it. Every operation holds the `shared` lock throughout, so one call is one step; the
-- sleeping threads of `revert_to_idle_after` are listed in `reverts` by their generation.
pub mod Publish
pub mod Calls
pub mod Revert
pub mod Synced
pub mod Throttle
use whispy.Base.{
  ℕ, zero, suc, ◌+◌, ◌-◌, ◌%◌, ◌^◌, Bool, true, false, ◌&&◌, ◌||◌, not, Option, none, some, List,
  [], ◌∷◌, leb, ◌==◌, if◌then◌else◌,
}
use whispy.Float.{F32, F64}
use whispy.Protocol.{State, idle, recording, transcribing, success, error, StateSnapshot}
use Publish.{Disk, Io, publish}
use whispy.Text.{Text, Bytes}

-- What one call sees of the clocks and of the file system.
pub record Env : Type 0 where
  pub timestamp : F64
  pub instant : ℕ
  pub io : Io

abbrev pub u64_mod : ℕ
u64_mod = 2 ^ 64

-- Times are nanoseconds.
pub record Status : Type 0 where
  pub shared : StateSnapshot
  pub disk : Disk
  pub generation : ℕ
  pub min_interval : ℕ
  pub last_publish : ℕ
  pub reverts : List ℕ

-- `Status::new`; `period hz` is `Duration::from_secs_f64(1.0 / hz)`.
unfoldable pub new : (ℕ → ℕ) → StateSnapshot → Disk → ℕ → ℕ → Status
new period shared disk state_max_hz instant = record {
  shared = shared;
  disk = disk;
  generation = 0;
  min_interval = if state_max_hz == 0 then 0 else period state_max_hz;
  last_publish = instant;
  reverts = [];
}

-- `plain`.
abbrev pub plain : State → F32 → F64 → StateSnapshot
plain state rms now = record {
  state = state;
  rms = rms;
  error_kind = none;
  error_message = none;
  timestamp = now;
}

-- The snapshot of `Status::error`.
abbrev pub error_snapshot : Text → Text → F64 → StateSnapshot
error_snapshot kind message now = record {
  state = error;
  rms = 0;
  error_kind = some kind;
  error_message = some message;
  timestamp = now;
}

abbrev pub is_recording : State → Bool
is_recording recording = true
is_recording _ = false

-- `should_publish`.
unfoldable pub should_publish : State → State → ℕ → Status → Status × Bool
should_publish new prev instant s =
    let throttled = is_recording new && is_recording prev in
    if not throttled || s.min_interval == 0
    then (record s { last_publish = instant }, true)
    else if leb s.min_interval (instant - s.last_publish)
    then (record s { last_publish = instant }, true)
    else (s, false)

module _ (encode : StateSnapshot → Option Bytes) where
  -- `write_locked`. A error_snapshot publish is logged and otherwise ignored.
  unfoldable pub write_locked : Env → StateSnapshot → Status → Status × ℕ
  unfolding should_publish
  write_locked env snapshot s =
      let generation = (s.generation + 1) % u64_mod in
      let prev_state = s.shared.state in
      let s1 = record s { shared = snapshot; generation = generation } in
      let (s2, wanted) = should_publish snapshot.state prev_state env.instant s1 in
      (
        if wanted then record s2 { disk = (publish env.io (encode snapshot) s2.disk).0 } else s2,
        generation,
      )

  -- `set`.
  unfoldable pub set : State → F32 → Env → Status → Status × ℕ
  unfolding write_locked
  set state rms env s = write_locked env (plain state rms env.timestamp) s

  -- `revert_to_idle_after`: the thread is spawned here, and wakes up in `wake`.
  unfoldable pub revert_to_idle_after : Status × ℕ → Status
  revert_to_idle_after (s, g) = record s { reverts = g ∷ s.reverts }

  -- `Status::recording`, `transcribing`, `idle`, `success` and `error`.
  unfoldable pub set_recording : F32 → Env → Status → Status
  unfolding set
  set_recording rms env s = (set recording rms env s).0

  unfoldable pub set_transcribing : Env → Status → Status
  unfolding set
  set_transcribing env s = (set transcribing 0 env s).0

  unfoldable pub set_idle : Env → Status → Status
  unfolding set
  set_idle env s = (set idle 0 env s).0

  unfoldable pub set_success : Env → Status → Status
  unfolding set revert_to_idle_after
  set_success env s = revert_to_idle_after (set success 0 env s)

  unfoldable pub set_error : Text → Text → Env → Status → Status
  unfolding write_locked revert_to_idle_after
  set_error kind message env s =
      revert_to_idle_after (write_locked env (error_snapshot kind message env.timestamp) s)

  -- The body of the revert thread after its sleep.
  unfoldable pub wake : ℕ → Env → Status → Status
  unfolding write_locked
  wake generation env s =
      if s.generation == generation then (write_locked env (plain idle 0 env.timestamp) s).0 else s
