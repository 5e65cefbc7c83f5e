-- ===== src/Status/Calls.antt =====
-- All that may happen to the published state of crates/daemon/src/state.rs: the five operations
-- that other threads make, and a sleeping revert thread that wakes up.
use whispy.Base.{ℕ, ◌+◌, ◌%◌, ◌≤◌, ◌<◌, List, [], ◌∷◌, ◌≡◌, ◌⊎◌, inl, inr, Option, arith, length}
use whispy.Float.{F32}
use whispy.Protocol.{StateSnapshot}
use whispy.Status.{
  Status, Env, u64_mod, set_recording, set_transcribing, set_idle, set_success, set_error, wake,
}
use whispy.Text.{Text, Bytes}

-- The operations that publish a state at once.
pub data Op : Type 0 where
  recording : F32 → Op
  transcribing idle success : Op
  error : Text → Text → Op

pub data Call : Type 0 where
  writes : Op → Call
  wakes : ℕ → Call

module _ (encode : StateSnapshot → Option Bytes) where
  unfoldable pub apply : Op → Env → Status → Status
  apply (recording rms) = set_recording encode rms
  apply transcribing = set_transcribing encode
  apply idle = set_idle encode
  apply success = set_success encode
  apply (error kind message) = set_error encode kind message

  unfoldable pub step : Env × Call → Status → Status
  unfolding apply
  step (env, writes op) s = apply op env s
  step (env, wakes g) s = wake encode g env s

  unfoldable pub run : List (Env × Call) → Status → Status
  run [] s = s
  run (c ∷ cs) s = run cs (step c s)

  pub generation-apply :
      (op : Op) (env : Env) (s : Status)
      → (apply op env s).generation ≡ (s.generation + 1) % u64_mod
  unfolding apply set_recording set_transcribing set_idle set_success set_error
  generation-apply (recording rms) env s = ground arith
  generation-apply transcribing env s = ground arith
  generation-apply idle env s = ground arith
  generation-apply success env s = ground arith
  generation-apply (error kind message) env s = ground arith

  pub generation-step :
      (c : Env × Call) (s : Status)
      → ((step c s).generation ≡ s.generation)
        ⊎ ((step c s).generation ≡ (s.generation + 1) % u64_mod)
  generation-step (env, writes op) s = inr (unfold step in generation-apply op env s)
  generation-step (env, wakes g) s = unfold step wake in ground arith

  -- A run of calls adds at most one to the counter for each.
  pub generation-run :
      (cs : List (Env × Call)) (s : Status)
      → s.generation < u64_mod
      → (k : ℕ) × (k ≤ length cs) × ((run cs s).generation ≡ (s.generation + k) % u64_mod)
  unfolding run
  generation-run [] s h = (0, omega arith, omega arith)
  generation-run (c ∷ cs) s h = elim (generation-step c s) [
    | inl same ↦
        let (k, le, e) = generation-run cs (step c s) (omega arith) in (k, omega arith, omega arith)
    | inr next ↦
        let (k, le, e) = generation-run cs (step c s) (omega arith) in
        (k + 1, omega arith, omega arith)
  ]
