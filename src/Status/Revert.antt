-- ===== src/Status/Revert.antt =====
-- The delayed revert to idle: `revert_to_idle_after` of crates/daemon/src/state.rs.
use whispy.Base.{ℕ, ◌+◌, ◌<◌, List, ◌∷◌, ◌≡◌, ◌≢◌, Option, some, arith, length}
use whispy.Protocol.{StateSnapshot}
use whispy.Status.Calls.{Op, Call, apply, run, generation-apply, generation-run}
use whispy.Status.Publish.{all_done, publish}
use whispy.Status.{Status, Env, u64_mod, plain, set_success, set_error, wake}
use whispy.Protocol.{State}
use whispy.Text.{Text, Bytes}

module _ (encode : StateSnapshot → Option Bytes) where
  wake_stale : (g : ℕ) (env : Env) (s : Status) → s.generation ≢ g → wake encode g env s ≡ s
  unfolding wake
  wake_stale g env s ne = ground arith

  run-apply_generation :
      (op : Op) (env : Env) (cs : List (Env × Call)) (s : Status)
      → s.generation < u64_mod
      → length cs + 1 < u64_mod
      → (run encode cs (apply encode op env s)).generation ≢ s.generation
  run-apply_generation op env cs s h short =
      let first = generation-apply encode op env s in
      let (k, le, e) = generation-run encode cs (apply encode op env s) (omega arith) in
      λ eq. omega arith

  -- A revert thread whose flash was overwritten leaves everything as it is: if the state was
  -- published again since (once, and then fewer than 2^64 - 2 more calls of any kind), waking up
  -- with the generation of the flash changes nothing.
  pub revert_stale :
      (op : Op) (now later : Env) (cs : List (Env × Call)) (s : Status)
      → s.generation < u64_mod
      → length cs + 1 < u64_mod
      → let t = run encode cs (apply encode op now s) in wake encode s.generation later t ≡ t
  revert_stale op now later cs s h short =
      wake_stale s.generation later _ (run-apply_generation op now cs s h short)

  -- Waking up with the current generation publishes idle in memory.
  wake_shared :
      (later : Env) (t : Status)
      → (wake encode t.generation later t).shared ≡ plain State.idle 0 later.timestamp
  unfolding wake publish
  wake_shared later t = ground arith

  -- The state file shows it if the file system does its part.
  wake_file :
      (later : Env) (t : Status) (bytes : Bytes)
      → later.io ≡ all_done
      → encode (plain State.idle 0 later.timestamp) ≡ some bytes
      → (wake encode t.generation later t).disk.file ≡ some bytes
  unfolding wake publish
  wake_file later t bytes io e = ground (arith, io, e)

  -- What a flash does: `t` shows the state, and a thread sleeps with the generation of `t`.
  abbrev pub Flashes : State → Status → Status → Type 0
  Flashes state s t = (t.shared.state ≡ state) × (t.reverts ≡ t.generation ∷ s.reverts)

  -- Both flashes revert: `success` and `error` show their state and put one thread to sleep, and
  -- that thread, with nothing published in between, publishes idle in memory, whatever the file
  -- system answers. If the file system does its part then, and the snapshot can be encoded, the
  -- state file shows idle too.
  pub flash_reverts :
      (kind message : Text) (flash later : Env) (s : Status)
      → let t = set_success encode flash s in
        let u = set_error encode kind message flash s in
        let t' = wake encode t.generation later t in
        let u' = wake encode u.generation later u in
        Flashes State.success s t
        × Flashes State.error s u
        × (t'.shared ≡ plain State.idle 0 later.timestamp)
        × (u'.shared ≡ plain State.idle 0 later.timestamp)
        × ((bytes : Bytes)
            → later.io ≡ all_done
            → encode (plain State.idle 0 later.timestamp) ≡ some bytes
            → (t'.disk.file ≡ some bytes) × (u'.disk.file ≡ some bytes))
  flash_reverts kind message flash later s = (
    unfold set_success in (ground arith, ground arith),
    unfold set_error in (ground arith, ground arith),
    wake_shared later (set_success encode flash s),
    wake_shared later (set_error encode kind message flash s),
    λ bytes io e. (
      wake_file later (set_success encode flash s) bytes io e,
      wake_file later (set_error encode kind message flash s) bytes io e,
    ),
  )
