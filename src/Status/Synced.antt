-- ===== src/Status/Synced.antt =====
-- What a reader of `state.json` sees: crates/daemon/src/state.rs, `write_locked` and `should_publish`.
use whispy.Base.{
  ℕ, List, [], ◌∷◌, ◌≡◌, ◌≢◌, ◌⊎◌, inl, inr, Option, some, arith, ◌∙◌, sym, ap, Bool-cases, ◌==◌,
}
use whispy.Protocol.{State, StateSnapshot}
use whispy.Status.Calls.{
  Op, recording, transcribing, idle, success, error, Call, writes, wakes, apply, step, run,
}
use whispy.Status.Publish.{all_done, publish}
use whispy.Status.{
  Status, Env, plain, error_snapshot, write_locked, set_recording, set_transcribing, set_idle,
  set_success, set_error, wake,
}
use whispy.Text.{Bytes}

-- The file holds a snapshot in the state of memory, and the very snapshot of memory unless that
-- is a recording one.
abbrev pub Synced : (StateSnapshot → Bytes) → Status → Type 0
Synced encode s =
    (t : StateSnapshot) × (s.disk.file ≡ some (encode t))
    × (t.state ≡ s.shared.state)
    × (s.shared.state ≢ State.recording → t ≡ s.shared)

module _ (encode : StateSnapshot → Bytes) where
  abbrev total : StateSnapshot → Option Bytes
  total t = some (encode t)

  -- Either the snapshot reaches the file, or memory goes from a recording one to a recording one.
  write_locked_cases :
      (env : Env) (snapshot : StateSnapshot) (s : Status)
      → env.io ≡ all_done
      → let t = (write_locked total env snapshot s).0 in
        (t.disk.file ≡ some (encode snapshot))
        ⊎ ((t.disk.file ≡ s.disk.file)
            × (snapshot.state ≡ State.recording)
            × (s.shared.state ≡ State.recording))
  unfolding write_locked publish
  write_locked_cases env snapshot s io = ground arith

  shared-write_locked :
      (env : Env) (snapshot : StateSnapshot) (s : Status)
      → (write_locked total env snapshot s).0.shared ≡ snapshot
  unfolding write_locked
  shared-write_locked env snapshot s = ground arith

  write_locked-Synced :
      (env : Env) (snapshot : StateSnapshot) (s : Status)
      → env.io ≡ all_done
      → Synced encode s
      → Synced encode (write_locked total env snapshot s).0
  write_locked-Synced env snapshot s io (t, file, same, full) =
      let now = shared-write_locked env snapshot s in
      elim (write_locked_cases env snapshot s io) [
        | inl fresh ↦ (snapshot, fresh, rw now, λ ne. rw now)
        | inr (kept, new, old) ↦ (
          t,
          kept ∙ file,
          same ∙ old ∙ sym new ∙ ap (λ x. x.state) (sym now),
          λ ne. absurd (ne (ap (λ x. x.state) now ∙ new)),
        )
      ]

  apply-Synced :
      (op : Op) (env : Env) (s : Status)
      → env.io ≡ all_done
      → Synced encode s
      → Synced encode (apply total op env s)
  unfolding apply set_recording set_transcribing set_idle set_success set_error
  apply-Synced (recording rms) env s io h =
      write_locked-Synced env (plain State.recording rms env.timestamp) s io h
  apply-Synced transcribing env s io h =
      write_locked-Synced env (plain State.transcribing 0 env.timestamp) s io h
  apply-Synced idle env s io h = write_locked-Synced env (plain State.idle 0 env.timestamp) s io h
  apply-Synced success env s io h =
      write_locked-Synced env (plain State.success 0 env.timestamp) s io h
  apply-Synced (error kind message) env s io h =
      write_locked-Synced env (error_snapshot kind message env.timestamp) s io h

  wake-Synced :
      (g : ℕ) (env : Env) (s : Status)
      → env.io ≡ all_done
      → Synced encode s
      → Synced encode (wake total g env s)
  unfolding wake
  wake-Synced g env s io h = elim (Bool-cases (s.generation == g)) [
    | inl same ↦ rw same (write_locked-Synced env (plain State.idle 0 env.timestamp) s io h)
    | inr other ↦ rw other h
  ]

  abbrev pub AllDone : List (Env × Call) → Type 0
  AllDone [] = Unit
  AllDone ((env, c) ∷ cs) = (env.io ≡ all_done) × AllDone cs

  -- While the file system does its part and snapshots can be encoded, the state file follows
  -- memory through any calls, throttled ones and reverts included: it always holds a snapshot in
  -- the state that memory is in, and the very snapshot of memory unless that is a recording one.
  pub run-Synced :
      (cs : List (Env × Call)) (s : Status)
      → AllDone cs
      → Synced encode s
      → Synced encode (run total cs s)
  unfolding run step
  run-Synced [] s io h = h
  run-Synced ((env, writes op) ∷ cs) s (io, rest) h =
      run-Synced cs _ rest (apply-Synced op env s io h)
  run-Synced ((env, wakes g) ∷ cs) s (io, rest) h = run-Synced cs _ rest (wake-Synced g env s io h)
