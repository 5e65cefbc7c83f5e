-- ===== src/Tests/Status.antt =====
-- The published state on concrete calls: crates/daemon/src/state.rs.
use whispy.Base.{
  ℕ, ◌+◌, ◌*◌, ◌≤◌, true, false, Option, none, some, List, [], ◌∷◌, ◌≡◌, refl, arith, ◌⊎◌,
}
use whispy.Float.{F32}
use whispy.Protocol.{StateSnapshot, State, default_snapshot}
use whispy.Status.Calls.{Op, Call, writes, wakes, run, apply}
use whispy.Status.Publish.{Io, all_done, publish, publish_atomic}
use whispy.Status.Revert.{revert_stale, flash_reverts, Flashes}
use whispy.Status.Synced.{Synced, run-Synced}
use whispy.Status.Throttle.{ticks, published, published_rate}
use whispy.Status.{Status, Env, new, plain, wake, set_success, set_error, set_recording}
use whispy.Text.{Bytes, codes}

-- The encoding writes the state's number, the level and the time.
abbrev number : State → ℕ
number State.idle = 0
number State.recording = 1
number State.transcribing = 2
number State.success = 3
number State.error = 4

abbrev encode : StateSnapshot → Bytes
encode s = number s.state ∷ s.rms ∷ s.timestamp ∷ []

abbrev json : StateSnapshot → Option Bytes
json s = some (encode s)

abbrev at : ℕ → Env
at n = record { timestamp = n; instant = n; io = all_done }

abbrev boot : Status
boot = record (new (λ _. 100) default_snapshot (record { tmp = none; file = none }) 10 0) {
  disk = record { tmp = none; file = some (encode default_snapshot) };
}

abbrev recording : Status
recording = set_recording json 0 (at 5) boot

abbrev meter_ticks : List (F32 × Env)
meter_ticks = (1, at 50) ∷ (2, at 104) ∷ (3, at 110) ∷ (4, at 260) ∷ []

-- Two of the four ticks are published.
published_two : published json meter_ticks recording ≡ 2
unfolding published set_recording new
published_two = refl

published_rate_example :
    published json meter_ticks recording * recording.min_interval + recording.last_publish
    ≤ (ticks json meter_ticks recording).last_publish
unfolding set_recording new
published_rate_example = published_rate json meter_ticks recording refl (omega arith)

revert_stale_example :
    let t = run json ((at 9, writes (Op.recording 0)) ∷ []) (apply json Op.idle (at 8) boot) in
    wake json 0 (at 20) t ≡ t
unfolding new
revert_stale_example =
    revert_stale json Op.idle (at 8) (at 20) ((at 9, writes (Op.recording 0)) ∷ []) boot
      (omega arith) (omega arith)

flash_reverts_example :
    let t = set_success json (at 8) boot in
    let u = set_error json (codes "k") (codes "m") (at 8) boot in
    let t' = wake json t.generation (at 20) t in
    let u' = wake json u.generation (at 20) u in
    Flashes json State.success boot t
    × Flashes json State.error boot u
    × (t'.shared ≡ plain State.idle 0 20)
    × (u'.shared ≡ plain State.idle 0 20)
    × ((bytes : Bytes)
        → (at 20).io ≡ all_done
        → json (plain State.idle 0 20) ≡ some bytes
        → (t'.disk.file ≡ some bytes) × (u'.disk.file ≡ some bytes))
flash_reverts_example = flash_reverts json (codes "k") (codes "m") (at 8) (at 20) boot

abbrev calls : List (Env × Call)
calls = (at 8, writes (Op.recording 0)) ∷ (at 9, writes Op.success) ∷ (at 20, wakes 2) ∷ []

run-Synced_example : Synced encode (run json calls boot)
unfolding new
run-Synced_example =
    run-Synced encode calls boot (refl, (refl, (refl, tt)))
      (default_snapshot, refl, refl, λ _. refl)

-- A full disk: the write stops half way.
abbrev full : Io
full = record all_done { write_done = false; written = 1 }

publish_atomic_example :
    (((publish full (some (1 ∷ 2 ∷ [])) boot.disk).1 ≡ false)
      × ((publish full (some (1 ∷ 2 ∷ [])) boot.disk).0.file ≡ boot.disk.file))
    ⊎ (((publish full (some (1 ∷ 2 ∷ [])) boot.disk).1 ≡ true)
        × ((publish full (some (1 ∷ 2 ∷ [])) boot.disk).0.file ≡ some (1 ∷ 2 ∷ []))
        × ((publish full (some (1 ∷ 2 ∷ [])) boot.disk).0.tmp ≡ none))
publish_atomic_example = publish_atomic full (some (1 ∷ 2 ∷ [])) boot.disk
