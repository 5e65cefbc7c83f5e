-- ===== src/Status/Throttle.antt =====
-- The rate of `state.json` writes while recording: `should_publish` of crates/daemon/src/state.rs.
use whispy.Base.{
  ℕ, ◌+◌, ◌*◌, ◌≤◌, ◌<◌, Bool, true, false, List, [], ◌∷◌, ◌≡◌, Option, arith, if◌then◌else◌, ap,
}
use whispy.Float.{F32}
use whispy.Protocol.{State, StateSnapshot}
use whispy.Status.{Status, Env, should_publish, set_recording}
use whispy.Text.{Bytes}

module _ (encode : StateSnapshot → Option Bytes) where
  -- The RMS ticks of a capture, one after the other.
  unfoldable pub ticks : List (F32 × Env) → Status → Status
  ticks [] s = s
  ticks ((rms, env) ∷ ts) s = ticks ts (set_recording encode rms env s)

  -- How many of them publish.
  unfoldable pub published : List (F32 × Env) → Status → ℕ
  published [] s = 0
  published ((rms, env) ∷ ts) s =
      (if (should_publish State.recording s.shared.state env.instant s).1 then 1 else 0)
      + published ts (set_recording encode rms env s)

  tick_facts :
      (rms : F32) (env : Env) (s : Status)
      → s.shared.state ≡ State.recording
      → 0 < s.min_interval
      → let t = set_recording encode rms env s in
        (t.shared.state ≡ State.recording)
        × (t.min_interval ≡ s.min_interval)
        × ((if (should_publish State.recording s.shared.state env.instant s).1
                then s.min_interval
                else 0)
              + s.last_publish
            ≤ t.last_publish)
  unfolding set_recording
  tick_facts rms env s r pos = ground arith

  count_step :
      (b : Bool) (n l : ℕ) {m m' l' last : ℕ}
      → m' ≡ m
      → (if b then m else 0) + l ≤ l'
      → n * m' + l' ≤ last
      → ((if b then 1 else 0) + n) * m + l ≤ last
  count_step true n l same h rest = omega (arith, ap (λ (t : ℕ). n * t) same)
  count_step false n l same h rest = omega (arith, ap (λ (t : ℕ). n * t) same)

  -- While recording, the writes are at least `min_interval` apart: `n` publishing ticks take the
  -- time of the last publish forward by `n` intervals or more, whatever clock readings they see.
  pub published_rate :
      (ts : List (F32 × Env)) (s : Status)
      → s.shared.state ≡ State.recording
      → 0 < s.min_interval
      → published ts s * s.min_interval + s.last_publish ≤ (ticks ts s).last_publish
  unfolding published ticks
  published_rate [] s r pos = omega arith
  published_rate ((rms, env) ∷ ts) s r pos =
      let (r', same, moved) = tick_facts rms env s r pos in
      count_step (should_publish State.recording s.shared.state env.instant s).1 _ s.last_publish
        same moved (published_rate ts (set_recording encode rms env s) r' (omega arith))
