-- ===== src/Audio/Clip.antt =====
-- What a capture ends with: `read_loop` and `finish` of crates/daemon/src/audio.rs.
use whispy.Base.{
  ℕ, ◌≤◌, ◌<◌, Bool, true, false, Option, none, some, List, [], ◌∷◌, ◌≡◌, ◌⊎◌, inl, inr, refl, ap,
  arith, any, length, length-append, Bool-cases, if◌then◌else◌, ltb, leb,
}
use whispy.Audio.{
  Signal, AudioConfig, Reader, Stop, too_long, hit_silence, max_samples, min_samples, skip_samples,
  push_sample, end_window, take_pair, feed, Read, read_loop, fresh, apply_gain, from_le_bytes,
  finish, normalize_peak,
}
use whispy.Audio.Chunks.{bytes_of, read_loop-feed}
use whispy.Text.{Bytes}
use whispy.Audio.Meter.{is_loud, Metered, Silent, Judged, end_window-Metered, end_window-samples}

module _ (g : Signal) (cfg : AudioConfig) where
  -- How the loop can stand after a sample.
  pub data Ends (r : Reader) : Option Stop → Type 0 where
    goes_on : Metered g cfg r → length r.samples < max_samples g cfg → Ends r none
    overruns : Metered g cfg r → length r.samples ≡ max_samples g cfg → Ends r (some too_long)
    falls_silent :
        Metered g cfg r
        → Silent g cfg r
        → length r.samples ≤ max_samples g cfg
        → Ends r (some hit_silence)

  Ends-window :
      (r : Reader) (b : Bool)
      → Judged g cfg (r, b)
      → length r.samples ≤ max_samples g cfg
      → Ends r (
          if b
          then some hit_silence
          else if leb (max_samples g cfg) (length r.samples)
          then some too_long
          else none)
  Ends-window r true (v, silent) le = falls_silent v (silent refl) le
  Ends-window r false (v, silent) le =
      elim (Bool-cases (leb (max_samples g cfg) (length r.samples))) [
        | inl full ↦ rw full (overruns v (ground arith))
        | inr room ↦ rw room (goes_on v (ground arith))
      ]

  pair_if :
      (b c : Bool) (r : Reader)
      → ◌≡◌ {A = Reader × Option Stop}
          (if b then (r, some hit_silence) else if c then (r, some too_long) else (r, none))
          (r, if b then some hit_silence else if c then some too_long else none)
  pair_if true c r = refl
  pair_if false true r = refl
  pair_if false false r = refl

  -- The reader and the reason behind one sample that is not skipped.
  take_pair_heard :
      (lo hi : ℕ) (r : Reader)
      → ltb r.skipped (skip_samples cfg) ≡ false
      → let (r1, b) =
          end_window g cfg (push_sample g cfg (apply_gain g cfg (from_le_bytes lo hi)) r) in
        take_pair g cfg lo hi r ≡ (
          r1,
          if b
              then some hit_silence
              else if leb (max_samples g cfg) (length r1.samples)
              then some too_long
              else none,
        )
  unfolding take_pair
  take_pair_heard lo hi r h = rw h (
      pair_if (end_window g cfg (push_sample g cfg (apply_gain g cfg (from_le_bytes lo hi)) r)).1 _
        _)

  take_pair-Ends :
      (lo hi : ℕ) (r : Reader)
      → Metered g cfg r
      → length r.samples < max_samples g cfg
      → Ends (take_pair g cfg lo hi r).0 (take_pair g cfg lo hi r).1
  unfolding take_pair
  take_pair-Ends lo hi r v room = elim (Bool-cases (ltb r.skipped (skip_samples cfg))) [
    | inl early ↦
        rw early (goes_on (record { speech = v.speech; counted = v.counted; quiet = v.quiet }) room)
    | inr late ↦
        let x = apply_gain g cfg (from_le_bytes lo hi) in
        let p = push_sample g cfg x r in
        let j =
          end_window-Metered g cfg p
            (record { speech = v.speech; counted = v.counted; quiet = v.quiet }) in
        rw (take_pair_heard lo hi r late) (
          Ends-window (end_window g cfg p).0 (end_window g cfg p).1 j (
            omega
              (arith, ap length (end_window-samples g cfg p), length-append r.samples (x ∷ []))))
  ]

  feed_next :
      (r : Reader) (a b : ℕ) (bytes : Bytes) (stop : Option Stop)
      → (take_pair g cfg a b r).1 ≡ stop
      → Ends (take_pair g cfg a b r).0 stop
      → (Metered g cfg (take_pair g cfg a b r).0
          → length (take_pair g cfg a b r).0.samples < max_samples g cfg
          → Ends
              (feed g cfg (take_pair g cfg a b r).0 bytes).0
              (feed g cfg (take_pair g cfg a b r).0 bytes).2)
      → Ends (feed g cfg r (a ∷ b ∷ bytes)).0 (feed g cfg r (a ∷ b ∷ bytes)).2
  unfolding feed
  feed_next r a b bytes none e (goes_on v room) rest = rw (e, feed) (rest v room)
  feed_next r a b bytes (some s) e ends rest = rw (e, feed) ends

  feed-Ends :
      (r : Reader) (bytes : Bytes)
      → Metered g cfg r
      → length r.samples < max_samples g cfg
      → Ends (feed g cfg r bytes).0 (feed g cfg r bytes).2
  unfolding feed
  feed-Ends r [] v room = goes_on v room
  feed-Ends r (a ∷ []) v room = goes_on v room
  feed-Ends r (a ∷ b ∷ bytes) v room =
      feed_next r a b bytes (take_pair g cfg a b r).1 refl (take_pair-Ends a b r v room)
        (λ v' room'. feed-Ends (take_pair g cfg a b r).0 bytes v' room')

  -- However a capture ends, its clip is no longer than the cap, and as long as the cap if it was
  -- reported as too long; it was stopped for silence only after a window of speech and
  -- then at least the configured number of windows without; and speech was seen just if some
  -- reported level was above the threshold. This is for a cap of at least one sample.
  pub read_loop-Ends :
      (reads : List Read)
      → 0 < max_samples g cfg
      → Ends (read_loop g cfg reads fresh []).0 (read_loop g cfg reads fresh []).1
  read_loop-Ends reads pos = rw (read_loop-feed g cfg reads fresh [] (omega arith)) (
      feed-Ends fresh (bytes_of g cfg reads)
        (record { speech = refl; counted = omega arith; quiet = refl }) pos)

  Ends-Metered : {r : Reader} {stop : Option Stop} → Ends r stop → Metered g cfg r
  Ends-Metered (goes_on v _) = v
  Ends-Metered (overruns v _) = v
  Ends-Metered (falls_silent v _ _) = v

  finish_cases :
      (r : Reader) (b : Bool)
      → r.speech_seen ≡ b
      → ((finish g (min_samples cfg) r ≡ some (normalize_peak g r.samples))
          × (min_samples cfg ≤ length r.samples)
          × (b ≡ true))
        ⊎ ((finish g (min_samples cfg) r ≡ none)
            × ((length r.samples < min_samples cfg) ⊎ (b ≡ false)))
  unfolding finish
  finish_cases r b e = elim (Bool-cases (ltb (length r.samples) (min_samples cfg))) [
    | inl short ↦ inr (rw short refl, inl (ground arith))
    | inr long ↦ finish_long b e (ground arith) long
  ]
    where
      finish_long :
          (b : Bool)
          → r.speech_seen ≡ b
          → min_samples cfg ≤ length r.samples
          → ltb (length r.samples) (min_samples cfg) ≡ false
          → ((finish g (min_samples cfg) r ≡ some (normalize_peak g r.samples))
              × (min_samples cfg ≤ length r.samples)
              × (b ≡ true))
            ⊎ ((finish g (min_samples cfg) r ≡ none)
                × ((length r.samples < min_samples cfg) ⊎ (b ≡ false)))
      finish_long true e le long = inl (rw (long, e) refl, le, refl)
      finish_long false e le long = inr (rw (long, e) refl, inr refl)

  -- A finished capture hands off a clip just if it is long enough and some reported level was above
  -- the silence threshold: silence is never transcribed.
  pub finish_heard :
      (reads : List Read)
      → 0 < max_samples g cfg
      → let r = (read_loop g cfg reads fresh []).0 in
        (finish g (min_samples cfg) r ≡ some (normalize_peak g r.samples)
          × (min_samples cfg ≤ length r.samples)
          × (any (is_loud g cfg) r.meter ≡ true))
        ⊎ (finish g (min_samples cfg) r ≡ none
            × ((length r.samples < min_samples cfg) ⊎ (any (is_loud g cfg) r.meter ≡ false)))
  finish_heard reads pos =
      let r = (read_loop g cfg reads fresh []).0 in
      let speech = (Ends-Metered (read_loop-Ends reads pos)).speech in
      finish_cases r (any (is_loud g cfg) r.meter) speech
