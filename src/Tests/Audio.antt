-- ===== src/Tests/Audio.antt =====
-- Captures of concrete bytes: crates/daemon/src/audio.rs.
use whispy.Audio.Chunks.{read_loop_chunks}
use whispy.Audio.Meter.{is_loud}
use whispy.Audio.Clip.{Ends, read_loop-Ends, finish_heard}
use whispy.Audio.{
  Signal, AudioConfig, Read, interrupted, chunk, fresh, read_loop, finish, min_samples,
  normalize_peak, too_long,
}
use whispy.Base.{
  some, none, [], ◌∷◌, ◌≡◌, ◌≤◌, ◌<◌, ◌⊎◌, List, refl, arith, any, true, false, length,
}

-- A microphone with a cap of three samples, all of them loud.
abbrev loud : Signal
loud = record {
  amplify = λ s factor. s;
  add_energy = λ acc s. acc;
  rms = λ acc n. 1065353216;
  seconds = λ rate secs. 3;
  norm_factor = λ peak. 1065353216;
}

abbrev config : AudioConfig
config = record {
  rate = 10;
  channels = 1;
  max_clip_secs = 4599075939470750515;
  min_clip_ms = 200;
  rms_interval_ms = 100;
  gain = 1065353216;
  silence_timeout_ms = 0;
  silence_rms_threshold = 1008981770;
  source = [];
}

-- Five samples in two reads, cut inside a sample.
abbrev reads : List Read
reads = chunk (1 ∷ 0 ∷ 2 ∷ []) ∷ interrupted ∷ chunk (0 ∷ 3 ∷ 0 ∷ 4 ∷ 0 ∷ 5 ∷ 0 ∷ []) ∷ []

read_loop_chunks_example :
    read_loop loud config reads fresh []
    ≡ read_loop loud config (chunk (1 ∷ 0 ∷ 2 ∷ 0 ∷ 3 ∷ 0 ∷ 4 ∷ 0 ∷ 5 ∷ 0 ∷ []) ∷ []) fresh []
read_loop_chunks_example =
    read_loop_chunks loud config reads (chunk (1 ∷ 0 ∷ 2 ∷ 0 ∷ 3 ∷ 0 ∷ 4 ∷ 0 ∷ 5 ∷ 0 ∷ []) ∷ [])
      refl

read_loop-Ends_example :
    Ends loud config
      (read_loop loud config reads fresh []).0
      (read_loop loud config reads fresh []).1
read_loop-Ends_example = read_loop-Ends loud config reads (omega arith)

finish_heard_example :
    (finish loud (min_samples config) (read_loop loud config reads fresh []).0
        ≡ some (normalize_peak loud (read_loop loud config reads fresh []).0.samples)
      × (min_samples config ≤ length (read_loop loud config reads fresh []).0.samples)
      × (any (is_loud loud config) (read_loop loud config reads fresh []).0.meter ≡ true))
    ⊎ (finish loud (min_samples config) (read_loop loud config reads fresh []).0 ≡ none
        × ((length (read_loop loud config reads fresh []).0.samples < min_samples config)
            ⊎ (any (is_loud loud config) (read_loop loud config reads fresh []).0.meter ≡ false)))
finish_heard_example = finish_heard loud config reads (omega arith)

capped : (read_loop loud config reads fresh []).1 ≡ some too_long
unfolding read_loop whispy.Float.float_lt
capped = refl
