-- ===== src/Audio.antt =====
-- Audio capture: crates/daemon/src/audio.rs, and the sizes of `config::Audio` in
-- crates/daemon/src/config.rs. Samples are 16-bit patterns. Float arithmetic is an argument. The
-- reads of `pw-record`'s pipe are a list that ends where the loop breaks: at the end of the pipe,
-- at a read error, or at the `stop` flag.
pub mod Chunks
pub mod Meter
pub mod Clip
use whispy.Base.{
  ℕ, zero, suc, ◌+◌, ◌-◌, ◌*◌, ◌/◌, ◌%◌, max, Bool, true, false, ◌&&◌, ◌||◌, not, Option, none,
  some, List, [], ◌∷◌, ◌++◌, map, length, ltb, leb, ◌==◌, if◌then◌else◌,
}
use whispy.Float.{F32, F64, f32, float_lt, float_le}
use whispy.Text.Decimal.{decimal}
use whispy.Text.Words.{is_empty}
use whispy.Text.{Text, Bytes, codes}

-- The float arithmetic of the module.
pub record Signal : Type 0 where
  -- `(f32::from(sample) * factor).round().clamp(-32768.0, 32767.0) as i16`.
  pub amplify : ℕ → F32 → ℕ
  -- `sq_sum + norm * norm` for the `norm` of a sample.
  pub add_energy : F64 → ℕ → F64
  -- `((sq_sum / window_count as f64).sqrt() as f32).clamp(0.0, 1.0)`.
  pub rms : F64 → ℕ → F32
  -- `(f64::from(rate) * max_clip_secs) as usize`.
  pub seconds : ℕ → F64 → ℕ
  -- `NORM_TARGET / peak as f32`.
  pub norm_factor : ℕ → F32

-- `config::Audio`.
pub record AudioConfig : Type 0 where
  pub rate : ℕ
  pub channels : ℕ
  pub max_clip_secs : F64
  pub min_clip_ms : ℕ
  pub rms_interval_ms : ℕ
  pub gain : F32
  pub silence_timeout_ms : ℕ
  pub silence_rms_threshold : F32
  pub source : Text

-- `SKIP_MS` and `SILENCE_FLOOR`.
abbrev pub skip_ms : ℕ
skip_ms = 50

abbrev pub silence_floor : ℕ
silence_floor = 200

-- 1.0.
abbrev pub one : F32
one = 0x3f800000

-- `Audio::max_samples`, `min_samples`, `rms_window` and `silence_windows`.
abbrev pub max_samples : Signal → AudioConfig → ℕ
max_samples g cfg = g.seconds cfg.rate cfg.max_clip_secs

abbrev pub min_samples : AudioConfig → ℕ
min_samples cfg = cfg.rate * cfg.min_clip_ms / 1000

unfoldable pub rms_window : AudioConfig → ℕ
rms_window cfg = max (cfg.rate * cfg.rms_interval_ms / 1000) 1

unfoldable pub silence_windows : AudioConfig → Option ℕ
silence_windows cfg =
    if cfg.silence_timeout_ms == 0
    then none
    else let window_ms = max cfg.rms_interval_ms 1 in
      some (max ((cfg.silence_timeout_ms + (window_ms - 1)) / window_ms) 1)

abbrev pub skip_samples : AudioConfig → ℕ
skip_samples cfg = cfg.rate * skip_ms / 1000

-- The variables of `read_loop`, and the RMS values reported, the newest first.
pub record Reader : Type 0 where
  pub samples : List ℕ
  pub skipped : ℕ
  pub sq_sum : F64
  pub window_count : ℕ
  pub speech_seen : Bool
  pub silent_windows : ℕ
  pub meter : List F32

abbrev pub fresh : Reader
fresh = record {
  samples = [];
  skipped = 0;
  sq_sum = 0;
  window_count = 0;
  speech_seen = false;
  silent_windows = 0;
  meter = [];
}

-- Why the loop breaks before the reads end.
pub data Stop : Type 0 where
  too_long hit_silence : Stop

-- `i16::from_le_bytes`.
abbrev pub from_le_bytes : ℕ → ℕ → ℕ
from_le_bytes lo hi = lo + 256 * hi

-- A read that was interrupted is tried again.
pub data Read : Type 0 where
  interrupted : Read
  chunk : Bytes → Read

module _ (g : Signal) (cfg : AudioConfig) where
  -- `apply_gain`.
  unfoldable pub apply_gain : ℕ → ℕ
  apply_gain sample = if cfg.gain == one then sample else g.amplify sample cfg.gain

  -- A sample joins the clip and the window.
  abbrev pub push_sample : ℕ → Reader → Reader
  push_sample x r = record r {
    samples = r.samples ++ (x ∷ []);
    sq_sum = g.add_energy r.sq_sum x;
    window_count = r.window_count + 1;
  }

  -- Whether the silent windows reach the limit.
  abbrev pub reaches : ℕ → Option ℕ → Bool
  reaches n none = false
  reaches n (some limit) = leb limit n

  -- The end of a window: the reported RMS counts as speech or as silence.
  unfoldable pub judge_window : F32 → Reader → Reader × Bool
  unfolding silence_windows
  judge_window level r =
      if float_lt f32 cfg.silence_rms_threshold level
      then (record r { speech_seen = true; silent_windows = 0 }, false)
      else if r.speech_seen
      then (
        record r { silent_windows = r.silent_windows + 1 },
        reaches (r.silent_windows + 1) (silence_windows cfg),
      )
      else (r, false)

  unfoldable pub end_window : Reader → Reader × Bool
  unfolding judge_window rms_window
  end_window r =
      if leb (rms_window cfg) r.window_count
      then (let level = g.rms r.sq_sum r.window_count in
          judge_window level (record r { meter = level ∷ r.meter; sq_sum = 0; window_count = 0 }))
      else (r, false)

  -- The body of the loop over the samples.
  unfoldable pub take_pair : ℕ → ℕ → Reader → Reader × Option Stop
  unfolding apply_gain end_window
  take_pair lo hi r =
      if ltb r.skipped (skip_samples cfg)
      then (record r { skipped = r.skipped + 1 }, none)
      else let (r1, silent) = end_window (push_sample (apply_gain (from_le_bytes lo hi)) r) in
        if silent
        then (r1, some hit_silence)
        else if leb (max_samples g cfg) (length r1.samples)
        then (r1, some too_long)
        else (r1, none)

  -- The loop over the samples of what is left over and read: with the odd byte at its end.
  unfoldable pub feed : Reader → Bytes → Reader × Bytes × Option Stop
  unfolding take_pair
  feed r [] = (r, [], none)
  feed r (a ∷ []) = (r, a ∷ [], none)
  feed r (a ∷ b ∷ bytes) = elim (take_pair a b r).1 [
    | some stop ↦ ((take_pair a b r).0, [], some stop)
    | none ↦ feed (take_pair a b r).0 bytes
  ]

  -- `read_loop`, up to the flags and callbacks behind the loop. The list ends where the source reads
  -- `Ok(0)`, so that no chunk of it is empty.
  unfoldable pub read_loop : List Read → Reader → Bytes → Reader × Option Stop
  unfolding feed
  read_loop [] r leftover = (r, none)
  read_loop (interrupted ∷ reads) r leftover = read_loop reads r leftover
  read_loop (chunk bytes ∷ reads) r leftover =
      let (r1, left, stop) = feed r (leftover ++ bytes) in
      elim stop [ some s ↦ (r1, some s) | none ↦ read_loop reads r1 left ]

-- `unsigned_abs` of an `i16`.
abbrev pub unsigned_abs : ℕ → ℕ
unsigned_abs s = if ltb s 0x8000 then s else 0x10000 - s

abbrev pub peak_of : List ℕ → ℕ
peak_of [] = 0
peak_of (s ∷ ss) = max (unsigned_abs s) (peak_of ss)

-- `normalize_peak`.
unfoldable pub normalize_peak : Signal → List ℕ → List ℕ
normalize_peak g buf =
    let peak = peak_of buf in
    if leb peak silence_floor
    then buf
    else let factor = g.norm_factor peak in
      if float_le f32 factor one then buf else map (λ s. g.amplify s factor) buf

-- `Capture::finish`, once the reader is joined.
unfoldable pub finish : Signal → ℕ → Reader → Option (List ℕ)
unfolding normalize_peak
finish g min r =
    if ltb (length r.samples) min || not r.speech_seen
    then none
    else some (normalize_peak g r.samples)

-- `record_args`.
unfoldable pub record_args : ℕ → ℕ → Text → List Text
record_args rate channels source =
    (if not (is_empty source) then codes "--target" ∷ source ∷ [] else [])
    ++ (codes "--raw"
        ∷ codes "--rate"
        ∷ decimal rate
        ∷ codes "--channels"
        ∷ decimal channels
        ∷ codes "--format"
        ∷ codes "s16"
        ∷ codes "-"
        ∷ [])
