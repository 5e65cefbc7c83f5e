-- ===== src/Audio/Meter.antt =====
-- The reported levels and the silent windows counted: `read_loop` of crates/daemon/src/audio.rs.
use whispy.Base.{
  ℕ, zero, suc, ◌+◌, ◌≤◌, Bool, true, false, Option, none, some, List, [], ◌∷◌, ◌≡◌, inl, inr, refl,
  sym, ap, ◌∙◌, arith, any, take, length, Bool-cases, leb,
}
use whispy.Audio.{
  Signal, AudioConfig, Reader, silence_windows, rms_window, reaches, judge_window, end_window,
}
use whispy.Float.{F32, f32, float_lt}

module _ (g : Signal) (cfg : AudioConfig) where
  -- Louder than the silence threshold.
  abbrev pub is_loud : F32 → Bool
  is_loud level = float_lt f32 cfg.silence_rms_threshold level

  -- Speech was seen in a reported window, and the last windows counted as silent were.
  pub record Metered (r : Reader) : Type 0 where
    pub speech : r.speech_seen ≡ any is_loud r.meter
    pub counted : r.silent_windows ≤ length r.meter
    pub quiet : any is_loud (take r.silent_windows r.meter) ≡ false

  -- After speech, the last windows were silent, as many as the limit asks.
  pub record Silent (r : Reader) : Type 0 where
    pub limit : ℕ
    pub enabled : silence_windows cfg ≡ some limit
    pub heard : any is_loud r.meter ≡ true
    pub enough : limit ≤ length r.meter
    pub trailing : any is_loud (take limit r.meter) ≡ false

  take_next : (n : ℕ) (x : F32) (xs : List F32) → take (n + 1) (x ∷ xs) ≡ x ∷ take n xs
  take_next n x xs = ap (λ k. take k (x ∷ xs)) {y = suc n} (omega arith)

  quiet_take :
      (n m : ℕ) (xs : List F32)
      → n ≤ m
      → any is_loud (take m xs) ≡ false
      → any is_loud (take n xs) ≡ false
  quiet_take zero m xs le h = refl
  quiet_take (suc n) m [] le h = refl
  quiet_take (suc n) zero (x ∷ xs) le h = absurd (omega arith)
  quiet_take (suc n) (suc m) (x ∷ xs) le h = ground (arith, quiet_take n m xs)

  -- One more quiet window.
  quiet_next :
      (level : F32) (n : ℕ) (meter : List F32)
      → is_loud level ≡ false
      → any is_loud (take n meter) ≡ false
      → any is_loud (take (n + 1) (level ∷ meter)) ≡ false
  quiet_next level n meter q h = rw (take_next n level meter, q) h

  -- A window's end keeps the record straight, and tells silence only where it is.
  abbrev pub Judged : Reader × Bool → Type 0
  Judged (r, b) = Metered r × ((b ≡ true) → Silent r)

  abbrev with_level : F32 → Reader → Reader
  with_level level r = record r { meter = level ∷ r.meter }

  loud_Metered :
      (level : F32) (r : Reader)
      → is_loud level ≡ true
      → Metered (record (with_level level r) { speech_seen = true; silent_windows = 0 })
  loud_Metered level r l = record { speech = rw l refl; counted = omega arith; quiet = refl }

  counted_Metered :
      (level : F32) (r : Reader)
      → is_loud level ≡ false
      → Metered r
      → Metered (record (with_level level r) { silent_windows = r.silent_windows + 1 })
  counted_Metered level r q v = record {
    speech = rw q v.speech;
    counted = omega (arith, v.counted);
    quiet = quiet_next level r.silent_windows r.meter q v.quiet;
  }

  idle_Metered :
      (level : F32) (r : Reader) → is_loud level ≡ false → Metered r → Metered (with_level level r)
  idle_Metered level r q v = record {
    speech = rw q v.speech;
    counted = omega (arith, v.counted);
    quiet =
        quiet_take r.silent_windows (r.silent_windows + 1) (level ∷ r.meter) (omega arith)
          (quiet_next level r.silent_windows r.meter q v.quiet);
  }

  reached_Silent :
      (r : Reader) (o : Option ℕ)
      → Metered r
      → r.speech_seen ≡ true
      → silence_windows cfg ≡ o
      → reaches g cfg r.silent_windows o ≡ true
      → Silent r
  reached_Silent r none v s e h = cc
  reached_Silent r (some limit) v s e h = record {
    limit = limit;
    enabled = e;
    heard = sym v.speech ∙ s;
    enough = ground (arith, v.counted, h);
    trailing = quiet_take limit r.silent_windows r.meter (ground (arith, h)) v.quiet;
  }

  seen_as :
      (b : Bool) (r : Reader)
      → r.speech_seen ≡ b
      → Metered r
      → Metered (record r { speech_seen = b })
  seen_as b r e v = record { speech = sym e ∙ v.speech; counted = v.counted; quiet = v.quiet }

  judge_window-Metered :
      (level : F32) (r : Reader)
      → Metered r
      → Judged (judge_window g cfg level (with_level level r))
  unfolding judge_window
  judge_window-Metered level r v = elim (Bool-cases (is_loud level)) [
    | inl loud ↦ rw loud (loud_Metered level r loud, λ h. cc)
    | inr soft ↦ elim (Bool-cases r.speech_seen) [
      | inl seen ↦
          let v1 =
            counted_Metered level (record r { speech_seen = true }) soft (seen_as true r seen v) in
          rw (soft, seen) (v1, λ h. reached_Silent _ (silence_windows cfg) v1 refl refl h)
      | inr unseen ↦
          rw (soft, unseen)
            (
              idle_Metered level (record r { speech_seen = false }) soft (seen_as false r unseen v),
              λ h. cc,
            )
    ]
  ]

  judge_window-samples :
      (level : F32) (r : Reader) → (judge_window g cfg level r).0.samples ≡ r.samples
  unfolding judge_window
  judge_window-samples level r = ground arith

  pub end_window-samples : (r : Reader) → (end_window g cfg r).0.samples ≡ r.samples
  unfolding end_window
  end_window-samples r = ground (
    arith,
    judge_window-samples (g.rms r.sq_sum r.window_count) (record r {
      meter = g.rms r.sq_sum r.window_count ∷ r.meter;
      sq_sum = 0;
      window_count = 0;
    }),
  )

  pub end_window-Metered : (r : Reader) → Metered r → Judged (end_window g cfg r)
  unfolding end_window
  end_window-Metered r v = elim (Bool-cases (leb (rms_window cfg) r.window_count)) [
    | inl full ↦ rw full (
        judge_window-Metered (g.rms r.sq_sum r.window_count)
          (record r { sq_sum = 0; window_count = 0 })
          (record { speech = v.speech; counted = v.counted; quiet = v.quiet }))
    | inr partial ↦ rw partial (v, λ h. cc)
  ]
