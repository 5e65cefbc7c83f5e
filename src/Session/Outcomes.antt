-- ===== src/Session/Outcomes.antt =====
-- The ways a clip can go through `outcome` and `conclude`: crates/daemon/src/app.rs.
use whispy.Base.{
  ℕ, true, false, Option, none, some, ◌∷◌, ◌≡◌, ◌⊎◌, inl, inr, refl, arith, ok, err, Result, ◌∙◌,
  ap,
}
use whispy.Filter.{Decision, accept, drop, DropReason, kind, evaluate}
use whispy.Session.State.{
  App, Setup, Answers, Clip, logged, Outcome, Transcription, was_delivered, was_cancelled, failed,
  is_recording, is_cancelled, is_stopped, emit,
}
use whispy.Session.{notify, judge, inject, deliver, outcome, conclude, process}
use whispy.Status.{Env, set_success, set_error}
use whispy.Text.{Text, codes}

-- What the filter decides on a transcription.
abbrev pub verdict : Setup → Transcription → Decision
verdict w t =
    evaluate w.chars w.similarity t.text
      (record { avg_logprob = t.avg_logprob; no_speech_prob = t.no_speech_prob }) w.filter
      w.blacklist

pub Result-cases :
    {A : Type 0} (r : Result Text A) → ((e : Text) × (r ≡ err e)) ⊎ ((x : A) × (r ≡ ok x))
Result-cases (err e) = inl (e, refl)
Result-cases (ok x) = inr (x, refl)

pub Decision-cases :
    (d : Decision) → ((text : Text) × (d ≡ accept text)) ⊎ ((r : DropReason) × (d ≡ drop r))
Decision-cases (accept text) = inl (text, refl)
Decision-cases (drop r) = inr (r, refl)

module _ (w : Setup) where
  -- `conclude` where `report` does publish.
  abbrev pub conclude_in_view : ℕ → Outcome → Env → App → App
  conclude_in_view id was_cancelled env a = a
  conclude_in_view id was_delivered env a = record a { status = set_success w.encode env a.status }
  conclude_in_view id (failed k m summary) env a =
      notify w true summary m (record a { status = set_error w.encode k m env a.status })

  -- Behind a newer recording, or once cancelled, concluding publishes nothing.
  conclude_quiet :
      (id : ℕ) (o : Outcome) (env : Env) (a : App)
      → (is_recording a ≡ true) ⊎ (is_cancelled id a ≡ true)
      → (conclude w id o env a).status ≡ a.status
  unfolding conclude
  conclude_quiet id was_cancelled env a h = refl
  conclude_quiet id was_delivered env a h = ground arith
  conclude_quiet id (failed k m s) env a h = ground arith

  -- What `outcome` leaves alone.
  outcome_frame :
      (clip : Clip) (w' : Answers) (a : App)
      → ((outcome w clip w' a).0.status ≡ a.status)
        × ((outcome w clip w' a).0.lifecycle ≡ a.lifecycle)
        × ((outcome w clip w' a).0.auto_stopped ≡ a.auto_stopped)
  unfolding outcome
  outcome_frame clip w' a = ground arith

  is_recording_cong :
      (a b : App)
      → b.lifecycle ≡ a.lifecycle
      → b.auto_stopped ≡ a.auto_stopped
      → is_recording b ≡ is_recording a
  unfolding is_recording is_stopped
  is_recording_cong a b l s = ground arith

  is_cancelled_cong :
      (id : ℕ) (a b : App) → b.lifecycle ≡ a.lifecycle → is_cancelled id b ≡ is_cancelled id a
  unfolding is_cancelled
  is_cancelled_cong id a b l = ground arith

  -- A clip that ends while a newer recording is capturing, or after it was cancelled, leaves the
  -- published state as it is: memory, file, generation and sleeping reverts.
  pub process_quiet :
      (clip : Clip) (w' : Answers) (a : App)
      → (is_recording a ≡ true) ⊎ (is_cancelled clip.id a ≡ true)
      → (process w clip w' a).status ≡ a.status
  unfolding process
  process_quiet clip w' a h =
      let (st, l, s) = outcome_frame clip w' a in
      let b = (outcome w clip w' a).0 in
      conclude_quiet clip.id (outcome w clip w' a).1 w'.env b
        (ground (arith, is_recording_cong a b l s, is_cancelled_cong clip.id a b l))
      ∙ st

  -- The ways through `outcome`.
  pub outcome_err :
      (clip : Clip) (w' : Answers) (a : App) (e : Text)
      → w'.transcription ≡ err e
      → outcome w clip w' a ≡ (a, failed (codes "stt_error") e (some (codes "Dictation failed")))
  unfolding outcome judge
  outcome_err clip w' a e h = ground arith

  pub outcome-drop :
      (clip : Clip) (w' : Answers) (a : App) (t : Transcription) (r : DropReason)
      → w'.transcription ≡ ok t
      → verdict w t ≡ drop r
      → outcome w clip w' a ≡ (
        emit (logged clip.id (some (kind r))) a,
        failed (kind r) (codes "transcript rejected by filter") none,
      )
  unfolding outcome judge
  outcome-drop clip w' a t r h d = ground arith

  pub outcome_accept :
      (clip : Clip) (w' : Answers) (a : App) (t : Transcription) (text : Text)
      → w'.transcription ≡ ok t
      → verdict w t ≡ accept text
      → outcome w clip w' a ≡ deliver w text clip w'.injection (emit (logged clip.id none) a)
  unfolding outcome judge
  outcome_accept clip w' a t text h d = ground arith

  pub process_as :
      (clip : Clip) (w' : Answers) (a b : App) (o : Outcome)
      → outcome w clip w' a ≡ (b, o)
      → process w clip w' a ≡ conclude w clip.id o w'.env b
  unfolding process
  process_as clip w' a b o h = rw h refl

  -- The ways through `conclude`.
  conclude_cancelled :
      (id : ℕ) (o : Outcome) (env : Env) (a : App)
      → is_cancelled id a ≡ true
      → conclude w id o env a ≡ a
  unfolding conclude
  conclude_cancelled id was_cancelled env a h = refl
  conclude_cancelled id was_delivered env a h = ground arith
  conclude_cancelled id (failed k m none) env a h = ground arith
  conclude_cancelled id (failed k m (some s)) env a h = ground arith

  pub conclude_shown :
      (id : ℕ) (o : Outcome) (env : Env) (a : App)
      → is_cancelled id a ≡ false
      → is_recording a ≡ false
      → conclude w id o env a ≡ conclude_in_view id o env a
  unfolding conclude
  conclude_shown id was_cancelled env a h r = refl
  conclude_shown id was_delivered env a h r = ground arith
  conclude_shown id (failed k m none) env a h r = ground arith
  conclude_shown id (failed k m (some s)) env a h r = ground arith

  deliver_cancelled :
      (text : Text) (clip : Clip) (i : Result Text (Unit {0})) (a : App)
      → is_cancelled clip.id a ≡ true
      → deliver w text clip i a ≡ (a, was_cancelled)
  unfolding deliver
  deliver_cancelled text clip i a h = rw h refl

  pub deliver_live :
      (text : Text) (clip : Clip) (i : Result Text (Unit {0})) (a : App)
      → is_cancelled clip.id a ≡ false
      → deliver w text clip i a ≡ inject w text clip i a
  unfolding deliver
  deliver_live text clip i a h = rw h refl

  -- A cancelled clip does no more than log its transcription: nothing is pasted, shown or notified.
  process_cancelled :
      (clip : Clip) (w' : Answers) (a : App)
      → is_cancelled clip.id a ≡ true
      → ((process w clip w' a).events ≡ a.events)
        ⊎ ((reason : Option Text) × ((process w clip w' a).events
              ≡ logged clip.id reason ∷ a.events))
  unfolding is_cancelled
  process_cancelled clip w' a h = elim (Result-cases w'.transcription) [
    | inl (e, t) ↦ inl (
        ap (λ x. x.events)
          (process_as clip w' a _ _ (outcome_err clip w' a e t)
            ∙ conclude_cancelled clip.id _ w'.env a h))
    | inr (t, e) ↦ elim (Decision-cases (verdict w t)) [
      | inl (text, d) ↦ inr (
        none,
        ap (λ x. x.events)
            (process_as clip w' a _ _
                (outcome_accept clip w' a t text e d ∙ deliver_cancelled text clip w'.injection _ h)
              ∙ conclude_cancelled clip.id was_cancelled w'.env _ h),
      )
      | inr (r, d) ↦ inr (
        some (kind r),
        ap (λ x. x.events)
            (process_as clip w' a _ _ (outcome-drop clip w' a t r e d)
              ∙ conclude_cancelled clip.id _ w'.env _ h),
      )
    ]
  ]
