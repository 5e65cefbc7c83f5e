-- ===== src/Session/Endings.antt =====
-- How a clip in view ends: `process` of crates/daemon/src/app.rs.
use whispy.Session.Outcomes.{
  verdict, Result-cases, Decision-cases, outcome_err, outcome-drop, outcome_accept, process_as,
  conclude_in_view, conclude_shown, deliver_live,
}
use whispy.Base.{
  false, none, some, List, [], ◌∷◌, ◌++◌, ◌≡◌, inl, inr, refl, arith, ok, err, ◌∙◌, ap,
}
use whispy.Filter.{accept, drop, DropReason, kind}
use whispy.Protocol.{State, StateSnapshot}
use whispy.Session.State.{
  App, Setup, Answers, Clip, Event, logged, injected, inject_failed, notified, Transcription,
  was_delivered, failed, is_recording, is_cancelled, is_stopped, emit,
}
use whispy.Session.{inject, process}
use whispy.Status.{Status, Env, plain, error_snapshot, set_success, set_error}
use whispy.Text.{Text, codes}

-- How a clip ends that was not cancelled: the state shown, and the calls made, the newest first.
pub data Ending (w : Setup) (clip : Clip) (w' : Answers) : StateSnapshot → List Event → Type 0 where
  stt_failed :
      {e : Text}
      → w'.transcription ≡ err e
      → Ending w clip w'
          (error_snapshot (codes "stt_error") e w'.env.timestamp)
          (notified (codes "Dictation failed") e ∷ [])
  rejected :
      {t : Transcription} {r : DropReason}
      → w'.transcription ≡ ok t
      → verdict w t ≡ drop r
      → Ending w clip w'
          (error_snapshot (kind r) (codes "transcript rejected by filter") w'.env.timestamp)
          (logged clip.id (some (kind r)) ∷ [])
  paste_failed :
      {t : Transcription} {text e : Text}
      → w'.transcription ≡ ok t
      → verdict w t ≡ accept text
      → w'.injection ≡ err e
      → Ending w clip w' (error_snapshot (codes "inject_error") e w'.env.timestamp) (
          notified (codes "Dictation paste failed") e
          ∷ inject_failed clip.id
          ∷ logged clip.id none
          ∷ [])
  pasted :
      {t : Transcription} {text : Text}
      → w'.transcription ≡ ok t
      → verdict w t ≡ accept text
      → w'.injection ≡ ok tt
      → Ending w clip w'
          (plain State.success 0 w'.env.timestamp)
          (injected clip.id text clip.ctx ∷ logged clip.id none ∷ [])

abbrev pub Ended : Setup → Clip → Answers → App → App → Type 0
Ended w clip w' a b =
    (es : List Event) × (b.events ≡ es ++ a.events) × Ending w clip w' b.status.shared es

module _ (w : Setup) where
  shared-set_error :
      (k m : Text) (env : Env) (s : Status)
      → (set_error w.encode k m env s).shared ≡ error_snapshot k m env.timestamp
  unfolding set_error
  shared-set_error k m env s = ground arith

  shared-set_success :
      (env : Env) (s : Status)
      → (set_success w.encode env s).shared ≡ plain State.success 0 env.timestamp
  unfolding set_success
  shared-set_success env s = ground arith

  Ended-as :
      (clip : Clip) (w' : Answers) (a b : App) (s : StateSnapshot) (es : List Event)
      → process w clip w' a ≡ b
      → b.events ≡ es ++ a.events
      → b.status.shared ≡ s
      → Ending w clip w' s es
      → Ended w clip w' a (process w clip w' a)
  Ended-as clip w' a b s es p e q h = rw p (es, e, rw q h)

  Ended-accepted :
      (clip : Clip) (w' : Answers) (a : App) (t : Transcription) (text : Text)
      → is_cancelled clip.id a ≡ false
      → is_recording a ≡ false
      → w'.transcription ≡ ok t
      → verdict w t ≡ accept text
      → Ended w clip w' a (process w clip w' a)
  unfolding is_cancelled is_recording is_stopped inject
  Ended-accepted clip w' a t text h r e d =
      let b = emit (logged clip.id none) a in
      let p = outcome_accept w clip w' a t text e d ∙ deliver_live w text clip w'.injection b h in
      elim (Result-cases w'.injection) [
        | inl (m, i) ↦
            let c = emit (inject_failed clip.id) b in
            let o = failed (codes "inject_error") m (some (codes "Dictation paste failed")) in
            Ended-as clip w' a (conclude_in_view w clip.id o w'.env c) _ _
              (process_as w clip w' a c o (p ∙ ap (λ x. inject w text clip x b) i)
                ∙ conclude_shown w clip.id o w'.env c h r)
              refl (shared-set_error _ m w'.env a.status) (paste_failed e d i)
        | inr (_, i) ↦
            let c = emit (injected clip.id text clip.ctx) b in
            Ended-as clip w' a (conclude_in_view w clip.id was_delivered w'.env c) _ _
              (process_as w clip w' a c was_delivered (p ∙ ap (λ x. inject w text clip x b) i)
                ∙ conclude_shown w clip.id was_delivered w'.env c h r)
              refl (shared-set_success w'.env a.status) (pasted e d i)
      ]

  -- A clip that was not cancelled and has no newer recording over it is shown and reported by the
  -- first thing that goes wrong: the transcription, the filter, the paste, or nothing.
  pub process_ends :
      (clip : Clip) (w' : Answers) (a : App)
      → is_cancelled clip.id a ≡ false
      → is_recording a ≡ false
      → Ended w clip w' a (process w clip w' a)
  unfolding is_cancelled is_recording is_stopped
  process_ends clip w' a h r = elim (Result-cases w'.transcription) [
    | inl (e, t) ↦
        let o = failed (codes "stt_error") e (some (codes "Dictation failed")) in
        Ended-as clip w' a (conclude_in_view w clip.id o w'.env a) _ _
          (process_as w clip w' a a o (outcome_err w clip w' a e t)
            ∙ conclude_shown w clip.id o w'.env a h r)
          refl (shared-set_error _ e w'.env a.status) (stt_failed t)
    | inr (t, e) ↦ elim (Decision-cases (verdict w t)) [
      | inl (text, d) ↦ Ended-accepted clip w' a t text h r e d
      | inr (r', d) ↦
          let o = failed (kind r') (codes "transcript rejected by filter") none in
          let b = emit (logged clip.id (some (kind r'))) a in
          Ended-as clip w' a (conclude_in_view w clip.id o w'.env b) _ _
            (process_as w clip w' a b o (outcome-drop w clip w' a t r' e d)
              ∙ conclude_shown w clip.id o w'.env b h r)
            refl (shared-set_error _ _ w'.env a.status) (rejected e d)
    ]
  ]
