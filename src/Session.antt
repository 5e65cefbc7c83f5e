-- ===== src/Session.antt =====
-- The dictation session: crates/daemon/src/app.rs. A function here is one method or callback there,
-- from the state to the new state and the result. What the ports answer comes as arguments.
pub mod State
pub mod Steps
pub mod Counts
pub mod Outcomes
pub mod Endings
pub mod Captures
pub mod Deliveries
pub mod Contract
pub mod Serves
pub mod Refines
use State.{
  Transcription, AppContext, Samples, Recording, Clip, Lifecycle, Outcome, was_delivered,
  was_cancelled, failed, Event, opened, capture_cancelled, finished, logged, injected,
  inject_failed, notified, Job, auto_finish, closing, cancelling, processing, delivering, injecting,
  reporting, App, Setup, Answers, emit, spawn, put_recording, is_stopped, is_recording, reclaim,
  take_recording, is_cancelled, report, Judged, ended, accepted,
}
use whispy.Base.{
  ℕ, zero, suc, ◌+◌, ◌%◌, Bool, true, false, ◌&&◌, ◌||◌, not, Option, none, some, List, [], ◌∷◌,
  ◌++◌, ltb, ◌==◌, if◌then◌else◌, Result, ok, err, any, is_some,
}
use whispy.Filter.{FilterConfig, Hallucinations, Decision, accept, drop, evaluate, kind}
use whispy.Float.{F32, F64}
use whispy.Protocol.{Cmd, StateSnapshot, Resp, resp_ok, resp_err, resp_status}
use whispy.Status.{
  Status, Env, u64_mod, set_recording, set_transcribing, set_idle, set_success, set_error,
}
use whispy.Text.Chars.{Chars}
use whispy.Text.{Text, Bytes, codes}

module _ (w : Setup) where
  -- `start`; `capture` is what the port answers.
  unfoldable pub start : Option Text → Result Text (Unit {0}) → Option Text → Env → App → App × Resp
  start workflow capture window env a0 =
      let a = reclaim a0 in
      if is_some a.lifecycle.recording
      then (a, resp_err (codes "already recording"))
      else let id = a.lifecycle.next_id in
        let b = record a { lifecycle = record (a.lifecycle) { next_id = (id + 1) % u64_mod } } in
        elim capture [
          | ok _ ↦ (
            emit (opened id) (
                put_recording
                  (some (record {
                    id = id;
                    ctx = record { workflow = workflow; window_class = window };
                  }))
                  (record b { status = set_recording w.encode 0 env b.status })),
            resp_ok,
          )
          | err e ↦ (b, resp_err (codes "failed to start capture: " ++ e))
        ]

  -- The callbacks of `capture_events`.
  unfoldable pub on_rms : F32 → Env → App → App
  on_rms rms env a = record a { status = set_recording w.encode rms env a.status }

  unfoldable pub on_too_long : Env → App → App
  on_too_long env a =
      emit (notified (codes "Dictation too long") (codes "Clip exceeded the maximum duration."))
        (record a {
          status =
              set_error w.encode (codes "too_long") (codes "clip exceeded the maximum duration") env
                a.status;
        })

  unfoldable pub on_silence : ℕ → App → App
  on_silence id a = spawn (auto_finish id) a

  -- `close`.
  unfoldable pub close : Recording → Option Samples → Env → App → App × Option Clip
  close r samples env a =
      if is_stopped a r.id then (emit (capture_cancelled r.id) a, none) else elim samples [
        | none ↦ ((report r.id (set_idle w.encode env) (emit (finished r.id) a)).0, none)
        | some s ↦
            let (b, live) = report r.id (set_transcribing w.encode env) (emit (finished r.id) a) in
            (b, if live then some (record { id = r.id; samples = s; ctx = r.ctx }) else none)
      ]

  abbrev pub spawn_process : Option Clip → App → App
  spawn_process none a = a
  spawn_process (some clip) a = spawn (processing clip) a

  -- `stop`.
  unfoldable pub stop : Option Samples → Env → App → App × Resp
  unfolding take_recording close
  stop samples env a =
      let (b, taken) = take_recording (λ _. true) a in
      elim taken [
        | none ↦ (b, resp_err (codes "not recording"))
        | some r ↦ let (c, clip) = close r samples env b in (spawn_process clip c, resp_ok)
      ]

  -- `cancel`: under the lifecycle lock, and behind it.
  unfoldable pub cancel_mark : App → App × Option Recording
  cancel_mark a = (
    record a {
      lifecycle = record (a.lifecycle) { cancelled_below = a.lifecycle.next_id; recording = none };
    },
    a.lifecycle.recording,
  )

  abbrev pub cancel_capture : Option Recording → App → App
  cancel_capture none a = a
  cancel_capture (some r) a = emit (capture_cancelled r.id) a

  unfoldable pub cancel_end : Option Recording → Env → App → App
  cancel_end taken env a0 =
      let a = cancel_capture taken a0 in record a { status = set_idle w.encode env a.status }

  unfoldable pub cancel : Env → App → App × Resp
  unfolding cancel_mark cancel_end
  cancel env a = let (b, taken) = cancel_mark a in (cancel_end taken env b, resp_ok)

  -- `outcome`, up to its call of `deliver`.
  unfoldable pub judge : Clip → Result Text Transcription → App → App × Judged
  judge clip transcription a = elim transcription [
    | err e ↦ (a, ended (failed (codes "stt_error") e (some (codes "Dictation failed"))))
    | ok t ↦
        elim (evaluate w.chars w.similarity t.text
          (record { avg_logprob = t.avg_logprob; no_speech_prob = t.no_speech_prob }) w.filter
          w.blacklist) [
            | accept text ↦ (emit (logged clip.id none) a, accepted text)
            | drop reason ↦ (
              emit (logged clip.id (some (kind reason))) a,
              ended (failed (kind reason) (codes "transcript rejected by filter") none),
            )
          ]
  ]

  -- The port's `deliver`, and what `deliver` makes of its result.
  unfoldable pub inject : Text → Clip → Result Text (Unit {0}) → App → App × Outcome
  inject text clip injection a = elim injection [
    | ok _ ↦ (emit (injected clip.id text clip.ctx) a, was_delivered)
    | err e ↦ (
      emit (inject_failed clip.id) a,
      failed (codes "inject_error") e (some (codes "Dictation paste failed")),
    )
  ]

  -- `deliver`.
  unfoldable pub deliver : Text → Clip → Result Text (Unit {0}) → App → App × Outcome
  unfolding inject is_cancelled
  deliver text clip injection a =
      if is_cancelled clip.id a then (a, was_cancelled) else inject text clip injection a

  -- `outcome`.
  unfoldable pub outcome : Clip → Answers → App → App × Outcome
  unfolding judge deliver
  outcome clip w' a =
      let (b, judged) = judge clip w'.transcription a in
      elim judged [ ended o ↦ (b, o) | accepted text ↦ deliver text clip w'.injection b ]

  abbrev pub notify : Bool → Option Text → Text → App → App
  notify true (some summary) message a = emit (notified summary message) a
  notify _ _ message a = a

  -- The rest of `process`.
  unfoldable pub conclude : ℕ → Outcome → Env → App → App
  unfolding report
  conclude id was_cancelled env a = a
  conclude id was_delivered env a = (report id (set_success w.encode env) a).0
  conclude id (failed k message summary) env a =
      let (b, shown) = report id (set_error w.encode k message env) a in
      notify shown summary message b

  -- `process`.
  unfoldable pub process : Clip → Answers → App → App
  unfolding outcome conclude
  process clip w' a = let (b, o) = outcome clip w' a in conclude clip.id o w'.env b

  -- `auto_finish`.
  unfoldable pub finish_on_silence : ℕ → Answers → App → App
  unfolding take_recording close process
  finish_on_silence id w' a =
      let (b, taken) = take_recording (λ r. r.id == id) a in
      elim taken [
        | none ↦ b
        | some r ↦
            let (c, clip) = close r w'.samples w'.env b in
            elim clip [ none ↦ c | some k ↦ process k w' c ]
      ]

  -- `handle`.
  unfoldable pub handle : Cmd → Result Text (Unit {0}) → Option Text → Answers → App → App × Resp
  unfolding start stop cancel
  handle Cmd.ping capture window w' a = (a, resp_ok)
  handle Cmd.status capture window w' a = (a, resp_status a.status.shared)
  handle (Cmd.start workflow) capture window w' a = start workflow capture window w'.env a
  handle Cmd.stop capture window w' a = stop w'.samples w'.env a
  handle Cmd.cancel capture window w' a = cancel w'.env a
