-- ===== src/Session/Steps.antt =====
-- The interleavings of the session's threads, crates/daemon/src/app.rs. Each step is what one thread
-- does between two points where others may come in: the sections under the lifecycle lock are whole
-- steps, and so are a port call with the lines around it that touch only the thread's own values.
-- Commands are not held to the one-at-a-time order of the socket server, and captures may report
-- at any time: the relation allows more than the program does.
use whispy.Base.{
  ℕ, suc, ◌<◌, true, false, Option, none, some, List, [], ◌∷◌, ◌++◌, ◌≡◌, ◌==◌, if◌then◌else◌,
  Result,
}
use whispy.Float.{F32}
use whispy.Session.State.{
  Outcome, was_cancelled, App, Setup, Answers, Job, auto_finish, closing, cancelling, processing,
  delivering, injecting, reporting, Judged, ended, accepted, Recording, Clip, take_recording,
  is_cancelled, spawn,
}
use whispy.Session.{
  start, on_rms, on_too_long, on_silence, close, cancel_mark, cancel_end, judge, inject, conclude,
}
use whispy.Status.{Env, u64_mod, wake}
use whispy.Text.{Text}

-- What comes from outside: commands, the callbacks and the cap of a capture, and the revert threads.
pub data Act : Type 0 where
  starts : Option Text → Result Text (Unit {0}) → Option Text → Env → Act
  stops cancels : Act
  meters : F32 → Env → Act
  overruns : ℕ → Act
  reports_too_long : Env → Act
  falls_silent : ℕ → Act
  reverts : ℕ → Env → Act

-- A taken recording goes on to be closed.
abbrev pub then_close : App × Option Recording → App
then_close (a, none) = a
then_close (a, some r) = spawn (closing r) a

abbrev pub then_cancel : App × Option Recording → App
then_cancel (a, taken) = spawn (cancelling taken) a

abbrev pub judged_jobs : Clip → App × Judged → App × List Job
judged_jobs clip (a, ended o) = (a, reporting clip.id o ∷ [])
judged_jobs clip (a, accepted text) = (a, delivering clip text ∷ [])

abbrev pub closed_jobs : App × Option Clip → App × List Job
closed_jobs (a, none) = (a, [])
closed_jobs (a, some clip) = (a, processing clip ∷ [])

abbrev pub taken_jobs : App × Option Recording → App × List Job
taken_jobs (a, none) = (a, [])
taken_jobs (a, some r) = (a, closing r ∷ [])

abbrev pub injected_jobs : Clip → App × Outcome → App × List Job
injected_jobs clip (a, o) = (record a { inject_lock = false }, reporting clip.id o ∷ [])

-- What a step waits for: a start counts no id twice, and `deliver` takes a free lock.
abbrev pub MayAct : Act → App → Type 0
MayAct (starts _ _ _ _) a = suc a.lifecycle.next_id < u64_mod
MayAct _ a = Unit

abbrev pub MayWork : Job → App → Type 0
MayWork (delivering clip text) a = a.inject_lock ≡ false
MayWork _ a = Unit

-- The jobs of the state, with a job in the middle replaced by what is left of it.
abbrev pub after_work : List Job → List Job → App × List Job → App
after_work before after (a, left) = record a { jobs = before ++ (left ++ after) }

module _ (w : Setup) where
  unfoldable pub act : Act → App → App
  unfolding start on_rms on_too_long on_silence cancel_mark take_recording
  act (starts workflow capture window env) a = (start w workflow capture window env a).0
  act stops a = then_close (take_recording (λ _. true) a)
  act cancels a = then_cancel (cancel_mark w a)
  act (meters rms env) a = on_rms w rms env a
  act (overruns id) a = record a { auto_stopped = id ∷ a.auto_stopped }
  act (reports_too_long env) a = on_too_long w env a
  act (falls_silent id) a = on_silence w id a
  act (reverts g env) a = record a { status = wake w.encode g env a.status }

  -- The next step of a job: the state after it, and what is left to do.
  unfoldable pub work : Job → Answers → App → App × List Job
  unfolding take_recording close cancel_end judge inject conclude is_cancelled
  work (auto_finish id) w' a = taken_jobs (take_recording (λ r. r.id == id) a)
  work (closing r) w' a = closed_jobs (close w r w'.samples w'.env a)
  work (cancelling taken) w' a = (cancel_end w taken w'.env a, [])
  work (processing clip) w' a = judged_jobs clip (judge w clip w'.transcription a)
  work (delivering clip text) w' a =
      if is_cancelled clip.id a
      then (a, reporting clip.id was_cancelled ∷ [])
      else (record a { inject_lock = true }, injecting clip text ∷ [])
  work (injecting clip text) w' a = injected_jobs clip (inject w text clip w'.injection a)
  work (reporting id o) w' a = (conclude w id o w'.env a, [])

  pub data Step (a : App) : App → Type 0 where
    acts : (c : Act) → MayAct c a → Step a (act c a)
    works :
        (before : List Job) (j : Job) (after : List Job) (w' : Answers)
        → a.jobs ≡ before ++ (j ∷ after)
        → MayWork j a
        → Step a (after_work before after (work j w' a))

  pub data Run (a : App) : App → Type 0 where
    here : Run a a
    next : {b c : App} → Run a b → Step b c → Run a c
