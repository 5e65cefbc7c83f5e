-- ===== src/Tests/Session.antt =====
-- One dictation from its start to its paste, step by step: crates/daemon/src/app.rs.
use whispy.Base.{◌+◌, ◌≤◌, ◌<◌, false, none, some, [], ◌∷◌, ◌≡◌, refl, ok, arith, inl}
use whispy.Filter.{from_phrases}
use whispy.Protocol.{default_snapshot}
use whispy.Session.Captures.{
  initial, captures_balanced, times_opened, in_slot, in_hand, times_closed,
}
use whispy.Session.Counts.{tally, locking}
use whispy.Session.Deliveries.{
  delivered_once, cancel_discards, times_injected, times_finished, being_injected,
}
use whispy.Session.Endings.{process_ends, Ended}
use whispy.Session.Outcomes.{process_quiet}
use whispy.Session.State.{
  App, Setup, Answers, Clip, Recording, AppContext, Transcription, Job, closing, cancelling,
  processing, delivering, injecting, reporting, was_delivered, Event, opened, finished, logged,
  injected,
}
use whispy.Session.Steps.{
  starts, stops, cancels, act, work, acts, works, Run, here, next, after_work,
}
use whispy.Session.{start, process, handle, stop}
use whispy.Status.Publish.{all_done}
use whispy.Status.{Status, Env, new}
use whispy.Text.Chars.{ascii}
use whispy.Text.{Text, codes}

abbrev pub setup : Setup
setup = record {
  chars = ascii;
  similarity = λ _ _. 0;
  encode = λ _. some (codes "{}");
  filter = record {
    no_speech_prob_max = 1058642330;
    avg_logprob_min = 3212836864;
    fuzzy_ratio = 4606281698874543309;
  };
  blacklist = from_phrases ascii (codes "thank you." ∷ []);
}

abbrev env : Env
env = record { timestamp = 1; instant = 100; io = all_done }

abbrev pub fresh_status : Status
fresh_status = new (λ _. 100) default_snapshot (record { tmp = none; file = none }) 10 0

abbrev nowhere : AppContext
nowhere = record { workflow = none; window_class = none }

abbrev heard : Transcription
heard = record {
  text = codes " hello ";
  avg_logprob = 3184315597;
  no_speech_prob = 0;
  language = none;
}

abbrev pub answers : Answers
answers = record {
  samples = some (1 ∷ 2 ∷ []);
  transcription = ok heard;
  injection = ok tt;
  env = env;
}

abbrev the_recording : Recording
the_recording = record { id = 0; ctx = nowhere }

abbrev the_clip : Clip
the_clip = record { id = 0; samples = 1 ∷ 2 ∷ []; ctx = nowhere }

abbrev pub idle_app : App
idle_app = initial fresh_status

abbrev started_app : App
started_app = act setup (starts none (ok tt) none env) idle_app

abbrev stopped_app : App
stopped_app = act setup stops started_app

abbrev closed_app : App
closed_app = after_work [] [] (work setup (closing the_recording) answers stopped_app)

abbrev judged_app : App
judged_app = after_work [] [] (work setup (processing the_clip) answers closed_app)

abbrev pasting_app : App
pasting_app = after_work [] [] (work setup (delivering the_clip (codes "hello")) answers judged_app)

abbrev pasted_app : App
pasted_app = after_work [] [] (work setup (injecting the_clip (codes "hello")) answers pasting_app)

jobs_stopped : stopped_app.jobs ≡ closing the_recording ∷ []
unfolding act whispy.Session.State.reclaim
jobs_stopped = refl

jobs_closed : closed_app.jobs ≡ processing the_clip ∷ []
unfolding act work whispy.Session.State.is_stopped whispy.Session.State.reclaim
jobs_closed = refl

jobs_judged : judged_app.jobs ≡ delivering the_clip (codes "hello") ∷ []
unfolding act work whispy.Filter.evaluate whispy.Float.float_lt whispy.Text.is_whitespace
    from_phrases whispy.Float.float_le
jobs_judged = refl

jobs_pasting : pasting_app.jobs ≡ injecting the_clip (codes "hello") ∷ []
unfolding act work whispy.Filter.evaluate whispy.Float.float_lt whispy.Text.is_whitespace
    from_phrases whispy.Float.float_le whispy.Session.State.is_stopped whispy.Session.State.reclaim
    whispy.Session.State.is_recording
jobs_pasting = refl

events_pasted :
    pasted_app.events
    ≡ injected 0 (codes "hello") nowhere ∷ logged 0 none ∷ finished 0 ∷ opened 0 ∷ []
unfolding act work whispy.Filter.evaluate whispy.Float.float_lt whispy.Text.is_whitespace
    from_phrases whispy.Float.float_le whispy.Session.State.is_stopped whispy.Session.State.reclaim
    whispy.Session.State.is_recording
events_pasted = refl

Run-started : Run setup idle_app started_app
Run-started = next here (acts (starts none (ok tt) none env) (omega arith))

Run-pasting : Run setup idle_app pasting_app
unfolding work whispy.Filter.evaluate whispy.Float.float_lt whispy.Text.is_whitespace from_phrases
    whispy.Float.float_le whispy.Session.State.is_stopped act whispy.Session.State.reclaim
    whispy.Session.State.is_recording
Run-pasting =
    next
      (next
        (next (next Run-started (acts stops tt))
          (works [] (closing the_recording) [] answers jobs_stopped tt))
        (works [] (processing the_clip) [] answers jobs_closed tt))
      (works [] (delivering the_clip (codes "hello")) [] answers jobs_judged free)
  where
    free : judged_app.inject_lock ≡ false
    free = refl

Run-pasted : Run setup idle_app pasted_app
Run-pasted =
    next Run-pasting (works [] (injecting the_clip (codes "hello")) [] answers jobs_pasting tt)

captures_balanced_example :
    (times_opened 0 pasted_app
      ≡ in_slot 0 pasted_app + in_hand 0 pasted_app + times_closed 0 pasted_app)
    × (times_opened 0 pasted_app ≤ 1)
captures_balanced_example = captures_balanced setup 0 fresh_status Run-pasted

delivered_once_example :
    (times_injected 0 pasted_app ≤ 1)
    × (times_injected 0 pasted_app ≤ times_finished 0 pasted_app)
    × (tally locking pasted_app.jobs ≤ 1)
delivered_once_example = delivered_once setup 0 fresh_status Run-pasted

-- A cancel before anything else, for the examples of a cancelled clip.
abbrev cancelled_app : App
cancelled_app = act setup cancels started_app

-- The cancel comes while the paste is under way; the paste is then done all the same.
abbrev late_app : App
late_app = act setup cancels pasting_app

abbrev pasted_late_app : App
pasted_late_app =
    after_work [] (cancelling none ∷ [])
      (work setup (injecting the_clip (codes "hello")) answers late_app)

given_out : 0 < pasting_app.lifecycle.next_id
unfolding act work whispy.Filter.evaluate whispy.Float.float_lt whispy.Text.is_whitespace
    from_phrases whispy.Float.float_le whispy.Session.State.is_stopped whispy.Session.State.reclaim
    whispy.Session.State.is_recording
given_out = omega arith

jobs_late : late_app.jobs ≡ injecting the_clip (codes "hello") ∷ cancelling none ∷ []
unfolding act work whispy.Filter.evaluate whispy.Float.float_lt whispy.Text.is_whitespace
    from_phrases whispy.Float.float_le whispy.Session.State.is_stopped whispy.Session.State.reclaim
    whispy.Session.State.is_recording
jobs_late = refl

cancel_discards_example :
    times_injected 0 pasted_late_app ≤ times_injected 0 pasting_app + being_injected 0 pasting_app
cancel_discards_example = cancel_discards setup 0 fresh_status Run-pasting given_out (
    next here
      (works [] (injecting the_clip (codes "hello")) (cancelling none ∷ []) answers jobs_late tt))

process_ends_example :
    Ended setup the_clip answers idle_app (process setup the_clip answers idle_app)
unfolding whispy.Session.State.is_cancelled whispy.Session.State.is_recording
process_ends_example = process_ends setup the_clip answers idle_app refl refl

process_quiet_example : (process setup the_clip answers started_app).status ≡ started_app.status
unfolding whispy.Session.State.is_recording act whispy.Session.State.reclaim
    whispy.Session.State.is_stopped
process_quiet_example = process_quiet setup the_clip answers started_app (inl refl)
