-- ===== src/Session/Captures.antt =====
-- Every capture that the session of crates/daemon/src/app.rs opens is closed once.
use whispy.Base.{
  ℕ, suc, ◌+◌, ◌≤◌, ◌<◌, false, Option, none, List, [], ◌∷◌, ◌++◌, ◌≡◌, ap, arith, Result,
  Option-cases, inl, inr,
}
use whispy.Session.Counts.{
  tally, tally-append, tally-middle, opening_of, closing_event_of, recording_of, holding_of,
}
use whispy.Session.State.{
  App, Setup, Answers, Job, auto_finish, closing, cancelling, processing, delivering, injecting,
  reporting, reclaim,
}
use whispy.Session.Steps.{
  Act, starts, stops, cancels, meters, overruns, reports_too_long, falls_silent, reverts, act, work,
  MayAct, Step, acts, works, Run, here, next,
}
use whispy.Session.{start}
use whispy.Status.{Status, u64_mod, Env}
use whispy.Text.{Text}

abbrev pub times_opened : ℕ → App → ℕ
times_opened n a = tally (opening_of n) a.events

abbrev pub times_closed : ℕ → App → ℕ
times_closed n a = tally (closing_event_of n) a.events

abbrev pub in_slot : ℕ → App → ℕ
in_slot n a = recording_of n a.lifecycle.recording

abbrev pub in_hand : ℕ → App → ℕ
in_hand n a = tally (holding_of n) a.jobs

-- The capture of recording `n` is opened at most once, not before its id is given out, and is then
-- in the slot, in the hands of one job, or closed.
pub record Balanced (n : ℕ) (a : App) : Type 0 where
  pub conserved : times_opened n a ≡ in_slot n a + in_hand n a + times_closed n a
  pub once : times_opened n a ≤ 1
  pub fresh : a.lifecycle.next_id ≤ n → times_opened n a ≡ 0
  pub bounded : a.lifecycle.next_id < u64_mod

module _ (w : Setup) (n : ℕ) where
  reclaim-Balanced : (a : App) → Balanced n a → Balanced n (reclaim a)
  unfolding reclaim
  reclaim-Balanced a v = ground arith

  next_id-reclaim : (a : App) → (reclaim a).lifecycle.next_id ≡ a.lifecycle.next_id
  unfolding reclaim
  next_id-reclaim a = ground arith

  start-Balanced :
      (workflow : Option Text) (capture : Result Text (Unit {0})) (window : Option Text) (env : Env)
      (a : App)
      → suc a.lifecycle.next_id < u64_mod
      → Balanced n a
      → Balanced n (start w workflow capture window env a).0
  unfolding start
  start-Balanced workflow capture window env a may v =
      ground (arith, reclaim-Balanced a v, next_id-reclaim a)

  act-Balanced : (c : Act) (a : App) → MayAct c a → Balanced n a → Balanced n (act w c a)
  unfolding act
  act-Balanced (starts workflow capture window env) a may v =
      start-Balanced workflow capture window env a may v
  act-Balanced stops a may v = elim (Option-cases a.lifecycle.recording) [
    | inl e ↦ ground (arith, e)
    | inr (r, e) ↦ ground (arith, e, tally-append (holding_of n) a.jobs (closing r ∷ []))
  ]
  act-Balanced cancels a may v =
      ground (arith, tally-append (holding_of n) a.jobs (cancelling a.lifecycle.recording ∷ []))
  act-Balanced (meters rms env) a may v = ground arith
  act-Balanced (overruns id) a may v = ground arith
  act-Balanced (reports_too_long env) a may v = ground arith
  act-Balanced (falls_silent id) a may v =
      ground (arith, tally-append (holding_of n) a.jobs (auto_finish id ∷ []))
  act-Balanced (reverts g env) a may v = ground arith

  -- What a job does to the balance, with what is left of it.
  record Keeps (j : Job) (a : App) (r : App × List Job) : Type 0 where
    hands :
        in_slot n r.0 + tally (holding_of n) r.1 + times_closed n r.0
        ≡ in_slot n a + holding_of n j + times_closed n a
    opens : times_opened n r.0 ≡ times_opened n a
    ids : r.0.lifecycle.next_id ≡ a.lifecycle.next_id

  work-Keeps : (j : Job) (w' : Answers) (a : App) → Keeps j a (work w j w' a)
  unfolding work
  work-Keeps (auto_finish id) w' a = ground arith
  work-Keeps (closing r) w' a = ground arith
  work-Keeps (cancelling taken) w' a = ground arith
  work-Keeps (processing clip) w' a = ground arith
  work-Keeps (delivering clip text) w' a = ground arith
  work-Keeps (injecting clip text) w' a = ground arith
  work-Keeps (reporting id o) w' a = ground arith

  Step-Balanced : {a b : App} → Step w a b → Balanced n a → Balanced n b
  Step-Balanced {a} (acts c may) v = act-Balanced c a may v
  Step-Balanced {a} (works before j after w' e may) v =
      let r = work w j w' a in
      let k = work-Keeps j w' a in
      omega (
        arith,
        k.hands,
        k.opens,
        k.ids,
        ap (tally (holding_of n)) e,
        tally-middle (holding_of n) before j after,
        tally-append (holding_of n) before (r.1 ++ after),
        tally-append (holding_of n) r.1 after,
      )

  Run-Balanced : {a b : App} → Run w a b → Balanced n a → Balanced n b
  Run-Balanced here v = v
  Run-Balanced (next r s) v = Step-Balanced s (Run-Balanced r v)

-- A session as `with_ports` builds it.
abbrev pub initial : Status → App
initial status = record {
  status = status;
  lifecycle = record { recording = none; next_id = 0; cancelled_below = 0 };
  inject_lock = false;
  auto_stopped = [];
  jobs = [];
  events = [];
}

-- However the threads interleave, each capture that was opened is in exactly one place: in the
-- recording slot, in the hands of one thread that is about to close it, or closed (finished or
-- cancelled, never both and never twice); and no id is opened twice. This holds for fewer than 2^64
-- recordings.
pub captures_balanced :
    (w : Setup) (n : ℕ) (status : Status) {a : App}
    → Run w (initial status) a
    → (times_opened n a ≡ in_slot n a + in_hand n a + times_closed n a) × (times_opened n a ≤ 1)
captures_balanced w n status r =
    let v = Run-Balanced w n r (record {
      conserved = omega arith;
      once = omega arith;
      fresh = λ _. omega arith;
      bounded = omega arith;
    }) in
    (v.conserved, v.once)
