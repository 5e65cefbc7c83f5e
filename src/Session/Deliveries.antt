-- ===== src/Session/Deliveries.antt =====
-- What is pasted, how often, and what a cancel stops: crates/daemon/src/app.rs.
use whispy.Base.{
  ℕ, suc, ◌+◌, ◌≤◌, ◌<◌, Bool, Option, List, [], ◌∷◌, ◌++◌, ◌≡◌, ap, ◌∙◌, sym, arith, if◌then◌else◌,
  Result, Option-cases, inl, inr,
}
use whispy.Session.Captures.{initial, captures_balanced}
use whispy.Session.Counts.{
  tally, tally-append, tally-middle, tally-replace, finish_of, injection_of, waiting_of,
  injecting_of, locking, closing_event_of,
}
use whispy.Session.State.{
  App, Setup, Answers, Job, Event, opened, capture_cancelled, finished, logged, injected,
  inject_failed, notified, auto_finish, closing, cancelling, processing, delivering, injecting,
  reporting, reclaim,
}
use whispy.Session.Steps.{
  Act, starts, stops, cancels, meters, overruns, reports_too_long, falls_silent, reverts, act, work,
  MayAct, MayWork, Step, acts, works, Run, here, next,
}
use whispy.Session.{start}
use whispy.Status.{Status, u64_mod, Env}
use whispy.Text.{Text}

abbrev pub times_finished : ℕ → App → ℕ
times_finished n a = tally (finish_of n) a.events

abbrev pub times_injected : ℕ → App → ℕ
times_injected n a = tally (injection_of n) a.events

abbrev pub under_way : ℕ → App → ℕ
under_way n a = tally (waiting_of n) a.jobs

abbrev pub being_injected : ℕ → App → ℕ
being_injected n a = tally (injecting_of n) a.jobs

abbrev pub lock_count : Bool → ℕ
lock_count b = if b then 1 else 0

-- Clips come from finished captures and are pasted at most once each; the lock is held by one job
-- if it is taken; cancelled ids were given out.
pub record Orderly (n : ℕ) (a : App) : Type 0 where
  pub flow : times_injected n a + being_injected n a + under_way n a ≤ times_finished n a
  pub lock : tally locking a.jobs ≡ lock_count a.inject_lock
  pub below : a.lifecycle.cancelled_below ≤ a.lifecycle.next_id
  pub bounded : a.lifecycle.next_id < u64_mod

module _ (w : Setup) (n : ℕ) where
  -- What an act leaves: it starts no clip and pastes none.
  record Leaves (a b : App) : Type 0 where
    injections : times_injected n b ≡ times_injected n a
    pastes : being_injected n b ≡ being_injected n a
    clips : under_way n b ≡ under_way n a
    finishes : times_finished n b ≡ times_finished n a
    holders : tally locking b.jobs ≡ tally locking a.jobs
    lock : b.inject_lock ≡ a.inject_lock
    marks : a.lifecycle.cancelled_below ≤ b.lifecycle.cancelled_below
    order :
        (a.lifecycle.cancelled_below ≤ a.lifecycle.next_id)
        → b.lifecycle.cancelled_below ≤ b.lifecycle.next_id
    bound : b.lifecycle.next_id < u64_mod

  start-Leaves :
      (workflow : Option Text) (capture : Result Text (Unit {0})) (window : Option Text) (env : Env)
      (a : App)
      → suc a.lifecycle.next_id < u64_mod
      → Leaves a (start w workflow capture window env a).0
  unfolding start reclaim
  start-Leaves workflow capture window env a may = ground arith

  -- The three sums with one more job.
  tallies-append :
      (xs : List Job) (j : Job)
      → (tally (injecting_of n) (xs ++ (j ∷ [])) ≡ tally (injecting_of n) xs + injecting_of n j)
        × (tally (waiting_of n) (xs ++ (j ∷ [])) ≡ tally (waiting_of n) xs + waiting_of n j)
        × (tally locking (xs ++ (j ∷ [])) ≡ tally locking xs + locking j)
  tallies-append xs j = omega (
    arith,
    tally-append (injecting_of n) xs (j ∷ []),
    tally-append (waiting_of n) xs (j ∷ []),
    tally-append locking xs (j ∷ []),
  )

  act-Leaves :
      (c : Act) (a : App)
      → MayAct c a
      → a.lifecycle.next_id < u64_mod
      → (a.lifecycle.cancelled_below ≤ a.lifecycle.next_id)
      → Leaves a (act w c a)
  unfolding act
  act-Leaves (starts workflow capture window env) a may h o =
      start-Leaves workflow capture window env a may
  act-Leaves stops a may h o = elim (Option-cases a.lifecycle.recording) [
    | inl e ↦ ground (arith, e)
    | inr (r, e) ↦ ground (arith, e, tallies-append a.jobs (closing r))
  ]
  act-Leaves cancels a may h o =
      ground (arith, tallies-append a.jobs (cancelling a.lifecycle.recording))
  act-Leaves (meters rms env) a may h o = ground arith
  act-Leaves (overruns id) a may h o = ground arith
  act-Leaves (reports_too_long env) a may h o = ground arith
  act-Leaves (falls_silent id) a may h o = ground (arith, tallies-append a.jobs (auto_finish id))
  act-Leaves (reverts g env) a may h o = ground arith

  -- What a job does, with what is left of it.
  record Moves (j : Job) (a : App) (r : App × List Job) : Type 0 where
    flow :
        times_injected n r.0
          + tally (injecting_of n) r.1
          + tally (waiting_of n) r.1
          + times_finished n a
        ≤ times_injected n a + injecting_of n j + waiting_of n j + times_finished n r.0
    lock :
        locking j ≤ lock_count a.inject_lock
        → tally locking r.1 + lock_count a.inject_lock ≡ locking j + lock_count r.0.inject_lock
    barred :
        n < a.lifecycle.cancelled_below
        → times_injected n r.0 + tally (injecting_of n) r.1 ≤ times_injected n a + injecting_of n j
    marks : r.0.lifecycle.cancelled_below ≡ a.lifecycle.cancelled_below
    ids : r.0.lifecycle.next_id ≡ a.lifecycle.next_id

  work-Moves : (j : Job) (w' : Answers) (a : App) → MayWork j a → Moves j a (work w j w' a)
  unfolding work
  work-Moves (auto_finish id) w' a may = ground arith
  work-Moves (closing r) w' a may = ground arith
  work-Moves (cancelling taken) w' a may = ground arith
  work-Moves (processing clip) w' a may = ground arith
  work-Moves (delivering clip text) w' a may = ground arith
  work-Moves (injecting clip text) w' a may = ground arith
  work-Moves (reporting id o) w' a may = ground arith

  -- The three sums around a job that is replaced by what is left of it.
  tallies_work :
      (a : App) (before after left : List Job) (j : Job)
      → a.jobs ≡ before ++ (j ∷ after)
      → (tally (injecting_of n) (before ++ (left ++ after)) + injecting_of n j
          ≡ being_injected n a + tally (injecting_of n) left)
        × (tally (waiting_of n) (before ++ (left ++ after)) + waiting_of n j
            ≡ under_way n a + tally (waiting_of n) left)
        × (tally locking (before ++ (left ++ after)) + locking j
            ≡ tally locking a.jobs + tally locking left)
  tallies_work a before after left j e = (
    tally-replace (injecting_of n) before after left j e,
    tally-replace (waiting_of n) before after left j e,
    tally-replace locking before after left j e,
  )

  Step-Orderly : {a b : App} → Step w a b → Orderly n a → Orderly n b
  Step-Orderly {a} (acts c may) v =
      let k = act-Leaves c a may v.bounded v.below in
      record {
        flow = omega (arith, k.injections, k.pastes, k.clips, k.finishes, v.flow);
        lock = k.holders ∙ v.lock ∙ ap lock_count (sym k.lock);
        below = k.order v.below;
        bounded = k.bound;
      }
  Step-Orderly {a} (works before j after w' e may) v =
      let r = work w j w' a in
      let k = work-Moves j w' a may in
      let (pastes, clips, holders) = tallies_work a before after r.1 j e in
      let held : locking j ≤ lock_count a.inject_lock =
        omega (arith, v.lock, ap (tally locking) e, tally-middle locking before j after) in
      record {
        flow = omega (arith, k.flow, pastes, clips, v.flow);
        lock = omega (arith, k.lock held, holders, v.lock);
        below = omega (arith, k.marks, k.ids, v.below);
        bounded = omega (arith, k.ids, v.bounded);
      }

  Run-Orderly : {a b : App} → Run w a b → Orderly n a → Orderly n b
  Run-Orderly here v = v
  Run-Orderly (next r s) v = Step-Orderly s (Run-Orderly r v)

  initial-Orderly : (status : Status) → Orderly n (initial status)
  initial-Orderly status = record {
    flow = omega arith;
    lock = omega arith;
    below = omega arith;
    bounded = omega arith;
  }

  -- A step pastes no clip of a cancelled recording that is not being pasted already.
  Step-barred :
      {a b : App}
      → Step w a b
      → Orderly n a
      → n < a.lifecycle.cancelled_below
      → (times_injected n b + being_injected n b ≤ times_injected n a + being_injected n a)
        × (n < b.lifecycle.cancelled_below)
  Step-barred {a} (acts c may) v h =
      let k = act-Leaves c a may v.bounded v.below in
      (omega (arith, k.injections, k.pastes), omega (arith, k.marks))
  Step-barred {a} (works before j after w' e may) v h =
      let r = work w j w' a in
      let k = work-Moves j w' a may in
      let (pastes, clips, holders) = tallies_work a before after r.1 j e in
      (omega (arith, k.barred h, pastes), omega (arith, k.marks))

  Run-barred :
      {a b : App}
      → Run w a b
      → Orderly n a
      → n < a.lifecycle.cancelled_below
      → (times_injected n b + being_injected n b ≤ times_injected n a + being_injected n a)
        × (n < b.lifecycle.cancelled_below)
  Run-barred here v h = (omega arith, h)
  Run-barred (next r s) v h =
      let (le, h') = Run-barred r v h in
      let (le', h'') = Step-barred s (Run-Orderly r v) h' in (omega (arith, le, le'), h'')

cancels_marks :
    (w : Setup) (n : ℕ) (a : App)
    → n < a.lifecycle.next_id
    → n < (act w cancels a).lifecycle.cancelled_below
unfolding act
cancels_marks w n a h = h

finishes-le-closes :
    (n : ℕ) (es : List Event) → tally (finish_of n) es ≤ tally (closing_event_of n) es
finishes-le-closes n [] = omega arith
finishes-le-closes n (opened m ∷ es) = omega (arith, finishes-le-closes n es)
finishes-le-closes n (capture_cancelled m ∷ es) = omega (arith, finishes-le-closes n es)
finishes-le-closes n (finished m ∷ es) = omega (arith, finishes-le-closes n es)
finishes-le-closes n (logged m r ∷ es) = omega (arith, finishes-le-closes n es)
finishes-le-closes n (injected m t c ∷ es) = omega (arith, finishes-le-closes n es)
finishes-le-closes n (inject_failed m ∷ es) = omega (arith, finishes-le-closes n es)
finishes-le-closes n (notified s b ∷ es) = omega (arith, finishes-le-closes n es)

-- However the threads interleave, a recording is pasted at most once, only if its capture was
-- finished, and no two pastes are under way at the same time.
pub delivered_once :
    (w : Setup) (n : ℕ) (status : Status) {a : App}
    → Run w (initial status) a
    → (times_injected n a ≤ 1)
      × (times_injected n a ≤ times_finished n a)
      × (tally locking a.jobs ≤ 1)
delivered_once w n status {a} r =
    let v = Run-Orderly w n r (initial-Orderly w n status) in
    let (places, once) = captures_balanced w n status r in
    let few = finishes-le-closes n a.events in
    (omega (arith, v.flow, places, once, few), omega (arith, v.flow), ground (arith, v.lock))

-- After a cancel, whatever else happens, no recording that was started before it is pasted, but
-- for the one whose paste was already under way.
pub cancel_discards :
    (w : Setup) (n : ℕ) (status : Status) {a b : App}
    → Run w (initial status) a
    → n < a.lifecycle.next_id
    → Run w (act w cancels a) b
    → times_injected n b ≤ times_injected n a + being_injected n a
cancel_discards w n status {a} r h r' =
    let v = Run-Orderly w n r (initial-Orderly w n status) in
    let k = act-Leaves w n cancels a tt v.bounded v.below in
    let v' = Step-Orderly w n (acts cancels tt) v in
    let (le, _) = Run-barred w n r' v' (cancels_marks w n a h) in
    omega (arith, le, k.injections, k.pastes)
