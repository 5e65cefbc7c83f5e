-- ===== src/Session/Contract.antt =====
-- What the session promises its clients, with no clips, ports or threads: the commands of
-- crates/common/src/lib.rs on the recording slot of crates/daemon/src/app.rs.
use whispy.Base.{
  ℕ, suc, ◌<◌, Bool, true, false, Option, none, some, List, [], ◌∷◌, ◌++◌, ◌≡◌, ◌≢◌, Result,
}
use whispy.Float.{F32}
use whispy.Protocol.{Cmd, Resp, resp_ok, resp_err, resp_status, StateSnapshot}
use whispy.Session.State.{App, Setup, Answers, Job, Recording, is_stopped}
use whispy.Session.Steps.{
  meters, overruns, reports_too_long, falls_silent, reverts, act, work, MayWork, after_work,
}
use whispy.Session.{handle}
use whispy.Status.{Env, u64_mod}
use whispy.Text.{Text, codes}

-- The slot as a client knows it: empty, recording, or holding a capture that reached the cap.
pub data Slot : Type 0 where
  empty : Slot
  live overrun : ℕ → Slot

abbrev pub is_live : Slot → Bool
is_live (live n) = true
is_live _ = false

-- A command, its reply, and the slot behind it. A start is refused only while a recording runs, and a
-- stop only of an empty slot.
pub data Serves : Cmd → Slot → Resp → Slot → Type 0 where
  pings : {s : Slot} → Serves Cmd.ping s resp_ok s
  shows : {s : Slot} (snapshot : StateSnapshot) → Serves Cmd.status s (resp_status snapshot) s
  begins :
      {s : Slot} {workflow : Option Text} (n : ℕ)
      → is_live s ≡ false
      → Serves (Cmd.start workflow) s resp_ok (live n)
  refuses :
      {workflow : Option Text} {n : ℕ}
      → Serves (Cmd.start workflow) (live n) (resp_err (codes "already recording")) (live n)
  fails :
      {s : Slot} {workflow : Option Text} (e : Text)
      → is_live s ≡ false
      → Serves (Cmd.start workflow) s (resp_err (codes "failed to start capture: " ++ e)) empty
  stops : {s : Slot} → s ≢ empty → Serves Cmd.stop s resp_ok empty
  stops_nothing : Serves Cmd.stop empty (resp_err (codes "not recording")) empty
  cancels : {s : Slot} → Serves Cmd.cancel s resp_ok empty

-- What happens to the slot by itself: it may overrun, and silence may end its recording.
pub data Drifts : Slot → Slot → Type 0 where
  stays : {s : Slot} → Drifts s s
  fills : {n : ℕ} → Drifts (live n) (overrun n)
  ends : {s : Slot} → Drifts s empty

-- The conversations that the contract allows.
pub data Allowed : Slot → List (Cmd × Resp) → Slot → Type 0 where
  silence : {s : Slot} → Allowed s [] s
  drifts :
      {s t u : Slot} {talk : List (Cmd × Resp)} → Allowed s talk t → Drifts t u → Allowed s talk u
  serves :
      {s t u : Slot} {talk : List (Cmd × Resp)} {c : Cmd} {r : Resp}
      → Allowed s talk t
      → Serves c t r u
      → Allowed s ((c, r) ∷ talk) u

-- The slot of the session.
abbrev pub slot_of : Bool → ℕ → Slot
slot_of true n = overrun n
slot_of false n = live n

abbrev recorded : App → Option Recording → Slot
recorded a none = empty
recorded a (some r) = slot_of (is_stopped a r.id) r.id

unfoldable pub slot : App → Slot
unfolding is_stopped
slot a = recorded a a.lifecycle.recording

module _ (w : Setup) where
  -- The daemon at work: commands one at a time, and between them the callbacks of the captures, the
  -- revert threads, and the pieces of the other threads' work. A capture overruns only once it was
  -- opened, and the ids do not run out.
  pub data Talk (a : App) : List (Cmd × Resp) → App → Type 0 where
    begin : Talk a [] a
    command :
        {talk : List (Cmd × Resp)} {b : App}
        → Talk a talk b
        → (c : Cmd) (capture : Result Text (Unit {0})) (window : Option Text) (w' : Answers)
        → suc b.lifecycle.next_id < u64_mod
        → Talk a ((c, (handle w c capture window w' b).1) ∷ talk) (handle w c capture window w' b).0
    meter :
        {talk : List (Cmd × Resp)} {b : App}
        → Talk a talk b
        → (rms : F32) (env : Env) → Talk a talk (act w (meters rms env) b)
    overrun_at :
        {talk : List (Cmd × Resp)} {b : App}
        → Talk a talk b
        → (id : ℕ) → id < b.lifecycle.next_id
        → Talk a talk (act w (overruns id) b)
    too_long :
        {talk : List (Cmd × Resp)} {b : App}
        → Talk a talk b
        → (env : Env) → Talk a talk (act w (reports_too_long env) b)
    silent :
        {talk : List (Cmd × Resp)} {b : App}
        → Talk a talk b
        → (id : ℕ) → Talk a talk (act w (falls_silent id) b)
    revert :
        {talk : List (Cmd × Resp)} {b : App}
        → Talk a talk b
        → (g : ℕ) (env : Env) → Talk a talk (act w (reverts g env) b)
    job :
        {talk : List (Cmd × Resp)} {b : App}
        → Talk a talk b
        → (before : List Job) (j : Job) (after : List Job) (w' : Answers)
        → b.jobs ≡ before ++ (j ∷ after)
        → MayWork j b
        → Talk a talk (after_work before after (work w j w' b))
