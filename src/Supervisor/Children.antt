-- ===== src/Supervisor/Children.antt =====
-- One server at a time: `SttSupervisor` of crates/daemon/src/stt_server.rs.
use whispy.Text.{Text}
use whispy.Base.{
  ℕ, ◌&&◌, Option, none, some, List, [], ◌∷◌, ◌≡◌, refl, Bool-cases, inl, inr, Result, ok, err,
  is_some,
}
use whispy.Supervisor.{
  Server, Timing, Launch, Wait, Attempt, Round, Monitor, Event, slept, spawned, killed, reaped,
  spawn, reap, stop_child, restarted, restart, turn, asleep, run, started, start, after_start,
  supervise, wait_ready,
}

-- A history in which a server is started only while none is left, and only one that is there is killed
-- or reaped; and the one that is there at its end.
pub data Orderly : List Event → Option ℕ → Type 0 where
  nothing : Orderly [] none
  sleeps : {d : ℕ} {es : List Event} {c : Option ℕ} → Orderly es c → Orderly (slept d ∷ es) c
  starts : {p : ℕ} {es : List Event} → Orderly es none → Orderly (spawned p ∷ es) (some p)
  kills : {p : ℕ} {es : List Event} → Orderly es (some p) → Orderly (killed p ∷ es) (some p)
  reaps : {p : ℕ} {es : List Event} → Orderly es (some p) → Orderly (reaped p ∷ es) none

stop_child-Orderly :
    (c : Option ℕ) (es : List Event) → Orderly es c → Orderly (stop_child c es) none
stop_child-Orderly none es h = h
stop_child-Orderly (some p) es h = reaps (kills h)

reap-Orderly : (c : Option ℕ) (es : List Event) → Orderly es c → Orderly (reap c es) none
reap-Orderly none es h = h
reap-Orderly (some p) es h = reaps h

module _ (cfg : Server) (timing : Timing) where
  restarted-Orderly :
      (a : Attempt) (r : Result Text ℕ) (m : Monitor)
      → m.child ≡ none
      → Orderly m.events none
      → Orderly (restarted cfg timing a r m).events (restarted cfg timing a r m).child
  unfolding restarted
  restarted-Orderly a (err e) m c h = rw c h
  restarted-Orderly a (ok p) m c h = starts h

  turn-Orderly :
      (r : Round) (m : Monitor)
      → Orderly m.events m.child
      → Orderly (turn cfg timing r m).events (turn cfg timing r m).child
  unfolding turn restart
  turn-Orderly r m h = elim (Bool-cases (r.running && is_some m.child)) [
    | inl alive ↦ rw alive h
    | inr dead ↦ rw dead (
        restarted-Orderly r.attempt (spawn cfg r.attempt.launch) _ refl
          (reap-Orderly m.child m.events h))
  ]

  run-Orderly :
      (rounds : List Round) (m : Monitor)
      → Orderly m.events m.child
      → Orderly (run cfg timing rounds m) none
  unfolding run
  run-Orderly [] m h = stop_child-Orderly m.child _ (sleeps h)
  run-Orderly (r ∷ rounds) m h =
      run-Orderly rounds _ (turn-Orderly r (asleep cfg timing m) (sleeps h))

  started-Orderly :
      (w : Wait) (rounds : List Round) (r : Result Text ℕ)
      → Orderly (after_start cfg timing rounds (started cfg timing w r)) none
  unfolding started
  started-Orderly w rounds (err e) = nothing
  started-Orderly w rounds (ok p) = elim (Bool-cases (wait_ready timing w)) [
    | inl ready ↦ rw ready (run-Orderly rounds _ (starts nothing))
    | inr deaf ↦ rw deaf (reaps (kills (starts nothing)))
  ]

  -- Whatever the servers do, there is never more than one, each that was started is reaped, and
  -- nothing is left running behind a start that failed or a monitor that was halted.
  pub supervise-Orderly :
      (dir_made : Result Text (Unit {0})) (l : Launch) (w : Wait) (rounds : List Round)
      → Orderly (supervise cfg timing dir_made l w rounds) none
  unfolding supervise start
  supervise-Orderly (err e) l w rounds = nothing
  supervise-Orderly (ok _) l w rounds = started-Orderly w rounds (spawn cfg l)
