-- ===== src/Supervisor/Ready.antt =====
-- The waits of the supervisor end: `wait_ready` and `Halt::sleep` of crates/daemon/src/stt_server.rs.
use whispy.Base.{ℕ, ◌+◌, ◌*◌, ◌≤◌, ◌<◌, true, List, ◌≡◌, arith, length, is_some}
use whispy.Deadline.{Ticks, find_map_ends}
use whispy.Supervisor.{Timing, Look, Nap, look, nap, await_port, sleep, Wait}

look_late : (deadline : ℕ) (l : Look) → deadline ≤ l.now → is_some (look deadline l) ≡ true
unfolding look
look_late deadline l h = ground arith

nap_late : (deadline : ℕ) (l : Nap) → deadline ≤ l.now → is_some (nap deadline l) ≡ true
unfolding nap
nap_late deadline l h = ground arith

-- The wait for a server's port is over after n + 1 looks, where n pauses make up the timeout; and a
-- sleep, which looks at the flags in slices, after n + 1 looks, where n slices make it up. This asks
-- of the clock that each look be a pause behind the one before, or at the deadline.
await_port_ends :
    (timing : Timing) (w : Wait) (naps : List Nap) (slice duration n m t : ℕ)
    → Ticks (λ (l : Look). l.now) (w.start + timing.ready_timeout) timing.ready_poll w.start w.looks
    → timing.ready_timeout ≤ n * timing.ready_poll
    → n < length w.looks
    → Ticks (λ (l : Nap). l.now) (t + duration) slice t naps
    → duration ≤ m * slice
    → m < length naps
    → (is_some (await_port (w.start + timing.ready_timeout) w.looks) ≡ true)
      × (is_some (sleep (t + duration) naps) ≡ true)
unfolding await_port sleep
await_port_ends timing w naps slice duration n m t ticks far room ticks' far' room' = (
  find_map_ends _ _ timing.ready_poll (look _) n w.start w.looks (look_late _) ticks (omega arith)
      room,
  find_map_ends _ _ slice (nap _) m t naps (nap_late _) ticks' (omega arith) room',
)
