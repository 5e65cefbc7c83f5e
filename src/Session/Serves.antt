-- ===== src/Session/Serves.antt =====
-- The commands of crates/daemon/src/app.rs as the contract of the session has them.
use whispy.Base.{
  ℕ, suc, ◌+◌, ◌%◌, ◌<◌, true, false, Option, List, [], ◌∷◌, ◌++◌, ◌≡◌, ◌≢◌, refl, sym, ap, arith,
  any, all, ltb, ◌==◌, Result, ok, err, subst,
}
use whispy.Protocol.{Cmd, Resp, resp_ok, resp_err}
use whispy.Session.Contract.{
  Slot, empty, live, overrun, is_live, Serves, pings, shows, begins, refuses, fails, stops,
  stops_nothing, cancels, slot,
}
use whispy.Session.State.{App, Setup, Answers, is_stopped, reclaim, take_recording, report, Samples}
use whispy.Session.{start, stop, cancel, cancel_mark, cancel_end, close, handle}
use whispy.Status.{Env, u64_mod}
use whispy.Text.{Text, codes}

-- No capture has overrun that is still to be opened.
abbrev pub IsFresh : App → Type 0
IsFresh a = all (λ i. ltb i a.lifecycle.next_id) a.auto_stopped ≡ true

not_overrun : (n : ℕ) (ids : List ℕ) → all (λ i. ltb i n) ids ≡ true → any (λ i. i == n) ids ≡ false
not_overrun n [] h = refl
not_overrun n (i ∷ ids) h = ground (arith, not_overrun n ids)

fresh_later :
    (n : ℕ) (ids : List ℕ) → all (λ i. ltb i n) ids ≡ true → all (λ i. ltb i (n + 1)) ids ≡ true
fresh_later n [] h = refl
fresh_later n (i ∷ ids) h = ground (arith, fresh_later n ids)

module _ (w : Setup) where
  next_of :
      (a : App)
      → suc a.lifecycle.next_id < u64_mod
      → (a.lifecycle.next_id + 1) % u64_mod ≡ a.lifecycle.next_id + 1
  next_of a room = omega (arith, room)

  -- A reply and the state after it: the contract's reply, the contract's slot.
  record Answered (t : Slot) (r : Resp) (b : App × Resp) : Type 0 where
    reply : b.1 ≡ r
    left : slot b.0 ≡ t
    fresh : IsFresh b.0

  answered :
      {t : Slot} {r : Resp} {c : Cmd} {s : Slot} {b : App × Resp}
      → Answered t r b
      → Serves c s r t
      → Serves c s b.1 (slot b.0) × IsFresh b.0
  answered {t} {r} {c} {s} {b} k v = (
    subst (λ u. Serves c s b.1 u) (sym k.left) (subst (λ x. Serves c s x t) (sym k.reply) v),
    k.fresh,
  )

  start_ok :
      (workflow : Option Text) (window : Option Text) (env : Env) (a : App)
      → is_live (slot a) ≡ false
      → IsFresh a
      → suc a.lifecycle.next_id < u64_mod
      → Answered (live a.lifecycle.next_id) resp_ok (start w workflow (ok tt) window env a)
  unfolding start slot reclaim is_stopped
  start_ok workflow window env a free fresh room =
      let later = fresh_later a.lifecycle.next_id a.auto_stopped fresh in
      let new = not_overrun a.lifecycle.next_id a.auto_stopped fresh in
      record {
        reply = ground arith;
        left = ground (arith, new);
        fresh = ground (arith, next_of a room, later);
      }

  start_err :
      (workflow : Option Text) (e : Text) (window : Option Text) (env : Env) (a : App)
      → is_live (slot a) ≡ false
      → IsFresh a
      → suc a.lifecycle.next_id < u64_mod
      → Answered empty
          (resp_err (codes "failed to start capture: " ++ e))
          (start w workflow (err e) window env a)
  unfolding start slot reclaim is_stopped
  start_err workflow e window env a free fresh room =
      let later = fresh_later a.lifecycle.next_id a.auto_stopped fresh in
      record {
        reply = ground arith;
        left = ground arith;
        fresh = ground (arith, next_of a room, later);
      }

  start_busy :
      (n : ℕ) (workflow : Option Text) (capture : Result Text (Unit {0})) (window : Option Text)
      (env : Env) (a : App)
      → slot a ≡ live n
      → IsFresh a
      → Answered
          (live n)
          (resp_err (codes "already recording"))
          (start w workflow capture window env a)
  unfolding start slot reclaim is_stopped
  start_busy n workflow capture window env a running fresh = record {
    reply = ground arith;
    left = ground arith;
    fresh = ground arith;
  }

  start-Serves :
      (workflow : Option Text) (capture : Result Text (Unit {0})) (window : Option Text) (env : Env)
      (a : App) (s : Slot)
      → slot a ≡ s
      → IsFresh a
      → suc a.lifecycle.next_id < u64_mod
      → let b = start w workflow capture window env a in
        Serves (Cmd.start workflow) s b.1 (slot b.0) × IsFresh b.0
  start-Serves workflow capture window env a (live n) e fresh room =
      answered (start_busy n workflow capture window env a e fresh) refuses
  start-Serves workflow (ok _) window env a empty e fresh room =
      answered (start_ok workflow window env a (ap is_live e) fresh room)
        (begins a.lifecycle.next_id refl)
  start-Serves workflow (ok _) window env a (overrun n) e fresh room =
      answered (start_ok workflow window env a (ap is_live e) fresh room)
        (begins a.lifecycle.next_id refl)
  start-Serves workflow (err m) window env a empty e fresh room =
      answered (start_err workflow m window env a (ap is_live e) fresh room) (fails m refl)
  start-Serves workflow (err m) window env a (overrun n) e fresh room =
      answered (start_err workflow m window env a (ap is_live e) fresh room) (fails m refl)

  stop_ok :
      (samples : Option Samples) (env : Env) (a : App)
      → slot a ≢ empty
      → IsFresh a
      → Answered empty resp_ok (stop w samples env a)
  unfolding stop take_recording close report slot
  stop_ok samples env a busy fresh = record {
    reply = ground arith;
    left = ground arith;
    fresh = ground arith;
  }

  stop_err :
      (samples : Option Samples) (env : Env) (a : App)
      → slot a ≡ empty
      → IsFresh a
      → Answered empty (resp_err (codes "not recording")) (stop w samples env a)
  unfolding stop take_recording close report slot
  stop_err samples env a free fresh = record {
    reply = ground arith;
    left = ground arith;
    fresh = ground arith;
  }

  stop-Serves :
      (samples : Option Samples) (env : Env) (a : App) (s : Slot)
      → slot a ≡ s
      → IsFresh a
      → let b = stop w samples env a in Serves Cmd.stop s b.1 (slot b.0) × IsFresh b.0
  stop-Serves samples env a empty e fresh = answered (stop_err samples env a e fresh) stops_nothing
  stop-Serves samples env a (live n) e fresh =
      answered (stop_ok samples env a (λ h. ground (arith, e, h)) fresh)
        (stops (λ h. ground (arith, h)))
  stop-Serves samples env a (overrun n) e fresh =
      answered (stop_ok samples env a (λ h. ground (arith, e, h)) fresh)
        (stops (λ h. ground (arith, h)))

  cancel_ok : (env : Env) (a : App) → IsFresh a → Answered empty resp_ok (cancel w env a)
  unfolding cancel cancel_mark cancel_end slot
  cancel_ok env a fresh = record { reply = ground arith; left = ground arith; fresh = ground arith }

  pub handle-Serves :
      (c : Cmd) (capture : Result Text (Unit {0})) (window : Option Text) (w' : Answers) (a : App)
      → IsFresh a
      → suc a.lifecycle.next_id < u64_mod
      → let b = handle w c capture window w' a in Serves c (slot a) b.1 (slot b.0) × IsFresh b.0
  unfolding handle
  handle-Serves Cmd.ping capture window w' a fresh room = (pings, fresh)
  handle-Serves Cmd.status capture window w' a fresh room = (shows a.status.shared, fresh)
  handle-Serves (Cmd.start workflow) capture window w' a fresh room =
      start-Serves workflow capture window w'.env a (slot a) refl fresh room
  handle-Serves Cmd.stop capture window w' a fresh room =
      stop-Serves w'.samples w'.env a (slot a) refl fresh
  handle-Serves Cmd.cancel capture window w' a fresh room =
      answered (cancel_ok w'.env a fresh) cancels
