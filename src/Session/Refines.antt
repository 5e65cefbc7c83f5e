-- ===== src/Session/Refines.antt =====
-- The session of crates/daemon/src/app.rs keeps its contract.
use whispy.Base.{List, ◌≡◌}
use whispy.Protocol.{Cmd, Resp}
use whispy.Session.Contract.{Slot, Allowed, slot}
use whispy.Session.State.{App, Setup}
use whispy.Status.{Status}
use whispy.Session.Serves.{IsFresh}

module _ (w : Setup) where
  -- What leaves the slot alone.
  record Apart (a b : App) : Type 0 where
    lifecycle : b.lifecycle ≡ a.lifecycle
    auto_stopped : b.auto_stopped ≡ a.auto_stopped

  -- A conversation of the contract, which the session may have left.
  abbrev Kept : Slot → List (Cmd × Resp) → App → Type 0
  Kept s talk b = Allowed s talk (slot b) × IsFresh b
