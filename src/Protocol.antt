-- ===== src/Protocol.antt =====
-- The socket protocol and the published state: crates/common/src/lib.rs.
use whispy.Base.{Bool, true, false, Option, none, some}
use whispy.Float.{F32, F64}
use whispy.Text.{Text}

-- `Cmd`.
pub data Cmd : Type 0 where
  start : Option Text → Cmd
  stop cancel status ping : Cmd

-- `State`: the recording lifecycle.
pub data State : Type 0 where
  idle recording transcribing success error : State

-- `StateSnapshot`. The floats are bit patterns; 0 is `0.0`.
pub record StateSnapshot : Type 0 where
  pub state : State
  pub rms : F32
  pub error_kind : Option Text
  pub error_message : Option Text
  pub timestamp : F64

-- `Resp`.
pub record Resp : Type 0 where
  pub is_ok : Bool
  pub reason : Option Text
  pub snapshot : Option StateSnapshot

-- `Resp::ok`, `Resp::status`, `Resp::err`.
abbrev pub resp_ok : Resp
resp_ok = record { is_ok = true; reason = none; snapshot = none }

abbrev pub resp_status : StateSnapshot → Resp
resp_status s = record { is_ok = true; reason = none; snapshot = some s }

abbrev pub resp_err : Text → Resp
resp_err message = record { is_ok = false; reason = some message; snapshot = none }

-- `StateSnapshot::default()`.
abbrev pub default_snapshot : StateSnapshot
default_snapshot = record {
  state = idle;
  rms = 0;
  error_kind = none;
  error_message = none;
  timestamp = 0;
}
