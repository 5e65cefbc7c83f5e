-- ===== src/Status/Publish.antt =====
-- Atomic writing of `state.json`: `StatePublisher::publish` of crates/daemon/src/state.rs.
use whispy.Base.{
  ℕ, Bool, true, false, ◌&&◌, not, Option, none, some, if◌then◌else◌, take, ◌≡◌, refl, ◌⊎◌, inl,
  arith,
}
use whispy.Text.{Bytes}

-- The state file, and the temporary file beside it.
pub record Disk : Type 0 where
  pub tmp : Option Bytes
  pub file : Option Bytes

-- How the system calls of one publish end. `written` is how much a failing write leaves behind.
pub record Io : Type 0 where
  pub dir_made : Bool
  pub created : Bool
  pub write_done : Bool
  pub written : ℕ
  pub synced : Bool
  pub renamed : Bool

abbrev pub all_done : Io
all_done = record {
  dir_made = true;
  created = true;
  write_done = true;
  written = 0;
  synced = true;
  renamed = true;
}

-- Create, write, sync, rename; the flag is whether `Ok(())` came back.
unfoldable pub write_json : Io → Bytes → Disk → Disk × Bool
write_json io bytes d =
    if not io.created
    then (d, false)
    else if not io.write_done
    then (record d { tmp = some (take io.written bytes) }, false)
    else if not (io.synced && io.renamed)
    then (record d { tmp = some bytes }, false)
    else (record { tmp = none; file = some bytes }, true)

-- `publish`; the snapshot comes encoded, or `none` if `serde_json` refused it.
unfoldable pub publish : Io → Option Bytes → Disk → Disk × Bool
unfolding write_json
publish io json d =
    if not io.dir_made
    then (d, false)
    else elim json [ none ↦ (d, false) | some bytes ↦ write_json io bytes d ]

-- Wherever `publish` stops, the state file is the old one with an error returned, or holds the
-- whole new snapshot with success returned and no temporary file left.
pub publish_atomic :
    (io : Io) (json : Option Bytes) (d : Disk)
    → (((publish io json d).1 ≡ false) × ((publish io json d).0.file ≡ d.file))
      ⊎ (((publish io json d).1 ≡ true)
          × ((publish io json d).0.file ≡ json)
          × ((publish io json d).0.tmp ≡ none))
unfolding publish
publish_atomic io none d = inl (ground arith, ground arith)
publish_atomic io (some bytes) d = ground arith

-- With every system call done and the snapshot encoded, the new snapshot is in place.
pub publish_done :
    (bytes : Bytes) (d : Disk)
    → publish all_done (some bytes) d ≡ (record { tmp = none; file = some bytes }, true)
unfolding publish
publish_done bytes d = refl
