-- ===== src/Server.antt =====
-- The socket server: crates/daemon/src/server.rs. What `App::handle` does to a state, the encoding of
-- commands and replies (`serde_json`) and what the socket and the file system answer are arguments.
pub mod Order
use whispy.Base.{Bool, true, false, List, [], ◌∷◌, ◌++◌, if◌then◌else◌, Result, ok, err}
use whispy.Protocol.{Cmd, Resp, resp_err}
use whispy.Text.Words.{is_empty}
use whispy.Text.{Text, codes, trim}

-- `serde_json` on commands and replies.
pub record Wire : Type 0 where
  pub parse_cmd : Text → Result Text Cmd
  pub print_resp : Resp → Text

-- What `reader.lines()` gives next: a line, with what the writing of its reply comes to; a timeout; or
-- another error. Its end is that of the list.
pub data Arrival : Type 0 where
  line : Text → Result Text (Unit {0}) → Arrival
  idles : Arrival
  breaks : Text → Arrival

-- A connection: the settings of the stream, and what arrives.
pub record Connection : Type 0 where
  pub settings : Result Text (Unit {0})
  pub arrivals : List Arrival

-- What a connection comes to: the state behind it, the replies handed to the writer, which may fail on
-- the last, and the result.
pub record Served (A : Type 0) : Type 0 where
  pub app : A
  pub replies : List Text
  pub result : Result Text (Unit {0})

-- What `listener.accept()` gives.
pub data Accept : Type 0 where
  accepted : Connection → Accept
  would_block : Accept
  accept_fails : Text → Accept

-- The socket's file: none, one that nobody listens on, or that of a running daemon.
pub data SocketFile : Type 0 where
  missing stale live : SocketFile

-- What the system answers to `serve`.
pub record Place : Type 0 where
  pub path : Text
  pub dir_made : Result Text (Unit {0})
  pub removed : Result Text (Unit {0})
  pub bound : Result Text (Unit {0})
  pub nonblocking : Result Text (Unit {0})
  pub closed : Bool

-- What `serve` comes to.
pub record Session (A : Type 0) : Type 0 where
  pub app : A
  pub replies : List Text
  pub file : SocketFile
  pub result : Result Text (Unit {0})

abbrev pub is_blank : Text → Bool
is_blank l = is_empty (trim l)

-- `ensure_not_running`.
unfoldable pub ensure_not_running : Text → SocketFile → Result Text (Unit {0})
ensure_not_running path live = err (
    codes "another whispy-daemon is already listening on "
    ++ (path ++ codes " (stop it with `systemctl --user stop whispy-daemon`)"))
ensure_not_running path _ = ok tt

-- The removal of a file that is in the way.
abbrev pub cleared : Place → SocketFile → Result Text (Unit {0})
cleared p missing = ok tt
cleared p _ = p.removed

module _ {A : Type 0} (wire : Wire) (handle : Cmd → A → A × Resp) where
  abbrev pub answer_parsed : Result Text Cmd → A → A × Resp
  answer_parsed (ok c) a = handle c a
  answer_parsed (err e) a = (a, resp_err (codes "invalid command: " ++ e))

  -- The reply to a line.
  unfoldable pub answer : Text → A → A × Resp
  answer l a = answer_parsed (wire.parse_cmd l) a

  abbrev pub replied : A → Text → Result Text (Unit {0}) → Served A → Served A
  replied b reply (err e) later = record { app = b; replies = reply ∷ []; result = err e }
  replied b reply (ok _) later = record later { replies = reply ∷ later.replies }

  -- The loop of `handle_conn`.
  unfoldable pub handle_lines : List Arrival → A → Served A
  unfolding answer
  handle_lines [] a = record { app = a; replies = []; result = ok tt }
  handle_lines (idles ∷ rest) a = record { app = a; replies = []; result = ok tt }
  handle_lines (breaks e ∷ rest) a = record { app = a; replies = []; result = err e }
  handle_lines (line l w ∷ rest) a =
      let (b, resp) = answer l a in
      let skipped = handle_lines rest a in
      let later = handle_lines rest b in
      if is_blank l then skipped else replied b (wire.print_resp resp ++ codes "\n") w later

  abbrev pub with_settings : Result Text (Unit {0}) → A → Served A → Served A
  with_settings (err e) a s = record { app = a; replies = []; result = err e }
  with_settings (ok _) a s = s

  -- `handle_conn`.
  unfoldable pub handle_conn : Connection → A → Served A
  unfolding handle_lines
  handle_conn c a = with_settings c.settings a (handle_lines c.arrivals a)

  -- The accept loop of `serve`, until it sees the shutdown flag: an error ends its connection, not the
  -- loop.
  unfoldable pub accept_loop : List Accept → A → A × List Text
  unfolding handle_conn
  accept_loop [] a = (a, [])
  accept_loop (would_block ∷ rest) a = accept_loop rest a
  accept_loop (accept_fails e ∷ rest) a = accept_loop rest a
  accept_loop (accepted c ∷ rest) a =
      let s = handle_conn c a in
      let (b, replies) = accept_loop rest s.app in (b, s.replies ++ replies)

  abbrev pub refused : A → SocketFile → Text → Session A
  refused a file e = record { app = a; replies = []; file = file; result = err e }

  abbrev pub looped : Place → A × List Text → Session A
  looped p (b, replies) = record {
    app = b;
    replies = replies;
    file = if p.closed then missing else stale;
    result = ok tt;
  }

  -- `serve`.
  unfoldable pub serve : Place → List Accept → SocketFile → A → Session A
  unfolding ensure_not_running accept_loop
  serve p accepts file a = elim p.dir_made [
    | err e ↦ refused a file e
    | ok _ ↦ elim (ensure_not_running p.path file) [
      | err e ↦ refused a file e
      | ok _ ↦ elim (cleared p file) [
        | err e ↦ refused a file e
        | ok _ ↦ elim p.bound [
          | err e ↦ refused a missing e
          | ok _ ↦ elim p.nonblocking [
            | err e ↦ refused a stale e
            | ok _ ↦ looped p (accept_loop accepts a)
          ]
        ]
      ]
    ]
  ]
