-- ===== src/Server/Order.antt =====
-- Commands are handled one at a time: crates/daemon/src/server.rs.
use whispy.Base.{
  Bool, true, false, ◌&&◌, not, List, [], ◌∷◌, ◌++◌, filter, ◌≡◌, ◌≢◌, ◌⊎◌, inl, inr, refl, sym, ap,
  ◌∙◌, arith, if◌then◌else◌, Result, ok, err, Bool-cases,
}
use whispy.Protocol.{Cmd, Resp}
use whispy.Server.{
  Wire, Arrival, line, idles, breaks, Served, Accept, accepted, would_block, accept_fails,
  SocketFile, missing, stale, live, Place, Session, is_blank, answer, handle_lines, handle_conn,
  accept_loop, serve, looped, refused, ensure_not_running,
}
use whispy.Text.{Text, codes}

-- The lines that a connection takes: up to the first timeout or error, and no more behind a reply that
-- could not be written.
abbrev pub lines_read : List Arrival → List Text
lines_read [] = []
lines_read (idles ∷ rest) = []
lines_read (breaks e ∷ rest) = []
lines_read (line l (ok _) ∷ rest) = l ∷ lines_read rest
lines_read (line l (err e) ∷ rest) = if is_blank l then lines_read rest else l ∷ []

abbrev pub lines_of : Result Text (Unit {0}) → List Arrival → List Text
lines_of (err e) arrivals = []
lines_of (ok _) arrivals = lines_read arrivals

-- The requests of all connections, in the order of the connections.
abbrev pub requests : List Accept → List Text
requests [] = []
requests (accepted c ∷ rest) =
    filter (λ l. not (is_blank l)) (lines_of c.settings c.arrivals) ++ requests rest
requests (_ ∷ rest) = requests rest

abbrev pub is_ok : Result Text (Unit {0}) → Bool
is_ok (ok _) = true
is_ok (err e) = false

abbrev pub answers_ok : Place → Bool
answers_ok p = is_ok p.dir_made && is_ok p.removed && is_ok p.bound && is_ok p.nonblocking

abbrev place_of : Text → Bool → (dir removed bound polls : Result Text (Unit {0})) → Place
place_of path closed dir removed bound polls = record {
  path = path;
  dir_made = dir;
  removed = removed;
  bound = bound;
  nonblocking = polls;
  closed = closed;
}

module _ {A : Type 0} (wire : Wire) (handle : Cmd → A → A × Resp) where
  -- One request behind the other, with no connections.
  unfoldable pub talk : List Text → A → A × List Text
  unfolding answer
  talk [] a = (a, [])
  talk (l ∷ ls) a =
      let (b, resp) = answer wire handle l a in
      let (c, replies) = talk ls b in (c, (wire.print_resp resp ++ codes "\n") ∷ replies)

  talk-append :
      (xs ys : List Text) (a : A)
      → talk (xs ++ ys) a ≡ ((talk ys (talk xs a).0).0, (talk xs a).1 ++ (talk ys (talk xs a).0).1)
  unfolding talk
  talk-append [] ys a = refl
  talk-append (x ∷ xs) ys a =
      let b = answer wire handle x a in
      ap (λ (r : A × List Text). (r.0, (wire.print_resp b.1 ++ codes "\n") ∷ r.1))
        (talk-append xs ys b.0)

  abbrev outcome : Served A → A × List Text
  outcome s = (s.app, s.replies)

  handle_lines-talk :
      (arrivals : List Arrival) (a : A)
      → outcome (handle_lines wire handle arrivals a)
        ≡ talk (filter (λ l. not (is_blank l)) (lines_read arrivals)) a
  unfolding handle_lines talk
  handle_lines-talk [] a = refl
  handle_lines-talk (idles ∷ rest) a = refl
  handle_lines-talk (breaks e ∷ rest) a = refl
  handle_lines-talk (line l (ok _) ∷ rest) a = elim (Bool-cases (is_blank l)) [
    | inl blank ↦ rw blank (handle_lines-talk rest a)
    | inr full ↦
        let b = answer wire handle l a in
        rw full (
          ap (λ (r : A × List Text). (r.0, (wire.print_resp b.1 ++ codes "\n") ∷ r.1))
            (handle_lines-talk rest b.0))
  ]
  handle_lines-talk (line l (err e) ∷ rest) a = elim (Bool-cases (is_blank l)) [
    | inl blank ↦ rw blank (handle_lines-talk rest a)
    | inr full ↦ rw (full, full) refl
  ]

  handle_conn-talk :
      (settings : Result Text (Unit {0})) (arrivals : List Arrival) (a : A)
      → outcome (handle_conn wire handle (record { settings = settings; arrivals = arrivals }) a)
        ≡ talk (filter (λ l. not (is_blank l)) (lines_of settings arrivals)) a
  unfolding handle_conn talk
  handle_conn-talk (err e) arrivals a = refl
  handle_conn-talk (ok _) arrivals a = handle_lines-talk arrivals a

  accept_loop-talk :
      (accepts : List Accept) (a : A)
      → accept_loop wire handle accepts a ≡ talk (requests accepts) a
  unfolding accept_loop talk
  accept_loop-talk [] a = refl
  accept_loop-talk (would_block ∷ rest) a = accept_loop-talk rest a
  accept_loop-talk (accept_fails e ∷ rest) a = accept_loop-talk rest a
  accept_loop-talk (accepted c ∷ rest) a =
      let xs = filter (λ l. not (is_blank l)) (lines_of c.settings c.arrivals) in
      let first : outcome (handle_conn wire handle c a) ≡ talk xs a =
        handle_conn-talk c.settings c.arrivals a in
      ap
        (λ (r : A × List Text).
          ((accept_loop wire handle rest r.0).0, r.1 ++ (accept_loop wire handle rest r.0).1))
        first
      ∙ rw (accept_loop-talk rest (talk xs a).0) refl
      ∙ sym (talk-append xs (requests rest) a)

  -- How `serve` can end.
  abbrev pub Ends : Place → List Accept → SocketFile → A → Session A → Type 0
  Ends p accepts file a r =
      ((r.result ≡ ok tt)
        × (file ≢ live)
        × (r.app ≡ (talk (requests accepts) a).0)
        × (r.replies ≡ (talk (requests accepts) a).1))
      ⊎ ((e : Text) × (r.result ≡ err e)
          × (r.app ≡ a)
          × (r.replies ≡ [])
          × ((file ≡ live) ⊎ (answers_ok p ≡ false))
          × (file ≡ live → r.file ≡ live))

  -- A refusal of the system, where no daemon listened.
  refusal :
      (p : Place) (accepts : List Accept) (file after : SocketFile) (a : A) (e : Text)
      → file ≢ live
      → answers_ok p ≡ false
      → Ends p accepts file a (refused wire handle a after e)
  refusal p accepts file after a e free fault =
      inr (e, refl, refl, refl, inr fault, λ h. absurd (free h))

  success :
      (p : Place) (accepts : List Accept) (file : SocketFile) (a : A)
      → file ≢ live
      → Ends p accepts file a (looped wire handle p (accept_loop wire handle accepts a))
  success p accepts file a free = inl (
    refl,
    free,
    ap (λ (r : A × List Text). r.0) (accept_loop-talk accepts a),
    ap (λ (r : A × List Text). r.1) (accept_loop-talk accepts a),
  )

  serve_answers :
      (path : Text) (closed : Bool) (dir removed bound polls : Result Text (Unit {0}))
      (accepts : List Accept) (file : SocketFile) (a : A)
      → let p = place_of path closed dir removed bound polls in
        Ends p accepts file a (serve wire handle p accepts file a)
  unfolding serve ensure_not_running
  serve_answers path closed (err x) r b n accepts live a =
      inr (x, refl, refl, refl, inl refl, λ h. refl)
  serve_answers path closed (ok u0) r b n accepts live a =
      inr (_, refl, refl, refl, inl refl, λ h. refl)
  serve_answers path closed (err x) r b n accepts missing a =
      refusal (place_of path closed (err x) r b n) accepts missing missing a x
        (λ h. ground (arith, h)) refl
  serve_answers path closed (err x) r b n accepts stale a =
      refusal (place_of path closed (err x) r b n) accepts stale stale a x (λ h. ground (arith, h))
        refl
  serve_answers path closed (ok u0) (err x) b n accepts stale a =
      refusal (place_of path closed (ok u0) (err x) b n) accepts stale stale a x
        (λ h. ground (arith, h)) refl
  serve_answers path closed (ok u0) r (err x) n accepts missing a =
      refusal (place_of path closed (ok u0) r (err x) n) accepts missing missing a x
        (λ h. ground (arith, h)) (ground arith)
  serve_answers path closed (ok u0) (ok u1) (err x) n accepts stale a =
      refusal (place_of path closed (ok u0) (ok u1) (err x) n) accepts stale missing a x
        (λ h. ground (arith, h)) refl
  serve_answers path closed (ok u0) r (ok u2) (err x) accepts missing a =
      refusal (place_of path closed (ok u0) r (ok u2) (err x)) accepts missing stale a x
        (λ h. ground (arith, h)) (ground arith)
  serve_answers path closed (ok u0) (ok u1) (ok u2) (err x) accepts stale a =
      refusal (place_of path closed (ok u0) (ok u1) (ok u2) (err x)) accepts stale stale a x
        (λ h. ground (arith, h)) refl
  serve_answers path closed (ok u0) r (ok u2) (ok u3) accepts missing a =
      success (place_of path closed (ok u0) r (ok u2) (ok u3)) accepts missing a
        (λ h. ground (arith, h))
  serve_answers path closed (ok u0) (ok u1) (ok u2) (ok u3) accepts stale a =
      success (place_of path closed (ok u0) (ok u1) (ok u2) (ok u3)) accepts stale a
        (λ h. ground (arith, h))

  -- The server runs one at a time, and a second one touches nothing: `serve` succeeds only where no
  -- daemon listened, and then the requests of all its connections were handled one behind the other,
  -- each with its reply (which may fail to reach the client, and then ends its connection), as if a
  -- single client had sent them, whatever polls, failures and timeouts came between. Otherwise a daemon listened or the system refused something, no command was
  -- handled, and a running daemon keeps its socket.
  pub serve-talk :
      (p : Place) (accepts : List Accept) (file : SocketFile) (a : A)
      → Ends p accepts file a (serve wire handle p accepts file a)
  serve-talk p accepts file a =
      serve_answers p.path p.closed p.dir_made p.removed p.bound p.nonblocking accepts file a
