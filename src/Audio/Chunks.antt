-- ===== src/Audio/Chunks.antt =====
-- How the pipe cuts the bytes into reads does not matter: `read_loop` of crates/daemon/src/audio.rs.
use whispy.Base.{
  Option, none, some, List, [], ◌∷◌, ◌++◌, ◌≡◌, refl, sym, ap, ◌∙◌, Option-cases, inl, inr,
  append-nil, append_assoc, length, ◌≤◌, arith,
}
use whispy.Audio.{
  Signal, AudioConfig, Reader, Stop, take_pair, feed, Read, interrupted, chunk, read_loop, fresh,
}
use whispy.Text.{Bytes}

module _ (g : Signal) (cfg : AudioConfig) where
  -- All that is read.
  abbrev pub bytes_of : List Read → Bytes
  bytes_of [] = []
  bytes_of (interrupted ∷ reads) = bytes_of reads
  bytes_of (chunk bytes ∷ reads) = bytes ++ bytes_of reads

  abbrev then_feed : Reader × Bytes × Option Stop → Bytes → Reader × Bytes × Option Stop
  then_feed (r, left, some s) ys = (r, left, some s)
  then_feed (r, left, none) ys = feed g cfg r (left ++ ys)

  feed-append :
      (r : Reader) (xs ys : Bytes) → feed g cfg r (xs ++ ys) ≡ then_feed (feed g cfg r xs) ys
  unfolding feed
  feed-append r [] ys = refl
  feed-append r (a ∷ []) ys = refl
  feed-append r (a ∷ b ∷ xs) ys = elim (Option-cases (take_pair g cfg a b r).1) [
    | inl e ↦ rw (e, feed) (feed-append (take_pair g cfg a b r).0 xs ys)
    | inr (s, e) ↦ rw (e, feed) refl
  ]

  -- What the loop ends with.
  abbrev pub outcome : Reader × Bytes × Option Stop → Reader × Option Stop
  outcome (r, left, stop) = (r, stop)

  feed_short :
      (r : Reader) (left : Bytes) → length left ≤ 1 → outcome (feed g cfg r left) ≡ (r, none)
  unfolding feed
  feed_short r [] h = refl
  feed_short r (a ∷ []) h = refl
  feed_short r (a ∷ b ∷ left) h = absurd (omega arith)

  feed_left : (r : Reader) (xs : Bytes) → length (feed g cfg r xs).1 ≤ 1
  unfolding feed
  feed_left r [] = omega arith
  feed_left r (a ∷ []) = omega arith
  feed_left r (a ∷ b ∷ xs) = elim (Option-cases (take_pair g cfg a b r).1) [
    | inl e ↦ rw (e, feed) (feed_left (take_pair g cfg a b r).0 xs)
    | inr (s, e) ↦ rw (e, feed) (omega arith)
  ]

  then_feed_on :
      (x : Reader × Bytes × Option Stop) (ys : Bytes)
      → x.2 ≡ none
      → then_feed x ys ≡ feed g cfg x.0 (x.1 ++ ys)
  then_feed_on (r, left, none) ys e = refl
  then_feed_on (r, left, some s) ys e = cc

  then_feed_stopped :
      (x : Reader × Bytes × Option Stop) (ys : Bytes) (s : Stop) → x.2 ≡ some s → then_feed x ys ≡ x
  then_feed_stopped (r, left, none) ys s e = cc
  then_feed_stopped (r, left, some _) ys s e = refl

  read_on :
      (reads : List Read) (r : Reader) (left bytes : Bytes)
      → (feed g cfg r (left ++ bytes)).2 ≡ none
      → read_loop g cfg (chunk bytes ∷ reads) r left
        ≡ read_loop g cfg reads (feed g cfg r (left ++ bytes)).0 (feed g cfg r (left ++ bytes)).1
  unfolding read_loop
  read_on reads r left bytes e = rw (e, read_loop) refl

  read_stopped :
      (reads : List Read) (r : Reader) (left bytes : Bytes) (s : Stop)
      → (feed g cfg r (left ++ bytes)).2 ≡ some s
      → read_loop g cfg (chunk bytes ∷ reads) r left ≡ outcome (feed g cfg r (left ++ bytes))
  unfolding read_loop
  read_stopped reads r left bytes s e = rw (e, read_loop) refl

  pub read_loop-feed :
      (reads : List Read) (r : Reader) (left : Bytes)
      → length left ≤ 1
      → read_loop g cfg reads r left ≡ outcome (feed g cfg r (left ++ bytes_of reads))
  unfolding read_loop
  read_loop-feed [] r left h =
      sym (ap (λ b. outcome (feed g cfg r b)) (append-nil left) ∙ feed_short r left h)
  read_loop-feed (interrupted ∷ reads) r left h = read_loop-feed reads r left h
  read_loop-feed (chunk bytes ∷ reads) r left h =
      let fed = feed g cfg r (left ++ bytes) in
      let split =
        ap (λ b. outcome (feed g cfg r b)) (sym (append_assoc left bytes (bytes_of reads)))
        ∙ ap outcome (feed-append r (left ++ bytes) (bytes_of reads)) in
      elim (Option-cases fed.2) [
        | inl e ↦
            read_on reads r left bytes e
            ∙ read_loop-feed reads fed.0 fed.1 (feed_left r (left ++ bytes))
            ∙ sym (split ∙ ap outcome (then_feed_on fed (bytes_of reads) e))
        | inr (s, e) ↦
            read_stopped reads r left bytes s e
            ∙ sym (split ∙ ap outcome (then_feed_stopped fed (bytes_of reads) s e))
      ]

  -- The clip, the reported levels and the reason for the end depend on the bytes alone, not on how
  -- the pipe cuts them into reads, odd lengths and interrupted reads included.
  pub read_loop_chunks :
      (a b : List Read)
      → bytes_of a ≡ bytes_of b
      → read_loop g cfg a fresh [] ≡ read_loop g cfg b fresh []
  read_loop_chunks a b e =
      read_loop-feed a fresh [] (omega arith)
      ∙ ap (λ bytes. outcome (feed g cfg fresh bytes)) e
      ∙ sym (read_loop-feed b fresh [] (omega arith))
