-- ===== src/Multipart/Find.antt =====
-- Where `find` of crates/stt/src/multipart.rs finds a delimiter that opens with a byte it has not
-- again.
use whispy.Base.{
  ℕ, true, false, none, some, [], ◌∷◌, ◌++◌, ◌≡◌, refl, arith, starts_with, starts_with-append,
  length, ◌==◌, any,
}
use whispy.Multipart.{find}
use whispy.Text.{Bytes}

-- The byte does not stand in the list.
abbrev pub Absent : ℕ → Bytes → Type 0
Absent c xs = any (λ x. x == c) xs ≡ false

-- A match that reached into `c ∷ s` would meet `c`.
starts_with_short :
    (w p s : Bytes) (c : ℕ)
    → Absent c p
    → starts_with (w ++ (c ∷ s)) p ≡ true
    → starts_with w p ≡ true
starts_with_short w [] s c h e = refl
starts_with_short [] (x ∷ p) s c h e = ground arith
starts_with_short (y ∷ w) (x ∷ p) s c h e = ground (arith, starts_with_short w p s c)

-- The needle `c ∷ n` is found right behind a text that does not hold it.
pub find-append :
    (v n rest : Bytes) (c : ℕ)
    → Absent c n
    → find v (c ∷ n) ≡ none
    → find (v ++ ((c ∷ n) ++ rest)) (c ∷ n) ≡ some (length v)
unfolding find
find-append [] n rest c h e = ground (arith, starts_with-append n rest)
find-append (x ∷ v) n rest c h e =
    ground (arith, starts_with_short v n (n ++ rest) c h, find-append v n rest c h)

-- A text without the needle's first byte does not hold the needle.
pub find-Absent : (v n : Bytes) (c : ℕ) → Absent c v → find v (c ∷ n) ≡ none
unfolding find
find-Absent [] n c h = refl
find-Absent (x ∷ v) n c h = ground (arith, find-Absent v n c)
