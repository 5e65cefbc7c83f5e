-- ===== src/Multipart/Header.antt =====
-- The boundary that the daemon names in its `Content-Type` header (crates/daemon/src/stt.rs), read
-- back by `boundary` of crates/stt/src/multipart.rs.
use whispy.Base.{
  ℕ, Bool, true, false, ◌&&◌, some, [], ◌∷◌, ◌++◌, ◌≡◌, ◌≢◌, refl, arith, all, not, ◌==◌,
}
use whispy.Multipart.{boundary, find_boundary}
use whispy.Text.Split.{split, trim_matches, trim_end_matches}
use whispy.Text.{Text, codes, trim, trim_end, is_whitespace}

-- The characters of a boundary that the header can carry bare.
unfoldable pub is_plain : ℕ → Bool
is_plain c = not (is_whitespace c) && (not (c == b';') && not (c == b'"'))

abbrev pub IsPlain : Text → Type 0
IsPlain s = all is_plain s ≡ true

is_plain_parts :
    (c : ℕ)
    → is_plain c ≡ true
    → (is_whitespace c ≡ false) × ((c == b';') ≡ false) × ((c == b'"') ≡ false)
unfolding is_plain
is_plain_parts c h = ground arith

split_plain : (s : Text) → IsPlain s → split b';' s ≡ s ∷ []
split_plain [] h = refl
split_plain (x ∷ s) h = ground (arith, split_plain s, is_plain_parts x)

trim_end_plain : (s : Text) → IsPlain s → trim_end s ≡ s
trim_end_plain [] h = refl
trim_end_plain (x ∷ s) h = ground (arith, trim_end_plain s, is_plain_parts x)

trim_plain : (s : Text) → IsPlain s → trim s ≡ s
trim_plain [] h = refl
trim_plain (x ∷ s) h = ground (arith, trim_end_plain (x ∷ s) h, is_plain_parts x)

trim_end_matches_plain : (s : Text) → IsPlain s → trim_end_matches b'"' s ≡ s
trim_end_matches_plain [] h = refl
trim_end_matches_plain (x ∷ s) h = ground (arith, trim_end_matches_plain s, is_plain_parts x)

trim_matches_plain : (s : Text) → IsPlain s → trim_matches b'"' s ≡ s
trim_matches_plain [] h = refl
trim_matches_plain (x ∷ s) h = ground (arith, trim_end_matches_plain (x ∷ s) h, is_plain_parts x)

-- The header that the daemon sends with the boundary `b`.
abbrev pub content_type : Text → Text
content_type b = codes "multipart/form-data; boundary=" ++ b

find_boundary_plain :
    (x : ℕ) (b : Text)
    → IsPlain (x ∷ b)
    → find_boundary ((codes " boundary=" ++ (x ∷ b)) ∷ []) ≡ some (x ∷ b)
unfolding find_boundary
find_boundary_plain x b h =
    rw (find_boundary, trim_end_plain (x ∷ b) h)
      (rw (trim_plain (x ∷ b) h, trim_matches_plain (x ∷ b) h))

-- The server reads any boundary of plain characters, and at least one, back from the header.
pub boundary-content_type : (b : Text) → b ≢ [] → IsPlain b → boundary (content_type b) ≡ some b
unfolding boundary
boundary-content_type [] ne h = absurd (ne refl)
boundary-content_type (x ∷ b) ne h = rw (split_plain (x ∷ b) h) (find_boundary_plain x b h)
