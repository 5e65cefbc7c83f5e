-- ===== src/Stt/Tidy.antt =====
-- The transcript on one line: `normalize_whitespace` of crates/daemon/src/stt.rs.
use whispy.Base.{[], ◌∷◌, ◌≡◌, ap}
use whispy.Stt.{normalize_whitespace}
use whispy.Text.Words.{split_whitespace, split_whitespace_words, split_whitespace-join, join}
use whispy.Text.{Text}

-- The words of a transcript stay as they are and in their order, and a text that went through once
-- goes through again unchanged.
normalize_whitespace_words :
    (s : Text)
    → (split_whitespace (normalize_whitespace s) ≡ split_whitespace s)
      × (normalize_whitespace (normalize_whitespace s) ≡ normalize_whitespace s)
unfolding normalize_whitespace
normalize_whitespace_words s =
    let same = split_whitespace-join (split_whitespace s) (split_whitespace_words s) in
    (same, ap (join (32 ∷ [])) same)
