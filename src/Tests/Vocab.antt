-- ===== src/Tests/Vocab.antt =====
-- Custom words on concrete transcripts: crates/daemon/src/vocab.rs.
use whispy.Base.{some, none, [], ◌∷◌, ◌≡◌, ◌≢◌, ◌⊎◌, ℕ, List, all, refl, false, true}
use whispy.Float.{Arith, F64}
use whispy.Text.Chars.{ascii}
use whispy.Text.Words.{join, split_whitespace}
use whispy.Text.{Text, codes, is_ascii_alphabetic}
use whispy.Vocab.American.{american, soundex-american}
use whispy.Vocab.Soundex.{Code}
use whispy.Vocab.Windows.{Corrected, apply-Corrected}
use whispy.Vocab.Tokens.{keys_from, soundex}
use whispy.Vocab.{apply}

abbrev zeros : Arith
zeros = record {
  of_nat = λ n. n;
  add = λ a b. a;
  mul = λ a b. a;
  div = λ a b. a;
  maximum = λ a b. a;
}

-- A distance that holds all words for equal.
abbrev same : Text → Text → ℕ
same _ _ = 0

abbrev custom : List Text
custom = codes "Whispy" ∷ []

abbrev threshold : F64
threshold = 4602678819172646912

apply-Corrected_example :
    ((custom ≡ [])
      → apply ascii zeros same (codes "hi wispy") custom threshold ≡ some (codes "hi wispy"))
    × ((custom ≢ [])
        → (out : List Text) × (apply ascii zeros same (codes "hi wispy") custom threshold
            ≡ some (join (codes " ") out))
          × Corrected ascii zeros same custom threshold
              (keys_from ascii 0 custom)
              (split_whitespace (codes "hi wispy"))
              out)
apply-Corrected_example = apply-Corrected ascii zeros same custom threshold (codes "hi wispy")

soundex-american_example :
    ((codes "Robert" ≢ [])
      → all is_ascii_alphabetic (codes "Robert") ≡ true
      → (soundex (codes "Robert") ≡ some (american (codes "Robert")))
        × Code (american (codes "Robert")))
    × (((codes "Robert" ≡ []) ⊎ (all is_ascii_alphabetic (codes "Robert") ≡ false))
        → soundex (codes "Robert") ≡ none)
soundex-american_example = soundex-american (codes "Robert")

robert : soundex (codes "Robert") ≡ some (codes "R163")
unfolding soundex
robert = refl

pfister : soundex (codes "Pfister") ≡ some (codes "P236")
unfolding soundex
pfister = refl

tymczak : american (codes "tymczak") ≡ codes "T522"
unfolding american
tymczak = refl

ashcraft : american (codes "ashcraft") ≡ codes "A261"
unfolding american
ashcraft = refl
