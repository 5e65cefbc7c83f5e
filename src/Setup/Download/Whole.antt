-- ===== src/Setup/Download/Whole.antt =====
-- No half of a model: `download_model` of crates/daemon/src/setup.rs.
use whispy.Base.{
  Bool, true, false, ◌&&◌, Option, none, some, List, [], ◌∷◌, ◌++◌, ◌≡◌, refl, sym, ap, ◌∙◌, subst,
  arith, append_assoc, append-nil, is_some, Result, ok, err,
}
use whispy.Setup.Download.{
  Files, Piece, copied, torn, read_fails, copy_loop, first_word, same_digest, judge_sum, World,
  verify, on_renamed, on_verified, on_flushed, on_copied, on_created, on_response, on_dir, on_dest,
  download_model, discarded,
}
use whispy.Text.Words.{split_whitespace}
use whispy.Text.{Text, Bytes}

-- A body that came whole: its bytes.
abbrev pub body_of : List Piece → Option Bytes
body_of [] = some []
body_of (copied b ∷ rest) = elim (body_of rest) [ none ↦ none | some bs ↦ some (b ++ bs) ]
body_of (torn b e ∷ rest) = none
body_of (read_fails e ∷ rest) = none

-- A sum that is not pinned, or that the tool gives for the bytes.
abbrev pub sum_of : Result Text (Bool × Text) → Text → Bool
sum_of (err e) expected = false
sum_of (ok (success, out)) expected =
    success && same_digest (first_word (split_whitespace out)) expected

abbrev pub has_sum : World → Option Text → Bytes → Bool
has_sum w none body = true
has_sum w (some expected) body = sum_of (w.sha256sum body) expected

abbrev pub is_done : Result Text (Unit {0}) → Bool
is_done (ok _) = true
is_done (err e) = false

abbrev pub comes_well : World → Option Text → Option Bytes → Bool
comes_well w sha256 none = false
comes_well w sha256 (some body) = has_sum w sha256 body

abbrev pub answers_well : World → Option Text → Result Text (List Piece) → Bool
answers_well w sha256 (err e) = false
answers_well w sha256 (ok pieces) = comes_well w sha256 (body_of pieces)

-- Nothing goes wrong, and the whole body comes, with its sum.
abbrev pub goes_well : World → Option Text → Bool
goes_well w sha256 =
    is_done w.dir_made
    && is_done w.created
    && is_done w.flushed
    && is_done w.renamed
    && answers_well w sha256 w.response

copy_loop_whole :
    (pieces : List Piece) (held : Bytes) (u : Unit {0})
    → (copy_loop pieces held).1 ≡ ok u
    → (body : Bytes) × (body_of pieces ≡ some body) × ((copy_loop pieces held).0 ≡ held ++ body)
unfolding copy_loop
copy_loop_whole [] held u h = ([], refl, sym (append-nil held))
copy_loop_whole (copied b ∷ rest) held u h =
    let (body, e, k) = copy_loop_whole rest (held ++ b) u h in
    (b ++ body, rw e refl, k ∙ append_assoc held b body)
copy_loop_whole (torn b e ∷ rest) held u h = cc
copy_loop_whole (read_fails e ∷ rest) held u h = cc

copy_loop_cut :
    (pieces : List Piece) (held : Bytes) (e : Text)
    → (copy_loop pieces held).1 ≡ err e
    → body_of pieces ≡ none
unfolding copy_loop
copy_loop_cut [] held e h = cc
copy_loop_cut (copied b ∷ rest) held e h = rw (copy_loop_cut rest (held ++ b) e h) refl
copy_loop_cut (torn b x ∷ rest) held e h = refl
copy_loop_cut (read_fails x ∷ rest) held e h = refl

-- How a download can end.
pub data Ends (w : World) (sha256 : Option Text) (f : Files)
    : Files × Result Text (Unit {0}) → Type 0 where
  is_there : is_some f.dest ≡ true → Ends w sha256 f (f, ok tt)
  arrives :
      (pieces : List Piece) (body : Bytes)
      → f.dest ≡ none
      → w.response ≡ ok pieces
      → body_of pieces ≡ some body
      → has_sum w sha256 body ≡ true
      → Ends w sha256 f (record { dest = some body; tmp = none }, ok tt)
  fails :
      (tmp : Option Bytes) (e : Text)
      → f.dest ≡ none
      → goes_well w sha256 ≡ false
      → Ends w sha256 f (record { dest = none; tmp = tmp }, err e)

judge_sum_lem :
    (debug : Text → Text) (path expected : Text) (r : Result Text (Bool × Text))
    → is_done (judge_sum debug path expected r) ≡ sum_of r expected
unfolding judge_sum
judge_sum_lem debug path expected (err e) = refl
judge_sum_lem debug path expected (ok (success, out)) = ground arith

verify_lem :
    (w : World) (sha256 : Option Text) (body : Bytes)
    → is_done (verify w sha256 body) ≡ has_sum w sha256 body
unfolding verify
verify_lem w none body = refl
verify_lem w (some expected) body = judge_sum_lem w.debug w.tmp_path expected (w.sha256sum body)

bad_response :
    (w : World) (sha256 : Option Text)
    → answers_well w sha256 w.response ≡ false
    → goes_well w sha256 ≡ false
bad_response w sha256 h = ground (arith, h)

module _ (w : World) (sha256 : Option Text) (f : Files) (absent : f.dest ≡ none) where
  abbrev Comes : Files × Result Text (Unit {0}) → Type 0
  Comes = Ends w sha256 f

  failed : (g : Files) (e : Text) → g.dest ≡ none → goes_well w sha256 ≡ false → Comes (g, err e)
  failed g e h bad =
      subst (λ (d : Option Bytes). Comes (record g { dest = d }, err e)) (sym h)
        (fails g.tmp e absent bad)

  module _ (pieces : List Piece) (response : w.response ≡ ok pieces) where
    module _ (body : Bytes) (whole : body_of pieces ≡ some body) (g : Files)
        (kept : g.dest ≡ none) where
      renamed-Comes :
          (r : Result Text (Unit {0}))
          → w.renamed ≡ r
          → has_sum w sha256 body ≡ true
          → Comes (on_renamed r body g)
      renamed-Comes (err e) h sum = failed g _ kept (ground (arith, h))
      renamed-Comes (ok _) h sum = arrives pieces body absent response whole sum

      verified-Comes :
          (r : Result Text (Unit {0}))
          → is_done r ≡ has_sum w sha256 body
          → Comes (on_verified w r body g)
      verified-Comes (err e) h =
          failed (discarded w g) e (ground (arith, kept))
            (bad_response w sha256 (rw (response, answers_well) (rw (whole, comes_well) (sym h))))
      verified-Comes (ok _) h = renamed-Comes w.renamed refl (sym h)

      flushed-Comes :
          (r : Result Text (Unit {0})) → w.flushed ≡ r → Comes (on_flushed w sha256 r body g)
      flushed-Comes (err e) h = failed g _ kept (ground (arith, h))
      flushed-Comes (ok _) h = verified-Comes (verify w sha256 body) (verify_lem w sha256 body)

    copied-Comes :
        (r : Bytes × Result Text (Unit {0}))
        → copy_loop pieces [] ≡ r
        → Comes (on_copied w sha256 r f)
    copied-Comes (held, err e) h = failed _ e absent (
        bad_response w sha256 (
          rw (response, answers_well)
            (rw
              (
                copy_loop_cut pieces [] e (ap (λ (r : Bytes × Result Text (Unit {0})). r.1) h),
                comes_well,
              )
              refl)))
    copied-Comes (held, ok u) h =
        let (body, whole, k) =
          copy_loop_whole pieces [] u (ap (λ (r : Bytes × Result Text (Unit {0})). r.1) h) in
        let same : body ≡ held = sym k ∙ ap (λ (r : Bytes × Result Text (Unit {0})). r.0) h in
        subst (λ b. Comes (on_flushed w sha256 w.flushed b (record f { tmp = some held }))) same
          (flushed-Comes body whole (record f { tmp = some held }) absent w.flushed refl)

    created-Comes :
        (r : Result Text (Unit {0})) → w.created ≡ r → Comes (on_created w sha256 pieces r f)
    created-Comes (err e) h = failed f _ absent (ground (arith, h))
    created-Comes (ok _) h = copied-Comes (copy_loop pieces []) refl

  response-Comes :
      (r : Result Text (List Piece)) → w.response ≡ r → Comes (on_response w sha256 r f)
  response-Comes (err e) h = failed f _ absent (bad_response w sha256 (rw h refl))
  response-Comes (ok pieces) h = created-Comes pieces h w.created refl

  dir-Comes : (r : Result Text (Unit {0})) → w.dir_made ≡ r → Comes (on_dir w sha256 r f)
  dir-Comes (err e) h = failed f e absent (ground (arith, h))
  dir-Comes (ok _) h = response-Comes w.response refl

dest-Ends :
    (w : World) (sha256 : Option Text) (f : Files) (d : Option Bytes)
    → f.dest ≡ d
    → Ends w sha256 f (on_dest w sha256 d f)
dest-Ends w sha256 f (some body) h = is_there (ap is_some h)
dest-Ends w sha256 f none h = dir-Comes w sha256 f h w.dir_made refl

-- The model's file is the whole body that the server sent, with the sum that is pinned, or it is as it
-- was before: a model that is there is kept, and a failed download, whatever fails, and whatever an
-- earlier one left in the temporary file, leaves no model that looks like one. It fails only if
-- something goes wrong: an answer of the system, a body that breaks off, or another sum.
pub download_model-Ends :
    (w : World) (sha256 : Option Text) (f : Files) → Ends w sha256 f (download_model w sha256 f)
unfolding download_model
download_model-Ends w sha256 f = dest-Ends w sha256 f f.dest refl
