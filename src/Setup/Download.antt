-- ===== src/Setup/Download.antt =====
-- The model's download: `download_model` of crates/daemon/src/setup.rs. The file that it makes up is
-- known by its bytes, and so is its temporary file.
pub mod Whole
use whispy.Base.{
  ℕ, Bool, true, false, ◌&&◌, Option, none, some, List, [], ◌∷◌, ◌++◌, list_eq, map, if◌then◌else◌,
  Result, ok, err,
}
use whispy.Text.Words.{split_whitespace}
use whispy.Text.{Text, Bytes, codes, to_ascii_lowercase}

pub record Files : Type 0 where
  pub dest : Option Bytes
  pub tmp : Option Bytes

-- What a turn of the download's loop meets: bytes that were read and written, bytes of which only some
-- were written, or a failed read. The end of the body is that of the list.
pub data Piece : Type 0 where
  copied : Bytes → Piece
  torn : Bytes → Text → Piece
  read_fails : Text → Piece

-- The loop: what the temporary file holds behind it.
unfoldable pub copy_loop : List Piece → Bytes → Bytes × Result Text (Unit {0})
copy_loop [] held = (held, ok tt)
copy_loop (copied b ∷ rest) held = copy_loop rest (held ++ b)
copy_loop (torn b e ∷ rest) held = (held ++ b, err (codes "write: " ++ e))
copy_loop (read_fails e ∷ rest) held = (held, err (codes "read: " ++ e))

abbrev pub first_word : List Text → Text
first_word [] = []
first_word (w ∷ ws) = w

-- `str::eq_ignore_ascii_case`.
abbrev pub same_digest : Text → Text → Bool
same_digest a b = list_eq (map to_ascii_lowercase a) (map to_ascii_lowercase b)

-- `verify_sha256`, behind the run of the tool; `debug` is `{got:?}`.
unfoldable pub judge_sum :
    (Text → Text) → Text → Text → Result Text (Bool × Text) → Result Text (Unit {0})
judge_sum debug path expected (err e) = err (codes "sha256sum: " ++ e)
judge_sum debug path expected (ok (success, out)) =
    let got = first_word (split_whitespace out) in
    if success && same_digest got expected
    then ok tt
    else err (
        codes "checksum mismatch for "
        ++ (path
            ++ (codes ": expected "
                ++ (expected
                    ++ (codes ", got "
                        ++ (debug got ++ codes " (download removed; re-run to retry)"))))))

-- What a download meets: the file system, the network and the tool.
pub record World : Type 0 where
  pub dest_path : Text
  pub tmp_path : Text
  pub dir_made : Result Text (Unit {0})
  pub response : Result Text (List Piece)
  pub created : Result Text (Unit {0})
  pub flushed : Result Text (Unit {0})
  pub sha256sum : Bytes → Result Text (Bool × Text)
  pub debug : Text → Text
  pub tmp_removed : Bool
  pub renamed : Result Text (Unit {0})

abbrev pub about : Text → Text → Text
about what e = what ++ (codes ": " ++ e)

-- The temporary file behind its removal, which may fail.
abbrev pub discarded : World → Files → Files
discarded w f = if w.tmp_removed then record f { tmp = none } else f

-- The steps of `download_model`, each from its answer on.
abbrev pub on_renamed : Result Text (Unit {0}) → Bytes → Files → Files × Result Text (Unit {0})
on_renamed (err e) body f = (f, err (about (codes "rename") e))
on_renamed (ok _) body f = (record { dest = some body; tmp = none }, ok tt)

abbrev pub on_verified :
    World → Result Text (Unit {0}) → Bytes → Files → Files × Result Text (Unit {0})
on_verified w (err e) body f = (discarded w f, err e)
on_verified w (ok _) body f = on_renamed w.renamed body f

unfoldable pub verify : World → Option Text → Bytes → Result Text (Unit {0})
unfolding judge_sum
verify w none body = ok tt
verify w (some expected) body = judge_sum w.debug w.tmp_path expected (w.sha256sum body)

abbrev pub on_flushed :
    World → Option Text → Result Text (Unit {0}) → Bytes → Files → Files × Result Text (Unit {0})
on_flushed w sha256 (err e) body f = (f, err (about (codes "flush") e))
on_flushed w sha256 (ok _) body f = on_verified w (verify w sha256 body) body f

abbrev pub on_copied :
    World → Option Text → Bytes × Result Text (Unit {0}) → Files → Files × Result Text (Unit {0})
on_copied w sha256 (held, err e) f = (record f { tmp = some held }, err e)
on_copied w sha256 (held, ok _) f =
    on_flushed w sha256 w.flushed held (record f { tmp = some held })

abbrev pub on_created :
    World
    → Option Text
    → List Piece
    → Result Text (Unit {0})
    → Files
    → Files × Result Text (Unit {0})
on_created w sha256 pieces (err e) f = (f, err (about w.tmp_path e))
on_created w sha256 pieces (ok _) f = on_copied w sha256 (copy_loop pieces []) f

abbrev pub on_response :
    World → Option Text → Result Text (List Piece) → Files → Files × Result Text (Unit {0})
on_response w sha256 (err e) f = (f, err (about (codes "download failed") e))
on_response w sha256 (ok pieces) f = on_created w sha256 pieces w.created f

abbrev pub on_dir :
    World → Option Text → Result Text (Unit {0}) → Files → Files × Result Text (Unit {0})
on_dir w sha256 (err e) f = (f, err e)
on_dir w sha256 (ok _) f = on_response w sha256 w.response f

abbrev pub on_dest : World → Option Text → Option Bytes → Files → Files × Result Text (Unit {0})
on_dest w sha256 (some body) f = (f, ok tt)
on_dest w sha256 none f = on_dir w sha256 w.dir_made f

-- `download_model`; `sha256` is the sum that the model's source pins.
unfoldable pub download_model : World → Option Text → Files → Files × Result Text (Unit {0})
unfolding verify copy_loop
download_model w sha256 f = on_dest w sha256 f.dest f
