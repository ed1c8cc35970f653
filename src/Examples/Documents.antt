-- ===== src/Examples/Documents.antt =====
-- Patch documents, and the files they are applied to.
use cli_server.Common.{◌≡◌, ◌≢◌, ◌⊎◌, refl, ◌||◌, List, [], ◌∷◌, ◌++◌, ok, err, All, is_nil}
use cli_server.Common.Text.{Text, codes, join_newline, text_beq}
use cli_server.Patch.{
  FileOp, PatchHunk, ParseError, out_of_fuel, hunk_add, hunk_remove, hunk_context,
}
use cli_server.Patch.Parse.{parse_patch, split_lines}
use cli_server.Patch.Parse.Valid.{IsValidOp, parse_patch-IsValidOp}
use cli_server.Patch.Apply.{
  apply_hunks, apply_loop, restore_newline, ends_in_newline, newline, replace_match, find_match,
  matches_at, seek_anchor, old_seq, new_seq,
}
use cli_server.Patch.Apply.Sound.{Patches, apply_hunks-Patches}
use cli_server.Patch.Apply.Search.{Occurs}
use cli_server.Patch.Apply.Unchanged.{apply_hunks-unchanged}

abbrev lines : List Text → Text
lines [] = []
lines (l ∷ ls) = l ++ b'\n' ∷ lines ls

abbrev add_document : Text
add_document = lines (
    codes "*** Begin Patch"
    ∷ codes "*** Add File: a.txt"
    ∷ codes "+one"
    ∷ codes "*** End Patch"
    ∷ [])

abbrev source : Text
source = lines (codes "a" ∷ codes "b" ∷ codes "c" ∷ [])

abbrev swap : List PatchHunk
swap =
    record {
      context = [];
      lines =
          record { kind = hunk_context; text = codes "a" }
          ∷ record { kind = hunk_remove; text = codes "b" }
          ∷ record { kind = hunk_add; text = codes "d" }
          ∷ [];
    }
    ∷ []

abbrev keep_b : List PatchHunk
keep_b = record { context = []; lines = record { kind = hunk_context; text = codes "b" } ∷ [] } ∷ []

parse_patch-IsValidOp_example :
    ((ops : List FileOp) × (parse_patch add_document ≡ ok ops) × All IsValidOp ops)
    ⊎ ((e : ParseError) × (parse_patch add_document ≡ err e) × (e ≢ out_of_fuel))
parse_patch-IsValidOp_example = parse_patch-IsValidOp add_document

swapped : apply_hunks source swap ≡ ok (lines (codes "a" ∷ codes "d" ∷ codes "c" ∷ []))
unfolding apply_hunks apply_loop seek_anchor replace_match find_match matches_at old_seq new_seq
    restore_newline ends_in_newline split_lines text_beq join_newline
swapped = refl

apply_hunks-Patches_example :
    (out : List Text) × Patches swap (split_lines source) out
    × (lines (codes "a" ∷ codes "d" ∷ codes "c" ∷ [])
        ≡ restore_newline (ends_in_newline source || is_nil source) (join_newline out))
apply_hunks-Patches_example =
    apply_hunks-Patches source swap (lines (codes "a" ∷ codes "d" ∷ codes "c" ∷ [])) swapped

kept : apply_hunks source keep_b ≡ ok source
unfolding apply_hunks apply_loop seek_anchor replace_match find_match matches_at old_seq new_seq
    restore_newline ends_in_newline split_lines text_beq join_newline
kept = refl

source_not_newline : source ≢ newline
source_not_newline e = cc

apply_hunks-unchanged_example : source ≡ source
apply_hunks-unchanged_example =
    apply_hunks-unchanged source keep_b source source_not_newline ((refl, tt), tt) kept

abbrev two : List Text
two = codes "b" ∷ codes "b" ∷ []

two_first : Occurs (codes "b" ∷ []) two (codes "b" ∷ []) []
two_first = refl

nowhere : (pre post : List Text) → ¬ Occurs (codes "b" ∷ []) [] pre post
nowhere [] post e = cc
nowhere (p ∷ pre) post e = cc
