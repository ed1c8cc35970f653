-- ===== src/Patch/Parse.antt =====
-- ParsePatch and its helpers (internal/envtools/tools/apply_patch_core.go).
-- Where the source walks `lines` by an index `i < end`, a definition takes `i` and the slice
-- `lines[i:end]`; what a helper returns beside its value is the number of lines it consumed.
pub mod Chunks
pub mod Valid
use cli_server.Common.{
  ℕ, zero, suc, ◌+◌, ◌-◌, Bool, true, false, not, ◌&&◌, ◌||◌, Option, none, some, List, [], ◌∷◌,
  ◌++◌, if◌then◌else◌, ltb, is_nil, length, take, drop, Result, ok, err, ◌>>=◌, ◌==◌, nat_eq,
}
use cli_server.Common.Text.{
  Text, text_eq, has_prefix, trim_prefix, trim_cr, trim_space, split_newline,
}
use mathlib.Core.List.{reverse}
use cli_server.Patch.{
  FileOp, PatchHunk, HunkLine, HunkLineKind, op_add, op_update, op_delete, op_move, hunk_context,
  hunk_add, hunk_remove, ParseError, empty_patch, missing_header, missing_footer,
  delete_requires_path, add_requires_path, update_requires_path, move_requires_path,
  update_is_empty, add_has_no_lines, unknown_header, expected_context, unexpected_line,
  no_body_lines, out_of_fuel,
}
use cli_server.Patch.Marker

abbrev pub Parsed {ℓ} : Type ℓ → Type ℓ
Parsed A = Result ParseError A

-- out[:len(out)-1] if the last piece is empty
unfoldable pub drop_empty_last : List Text → List Text
drop_empty_last [] = []
drop_empty_last (l ∷ []) = if is_nil l then [] else l ∷ []
drop_empty_last (l ∷ m ∷ ls) = l ∷ drop_empty_last (m ∷ ls)

unfoldable pub split_lines : Text → List Text
unfolding drop_empty_last split_newline
split_lines s = if is_nil s then [] else drop_empty_last (split_newline s)

abbrev pub is_blank : Text → Bool
is_blank l = is_nil (trim_space l)

-- the first loop of findPatchBoundaries, at index `i`
unfoldable pub find_begin : ℕ → List Text → Option ℕ
find_begin i [] = none
find_begin i (l ∷ ls) =
    let later = find_begin (i + 1) ls in
    if is_blank l then later else if trim_space l == Marker.begin_patch then some i else none

-- the second loop, over the lines behind `start`, last one first
unfoldable pub find_end : ℕ → List Text → Option ℕ
find_end start [] = none
find_end start (l ∷ before) =
    let earlier = find_end start before in
    if is_blank l
    then earlier
    else if trim_space l == Marker.end_patch
    then some (start + 1 + length before)
    else none

abbrev pub or_fail {ℓ} : {A : Type ℓ} → Option A → ParseError → Parsed A
or_fail none e = err e
or_fail (some a) e = ok a

unfoldable pub find_patch_boundaries : List Text → Parsed (ℕ × ℕ)
find_patch_boundaries lines = do
  start ← or_fail (find_begin 0 lines) (missing_header 1)
  end ← or_fail (find_end start (reverse (drop (start + 1) lines))) (missing_footer (length lines))
  ok (start, end)

-- line[1:] of a line that begins with '+'
unfoldable pub plus_text : Text → Option Text
plus_text [] = none
plus_text (c ∷ t) = if c == b'+' then some t else none

-- the loop of parseAddFile: the contents read and their number of lines
unfoldable pub add_lines : List Text → Text × ℕ
unfolding plus_text
add_lines [] = ([], 0)
add_lines (l ∷ ls) =
    let (content, count) = add_lines ls in
    elim (plus_text (trim_cr l)) [ none ↦ ([], 0) | some t ↦ (t ++ b'\n' ∷ content, suc count) ]

abbrev pub path_of : Text → Text → Text
path_of header marker = trim_space (trim_prefix header marker)

unfoldable pub parse_add_file : ℕ → Text → List Text → Parsed (FileOp × ℕ)
parse_add_file start l rest =
    let path = path_of (trim_cr l) Marker.add_file in
    if is_nil path
    then err (add_requires_path (start + 1))
    else let (content, count) = add_lines rest in
      if count == 0
      then err (add_has_no_lines (start + 1) path)
      else ok (
        record { kind = op_add; path = path; new_path = []; content = content; hunks = [] },
        1 + count,
      )

-- What a line of an update hunk is to the loop of parseUpdateChunk.
pub data BodyLine : Type 0 where
  end_of_file next_header next_chunk unknown : BodyLine
  line : HunkLineKind → Text → BodyLine

unfoldable pub body_line_at : Text → BodyLine
body_line_at [] = line hunk_context []
body_line_at (c ∷ t) =
    if c == b' '
    then line hunk_context t
    else if c == b'+'
    then line hunk_add t
    else if c == b'-'
    then line hunk_remove t
    else unknown

-- the tests of the loop in the source's order
unfoldable pub body_line : Text → BodyLine
unfolding body_line_at
body_line raw =
    if raw == Marker.eof
    then end_of_file
    else if has_prefix raw Marker.stars
    then next_header
    else if raw == Marker.empty_change_context || has_prefix raw Marker.change_context
    then next_chunk
    else body_line_at raw

-- one round of the loop of parseUpdateChunk at a line of a given sort; `some_read` is `len(hl) != 0`
-- and `more` the rounds to come
unfoldable pub chunk_line :
    Bool → ℕ → Text → Parsed (List HunkLine × ℕ) → BodyLine → Parsed (List HunkLine × ℕ)
chunk_line some_read i raw more end_of_file = ok ([], 1)
chunk_line some_read i raw more next_header = ok ([], 0)
chunk_line some_read i raw more next_chunk = ok ([], 0)
chunk_line some_read i raw more unknown =
    if some_read then ok ([], 0) else err (unexpected_line (i + 1) raw)
chunk_line some_read i raw more (line k t) =
    more >>= λ (hl, n). ok (record { kind = k; text = t } ∷ hl, suc n)

unfoldable pub chunk_body : Bool → ℕ → List Text → Parsed (List HunkLine × ℕ)
unfolding chunk_line
chunk_body some_read i [] = ok ([], 0)
chunk_body some_read i (l ∷ ls) =
    chunk_line some_read i (trim_cr l) (chunk_body true (i + 1) ls) (body_line (trim_cr l))

-- the switch of parseUpdateChunk: the anchor and whether the header line is consumed
unfoldable pub chunk_header : ℕ → Text → Bool → Parsed (Text × Bool)
chunk_header start first allow_missing_context =
    if first == Marker.empty_change_context
    then ok ([], true)
    else if has_prefix first Marker.change_context
    then ok (path_of first Marker.change_context, true)
    else if allow_missing_context
    then ok ([], false)
    else err (expected_context (start + 1) first)

-- parseUpdateChunk behind its switch, at `i`, with `k` lines consumed
unfoldable pub finish_chunk : ℕ → Text → ℕ → List Text → Parsed (PatchHunk × ℕ)
finish_chunk start anchor k [] = err (no_body_lines (start + k))
finish_chunk start anchor k (l ∷ ls) = do
  (hl, n) ← chunk_body false (start + k) (l ∷ ls)
  if is_nil hl
      then err (no_body_lines (start + 1))
      else ok (record { context = anchor; lines = hl }, k + n)

unfoldable pub parse_update_chunk : ℕ → Text → List Text → Bool → Parsed (PatchHunk × ℕ)
parse_update_chunk start l rest allow_missing_context = do
  (anchor, headed) ← chunk_header start (trim_cr l) allow_missing_context
  if headed then finish_chunk start anchor 1 rest else finish_chunk start anchor 0 (l ∷ rest)

-- the loop of parseUpdateFile
unfoldable pub update_hunks : ℕ → ℕ → List Text → Bool → Parsed (List PatchHunk × ℕ)
update_hunks fuel i [] first = ok ([], 0)
update_hunks zero i (l ∷ ls) first = err out_of_fuel
update_hunks (suc f) i (l ∷ ls) first =
    let skip = update_hunks f (i + 1) ls first >>= λ (hs, n). ok (hs, suc n) in
    let chunk = parse_update_chunk i l ls first >>= λ (h, c).
    update_hunks f (i + c) (drop c (l ∷ ls)) false >>= λ (hs, n). ok (h ∷ hs, c + n) in
    if is_blank l then skip else if has_prefix (trim_cr l) Marker.stars then ok ([], 0) else chunk

-- the optional "*** Move to:" line, and how many lines it takes
unfoldable pub move_path : ℕ → List Text → Parsed (Text × ℕ)
move_path i [] = ok ([], 0)
move_path i (l ∷ ls) =
    if has_prefix (trim_cr l) Marker.move_to
    then (let path = path_of (trim_cr l) Marker.move_to in
        if is_nil path then err (move_requires_path (i + 1)) else ok (path, 1))
    else ok ([], 0)

unfoldable pub parse_update_file : ℕ → Text → List Text → Parsed (FileOp × ℕ)
parse_update_file start l rest =
    let path = path_of (trim_cr l) Marker.update_file in
    if is_nil path then err (update_requires_path (start + 1)) else do
      (target, k) ← move_path (start + 1) rest
      (hunks, n) ← update_hunks (length rest) (start + 1 + k) (drop k rest) true
      if is_nil hunks
          then err (update_is_empty (start + 1) path)
          else ok (
            record {
              kind = if is_nil target then op_update else op_move;
              path = path;
              new_path = target;
              content = [];
              hunks = hunks;
            },
            1 + k + n,
          )

-- the case of ParsePatch for a "*** Delete File:" header
unfoldable pub parse_delete_file : ℕ → Text → Parsed (FileOp × ℕ)
parse_delete_file i l =
    let path = path_of (trim_cr l) Marker.delete_file in
    if is_nil path
    then err (delete_requires_path (i + 1))
    else ok (record { kind = op_delete; path = path; new_path = []; content = []; hunks = [] }, 1)

-- the switch of ParsePatch on the header line `l`
unfoldable pub parse_op : ℕ → Text → List Text → Parsed (FileOp × ℕ)
parse_op i l rest =
    if has_prefix (trim_cr l) Marker.add_file
    then parse_add_file i l rest
    else if has_prefix (trim_cr l) Marker.delete_file
    then parse_delete_file i l
    else if has_prefix (trim_cr l) Marker.update_file
    then parse_update_file i l rest
    else err (unknown_header (i + 1) (trim_cr l))

-- the loop of ParsePatch
unfoldable pub parse_ops : ℕ → ℕ → List Text → Parsed (List FileOp)
parse_ops fuel i [] = ok []
parse_ops zero i (l ∷ ls) = err out_of_fuel
parse_ops (suc f) i (l ∷ ls) =
    let skip = parse_ops f (i + 1) ls in
    let section = parse_op i l ls >>= λ (op, c).
    parse_ops f (i + c) (drop c (l ∷ ls)) >>= λ ops. ok (op ∷ ops) in
    if is_blank l then skip else section

unfoldable pub parse_lines : List Text → Parsed (List FileOp)
parse_lines lines = do
  (start, end) ← find_patch_boundaries lines
  parse_ops (length lines) (start + 1) (take (end - (start + 1)) (drop (start + 1) lines))

unfoldable pub parse_patch : Text → Parsed (List FileOp)
parse_patch input = if is_nil input then err empty_patch else parse_lines (split_lines input)
