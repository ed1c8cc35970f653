-- ===== src/Patch/Parse/Valid.antt =====
-- What every operation of an accepted patch document satisfies.
use cli_server.Common.{
  ℕ, zero, suc, ◌+◌, ◌≡◌, ◌≢◌, refl, true, false, List, [], ◌∷◌, ◌++◌, is_nil, drop, length, ok,
  err, Post-bind, Post-if, ◌≤◌, ◌-◌, length-drop, All, if◌then◌else◌, inl, inr, arith, Option-cases,
  Option, none, some, take, ◌⊎◌, nat_eq, ◌==◌,
}
use cli_server.Common.Text.{Text, text_eq, has_prefix, trim_cr}
use cli_server.Patch.{
  FileOp, FileOpKind, PatchHunk, ParseError, out_of_fuel, missing_header, missing_footer, op_add,
  op_update, op_delete, op_move,
}
use cli_server.Patch.Marker
use mathlib.Core.List.{reverse}
use cli_server.Patch.Parse.{
  Parsed, is_blank, plus_text, parse_add_file, add_lines, update_hunks, parse_update_file,
  move_path, parse_delete_file, parse_op, parse_ops, parse_lines, parse_patch,
  find_patch_boundaries, split_lines, path_of, or_fail, find_begin, find_end,
}
use cli_server.Patch.Parse.Chunks.{HasLines, IsGenuine, Reads, Good, update_hunks-HasLines}

-- Which fields of an operation are set, by its kind.
abbrev pub FieldsOf : FileOpKind → FileOp → Type 0
FieldsOf op_add op = (is_nil op.content ≡ false) × (op.hunks ≡ []) × (op.new_path ≡ [])
FieldsOf op_delete op = (op.content ≡ []) × (op.hunks ≡ []) × (op.new_path ≡ [])
FieldsOf op_update op =
    (is_nil op.hunks ≡ false) × All HasLines op.hunks × (op.content ≡ []) × (op.new_path ≡ [])
FieldsOf op_move op =
    (is_nil op.hunks ≡ false)
    × All HasLines op.hunks
    × (op.content ≡ [])
    × (is_nil op.new_path ≡ false)

abbrev pub IsValidOp : FileOp → Type 0
IsValidOp op = (is_nil op.path ≡ false) × FieldsOf op.kind op

move_path-IsGenuine : (i : ℕ) (ls : List Text) → Good (λ _. Unit) (move_path i ls)
unfolding move_path
move_path-IsGenuine i [] = tt
move_path-IsGenuine i (l ∷ ls) =
    Post-if _ _ (has_prefix (trim_cr l) Marker.move_to) _ _
      (λ _. Post-if _ _ (is_nil (path_of (trim_cr l) Marker.move_to)) _ _ (λ _ e. cc) (λ _. tt))
      (λ _. tt)

update_fields :
    (target : Text) (hs : List PatchHunk) (path : Text)
    → is_nil hs ≡ false
    → All HasLines hs
    → FieldsOf (if is_nil target then op_update else op_move) (record {
      kind = if is_nil target then op_update else op_move;
      path = path;
      new_path = target;
      content = [];
      hunks = hs;
    })
update_fields [] hs path h all = (h, all, refl, refl)
update_fields (c ∷ target) hs path h all = (h, all, refl, refl)

length-drop_le : (n : ℕ) (ls : List Text) → length (drop n ls) ≤ length ls
length-drop_le n ls = omega (arith, length-drop n ls)

parse_update_file-Reads :
    (i : ℕ) (l : Text) (rest : List Text) → Good (Reads IsValidOp) (parse_update_file i l rest)
unfolding parse_update_file
parse_update_file-Reads i l rest =
    let path = path_of (trim_cr l) Marker.update_file in
    Post-if (Reads IsValidOp) IsGenuine (is_nil path) _ _ (λ _ e. cc)
      (λ named.
        Post-bind _ _ (λ _. Unit) (move_path (i + 1) rest) _ (move_path-IsGenuine (i + 1) rest)
          λ b _.
            Post-bind _ _ _ (update_hunks (length rest) (i + 1 + b.1) (drop b.1 rest) true) _
              (update_hunks-HasLines (length rest) (i + 1 + b.1) (drop b.1 rest) true
                (length-drop_le b.1 rest))
              λ c all.
                Post-if (Reads IsValidOp) IsGenuine (is_nil c.0) _ _ (λ _ e. cc)
                  (λ some_hunk. ((named, update_fields b.0 c.0 path some_hunk all), omega arith)))

is_nil-append : (t s : Text) → is_nil (t ++ b'\n' ∷ s) ≡ false
is_nil-append [] s = refl
is_nil-append (c ∷ t) s = refl

add_lines-content :
    (ls : List Text) → ((add_lines ls).1 == 0) ≡ false → is_nil (add_lines ls).0 ≡ false
unfolding add_lines
add_lines-content [] h = ground arith
add_lines-content (l ∷ ls) h = elim (Option-cases (plus_text (trim_cr l))) [
  | inl e ↦ ground (arith, e)
  | inr (t, e) ↦ ground (arith, e, is_nil-append t (add_lines ls).0)
]

parse_add_file-Reads :
    (i : ℕ) (l : Text) (rest : List Text) → Good (Reads IsValidOp) (parse_add_file i l rest)
unfolding parse_add_file
parse_add_file-Reads i l rest =
    Post-if (Reads IsValidOp) IsGenuine (is_nil (path_of (trim_cr l) Marker.add_file)) _ _
      (λ _ e. cc)
      (λ named.
        Post-if (Reads IsValidOp) IsGenuine ((add_lines rest).1 == 0) _ _ (λ _ e. cc)
          (λ h. ((named, (add_lines-content rest h, refl, refl)), omega arith)))

parse_delete_file-Reads : (i : ℕ) (l : Text) → Good (Reads IsValidOp) (parse_delete_file i l)
unfolding parse_delete_file
parse_delete_file-Reads i l =
    Post-if (Reads IsValidOp) IsGenuine (is_nil (path_of (trim_cr l) Marker.delete_file)) _ _
      (λ _ e. cc) (λ named. ((named, (refl, refl, refl)), omega arith))

parse_op-Reads : (i : ℕ) (l : Text) (rest : List Text) → Good (Reads IsValidOp) (parse_op i l rest)
unfolding parse_op
parse_op-Reads i l rest =
    Post-if _ _ (has_prefix (trim_cr l) Marker.add_file) _ _ (λ _. parse_add_file-Reads i l rest)
      (λ _.
        Post-if _ _ (has_prefix (trim_cr l) Marker.delete_file) _ _
          (λ _. parse_delete_file-Reads i l)
          (λ _.
            Post-if (Reads IsValidOp) IsGenuine (has_prefix (trim_cr l) Marker.update_file) _ _
              (λ _. parse_update_file-Reads i l rest) (λ _ e. cc)))

parse_ops-IsValidOp :
    (fuel i : ℕ) (ls : List Text) → length ls ≤ fuel → Good (All IsValidOp) (parse_ops fuel i ls)
unfolding parse_ops
parse_ops-IsValidOp fuel i [] le = tt
parse_ops-IsValidOp zero i (l ∷ ls) le = absurd (omega arith)
parse_ops-IsValidOp (suc f) i (l ∷ ls) le =
    Post-if _ _ (is_blank l) _ _ (λ _. parse_ops-IsValidOp f (i + 1) ls (omega arith))
      (λ _. Post-bind _ _ _ (parse_op i l ls) _ (parse_op-Reads i l ls) λ b h.
        Post-bind _ _ _ (parse_ops f (i + b.1) (drop b.1 (l ∷ ls))) _
          (parse_ops-IsValidOp f (i + b.1) (drop b.1 (l ∷ ls))
            (omega (arith, length-drop b.1 (l ∷ ls), h.1)))
          (λ c h'. (h.0, h')))

or_fail-IsGenuine :
    {A : Type 0} (o : Option A) (e : ParseError) → IsGenuine e → Good (λ _. Unit) (or_fail o e)
or_fail-IsGenuine none e h = h
or_fail-IsGenuine (some a) e h = tt

find_patch_boundaries-IsGenuine :
    (lines : List Text) → Good (λ _. Unit) (find_patch_boundaries lines)
unfolding find_patch_boundaries
find_patch_boundaries-IsGenuine lines =
    Post-bind _ _ (λ _. Unit) (or_fail (find_begin 0 lines) (missing_header 1)) _
      (or_fail-IsGenuine (find_begin 0 lines) _ (λ e. cc))
      λ start _.
        Post-bind _ _ (λ _. Unit)
          (or_fail (find_end start (reverse (drop (start + 1) lines)))
            (missing_footer (length lines)))
          _ (or_fail-IsGenuine (find_end start _) _ (λ e. cc)) (λ b _. tt)

length-take_le : (n : ℕ) (ls : List Text) → length (take n ls) ≤ length ls
length-take_le zero ls = omega arith
length-take_le (suc n) [] = omega arith
length-take_le (suc n) (l ∷ ls) = omega (arith, length-take_le n ls)

parse_lines-IsValidOp : (lines : List Text) → Good (All IsValidOp) (parse_lines lines)
unfolding parse_lines
parse_lines-IsValidOp lines =
    Post-bind _ _ (λ _. Unit) (find_patch_boundaries lines) _
      (find_patch_boundaries-IsGenuine lines)
      λ b _.
        let body = take (b.1 - (b.0 + 1)) (drop (b.0 + 1) lines) in
        parse_ops-IsValidOp (length lines) (b.0 + 1) body (
          omega (
            arith,
            length-take_le (b.1 - (b.0 + 1)) (drop (b.0 + 1) lines),
            length-drop_le (b.0 + 1) lines,
          ))

parse_patch-Good : (input : Text) → Good (All IsValidOp) (parse_patch input)
unfolding parse_patch
parse_patch-Good input =
    Post-if (All IsValidOp) IsGenuine (is_nil input) _ _ (λ _ e. cc)
      (λ _. parse_lines-IsValidOp (split_lines input))

outcome :
    (r m : Parsed (List FileOp))
    → m ≡ r
    → Good (All IsValidOp) r
    → ((ops : List FileOp) × (m ≡ ok ops) × All IsValidOp ops)
      ⊎ ((e : ParseError) × (m ≡ err e) × (e ≢ out_of_fuel))
outcome (ok ops) m p h = inl (ops, p, h)
outcome (err e) m p h = inr (e, p, h)

-- For every text the parser returns: with the operations of the document, or with an error that the
-- program reports, never for want of rounds. Each operation of an accepted document names a path;
-- an added file has content; an update or a move has hunks, and each hunk a line; a move has a
-- target and nothing else has one; no other field of an operation is set.
pub parse_patch-IsValidOp :
    (input : Text)
    → ((ops : List FileOp) × (parse_patch input ≡ ok ops) × All IsValidOp ops)
      ⊎ ((e : ParseError) × (parse_patch input ≡ err e) × (e ≢ out_of_fuel))
parse_patch-IsValidOp input =
    outcome (parse_patch input) (parse_patch input) refl (parse_patch-Good input)
