-- ===== src/Patch/Apply.antt =====
-- ApplyHunks (internal/envtools/tools/apply_patch_core.go). `pos` is the cursor into the source's
-- lines and `rest` is `srcLines[pos:]`; what the source appends to `out` is returned in front of what
-- the later hunks append.
pub mod Sound
pub mod Search
pub mod Unchanged
use cli_server.Common.{
  ℕ, zero, suc, ◌+◌, Bool, true, false, not, ◌&&◌, ◌||◌, Option, none, some, List, [], ◌∷◌, ◌++◌,
  if◌then◌else◌, is_nil, length, take, drop, Result, ok, err, ◌>>=◌, ◌==◌, nat_eq,
}
use cli_server.Common.Text.{Text, text_eq, trim_space, contains, join_newline}
use cli_server.Patch.{PatchHunk, HunkLine, hunk_context, hunk_add, hunk_remove}
use cli_server.Patch.Parse.{split_lines}

pub data ApplyError : Type 0 where
  anchor_not_found : ℕ → Text → ℕ → ApplyError
  no_match : ℕ → Text → ℕ → ApplyError

abbrev pub Applied {ℓ} : Type ℓ → Type ℓ
Applied A = Result ApplyError A

-- whether a source line is taken for the anchor
unfoldable pub is_anchor : Text → Text → Bool
is_anchor context line = trim_space line == context || contains line context

-- the search for the anchor: how far behind the cursor it is
unfoldable pub find_anchor : Text → List Text → Option ℕ
find_anchor context [] = none
find_anchor context (l ∷ ls) = elim (is_anchor context l) [
  | true ↦ some 0
  | false ↦ elim (find_anchor context ls) [ none ↦ none | some j ↦ some (suc j) ]
]

-- context and removed lines: what the hunk expects
unfoldable pub old_seq : List HunkLine → List Text
old_seq [] = []
old_seq (h ∷ hs) = elim h.kind [
  | hunk_context ↦ h.text ∷ old_seq hs
  | hunk_remove ↦ h.text ∷ old_seq hs
  | hunk_add ↦ old_seq hs
]

-- context and added lines: what it leaves
unfoldable pub new_seq : List HunkLine → List Text
new_seq [] = []
new_seq (h ∷ hs) = elim h.kind [
  | hunk_context ↦ h.text ∷ new_seq hs
  | hunk_remove ↦ new_seq hs
  | hunk_add ↦ h.text ∷ new_seq hs
]

-- the inner loop of the match: `old` stands at the front of `src`
unfoldable pub matches_at : List Text → List Text → Bool
matches_at [] src = true
matches_at (o ∷ old) [] = false
matches_at (o ∷ old) (l ∷ src) = l == o && matches_at old src

-- the first match at or behind the cursor
unfoldable pub find_match : List Text → List Text → Option ℕ
unfolding matches_at
find_match old [] = if matches_at old [] then some 0 else none
find_match old (l ∷ src) = elim (matches_at old (l ∷ src)) [
  | true ↦ some 0
  | false ↦ elim (find_match old src) [ none ↦ none | some j ↦ some (suc j) ]
]

-- the anchor's part of a round: what is emitted, and the cursor and lines behind the anchor
unfoldable pub seek_anchor : ℕ → Text → ℕ → List Text → Applied (List Text × ℕ × List Text)
unfolding find_anchor
seek_anchor hi [] pos rest = ok ([], pos, rest)
seek_anchor hi (c ∷ context) pos rest = elim (find_anchor (c ∷ context) rest) [
  | none ↦ err (anchor_not_found (hi + 1) (c ∷ context) (pos + 1))
  | some j ↦ ok (take (suc j) rest, pos + suc j, drop (suc j) rest)
]

-- the rest of the round, with `old` and `new` the hunk's two sequences
unfoldable pub replace_match :
    ℕ → List Text → List Text → ℕ → List Text → Applied (List Text × ℕ × List Text)
unfolding find_match
replace_match hi [] new pos rest = ok (rest ++ new, pos + length rest, [])
replace_match hi (o ∷ old) new pos rest = elim (find_match (o ∷ old) rest) [
  | none ↦ err (no_match (hi + 1) o (pos + 1))
  | some j ↦
      ok (take j rest ++ new, pos + j + length (o ∷ old), drop (length (o ∷ old)) (drop j rest))
]

-- the loop over the hunks, and the trailing source lines
unfoldable pub apply_loop : ℕ → List PatchHunk → ℕ → List Text → Applied (List Text)
unfolding seek_anchor replace_match old_seq new_seq
apply_loop hi [] pos rest = ok rest
apply_loop hi (h ∷ hs) pos rest = do
  (skipped, pos', rest') ← seek_anchor hi h.context pos rest
  (changed, pos'', rest'') ← replace_match hi (old_seq h.lines) (new_seq h.lines) pos' rest'
  out ← apply_loop (hi + 1) hs pos'' rest''
  ok (skipped ++ (changed ++ out))

abbrev pub newline : Text
newline = b'\n' ∷ []

-- strings.HasSuffix(s, "\n")
unfoldable pub ends_in_newline : Text → Bool
ends_in_newline [] = false
ends_in_newline (c ∷ []) = c == b'\n'
ends_in_newline (c ∷ d ∷ s) = ends_in_newline (d ∷ s)

-- the text of the patched lines, with the source's trailing newline restored
unfoldable pub restore_newline : Bool → Text → Text
restore_newline trailing_nl res = if trailing_nl && not (is_nil res) then res ++ newline else res

unfoldable pub apply_hunks : Text → List PatchHunk → Applied Text
unfolding apply_loop restore_newline ends_in_newline
apply_hunks source hunks = do
  out ← apply_loop 0 hunks 0 (split_lines source)
  ok (restore_newline (ends_in_newline source || is_nil source) (join_newline out))
