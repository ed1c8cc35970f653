-- ===== src/Patch/Apply/Sound.antt =====
-- ApplyHunks against a description of patching that mentions no search.
use cli_server.Common.{
  ℕ, zero, suc, ◌+◌, ◌≡◌, refl, ap, ◌⊎◌, inl, inr, true, ◌||◌, some, List, [], ◌∷◌, ◌++◌,
  append_assoc, append-nil, length, take, drop, ok, arith, Option-cases, >>=-eq-ok, is_nil,
}
use cli_server.Common.Text.{Text, text_eq, text_beq_iff, join_newline}
use cli_server.Patch.{PatchHunk}
use cli_server.Patch.Parse.{split_lines}
use cli_server.Patch.Apply.{
  is_anchor, find_anchor, old_seq, new_seq, matches_at, find_match, seek_anchor, replace_match,
  apply_loop, apply_hunks, restore_newline, ends_in_newline,
}

-- Some line of a list passes for the anchor.
abbrev pub HasAnchor : Text → List Text → Type 0
HasAnchor context [] = ⊥
HasAnchor context (l ∷ ls) = (is_anchor context l ≡ true) ⊎ HasAnchor context ls

-- `Patches hunks src out`: the hunks, in order, each replace one run of lines of what the hunk
-- before left, behind their anchor, and everything else is copied.
pub data Patches : List PatchHunk → List Text → List Text → Type 0 where
  copy : (src : List Text) → Patches [] src src
  change :
      (h : PatchHunk) (skipped kept src out : List Text) {hs : List PatchHunk}
      {whole result : List Text}
      → (h.context ≡ []) ⊎ HasAnchor h.context skipped
      → whole ≡ skipped ++ (kept ++ (old_seq h.lines ++ src))
      → result ≡ skipped ++ (kept ++ (new_seq h.lines ++ out))
      → Patches hs src out
      → Patches (h ∷ hs) whole result

take-append-drop {ℓ} : {A : Type ℓ} (n : ℕ) (xs : List A) → take n xs ++ drop n xs ≡ xs
take-append-drop zero xs = refl
take-append-drop (suc n) [] = refl
take-append-drop (suc n) (x ∷ xs) = rw (take-append-drop n xs)

matches_at-split :
    (old src : List Text) → matches_at old src ≡ true → src ≡ old ++ drop (length old) src
unfolding matches_at
matches_at-split [] src h = refl
matches_at-split (o ∷ old) [] h = cc
matches_at-split (o ∷ old) (l ∷ src) h = ground (arith, matches_at-split old src, text_beq_iff l o)

pub find_match-split :
    (old src : List Text) (j : ℕ)
    → find_match old src ≡ some j
    → src ≡ take j src ++ (old ++ drop (length old) (drop j src))
unfolding find_match
find_match-split [] [] zero h = refl
find_match-split [] [] (suc j) h = cc
find_match-split (o ∷ old) [] j h = cc
find_match-split old (l ∷ src) zero h = matches_at-split old (l ∷ src) (ground arith)
find_match-split old (l ∷ src) (suc j) h = ap (◌∷◌ l) (find_match-split old src j (ground arith))

find_anchor-HasAnchor :
    (context : Text) (src : List Text) (j : ℕ)
    → find_anchor context src ≡ some j
    → HasAnchor context (take (suc j) src)
unfolding find_anchor
find_anchor-HasAnchor context [] j h = cc
find_anchor-HasAnchor context (l ∷ src) zero h = inl (ground arith)
find_anchor-HasAnchor context (l ∷ src) (suc j) h =
    inr (find_anchor-HasAnchor context src j (ground arith))

-- What one search leaves: the lines in front of the cursor, and those behind it.
seek_anchor-split :
    (hi : ℕ) (context : Text) (pos : ℕ) (rest : List Text) {skipped : List Text} {pos' : ℕ}
    {rest' : List Text}
    → seek_anchor hi context pos rest ≡ ok (skipped, pos', rest')
    → ((context ≡ []) ⊎ HasAnchor context skipped) × (rest ≡ skipped ++ rest')
unfolding seek_anchor
seek_anchor-split hi [] pos rest h = (inl refl, ground arith)
seek_anchor-split hi (c ∷ context) pos rest {skipped} h =
    elim (Option-cases (find_anchor (c ∷ context) rest)) [
      | inl e ↦ absurd (ground (arith, e))
      | inr (j, e) ↦
          let p : skipped ≡ take (suc j) rest = ground arith in
          (
            inr (rw p (find_anchor-HasAnchor (c ∷ context) rest j e)),
            ground (arith, take-append-drop (suc j) rest),
          )
    ]

replace_match-split :
    (hi : ℕ) (old new : List Text) (pos : ℕ) (rest : List Text) {changed : List Text} {pos' : ℕ}
    {rest' : List Text}
    → replace_match hi old new pos rest ≡ ok (changed, pos', rest')
    → (kept : List Text) × (rest ≡ kept ++ (old ++ rest')) × (changed ≡ kept ++ new)
unfolding replace_match
replace_match-split hi [] new pos rest h = (rest, ground (arith, append-nil rest), ground arith)
replace_match-split hi (o ∷ old) new pos rest h = elim (Option-cases (find_match (o ∷ old) rest)) [
  | inl e ↦ absurd (ground (arith, e))
  | inr (j, e) ↦ (take j rest, ground (arith, find_match-split (o ∷ old) rest j e), ground arith)
]

pub apply_loop-Patches :
    (hi : ℕ) (hunks : List PatchHunk) (pos : ℕ) (rest : List Text) {out : List Text}
    → apply_loop hi hunks pos rest ≡ ok out
    → Patches hunks rest out
unfolding apply_loop
apply_loop-Patches hi [] pos rest {out} h = let p : out ≡ rest = ground arith in rw p (copy rest)
apply_loop-Patches hi (x ∷ hs) pos rest {out} h =
    let (skip, found, h₁) = >>=-eq-ok (seek_anchor hi x.context pos rest) _ h in
    let (change', replaced, h₂) =
      >>=-eq-ok (replace_match hi (old_seq x.lines) (new_seq x.lines) skip.1 skip.2) _ h₁ in
    let (out', more, h₃) = >>=-eq-ok (apply_loop (hi + 1) hs change'.1 change'.2) _ h₂ in
    let (anchored, whole) = seek_anchor-split hi x.context pos rest found in
    let (kept, matched, emitted) =
      replace_match-split hi (old_seq x.lines) (new_seq x.lines) skip.1 skip.2 replaced in
    change x skip.0 kept change'.2 out' anchored (ground (arith, whole, matched))
      (ground (arith, h₃, emitted, append_assoc kept (new_seq x.lines) out'))
      (apply_loop-Patches (hi + 1) hs change'.1 change'.2 more)

-- When ApplyHunks succeeds, the source's lines are patched as `Patches` describes, and the text is
-- those lines joined, with a final newline if the source was empty or ended in one.
pub apply_hunks-Patches :
    (source : Text) (hunks : List PatchHunk) (result : Text)
    → apply_hunks source hunks ≡ ok result
    → (out : List Text) × Patches hunks (split_lines source) out
      × (result ≡ restore_newline (ends_in_newline source || is_nil source) (join_newline out))
unfolding apply_hunks
apply_hunks-Patches source hunks result h =
    let (out, done, e) = >>=-eq-ok (apply_loop 0 hunks 0 (split_lines source)) _ h in
    (out, apply_loop-Patches 0 hunks 0 (split_lines source) done, ground arith)
