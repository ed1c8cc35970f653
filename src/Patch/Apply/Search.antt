-- ===== src/Patch/Apply/Search.antt =====
-- Which run of lines ApplyHunks replaces, and when it reports that there is none.
use cli_server.Common.{
  ℕ, zero, suc, ◌+◌, ◌≤◌, ◌≡◌, refl, ap, inl, inr, true, some, List, [], ◌∷◌, ◌++◌, length, take,
  drop, ok, err, arith, Option-cases, Bool-cases, ==_self,
}
use cli_server.Common.Text.{Text, text_eq}
use cli_server.Patch.Apply.{no_match, matches_at, find_match, replace_match}
use cli_server.Patch.Apply.Sound.{find_match-split}

matches_at-append : (old post : List Text) → matches_at old (old ++ post) ≡ true
unfolding matches_at
matches_at-append [] post = refl
matches_at-append (o ∷ old) post = ground (arith, ==_self o, matches_at-append old post)

-- A search succeeds no later than at an occurrence.
find_match-le :
    (o : Text) (old pre post : List Text)
    → (j : ℕ) × (find_match (o ∷ old) (pre ++ o ∷ (old ++ post)) ≡ some j) × (j ≤ length pre)
unfolding find_match
find_match-le o old [] post = (0, ground (arith, matches_at-append (o ∷ old) post), omega arith)
find_match-le o old (l ∷ pre) post =
    let (j, found, le) = find_match-le o old pre post in
    elim (Bool-cases (matches_at (o ∷ old) (l ∷ (pre ++ o ∷ (old ++ post))))) [
      | inl hit ↦ (0, ground (arith, hit), omega arith)
      | inr miss ↦ (suc j, ground (arith, miss, found), omega arith)
    ]

length-take_match :
    (old src : List Text) (j : ℕ) → find_match old src ≡ some j → length (take j src) ≡ j
unfolding find_match
length-take_match old src zero h = refl
length-take_match [] [] (suc j) h = cc
length-take_match (o ∷ old) [] (suc j) h = cc
length-take_match old (l ∷ src) (suc j) h = ap suc (length-take_match old src j (ground arith))

-- The lines `run` stand in `rest`, behind the lines `pre` and in front of the lines `post`.
abbrev pub Occurs : List Text → List Text → List Text → List Text → Type 0
Occurs run rest pre post = rest ≡ pre ++ (run ++ post)

module _ (hi : ℕ) (o : Text) (old new : List Text) (pos : ℕ) (rest : List Text) where
  -- Where the context and removed lines of a hunk occur at or behind the cursor, some occurrence that
  -- is no later than the given one is replaced, and the cursor moves behind it.
  pub replace_match_first :
      (pre post : List Text)
      → Occurs (o ∷ old) rest pre post
      → (pre' : List Text) × (post' : List Text) × Occurs (o ∷ old) rest pre' post'
        × (length pre' ≤ length pre)
        × (replace_match hi (o ∷ old) new pos rest
            ≡ ok (pre' ++ new, pos + length pre' + length (o ∷ old), post'))
  unfolding replace_match
  replace_match_first pre post e =
      let (j, found, le) = find_match-le o old pre post in
      let hit : find_match (o ∷ old) rest ≡ some j = rw e found in
      let len = length-take_match (o ∷ old) rest j hit in
      (
        take j rest,
        drop (length (o ∷ old)) (drop j rest),
        find_match-split (o ∷ old) rest j hit,
        omega (arith, len),
        ground (arith, hit, len),
      )

  -- Where the context and removed lines of a hunk occur nowhere at or behind the cursor, the hunk is
  -- refused with an error that names the hunk, the first expected line and the cursor's line.
  pub replace_match_none :
      ((pre post : List Text) → ¬ Occurs (o ∷ old) rest pre post)
      → replace_match hi (o ∷ old) new pos rest ≡ err (no_match (hi + 1) o (pos + 1))
  unfolding replace_match
  replace_match_none nowhere = elim (Option-cases (find_match (o ∷ old) rest)) [
    | inl e ↦ ground (arith, e)
    | inr (j, e) ↦ absurd (nowhere _ _ (find_match-split (o ∷ old) rest j e))
  ]
