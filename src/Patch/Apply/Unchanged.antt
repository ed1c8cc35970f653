-- ===== src/Patch/Apply/Unchanged.antt =====
-- Text that ApplyHunks gives back as it was (internal/envtools/tools/apply_patch_core.go).
use cli_server.Common.{
  ℕ, ◌≡◌, ◌≢◌, refl, sym, ap, ◌∙◌, inl, inr, true, false, ◌||◌, List, [], ◌∷◌, ◌++◌, is_nil, ok,
  arith, Bool-cases, nat_eq, All, if◌then◌else◌, nat_beq,
}
use cli_server.Common.Text.{Text, split_newline, join_newline, push_code}
use cli_server.Patch.{PatchHunk, HunkLine, hunk_context}
use cli_server.Patch.Parse.{split_lines, drop_empty_last}
use cli_server.Patch.Apply.{
  newline, ends_in_newline, restore_newline, old_seq, new_seq, apply_hunks,
}
use cli_server.Patch.Apply.Sound.{Patches, copy, change, apply_hunks-Patches}

-- A split is not empty; here it is taken apart.
split-cons : (s : Text) → (l : Text) × (ls : List Text) × (split_newline s ≡ l ∷ ls)
unfolding split_newline
split-cons [] = ([], [], refl)
split-cons (c ∷ s) =
    let (l, ls, e) = split-cons s in
    elim (Bool-cases (nat_beq c b'\n')) [
      | inl t ↦ ([], split_newline s, rw t)
      | inr f ↦ (c ∷ l, ls, rw f (rw e))
    ]

join-push :
    (c : ℕ) (l : Text) (ls : List Text)
    → join_newline (push_code c (l ∷ ls)) ≡ c ∷ join_newline (l ∷ ls)
unfolding join_newline
join-push c l [] = refl
join-push c l (m ∷ ls) = refl

split-step :
    (c : ℕ) (s : Text)
    → split_newline (c ∷ s)
      ≡ (if nat_beq c b'\n' then [] ∷ split_newline s else push_code c (split_newline s))
unfolding split_newline
split-step c s = refl

is_newline : (c : ℕ) → nat_beq c b'\n' ≡ true → c ≡ b'\n'
is_newline c h = ground arith

-- Joining what was split gives the text back.
join-split : (s : Text) → join_newline (split_newline s) ≡ s
unfolding split_newline join_newline
join-split [] = refl
join-split (c ∷ s) =
    let (l, ls, e) = split-cons s in
    let ih : join_newline (l ∷ ls) ≡ s = rw (← e) (join-split s) in
    elim (Bool-cases (nat_beq c b'\n')) [
      | inl t ↦ rw (is_newline c t) (rw e (ap (◌∷◌ b'\n') ih))
      | inr f ↦ rw f (rw e (join-push c l ls ∙ ap (◌∷◌ c) ih))
    ]

-- A text that ends in a newline splits into two pieces at least.
split-ended :
    (c : ℕ) (s : Text)
    → ends_in_newline (c ∷ s) ≡ true
    → (l : Text) × (m : Text) × (ls : List Text) × (split_newline (c ∷ s) ≡ l ∷ m ∷ ls)
unfolding split_newline ends_in_newline
split-ended c [] h = ([], [], [], rw (is_newline c h))
split-ended c (d ∷ s) h =
    let (l, m, ls, e) = split-ended d s h in
    elim (Bool-cases (nat_beq c b'\n')) [
      | inl t ↦ ([], l, m ∷ ls, rw (t, e))
      | inr f ↦ (c ∷ l, m, ls, rw (f, e))
    ]

-- Dropping the last, empty piece drops the final newline.
join-drop_ended :
    (c : ℕ) (s : Text)
    → ends_in_newline (c ∷ s) ≡ true
    → join_newline (drop_empty_last (split_newline (c ∷ s))) ++ newline ≡ c ∷ s
unfolding ends_in_newline join_newline drop_empty_last
join-drop_ended c [] h = rw (is_newline c h) (unfold split_newline in refl)
join-drop_ended c (d ∷ s) h =
    let (l, m, ls, e) = split-ended d s h in
    let ih : join_newline (l ∷ drop_empty_last (m ∷ ls)) ++ newline ≡ d ∷ s =
      rw e at (join-drop_ended d s h) in
    elim (Bool-cases (nat_beq c b'\n')) [
      | inl t ↦ rw (split-step c (d ∷ s), t, e, is_newline c t) (ap (◌∷◌ b'\n') ih)
      | inr f ↦
          rw (split-step c (d ∷ s), f, e)
            (ap (λ t. t ++ newline) (join-push c l (drop_empty_last (m ∷ ls))) ∙ ap (◌∷◌ c) ih)
    ]

drop-push :
    (c : ℕ) (l : Text) (ls : List Text)
    → drop_empty_last (l ∷ ls) ≡ l ∷ ls
    → drop_empty_last ((c ∷ l) ∷ ls) ≡ (c ∷ l) ∷ ls
unfolding drop_empty_last
drop-push c l [] h = refl
drop-push c l (m ∷ ls) h = ap (◌∷◌ (c ∷ l)) (ground arith)

drop-not_ended :
    (c : ℕ) (s : Text)
    → ends_in_newline (c ∷ s) ≡ false
    → drop_empty_last (split_newline (c ∷ s)) ≡ split_newline (c ∷ s)
unfolding ends_in_newline drop_empty_last
drop-not_ended c [] h = rw (split-step c [], h) (unfold split_newline in refl)
drop-not_ended c (d ∷ s) h =
    let (l, ls, e) = split-cons (d ∷ s) in
    let ih : drop_empty_last (l ∷ ls) ≡ l ∷ ls = rw e at (drop-not_ended d s h) in
    elim (Bool-cases (nat_beq c b'\n')) [
      | inl t ↦ rw (split-step c (d ∷ s), t, e) (ap (◌∷◌ []) ih)
      | inr f ↦ rw (split-step c (d ∷ s), f, e) (drop-push c l ls ih)
    ]

restore_ended : (res s : Text) → res ++ newline ≡ s → s ≢ newline → restore_newline true res ≡ s
unfolding restore_newline
restore_ended [] s e h = absurd (h (sym e))
restore_ended (c ∷ res) s e h = e

-- Splitting a text into lines and restoring it loses nothing, unless it is one empty line.
restore-split_lines :
    (s : Text)
    → s ≢ newline
    → restore_newline (ends_in_newline s || is_nil s) (join_newline (split_lines s)) ≡ s
restore-split_lines [] h = unfold join_newline ends_in_newline restore_newline split_lines in refl
restore-split_lines (c ∷ s) h = elim (Bool-cases (ends_in_newline (c ∷ s))) [
  | inl t ↦ rw t (unfold split_lines in restore_ended _ _ (join-drop_ended c s t) h)
  | inr f ↦
      rw f (unfold split_lines restore_newline in rw (drop-not_ended c s f) (join-split (c ∷ s)))
]

abbrev pub IsContextLine : HunkLine → Type 0
IsContextLine l = l.kind ≡ hunk_context

-- A hunk that removes and adds nothing.
abbrev pub IsContextOnly : PatchHunk → Type 0
IsContextOnly h = All IsContextLine h.lines

new-eq-old : (ls : List HunkLine) → All IsContextLine ls → new_seq ls ≡ old_seq ls
unfolding new_seq old_seq
new-eq-old [] h = refl
new-eq-old (l ∷ ls) h = ground (arith, new-eq-old ls h.1)

Patches-unchanged :
    {hunks : List PatchHunk} {src out : List Text}
    → Patches hunks src out
    → All IsContextOnly hunks
    → out ≡ src
Patches-unchanged (copy src) all = refl
Patches-unchanged (change h skipped kept src out anchored whole result more) all =
    result
    ∙ ap (λ t. skipped ++ (kept ++ t))
        (ap (λ t. t ++ out) (new-eq-old h.lines all.0)
          ∙ ap (λ t. old_seq h.lines ++ t) (Patches-unchanged more all.1))
    ∙ sym whole

-- Hunks of context lines alone, once they are found, give the source back as it was, byte for byte;
-- the source that is a single empty line is excepted.
pub apply_hunks-unchanged :
    (source : Text) (hunks : List PatchHunk) (result : Text)
    → source ≢ newline
    → All IsContextOnly hunks
    → apply_hunks source hunks ≡ ok result
    → result ≡ source
apply_hunks-unchanged source hunks result h all done =
    let (out, patched, e) = apply_hunks-Patches source hunks result done in
    e ∙ rw (Patches-unchanged patched all) (restore-split_lines source h)
