-- ===== src/Patch/Parse/Chunks.antt =====
-- Update hunks as the parser returns them: each has lines, each read takes a line, and the bound on
-- the rounds suffices.
use cli_server.Common.{
  ℕ, zero, suc, ◌+◌, ◌≡◌, ◌≢◌, Bool, true, false, List, [], ◌∷◌, is_nil, drop, length, Post,
  Post-bind, Post-if, ◌≤◌, length-drop, All, arith, nat_eq, ◌==◌,
}
use cli_server.Common.Text.{Text, text_eq, has_prefix, trim_cr}
use cli_server.Patch.{PatchHunk, HunkLine, ParseError, out_of_fuel}
use cli_server.Patch.Marker
use cli_server.Patch.Parse.{
  Parsed, is_blank, finish_chunk, parse_update_chunk, chunk_header, chunk_body, chunk_line,
  body_line, BodyLine, end_of_file, next_header, next_chunk, unknown, line, update_hunks,
}

-- A hunk has a line.
abbrev pub HasLines : PatchHunk → Type 0
HasLines h = is_nil h.lines ≡ false

-- No helper gives up for want of rounds, and each reads a line at least.
abbrev pub IsGenuine : ParseError → Type 0
IsGenuine e = e ≢ out_of_fuel

abbrev pub Reads : {A : Type 0} → (A → Type 0) → A × ℕ → Type 0
Reads P r = P r.0 × (1 ≤ r.1)

abbrev pub Good : {A : Type 0} → (A → Type 0) → Parsed A → Type 0
Good P = Post P IsGenuine

abbrev Body : List HunkLine × ℕ → Type 0
Body r = is_nil r.0 ≡ false → 1 ≤ r.1

chunk_line-Body :
    (some_read : Bool) (i : ℕ) (raw : Text) (more : Parsed (List HunkLine × ℕ)) (b : BodyLine)
    → Good Body more
    → Good Body (chunk_line some_read i raw more b)
unfolding chunk_line
chunk_line-Body some_read i raw more end_of_file h = λ e. cc
chunk_line-Body some_read i raw more next_header h = λ e. cc
chunk_line-Body some_read i raw more next_chunk h = λ e. cc
chunk_line-Body true i raw more unknown h = λ e. cc
chunk_line-Body false i raw more unknown h = λ e. cc
chunk_line-Body some_read i raw more (line k t) h =
    Post-bind Body IsGenuine Body more _ h (λ r _ _. omega arith)

chunk_body-Body :
    (some_read : Bool) (i : ℕ) (ls : List Text) → Good Body (chunk_body some_read i ls)
unfolding chunk_body
chunk_body-Body some_read i [] = λ h. cc
chunk_body-Body some_read i (l ∷ ls) =
    chunk_line-Body some_read i (trim_cr l) (chunk_body true (i + 1) ls) (body_line (trim_cr l))
      (chunk_body-Body true (i + 1) ls)

chunk_header-IsGenuine :
    (start : ℕ) (first : Text) (allow_missing_context : Bool)
    → Good (λ _. Unit) (chunk_header start first allow_missing_context)
unfolding chunk_header
chunk_header-IsGenuine start first allow =
    Post-if _ _ (first == Marker.empty_change_context) _ _ (λ _. tt)
      (λ _.
        Post-if _ _ (has_prefix first Marker.change_context) _ _ (λ _. tt)
          (λ _. Post-if _ _ allow _ _ (λ _. tt) (λ _ e. cc)))

finish_chunk-Reads :
    (start : ℕ) (anchor : Text) (k : ℕ) (ls : List Text)
    → Good (Reads HasLines) (finish_chunk start anchor k ls)
unfolding finish_chunk
finish_chunk-Reads start anchor k [] = λ e. cc
finish_chunk-Reads start anchor k (l ∷ ls) =
    Post-bind _ _ Body (chunk_body false (start + k) (l ∷ ls)) _
      (chunk_body-Body false (start + k) (l ∷ ls))
      λ b h.
        Post-if (Reads HasLines) IsGenuine (is_nil b.0) _ _ (λ _ e. cc)
          (λ e. (e, omega (arith, h e)))

parse_update_chunk-Reads :
    (start : ℕ) (l : Text) (rest : List Text) (first : Bool)
    → Good (Reads HasLines) (parse_update_chunk start l rest first)
unfolding parse_update_chunk
parse_update_chunk-Reads start l rest first =
    Post-bind _ _ (λ _. Unit) (chunk_header start (trim_cr l) first) _
      (chunk_header-IsGenuine start (trim_cr l) first)
      λ b _.
        Post-if (Reads HasLines) IsGenuine b.1 _ _ (λ _. finish_chunk-Reads start b.0 1 rest)
          (λ _. finish_chunk-Reads start b.0 0 (l ∷ rest))

pub update_hunks-HasLines :
    (fuel i : ℕ) (ls : List Text) (first : Bool)
    → length ls ≤ fuel
    → Good (λ r. All HasLines r.0) (update_hunks fuel i ls first)
unfolding update_hunks
update_hunks-HasLines fuel i [] first le = tt
update_hunks-HasLines zero i (l ∷ ls) first le = absurd (omega arith)
update_hunks-HasLines (suc f) i (l ∷ ls) first le =
    Post-if _ _ (is_blank l) _ _
      (λ _.
        Post-bind _ _ _ (update_hunks f (i + 1) ls first) _
          (update_hunks-HasLines f (i + 1) ls first (omega arith)) (λ b h. h))
      (λ _.
        Post-if (λ r. All HasLines r.0) IsGenuine (has_prefix (trim_cr l) Marker.stars) _ _
          (λ _. tt)
          (λ _.
            Post-bind _ _ _ (parse_update_chunk i l ls first) _
              (parse_update_chunk-Reads i l ls first)
              λ b h.
                Post-bind _ _ _ (update_hunks f (i + b.1) (drop b.1 (l ∷ ls)) false) _
                  (update_hunks-HasLines f (i + b.1) (drop b.1 (l ∷ ls)) false
                    (omega (arith, length-drop b.1 (l ∷ ls), h.1)))
                  (λ c h'. (h.0, h'))))
