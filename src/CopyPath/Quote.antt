-- ===== src/CopyPath/Quote.antt =====
-- shQuote of internal/envtools/tools/copy_path.go, against the quoting rules of the POSIX shell.
use cli_server.Common.{
  ℕ, ◌≡◌, refl, Option, some, none, [], ◌∷◌, ◌++◌, if◌then◌else◌, nat_beq, nat_beq_iff, Bool-cases,
  inl, inr,
}
use cli_server.Common.Text.{Text}

abbrev pub quote_mark : ℕ
quote_mark = 39

abbrev pub backslash : ℕ
backslash = 92

-- strings.ReplaceAll(s, "'", `'\''`)
unfoldable pub escape_quotes : Text → Text
escape_quotes [] = []
escape_quotes (c ∷ s) =
    if nat_beq c quote_mark
    then quote_mark ∷ backslash ∷ quote_mark ∷ quote_mark ∷ escape_quotes s
    else c ∷ escape_quotes s

unfoldable pub sh_quote : Text → Text
unfolding escape_quotes
sh_quote s = quote_mark ∷ escape_quotes s ++ quote_mark ∷ []

-- What the shell has read of a word: within single quotes or not, after a backslash or not.
pub data Reading : Type 0 where
  unquoted : Reading
  escaped : Reading
  quoted : Reading

-- the word with one more code point
abbrev pub more : ℕ → Option Text → Option Text
more c none = none
more c (some t) = some (c ∷ t)

-- The word that a text of quotes and escaped code points stands for. `none`: a quote is open at the
-- end, or a code point is neither quoted nor escaped, so the shell may give it a meaning of its own.
unfoldable pub word_of : Reading → Text → Option Text
word_of unquoted [] = some []
word_of escaped [] = none
word_of quoted [] = none
word_of unquoted (c ∷ t) =
    if nat_beq c quote_mark
    then word_of quoted t
    else if nat_beq c backslash
    then word_of escaped t
    else none
word_of escaped (c ∷ t) = more c (word_of unquoted t)
word_of quoted (c ∷ t) =
    if nat_beq c quote_mark then word_of unquoted t else more c (word_of quoted t)

word_of-escape_quotes : (s : Text) → word_of quoted (escape_quotes s ++ quote_mark ∷ []) ≡ some s
unfolding word_of escape_quotes
word_of-escape_quotes [] = refl
word_of-escape_quotes (c ∷ s) = elim (Bool-cases (nat_beq c quote_mark)) [
  | inl e ↦
      let same : c ≡ quote_mark = ((nat_beq_iff c quote_mark).0 e) in
      rw same (rw (word_of-escape_quotes s) refl)
  | inr e ↦ rw e (rw e (rw (word_of-escape_quotes s) refl))
]

-- The shell reads a quoted path as one word, in which every code point is quoted or escaped, and that
-- word is the path.
pub word_of-sh_quote : (s : Text) → word_of unquoted (sh_quote s) ≡ some s
unfolding word_of sh_quote
word_of-sh_quote s = word_of-escape_quotes s
