-- ===== src/Common/Text.antt =====
-- Text as a list of code points, with the functions of package strings that the program calls.
use Prim.Native.Nat.{ℕ}
use Prim.Native.Char.{code}
use Prim.Native.String.{String}
use mathlib.Core.Path.{◌≡◌, refl}
use mathlib.Core.Logic.{◌↔◌, ◌≢◌}
use mathlib.Core.List.{List, [], ◌∷◌, ◌++◌}
use mathlib.Core.Bool.{Bool, true, false, ◌&&◌, ◌||◌}
use native.Mathlib.Omega.{arith}
use cli_server.Common.Tests.{leb, nat_beq, nat_beq_iff, if◌then◌else◌}
use cli_server.Common.Keys.{Eq}

abbrev pub Text : Type 0
Text = List ℕ

-- The code points of a literal.
abbrev pub codes : String → Text
codes String.[] = []
codes (String.◌∷◌ c s) = code c ∷ codes s

unfoldable pub text_beq : Text → Text → Bool
text_beq [] [] = true
text_beq [] (d ∷ t) = false
text_beq (c ∷ s) [] = false
text_beq (c ∷ s) (d ∷ t) = nat_beq c d && text_beq s t

text_beq→eq : (s t : Text) → text_beq s t ≡ true → s ≡ t
unfolding text_beq
text_beq→eq [] [] h = refl
text_beq→eq [] (d ∷ t) h = cc
text_beq→eq (c ∷ s) [] h = cc
text_beq→eq (c ∷ s) (d ∷ t) h = ground (arith, text_beq→eq s t)

text_beq_self : (s : Text) → text_beq s s ≡ true
unfolding text_beq
text_beq_self [] = refl
text_beq_self (c ∷ s) = ground (arith, text_beq_self s, nat_beq_iff c c)

pub text_beq_iff : (s t : Text) → (text_beq s t ≡ true) ↔ (s ≡ t)
text_beq_iff s t = (text_beq→eq s t, λ p. rw p (text_beq_self t))

instance abbrev pub text_eq : Eq Text
text_eq = record { agrees_iff = text_beq_iff; agrees = text_beq }

-- strings.HasPrefix(s, p)
unfoldable pub has_prefix : Text → Text → Bool
has_prefix s [] = true
has_prefix [] (d ∷ p) = false
has_prefix (c ∷ s) (d ∷ p) = nat_beq c d && has_prefix s p

-- s without its first len(p) code points
unfoldable pub cut : Text → Text → Text
cut s [] = s
cut [] (d ∷ p) = []
cut (c ∷ s) (d ∷ p) = cut s p

-- strings.TrimPrefix(s, p)
unfoldable pub trim_prefix : Text → Text → Text
unfolding has_prefix cut
trim_prefix s p = if has_prefix s p then cut s p else s

-- strings.Contains(s, p)
unfoldable pub contains : Text → Text → Bool
unfolding has_prefix
contains [] p = has_prefix [] p
contains (c ∷ s) p = has_prefix (c ∷ s) p || contains s p

-- unicode.IsSpace
unfoldable pub is_space : ℕ → Bool
is_space c =
    leb 9 c && leb c 13
    || nat_beq c 32
    || nat_beq c 0x85
    || nat_beq c 0xa0
    || nat_beq c 0x1680
    || leb 0x2000 c && leb c 0x200a
    || nat_beq c 0x2028
    || nat_beq c 0x2029
    || nat_beq c 0x202f
    || nat_beq c 0x205f
    || nat_beq c 0x3000

-- strings.TrimRightFunc(s, f)
unfoldable pub trim_right : (ℕ → Bool) → Text → Text
trim_right f [] = []
trim_right f (c ∷ s) = elim (trim_right f s) [ [] ↦ if f c then [] else c ∷ [] | d ∷ t ↦ c ∷ d ∷ t ]

-- strings.TrimLeftFunc(s, f)
unfoldable pub trim_left : (ℕ → Bool) → Text → Text
trim_left f [] = []
trim_left f (c ∷ s) = if f c then trim_left f s else c ∷ s

-- strings.TrimSpace(s)
unfoldable pub trim_space : Text → Text
unfolding trim_left trim_right is_space
trim_space s = trim_right is_space (trim_left is_space s)

-- strings.TrimRight(s, "\r")
unfoldable pub trim_cr : Text → Text
unfolding trim_right
trim_cr s = trim_right (λ c. nat_beq c 13) s

-- the first piece of a split, put before the rest
abbrev pub push_code : ℕ → List Text → List Text
push_code c [] = (c ∷ []) ∷ []
push_code c (l ∷ ls) = (c ∷ l) ∷ ls

-- strings.Split(s, sep) for a separator of one code point
unfoldable pub split_on : ℕ → Text → List Text
split_on sep [] = [] ∷ []
split_on sep (c ∷ s) = if nat_beq c sep then [] ∷ split_on sep s else push_code c (split_on sep s)

-- strings.Contains(s, sep) for a separator of one code point
unfoldable pub has_code : ℕ → Text → Bool
has_code sep [] = false
has_code sep (c ∷ s) = nat_beq c sep || has_code sep s

-- strings.Split(s, "\n")
unfoldable pub split_newline : Text → List Text
split_newline [] = [] ∷ []
split_newline (c ∷ s) =
    if nat_beq c b'\n' then [] ∷ split_newline s else push_code c (split_newline s)

-- strings.Join(ls, "\n")
unfoldable pub join_newline : List Text → Text
join_newline [] = []
join_newline (l ∷ []) = l
join_newline (l ∷ m ∷ ls) = l ++ b'\n' ∷ join_newline (m ∷ ls)

pub has_prefix-split : (s p : Text) → has_prefix s p ≡ true → s ≡ p ++ cut s p
unfolding has_prefix cut
has_prefix-split s [] h = refl
has_prefix-split [] (d ∷ p) h = cc
has_prefix-split (c ∷ s) (d ∷ p) h = ground (arith, has_prefix-split s p, nat_beq_iff c d)

pub has_prefix-append : (p s : Text) → has_prefix (p ++ s) p ≡ true
unfolding has_prefix
has_prefix-append [] s = unfold has_prefix in refl
has_prefix-append (d ∷ p) s = ground (arith, has_prefix-append p s, nat_beq_iff d d)

pub cut-append : (p s : Text) → cut (p ++ s) p ≡ s
unfolding cut
cut-append [] s = refl
cut-append (d ∷ p) s = cut-append p s

pub split_on-append :
    (sep : ℕ) (s t : Text)
    → has_code sep s ≡ false
    → split_on sep (s ++ sep ∷ t) ≡ s ∷ split_on sep t
unfolding split_on has_code
split_on-append sep [] t h = ground (arith, nat_beq_iff sep sep)
split_on-append sep (c ∷ s) t h = ground (arith, split_on-append sep s t, nat_beq_iff c sep)

pub split_on-single : (sep : ℕ) (s : Text) → has_code sep s ≡ false → split_on sep s ≡ s ∷ []
unfolding split_on has_code
split_on-single sep [] h = refl
split_on-single sep (c ∷ s) h = ground (arith, split_on-single sep s, nat_beq_iff c sep)

-- strings.Join(parts, sep)
unfoldable pub join_on : ℕ → List Text → Text
join_on sep [] = []
join_on sep (p ∷ []) = p
join_on sep (p ∷ q ∷ ps) = p ++ sep ∷ join_on sep (q ∷ ps)

join_on-push : (sep c : ℕ) (ps : List Text) → join_on sep (push_code c ps) ≡ c ∷ join_on sep ps
unfolding join_on
join_on-push sep c [] = refl
join_on-push sep c (p ∷ []) = refl
join_on-push sep c (p ∷ q ∷ ps) = refl

join_on-nil : (sep : ℕ) (ps : List Text) → ps ≢ [] → join_on sep ([] ∷ ps) ≡ sep ∷ join_on sep ps
unfolding join_on
join_on-nil sep [] filled = elim (filled refl) [ ]
join_on-nil sep (p ∷ ps) filled = refl

push_code≢nil : (c : ℕ) (ps : List Text) → push_code c ps ≢ []
push_code≢nil c [] = λ e. cc
push_code≢nil c (p ∷ ps) = λ e. cc

split_on≢nil : (sep : ℕ) (s : Text) → split_on sep s ≢ []
unfolding split_on
split_on≢nil sep [] = λ e. cc
split_on≢nil sep (c ∷ s) =
    elim (nat_beq c sep)
      as (λ b. (if b then [] ∷ split_on sep s else push_code c (split_on sep s)) ≢ []) [
        | true ↦ λ e. cc
        | false ↦ push_code≢nil c (split_on sep s)
      ]

pub join_on-split_on : (sep : ℕ) (s : Text) → join_on sep (split_on sep s) ≡ s
unfolding join_on split_on
join_on-split_on sep [] = refl
join_on-split_on sep (c ∷ s) = ground (
  arith,
  join_on-split_on sep s,
  nat_beq_iff c sep,
  join_on-nil sep (split_on sep s) (split_on≢nil sep s),
  join_on-push sep c (split_on sep s),
)
