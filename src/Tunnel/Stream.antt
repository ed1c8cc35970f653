-- ===== src/Tunnel/Stream.antt =====
-- Stream headers (internal/tunnel/stream.go) over a reader and a writer that are the bytes themselves.
use cli_server.Common.{
  ℕ, zero, suc, ◌+◌, ◌*◌, ◌/◌, ◌%◌, ◌^◌, ◌<◌, ◌≡◌, refl, ap, ◌∙◌, Option, some, none, List, [], ◌∷◌,
  ◌++◌, if◌then◌else◌, ltb, length, arith, Result, ok, err,
}
use cli_server.Common.Text.{Text}

pub data HeaderError : Type 0 where
  no_header : HeaderError
  no_metadata : HeaderError
  metadata_too_large : ℕ → HeaderError

-- binary.BigEndian.PutUint32 of uint32(n)
unfoldable pub put_uint32 : ℕ → List ℕ
put_uint32 n = let w = n % 2 ^ 32 in w / 2 ^ 24 ∷ w / 2 ^ 16 % 256 ∷ w / 2 ^ 8 % 256 ∷ w % 256 ∷ []

-- binary.BigEndian.Uint32 of the four bytes
unfoldable pub uint32 : ℕ → ℕ → ℕ → ℕ → ℕ
uint32 a b c d = a * 2 ^ 24 + b * 2 ^ 16 + c * 2 ^ 8 + d

-- WriteStreamHeader
unfoldable pub write_stream_header : ℕ → Text → Text
unfolding put_uint32
write_stream_header stream_type metadata = stream_type ∷ put_uint32 (length metadata) ++ metadata

-- io.ReadFull of n bytes: the bytes and what is left
unfoldable pub read_full : ℕ → Text → Option (Text × Text)
read_full zero s = some ([], s)
read_full (suc n) [] = none
read_full (suc n) (b ∷ s) = elim (read_full n s) [
  | none ↦ none
  | some (bs, rest) ↦ some (b ∷ bs, rest)
]

-- what was read, and what is left
abbrev pub with_metadata : ℕ → Option (Text × Text) → Result HeaderError (ℕ × Text × Text)
with_metadata stream_type none = err no_metadata
with_metadata stream_type (some (metadata, rest)) = ok (stream_type, metadata, rest)

abbrev pub read_metadata : ℕ → ℕ → Text → Result HeaderError (ℕ × Text × Text)
read_metadata stream_type len rest =
    if ltb 0 len
    then if ltb (2 ^ 20) len
      then err (metadata_too_large len)
      else with_metadata stream_type (read_full len rest)
    else ok (stream_type, [], rest)

-- ReadStreamHeader, with what it leaves of the stream
unfoldable pub read_stream_header : Text → Result HeaderError (ℕ × Text × Text)
unfolding uint32
read_stream_header (t ∷ a ∷ b ∷ c ∷ d ∷ rest) = read_metadata t (uint32 a b c d) rest
read_stream_header _ = err no_header

uint32-put_uint32 :
    (n : ℕ)
    → n < 2 ^ 32
    → uint32
        (n % 2 ^ 32 / 2 ^ 24)
        (n % 2 ^ 32 / 2 ^ 16 % 256)
        (n % 2 ^ 32 / 2 ^ 8 % 256)
        (n % 2 ^ 32 % 256)
      ≡ n
unfolding uint32
uint32-put_uint32 n h = omega arith

read_full-append : (bs rest : Text) → read_full (length bs) (bs ++ rest) ≡ some (bs, rest)
unfolding read_full
read_full-append [] rest = refl
read_full-append (b ∷ bs) rest = rw (read_full-append bs rest) refl

full_metadata :
    (t : ℕ) (m rest : Text) → with_metadata t (read_full (length m) (m ++ rest)) ≡ ok (t, m, rest)
full_metadata t m rest = rw (read_full-append m rest) refl

read_metadata-append :
    (t : ℕ) (m rest : Text)
    → read_metadata t (length m) (m ++ rest)
      ≡ (if ltb (2 ^ 20) (length m) then err (metadata_too_large (length m)) else ok (t, m, rest))
read_metadata-append t [] rest = refl
read_metadata-append t (b ∷ m) rest = let full = full_metadata t (b ∷ m) rest in ground (arith)

-- A header that was written with less than 2^32 bytes of metadata, followed by anything, is read back with
-- its type and metadata, and what follows is left; but metadata of more than 2^20 bytes is refused.
pub write_stream_header-read :
    (t : ℕ) (m rest : Text)
    → length m < 2 ^ 32
    → read_stream_header (write_stream_header t m ++ rest)
      ≡ (if ltb (2 ^ 20) (length m) then err (metadata_too_large (length m)) else ok (t, m, rest))
unfolding read_stream_header write_stream_header put_uint32
write_stream_header-read t m rest h =
    ap (λ n. read_metadata t n (m ++ rest)) (uint32-put_uint32 (length m) h)
    ∙ read_metadata-append t m rest
