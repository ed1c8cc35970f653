-- ===== src/Bearer/Genuine.antt =====
-- What a bearer that a verifier accepts must be.
use cli_server.Common.{
  ℕ, ◌≡◌, refl, sym, ap, ◌∙◌, Option, some, none, List, [], ◌∷◌, false, ◌||◌, is_nil, ok, ◌>>=◌,
  >>=-eq-ok, ◌==◌, ==_iff, string_eq, Bool-cases, inl, inr,
}
use cli_server.Common.Text.{Text, text_eq, split_on, join_on, join_on-split_on}
use cli_server.Bearer.{Codec, dot, passed}
use cli_server.Bearer.Capability.{
  Json, CapPayload, verify_capability_token, signed_part, check_token, check_header, check_payload,
  check_signed, decoded,
}

module _ (C : Codec) (J : Json) (now : ℕ) (secret : Text) (p : CapPayload) where
  -- The parts of a token that says `p`: the third decodes to the digest of the first two under the
  -- secret, the second to a JSON text of `p`, and `p` has not expired.
  abbrev pub AreGenuine : List Text → Type 0
  AreGenuine parts =
      (header : Text) × (payload : Text) × (sig : Text) × (bytes : Text) × (parts
        ≡ header ∷ payload ∷ sig ∷ [])
      × (C.decode sig ≡ some (C.hmac secret (signed_part header payload)))
      × (C.decode payload ≡ some bytes)
      × (J.unmarshal bytes ≡ some p)
      × (passed p.exp now ≡ false)

decoded-ok : (m : Option Text) {bytes : Text} → decoded m ≡ ok bytes → m ≡ some bytes
decoded-ok none h = cc
decoded-ok (some b) h = cc

check_payload-ok :
    (now : ℕ) (m : Option CapPayload) {p : CapPayload}
    → check_payload now m ≡ ok p
    → (m ≡ some p) × (passed p.exp now ≡ false)
check_payload-ok now none h = cc
check_payload-ok now (some q) {p} h = elim (Bool-cases (passed q.exp now)) [
  | inl e ↦ cc
  | inr e ↦ (cc, cc)
]

check_signed-ok :
    (C : Codec) (J : Json) (now : ℕ) (secret header payload sig : Text) {got : Text}
    {p : CapPayload}
    → C.decode sig ≡ some got
    → check_signed C J now secret header payload got ≡ ok p
    → AreGenuine C J now secret p (header ∷ payload ∷ sig ∷ [])
check_signed-ok C J now secret header payload sig {got} {p} read h =
    elim (Bool-cases (got == C.hmac secret (signed_part header payload))) [
      | inl e ↦
          let (bytes, got_bytes, checked) =
            >>=-eq-ok (decoded (C.decode payload)) (λ bytes. check_payload now (J.unmarshal bytes))
              cc in
          let (parsed, live) = check_payload-ok now (J.unmarshal bytes) checked in
          (
            header,
            payload,
            sig,
            bytes,
            refl,
            read ∙ ap some ((==_iff got (C.hmac secret (signed_part header payload))).0 e),
            decoded-ok (C.decode payload) got_bytes,
            parsed,
            live,
          )
      | inr e ↦ cc
    ]

check_token-ok :
    (C : Codec) (J : Json) (now : ℕ) (secret : Text) {p : CapPayload} (parts : List Text)
    → check_token C J now secret parts ≡ ok p
    → AreGenuine C J now secret p parts
check_token-ok C J now secret {p} (header ∷ payload ∷ sig ∷ []) h =
    elim (Bool-cases (is_nil header || is_nil payload || is_nil sig)) [
      | inl e ↦ cc
      | inr e ↦
          let (header_bytes, e1, h1) =
            >>=-eq-ok (decoded (C.decode header))
              (λ header_bytes. (do
                hd ← check_header (J.unmarshal_header header_bytes)
                got ← decoded (C.decode sig)
                check_signed C J now secret header payload got))
              cc in
          let (hd, e2, h2) =
            >>=-eq-ok (check_header (J.unmarshal_header header_bytes))
              (λ hd. (do
                got ← decoded (C.decode sig)
                check_signed C J now secret header payload got))
              h1 in
          let (got, e3, h3) =
            >>=-eq-ok (decoded (C.decode sig))
              (λ got. check_signed C J now secret header payload got) h2 in
          check_signed-ok C J now secret header payload sig (decoded-ok (C.decode sig) e3) h3
    ]
check_token-ok C J now secret [] h = cc
check_token-ok C J now secret (a ∷ []) h = cc
check_token-ok C J now secret (a ∷ b ∷ []) h = cc
check_token-ok C J now secret (a ∷ b ∷ c ∷ d ∷ parts) h = cc

-- A token that VerifyCapabilityToken accepts with payload `p` consists of exactly three parts, of which
-- the third is the digest of the other two under the secret and the second encodes `p`, and `p` has not
-- expired.
pub verify_capability_token-AreGenuine :
    (C : Codec) (J : Json) (now : ℕ) (secret token : Text) (p : CapPayload)
    → verify_capability_token C J now token secret ≡ ok p
    → (parts : List Text) × (token ≡ join_on dot parts) × AreGenuine C J now secret p parts
unfolding verify_capability_token
verify_capability_token-AreGenuine C J now secret token p accepted = (
  split_on dot token,
  sym (join_on-split_on dot token),
  check_token-ok C J now secret (split_on dot token) accepted,
)
