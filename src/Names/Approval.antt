-- ===== src/Names/Approval.antt =====
-- Replies to approval requests (internal/codexappgateway/approvalfilter/filter.go). Decoding a frame and
-- encoding a reply are encoding/json's, so they are parameters: a frame is decoded to the text of its id
-- and its method, and a reply is encoded from the id and the text of its result.
use cli_server.Common.{
  ◌≡◌, ◌↔◌, refl, sym, ◌∙◌, inl, inr, String, Bool, true, false, not, ◌||◌, Option, none, some,
  List, [], ◌∷◌, if◌then◌else◌, ◌==◌, string_eq, arith, Bool-cases,
}

abbrev pub method_item_cmd_approval : String
method_item_cmd_approval = "item/commandExecution/requestApproval"

abbrev pub method_item_file_approval : String
method_item_file_approval = "item/fileChange/requestApproval"

abbrev pub method_item_perms_approval : String
method_item_perms_approval = "item/permissions/requestApproval"

abbrev pub method_item_user_input : String
method_item_user_input = "item/tool/requestUserInput"

abbrev pub method_mcp_elicitation : String
method_mcp_elicitation = "mcpServer/elicitation/request"

unfoldable pub methods : List String
methods =
    method_item_cmd_approval ∷ method_item_file_approval ∷ method_item_perms_approval
    ∷ method_item_user_input ∷ method_mcp_elicitation ∷ []

unfoldable pub is_approval : String → Bool
is_approval m =
    m == method_item_cmd_approval
    || m == method_item_file_approval
    || m == method_item_perms_approval
    || m == method_item_user_input
    || m == method_mcp_elicitation

unfoldable pub reply : String → String
reply m =
    if m == method_item_cmd_approval || m == method_item_file_approval
    then "{\"decision\":\"accept\"}"
    else if m == method_item_perms_approval
    then "{\"permissions\":{}}"
    else if m == method_item_user_input
    then "{\"answers\":{}}"
    else if m == method_mcp_elicitation
    then "{\"action\":\"accept\",\"content\":null,\"_meta\":null}"
    else "{}"

pub record Frame : Type 0 where
  pub id : String
  pub method : String

module _ (decode : String → Option Frame) (encode : String → String → Option String) where
  unfoldable pub reply_to : Option Frame → Option String
  unfolding is_approval reply
  reply_to none = none
  reply_to (some f) =
      if not (is_approval f.method)
      then none
      else if f.id == "" || f.id == "null"
      then none
      else encode f.id (reply f.method)

  unfoldable pub try_reply : String → Option String
  unfolding reply_to
  try_reply frame = reply_to (decode frame)

-- The answer that accepts, for each method.
abbrev pub accepted_answers : List (String × String)
accepted_answers =
    ("item/commandExecution/requestApproval", "{\"decision\":\"accept\"}")
    ∷ ("item/fileChange/requestApproval", "{\"decision\":\"accept\"}")
    ∷ ("item/permissions/requestApproval", "{\"permissions\":{}}")
    ∷ ("item/tool/requestUserInput", "{\"answers\":{}}")
    ∷ ("mcpServer/elicitation/request", "{\"action\":\"accept\",\"content\":null,\"_meta\":null}")
    ∷ []

abbrev pub answer_in : String → List (String × String) → Option String
answer_in m [] = none
answer_in m ((n, a) ∷ rest) = if m == n then some a else answer_in m rest

abbrev pub asked : Bool → String → Option String
asked true a = some a
asked false a = none

-- The table gives the reply of the methods that are approvals, and of no other.
answer_in-reply : (m : String) → answer_in m accepted_answers ≡ asked (is_approval m) (reply m)
unfolding is_approval reply
answer_in-reply m = ground arith

unfoldable pub listed : String → List String → Bool
listed m [] = false
listed m (n ∷ ns) = m == n || listed m ns

-- The two descriptions of an approval method agree.
is_approval_lem : (m : String) → is_approval m ≡ listed m methods
unfolding is_approval listed methods
is_approval_lem m = ground arith

reply_to-some :
    (decode : String → Option Frame) (encode : String → String → Option String) (o : Option Frame)
    (out : String)
    → reply_to decode encode o ≡ some out
    → (f : Frame) × (a : String) × (o ≡ some f)
      × (listed f.method methods ≡ true)
      × (answer_in f.method accepted_answers ≡ some a)
      × ((f.id == "") ≡ false)
      × ((f.id == "null") ≡ false)
      × (encode f.id a ≡ some out)
unfolding reply_to
reply_to-some decode encode none out h = cc
reply_to-some decode encode (some f) out h = elim (Bool-cases (is_approval f.method)) [
  | inl known ↦ elim (Bool-cases (f.id == "" || f.id == "null")) [
    | inl e ↦ absurd (ground (arith, known, e, h))
    | inr e ↦ (
      f,
      reply f.method,
      refl,
      sym (is_approval_lem f.method) ∙ known,
      answer_in-reply f.method ∙ (rw known refl),
      ground (arith, e),
      ground (arith, e),
      ground (arith, known, e, h),
    )
  ]
  | inr other ↦ absurd (ground (arith, other, h))
]

asked-some : (b : Bool) (r a : String) → asked b r ≡ some a → (b ≡ true) × (r ≡ a)
asked-some true r a h = (refl, cc)
asked-some false r a h = cc

some-reply_to :
    (decode : String → Option Frame) (encode : String → String → Option String) (o : Option Frame)
    (out : String) (f : Frame) (a : String)
    → o ≡ some f
    → answer_in f.method accepted_answers ≡ some a
    → (f.id == "") ≡ false
    → (f.id == "null") ≡ false
    → encode f.id a ≡ some out
    → reply_to decode encode o ≡ some out
unfolding reply_to
some-reply_to decode encode o out f a e found no_id null w =
    let (known, same) =
      asked-some (is_approval f.method) (reply f.method) a
        (sym (answer_in-reply f.method) ∙ found) in
    rw (e, known, no_id, null, same) w

-- A frame is replied to exactly when it decodes to one of the listed methods, with an id that is neither
-- missing nor null, and the reply can be encoded; it then carries that id and the answer that the table of
-- accepted answers has for the method.
pub try_reply_iff :
    (decode : String → Option Frame) (encode : String → String → Option String) (frame out : String)
    → (try_reply decode encode frame ≡ some out) ↔ (
        (f : Frame) × (a : String) × (decode frame ≡ some f)
        × (listed f.method methods ≡ true)
        × (answer_in f.method accepted_answers ≡ some a)
        × ((f.id == "") ≡ false)
        × ((f.id == "null") ≡ false)
        × (encode f.id a ≡ some out))
unfolding try_reply
try_reply_iff decode encode frame out = (
  λ h. reply_to-some decode encode (decode frame) out h,
  λ w. some-reply_to decode encode (decode frame) out w.0 w.1 w.2 w.4 w.5 w.6 w.7,
)
