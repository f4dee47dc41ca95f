-- ===== src/Linear/Marker.antt =====
-- The marker of a delivery (`linear_delivery_marker`, `parse_linear_delivery_marker` of
-- src/researchctl/services/linear_delivery.py).
use Prim.Native.Char.{code}
use Prim.Native.String.{◌++◌ as ◌<>◌}
use research_agent_ops.Base.{
  String, Bool, true, false, ◌&&◌, Option, none, some, List, [], ◌∷◌, ◌==◌, string_eq,
  if◌then◌else◌,
}
use research_agent_ops.Store.Checks.{is_space, is_digest, strip_prefix}

-- `linear_delivery_marker`
unfoldable pub linear_delivery_marker : String → String → String → String → String → String → String
linear_delivery_marker event_id payload_digest agent_id session_id task_id report_id =
    "<!-- researchctl-linear-delivery:v1 event_id="
    <> (event_id
        <> (" payload_digest="
            <> (payload_digest
                <> (" agent_id="
                    <> (agent_id
                        <> (" session_id="
                            <> (session_id
                                <> (" task_id="
                                    <> (task_id <> (" report_id=" <> (report_id <> " -->")))))))))))

-- A token `\S+`: the characters up to white space, and the rest.
pub token : String → String × String
unfolding is_space
token String.[] = ("", "")
token (String.◌∷◌ c s) =
    let (word, rest) = token s in
    if is_space (code c) then ("", String.◌∷◌ c s) else (String.◌∷◌ c word, rest)

abbrev pub is_empty_text : String → Bool
is_empty_text String.[] = true
is_empty_text (String.◌∷◌ c s) = false

-- Literal text and a token behind it, one after the other, and the literal text at the end.
pub parse_tokens : List String → String → Option (List String)
unfolding strip_prefix token
parse_tokens [] s = if s == " -->" then some [] else none
parse_tokens (literal ∷ literals) s = elim (strip_prefix literal s) [
  | none ↦ none
  | some rest ↦ elim (parse_tokens literals (token rest).1) [
    | none ↦ none
    | some words ↦ if is_empty_text (token rest).0 then none else some ((token rest).0 ∷ words)
  ]
]

abbrev marker_literals : List String
marker_literals =
    "<!-- researchctl-linear-delivery:v1 event_id=" ∷ " payload_digest=" ∷ " agent_id="
    ∷ " session_id=" ∷ " task_id=" ∷ " report_id=" ∷ []

-- the payload digest is the second group
abbrev second_is_digest : List String → Bool
second_is_digest (event_id ∷ digest ∷ words) = is_digest digest
second_is_digest _ = false

-- `parse_linear_delivery_marker`, as the list of its groups; `none` where it raises ValueError
unfoldable pub parse_linear_delivery_marker : String → Option (List String)
unfolding parse_tokens is_digest
parse_linear_delivery_marker marker = elim (parse_tokens marker_literals marker) [
  | none ↦ none
  | some words ↦ if second_is_digest words then some words else none
]

unfoldable pub same_words : List String → List String → Bool
same_words [] [] = true
same_words (v ∷ vs) (w ∷ ws) = v == w && same_words vs ws
same_words _ _ = false

-- Whether a marker parses into the groups expected of it.
abbrev pub parses_into : Option (List String) → List String → Bool
parses_into none words = false
parses_into (some found) words = same_words found words
