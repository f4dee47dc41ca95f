-- ===== src/Store/Checks.antt =====
-- The checks that a method makes of its arguments (`_require_text`, `_require_digest`,
-- `_encode_time`, `_json_object` of src/researchctl/runtime/store.py).
use Prim.Native.Char.{code}
use Prim.Native.String.{count}
use research_agent_ops.Base.{
  ℕ, String, Bool, true, false, ◌&&◌, ◌||◌, Option, none, some, ◌==◌, nat_eq, leb, if◌then◌else◌,
}
use research_agent_ops.Errors.{
  Result, ok, err, invalid_runtime_record, invalid_runtime_timestamp, invalid_runtime_payload,
}
use research_agent_ops.Json.{Json, encode}
use research_agent_ops.Store.Schema.{Datetime, JsonText}

-- `str.isspace` of one character, by its code point
unfoldable pub is_space : ℕ → Bool
is_space c =
    leb 9 c && leb c 13
    || leb 28 c && leb c 32
    || c == 133
    || c == 160
    || c == 5760
    || leb 8192 c && leb c 8202
    || c == 8232
    || c == 8233
    || c == 8239
    || c == 8287
    || c == 12288

-- `not value.strip()`
unfoldable pub is_blank : String → Bool
unfolding is_space
is_blank String.[] = true
is_blank (String.◌∷◌ c s) = is_space (code c) && is_blank s

-- What is left of a text behind a prefix.
unfoldable pub strip_prefix : String → String → Option String
strip_prefix String.[] s = some s
strip_prefix (String.◌∷◌ p ps) String.[] = none
strip_prefix (String.◌∷◌ p ps) (String.◌∷◌ c s) =
    let rest = strip_prefix ps s in if code p == code c then rest else none

is_hex : String → Bool
is_hex String.[] = true
is_hex (String.◌∷◌ c s) =
    (leb 48 (code c) && leb (code c) 57 || leb 97 (code c) && leb (code c) 102) && is_hex s

-- `_DIGEST_PATTERN.fullmatch`: "sha256:" and 64 lowercase hexadecimal digits
unfoldable pub is_digest : String → Bool
unfolding strip_prefix is_hex
is_digest s = elim (strip_prefix "sha256:" s) [ none ↦ false | some h ↦ count h == 64 && is_hex h ]

-- `_OBJECT_ID_PATTERN.fullmatch`: 40 or 64 lowercase hexadecimal digits
unfoldable pub is_object_id : String → Bool
unfolding is_hex
is_object_id s = (count s == 40 || count s == 64) && is_hex s

unfoldable pub require_text : String → Result (Unit {0})
unfolding is_blank
require_text s = if is_blank s then err invalid_runtime_record else ok tt

unfoldable pub require_digest : String → Result (Unit {0})
unfolding is_digest
require_digest s = if is_digest s then ok tt else err invalid_runtime_record

unfoldable pub encode_time : Datetime → Result ℕ
encode_time t = if t.aware then ok t.instant else err invalid_runtime_timestamp

unfoldable pub json_object : Json → Result JsonText
unfolding encode
json_object v = elim (encode v) [
  | none ↦ err invalid_runtime_payload
  | some s ↦ ok (record { encoded = s; value = v })
]
