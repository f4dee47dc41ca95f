-- ===== src/Json.antt =====
-- JSON values and their canonical text, as `json.dumps` writes it with `sort_keys=True`,
-- `separators=(",", ":")`, `ensure_ascii=False` and `allow_nan=False`.
use Prim.Native.Char.{Char, code}
use Prim.Native.String.{compare, ◌++◌ as ◌<>◌}
use text.Mathlib.Text.{is_le}
use research_agent_ops.Base.{
  ℕ, zero, suc, ◌+◌, ◌/◌, ◌%◌, String, ◌≡◌, refl, Bool, true, false, Option, none, some, List, [],
  ◌∷◌, ◌==◌, nat_eq, ltb, if◌then◌else◌,
}

-- Values of `dict[str, Any]` payloads. `negative n` is -(n + 1), and `non_finite` an infinity or
-- NaN. Finite floats are not modelled.
mutual
  pub data Json : Type 0 where
    null : Json
    bool : Bool → Json
    int : ℕ → Json
    negative : ℕ → Json
    non_finite : Json
    string : String → Json
    array : Items → Json
    object : Fields → Json

  pub data Items : Type 0 where
    nil : Items
    cons : Json → Items → Items

  pub data Fields : Type 0 where
    end : Fields
    field : String → Json → Fields → Fields

-- An object that is written out.
abbrev pub fields : List (String × Json) → Fields
fields [] = end
fields ((key, v) ∷ rest) = field key v (fields rest)

hex_digit : ℕ → String
hex_digit n =
    if n == 0
    then "0"
    else if n == 1
    then "1"
    else if n == 2
    then "2"
    else if n == 3
    then "3"
    else if n == 4
    then "4"
    else if n == 5
    then "5"
    else if n == 6
    then "6"
    else if n == 7
    then "7"
    else if n == 8
    then "8"
    else if n == 9
    then "9"
    else if n == 10
    then "a"
    else if n == 11
    then "b"
    else if n == 12
    then "c"
    else if n == 13
    then "d"
    else if n == 14
    then "e"
    else "f"

-- The digits of a number in front of those already written; a number has at most as many
-- digits as one more than itself.
digits_from : ℕ → ℕ → String → String
unfolding hex_digit
digits_from zero n acc = acc
digits_from (suc fuel) n acc =
    let acc' = hex_digit (n % 10) <> acc in
    let rest = digits_from fuel (n / 10) acc' in if ltb n 10 then acc' else rest

decimal : ℕ → String
unfolding digits_from
decimal n = digits_from (n + 1) n ""

-- one character inside a quoted text
escaped : Char → String
unfolding hex_digit
escaped c =
    let n = code c in
    if n == 34
    then "\\\""
    else if n == 92
    then "\\\\"
    else if n == 10
    then "\\n"
    else if n == 13
    then "\\r"
    else if n == 9
    then "\\t"
    else if n == 12
    then "\\f"
    else if n == 8
    then "\\b"
    else if ltb n 32
    then "\\u00" <> (hex_digit (n / 16) <> hex_digit (n % 16))
    else String.◌∷◌ c ""

escape : String → String
unfolding escaped
escape String.[] = ""
escape (String.◌∷◌ c s) = escaped c <> escape s

quoted : String → String
unfolding escape
quoted s = "\"" <> (escape s <> "\"")

-- `sort_keys=True`
insert_sorted : String × String → List (String × String) → List (String × String)
insert_sorted e [] = e ∷ []
insert_sorted e (x ∷ xs) = if is_le (compare e.0 x.0) then e ∷ x ∷ xs else x ∷ insert_sorted e xs

comma_separated : List (String × String) → String
comma_separated [] = ""
comma_separated (e ∷ []) = quoted e.0 <> (":" <> e.1)
comma_separated (e ∷ x ∷ xs) = quoted e.0 <> (":" <> (e.1 <> ("," <> comma_separated (x ∷ xs))))

abbrev option_bind {ℓ κ} : {A : Type ℓ} {B : Type κ} → Option A → (A → Option B) → Option B
option_bind none f = none
option_bind (some a) f = f a

unfoldable mutual
  unfolding decimal quoted comma_separated insert_sorted

  -- The canonical text of a value; `none` where `json.dumps` raises ValueError.
  pub encode : Json → Option String
  encode null = some "null"
  encode (bool true) = some "true"
  encode (bool false) = some "false"
  encode (int n) = some (decimal n)
  encode (negative n) = some ("-" <> decimal (n + 1))
  encode non_finite = none
  encode (string s) = some (quoted s)
  encode (array xs) = option_bind (encode_items xs) (λ s. some ("[" <> (s <> "]")))
  encode (object fs) =
      option_bind (encode_fields fs) (λ es. some ("{" <> (comma_separated es <> "}")))

  encode_items : Items → Option String
  encode_items nil = some ""
  encode_items (cons x nil) = encode x
  encode_items (cons x (cons y xs)) =
      let rest = encode_items (cons y xs) in
      option_bind (encode x) (λ s. option_bind rest (λ t. some (s <> ("," <> t))))

  -- the keys in order, each with the text of its value
  encode_fields : Fields → Option (List (String × String))
  encode_fields end = some []
  encode_fields (field k v fs) =
      let rest = encode_fields fs in
      option_bind (encode v) (λ s. option_bind rest (λ es. some (insert_sorted (k, s) es)))

-- ## Equality of values
-- The value with True as 1 and False as 0, which Python's `==` takes them for.
unfoldable mutual
  pub with_numbers : Json → Json
  with_numbers null = null
  with_numbers (bool true) = int 1
  with_numbers (bool false) = int 0
  with_numbers (int n) = int n
  with_numbers (negative n) = negative n
  with_numbers non_finite = non_finite
  with_numbers (string s) = string s
  with_numbers (array xs) = array (with_numbers_items xs)
  with_numbers (object fs) = object (with_numbers_fields fs)

  with_numbers_items : Items → Items
  with_numbers_items nil = nil
  with_numbers_items (cons x xs) = cons (with_numbers x) (with_numbers_items xs)

  with_numbers_fields : Fields → Fields
  with_numbers_fields end = end
  with_numbers_fields (field k v fs) = field k (with_numbers v) (with_numbers_fields fs)

-- A text that two values have in common just where Python's `==` holds of them: it does not tell True
-- from 1, and it has the keys of a dict in order.
unfoldable pub comparison_text : Json → Option String
unfolding encode with_numbers
comparison_text v = encode (with_numbers v)

-- Keys come out in order, and texts are quoted.
encode_sample :
    encode (
      object (
        field "b"
          (array (cons (int 120) (cons null nil)))
          (field "a" (string "x\"\n") (field "c" (negative 4) end))))
    ≡ some "{\"a\":\"x\\\"\\n\",\"b\":[120,null],\"c\":-5}"
unfolding encode
encode_sample = refl

encode_non_finite : encode (object (field "a" (array (cons non_finite nil)) end)) ≡ none
unfolding encode
encode_non_finite = refl

equal_numbers :
    comparison_text (object (field "a" (bool true) (field "b" (int 0) end)))
    ≡ comparison_text (object (field "b" (bool false) (field "a" (int 1) end)))
unfolding comparison_text
equal_numbers = refl
