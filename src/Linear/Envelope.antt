-- ===== src/Linear/Envelope.antt =====
-- The transport envelope of a comment (`add_linear_transport_envelope`,
-- `strip_linear_transport_envelope` of src/researchctl/services/linear_delivery.py). Bytes and
-- characters are their numbers.
use research_agent_ops.Base.{
  Bytes, bytes_eq, ends_with, contains, take, take_ahead, ends_with-append, ahead_of, ℕ, ◌-◌, ◌≡◌,
  refl, Bool, true, false, ◌||◌, not, [], ◌∷◌, ◌++◌, nat_eq, ltb, if◌then◌else◌, length, sym, ap,
  ◌∙◌, all, arith,
}
use research_agent_ops.Errors.{Result, ok, err, value_error}

abbrev pub newline : ℕ
newline = 10

-- `str.encode("ascii")`; UnicodeEncodeError is a ValueError
unfoldable pub encode_ascii : Bytes → Result Bytes
encode_ascii marker = if all (λ c. ltb c 128) marker then ok marker else err value_error

abbrev is_empty : Bytes → Bool
is_empty [] = true
is_empty (x ∷ xs) = false

abbrev wrap : Bytes → Result Bytes → Result Bytes
wrap payload (err c) = err c
wrap payload (ok encoded) =
    if contains encoded payload then err value_error else ok (payload ++ (encoded ++ newline ∷ []))

unfoldable pub add_linear_transport_envelope : Bytes → Bytes → Result Bytes
unfolding ends_with contains encode_ascii
add_linear_transport_envelope payload marker =
    if is_empty payload || not (ends_with payload (newline ∷ []))
    then err value_error
    else wrap payload (encode_ascii marker)

abbrev unwrap : Bytes → Bytes → Result Bytes
unwrap body suffix =
    let payload = take (length body - length suffix) body in
    if not (ends_with body suffix)
    then err value_error
    else if not (ends_with payload (newline ∷ []))
    then err value_error
    else ok payload

abbrev unwrap_encoded : Bytes → Result Bytes → Result Bytes
unwrap_encoded body (err c) = err c
unwrap_encoded body (ok encoded) = unwrap body (encoded ++ newline ∷ [])

unfoldable pub strip_linear_transport_envelope : Bytes → Bytes → Result Bytes
unfolding ends_with take encode_ascii
strip_linear_transport_envelope body marker = unwrap_encoded body (encode_ascii marker)

unwrap-append :
    (payload suffix : Bytes)
    → ends_with payload (newline ∷ []) ≡ true
    → unwrap (payload ++ suffix) suffix ≡ ok payload
unwrap-append payload suffix h =
    rw (ends_with-append payload suffix, take_ahead payload suffix, h) refl

envelope_parts :
    (payload marker : Bytes) {body : Bytes}
    → add_linear_transport_envelope payload marker ≡ ok body
    → (ends_with payload (newline ∷ []) ≡ true)
      × (encode_ascii marker ≡ ok marker)
      × (payload ++ (marker ++ newline ∷ []) ≡ body)
unfolding add_linear_transport_envelope encode_ascii
envelope_parts payload marker h = ground arith

-- What add_linear_transport_envelope returns for a payload and a marker,
-- strip_linear_transport_envelope takes apart into the same payload.
pub strip-add :
    (payload marker : Bytes) {body : Bytes}
    → add_linear_transport_envelope payload marker ≡ ok body
    → strip_linear_transport_envelope body marker ≡ ok payload
unfolding strip_linear_transport_envelope
strip-add payload marker {body} h =
    let (ends, ascii, made) = envelope_parts payload marker h in
    rw (← made, ascii) (unwrap-append payload (marker ++ newline ∷ []) ends)

-- A text that ends with a newline is not empty.
ends_with-nonempty : (xs : Bytes) → ends_with xs (newline ∷ []) ≡ true → is_empty xs ≡ false
unfolding ends_with bytes_eq
ends_with-nonempty [] h = cc
ends_with-nonempty (x ∷ xs) h = refl

stripped_parts :
    (body marker : Bytes) {payload : Bytes}
    → strip_linear_transport_envelope body marker ≡ ok payload
    → (ends_with body (marker ++ newline ∷ []) ≡ true)
      × (ends_with payload (newline ∷ []) ≡ true)
      × (encode_ascii marker ≡ ok marker)
      × (take (length body - length (marker ++ newline ∷ [])) body ≡ payload)
unfolding strip_linear_transport_envelope encode_ascii
stripped_parts body marker h = ground arith

-- A body that strip_linear_transport_envelope takes apart is the payload with the marker behind it.
pub stripped_body :
    (body marker : Bytes) {payload : Bytes}
    → strip_linear_transport_envelope body marker ≡ ok payload
    → body ≡ payload ++ (marker ++ newline ∷ [])
stripped_body body marker {payload} h =
    let suffix = marker ++ newline ∷ [] in
    let (ended, ends, ascii, taken) = stripped_parts body marker h in
    let (xs, parts) = ahead_of body suffix ended in
    let same : xs ≡ payload = sym (take_ahead xs suffix) ∙ rw (← parts) taken in rw (← same) parts

-- What strip_linear_transport_envelope returns for a body and a marker, if the marker does not stand
-- in it, add_linear_transport_envelope puts together into the same body.
add-strip :
    (body marker : Bytes) {payload : Bytes}
    → strip_linear_transport_envelope body marker ≡ ok payload
    → contains marker payload ≡ false
    → add_linear_transport_envelope payload marker ≡ ok body
unfolding add_linear_transport_envelope
add-strip body marker {payload} h absent =
    let (ended, ends, ascii, taken) = stripped_parts body marker h in
    rw (ends_with-nonempty payload ends, ends, ascii, absent)
      (ap ok (sym (stripped_body body marker h)))
