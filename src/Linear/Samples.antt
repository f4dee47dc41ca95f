-- ===== src/Linear/Samples.antt =====
-- The transport envelope at concrete inputs: instances of the theorems with hypotheses.
use research_agent_ops.Base.{◌≡◌, refl, [], ◌∷◌, ◌++◌, Bytes}
use research_agent_ops.Errors.{ok}
use research_agent_ops.Linear.Envelope.{
  add_linear_transport_envelope, strip_linear_transport_envelope, strip-add,
}

-- "ok\n", and a marker "<!>"
abbrev payload : Bytes
payload = b'o' ∷ b'k' ∷ 10 ∷ []

abbrev marker : Bytes
marker = b'<' ∷ b'!' ∷ b'>' ∷ []

abbrev body : Bytes
body = payload ++ (marker ++ 10 ∷ [])

added : add_linear_transport_envelope payload marker ≡ ok body
unfolding add_linear_transport_envelope
added = refl

stripped : strip_linear_transport_envelope body marker ≡ ok payload
unfolding strip_linear_transport_envelope
stripped = refl

strip-add_example : strip_linear_transport_envelope body marker ≡ ok payload
strip-add_example = strip-add payload marker added
