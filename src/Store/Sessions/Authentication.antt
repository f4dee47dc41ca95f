-- ===== src/Store/Sessions/Authentication.antt =====
-- Who passes `authenticate_session` of src/researchctl/runtime/store.py.
use Prim.Native.String.{◌++◌ as ◌<>◌}
use research_agent_ops.Base.{
  String, ◌≡◌, refl, ◌∙◌, ap, subst, ◌↔◌, false, some, ◌==◌, string_eq, find, arith, eq_iff,
  Bool-cases, Option-cases, inl, inr,
}
use research_agent_ops.Errors.{ok}
use research_agent_ops.Store.Schema.{Store, RuntimeSession}
use research_agent_ops.Store.Transaction.{read_lock}
use research_agent_ops.Store.Sessions.{has_session, authenticate_session, dummy_token_digest}

module _ (sha256 : String → String) (id token : String) (s : Store) (open_ : s.closed ≡ false) where
  passes :
      (row : RuntimeSession)
      → find (has_session id) s.sessions ≡ some row
      → (token == "") ≡ false
      → row.actor_token_digest ≡ some ("sha256:" <> sha256 token)
      → authenticate_session sha256 id token s ≡ (ok row, s)
  unfolding authenticate_session read_lock dummy_token_digest
  passes row found named matches =
      rw
        (
          open_,
          found,
          matches,
          named,
          (eq_iff ("sha256:" <> sha256 token) ("sha256:" <> sha256 token)).1 refl,
        )
        refl

  admits :
      (row : RuntimeSession) {t : Store}
      → authenticate_session sha256 id token s ≡ (ok row, t)
      → (find (has_session id) s.sessions ≡ some row)
        × ((token == "") ≡ false)
        × (row.actor_token_digest ≡ some ("sha256:" <> sha256 token))
  unfolding authenticate_session read_lock dummy_token_digest
  admits row h = elim (Option-cases (find (has_session id) s.sessions)) [
    | inl e ↦ absurd (ground arith)
    | inr (r, e) ↦ elim (Bool-cases (token == "")) [
      | inl blank ↦ absurd (ground arith)
      | inr named ↦ elim (Option-cases r.actor_token_digest) [
        | inl without ↦ absurd (ground arith)
        | inr (d, with_) ↦ elim (Bool-cases (d == ("sha256:" <> sha256 token))) [
          | inl match ↦
              let same : r ≡ row = ground arith in
              let digest : d ≡ "sha256:" <> sha256 token =
                (eq_iff d ("sha256:" <> sha256 token)).0 match in
              (
                e ∙ ap some same,
                named,
                subst
                    (λ (x : RuntimeSession).
                      x.actor_token_digest ≡ some ("sha256:" <> sha256 token))
                    same (with_ ∙ ap some digest),
              )
          | inr differs ↦ absurd (ground arith)
        ]
      ]
    ]
  ]

  -- On an open store, authenticate_session returns a Session, and leaves the store unchanged, exactly
  -- if that Session is stored under the ID, the token is not empty, and the Session's stored digest
  -- is the digest of the token.
  pub authenticates_iff :
      (row : RuntimeSession)
      → (authenticate_session sha256 id token s ≡ (ok row, s)) ↔ (
          (find (has_session id) s.sessions ≡ some row)
          × ((token == "") ≡ false)
          × (row.actor_token_digest ≡ some ("sha256:" <> sha256 token)))
  authenticates_iff row = ((λ h. admits row h), (λ h. passes row h.0 h.1 h.2))
