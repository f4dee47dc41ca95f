-- ===== src/Impact/Paths.antt =====
-- The match of a changed path with a declared one (`path_dependency_matches` of
-- src/researchctl/services/dependency_impact.py). Characters are their numbers.
use research_agent_ops.Base.{
  ℕ, ◌-◌, ◌≡◌, refl, Bool, true, false, ◌||◌, [], ◌∷◌, ◌++◌, if◌then◌else◌, length, subst, ◌↔◌, ◌⊎◌,
  inl, inr, Bool-cases, arith, Bytes, bytes_eq, ends_with, starts_with, take, take_ahead,
  ends_with-append, ahead_of, bytes_eq-path, bytes_eq_self,
}

-- "/"
abbrev pub slash : ℕ
slash = 47

-- "/**"
abbrev pub recursive : Bytes
recursive = slash ∷ 42 ∷ 42 ∷ []

abbrev pub under_prefix : Bytes → Bytes → Bool
under_prefix prefix changed_path =
    bytes_eq changed_path prefix || starts_with changed_path (prefix ++ slash ∷ [])

unfoldable pub path_dependency_matches : Bytes → Bytes → Bool
unfolding ends_with take bytes_eq starts_with
path_dependency_matches dependency changed_path =
    if ends_with dependency recursive
    then under_prefix (take (length dependency - length recursive) dependency) changed_path
    else bytes_eq changed_path dependency

-- A declared path covers a changed one: it names a directory with all that is under it, and the
-- changed path is this directory or is under it, or it names the changed path.
abbrev pub Covers : Bytes → Bytes → Type 0
Covers dependency changed_path =
    ((prefix : Bytes) × (dependency ≡ prefix ++ recursive)
      × ((changed_path ≡ prefix) ⊎ ((rest : Bytes) × (changed_path ≡ prefix ++ slash ∷ rest))))
    ⊎ ((ends_with dependency recursive ≡ false) × (changed_path ≡ dependency))

-- `dependency[:-3]`
cut_ahead :
    {dependency : Bytes} (prefix : Bytes)
    → dependency ≡ prefix ++ recursive
    → take (length dependency - length recursive) dependency ≡ prefix
cut_ahead prefix parts = rw parts (take_ahead prefix recursive)

starts_with-rest :
    (path prefix : Bytes) (c : ℕ)
    → starts_with path (prefix ++ c ∷ []) ≡ true
    → (rest : Bytes) × (path ≡ prefix ++ c ∷ rest)
unfolding starts_with
starts_with-rest [] [] c h = cc
starts_with-rest [] (p ∷ ps) c h = cc
starts_with-rest (x ∷ xs) [] c h = (xs, ground arith)
starts_with-rest (x ∷ xs) (p ∷ ps) c h =
    let same : x ≡ p = ground (arith, h) in
    let (rest, e) = starts_with-rest xs ps c (ground arith) in (rest, λ i. same i ∷ e i)

starts_with-append :
    (prefix rest : Bytes) (c : ℕ) → starts_with (prefix ++ c ∷ rest) (prefix ++ c ∷ []) ≡ true
unfolding starts_with
starts_with-append [] rest c = ground arith
starts_with-append (p ∷ ps) rest c = ground (arith, starts_with-append ps rest c)

under_prefix_iff :
    (prefix path : Bytes)
    → (under_prefix prefix path ≡ true)
      ↔ ((path ≡ prefix) ⊎ ((rest : Bytes) × (path ≡ prefix ++ slash ∷ rest)))
under_prefix_iff prefix path = (
  λ h. elim (Bool-cases (bytes_eq path prefix)) [
    | inl e ↦ inl (bytes_eq-path path prefix e)
    | inr e ↦ inr (starts_with-rest path prefix slash (ground arith))
  ],
  λ c. elim c [
    | inl same ↦ rw (same, bytes_eq_self prefix) refl
    | inr (rest, parts) ↦ rw parts (ground (arith, starts_with-append prefix rest slash))
  ],
)

-- `path_dependency_matches` holds of a declared path and a changed one just where the declared path is
-- some prefix with "/**", and the changed path is that prefix or continues it behind a "/", or where the
-- declared path does not end with "/**" and is the changed path.
pub path_dependency_matches_iff :
    (dependency changed_path : Bytes)
    → (path_dependency_matches dependency changed_path ≡ true) ↔ Covers dependency changed_path
unfolding path_dependency_matches
path_dependency_matches_iff dependency changed_path = (
  λ h. elim (Bool-cases (ends_with dependency recursive)) [
    | inl e ↦
        let (prefix, parts) = ahead_of dependency recursive e in
        let cut = take (length dependency - length recursive) dependency in
        let taken : cut ≡ prefix = cut_ahead prefix parts in
        let matched =
          subst
            (λ b.
              (if b then under_prefix cut changed_path else bytes_eq changed_path dependency)
              ≡ true)
            e h in
        inl (
          prefix,
          parts,
          (under_prefix_iff prefix changed_path).0
              (subst (λ p. under_prefix p changed_path ≡ true) taken matched),
        )
    | inr e ↦ inr (e, bytes_eq-path changed_path dependency (ground arith))
  ],
  λ c. elim c [
    | inl (prefix, parts, covered) ↦
        rw (parts, ends_with-append prefix recursive, take_ahead prefix recursive)
          ((under_prefix_iff prefix changed_path).1 covered)
    | inr (e, same) ↦ rw (e, same, bytes_eq_self dependency) refl
  ],
)
