-- ===== src/Impact/Dependencies.antt =====
-- Declared dependencies, and what a provider has observed of them (`DependencySet`,
-- `DependencyChangeObservation`, `DependencyChangeReceipt` of src/researchctl/domain/models.py).
use Prim.Native.String.{compare}
use text.Mathlib.Text.{is_le}
use research_agent_ops.Base.{
  ℕ, ◌-◌, String, Bool, true, false, ◌&&◌, ◌||◌, not, Option, none, some, List, [], ◌∷◌, ◌==◌,
  nat_eq, string_eq, option_eq, if◌then◌else◌, any, all, length, Bytes, codes, bytes_eq, ends_with,
  starts_with, take, sort_by,
}
use research_agent_ops.Errors.{Result, ok, err, value_error}
use research_agent_ops.Impact.Paths.{recursive}

-- The order of texts.
abbrev pub text_before : String → String → Bool
text_before a b = is_le (compare a b)

-- `x in xs`
abbrev pub member : String → List String → Bool
member x xs = any (λ y. y == x) xs

abbrev pub same_texts : List String → List String → Bool
same_texts [] [] = true
same_texts (x ∷ xs) (y ∷ ys) = x == y && same_texts xs ys
same_texts _ _ = false

-- `len(xs) != len(set(xs))`
abbrev pub repeats : List String → Bool
repeats [] = false
repeats (x ∷ xs) = member x xs || repeats xs

-- `values == tuple(sorted(values)) and len(values) == len(set(values))`
unfoldable pub is_canonical : List String → Bool
unfolding sort_by
is_canonical values = same_texts values (sort_by text_before values) && not (repeats values)

pub record DependencySet : Type 0 where
  pub paths : List String
  pub resources : List String
  pub environments : List String

-- "*", "?", "[" and "]"
abbrev is_pattern_character : ℕ → Bool
is_pattern_character c = c == 42 || c == 63 || c == 91 || c == 93

-- An exact path, or a trailing "/**" with no other pattern in the path.
unfoldable pub is_supported : Bytes → Bool
unfolding ends_with take
is_supported path =
    not (any is_pattern_character path)
    || ends_with path recursive
      && not (any (λ c. c == 42) (take (length path - length recursive) path))
      && not (any (λ c. c == 63 || c == 91 || c == 93) path)

-- ".research" and what is under it
unfoldable pub is_control_path : Bytes → Bool
unfolding bytes_eq starts_with
is_control_path path = bytes_eq path (codes ".research") || starts_with path (codes ".research/")

unfoldable pub require_canonical_dependencies : DependencySet → Result DependencySet
unfolding is_canonical is_supported is_control_path
require_canonical_dependencies d =
    if is_canonical d.paths
      && is_canonical d.resources
      && is_canonical d.environments
      && all (λ p. is_supported (codes p) && not (is_control_path (codes p))) d.paths
    then ok d
    else err value_error

pub data DependencyKind : Type 0 where
  resource environment : DependencyKind

pub data ObservationState : Type 0 where
  changed unchanged unknown : ObservationState

abbrev pub kind_eq : DependencyKind → DependencyKind → Bool
kind_eq resource resource = true
kind_eq environment environment = true
kind_eq _ _ = false

abbrev pub state_eq : ObservationState → ObservationState → Bool
state_eq changed changed = true
state_eq unchanged unchanged = true
state_eq unknown unknown = true
state_eq _ _ = false

pub record ObservedIdentity : Type 0 where
  pub version : Option String
  pub digest : Option String

pub record Observation : Type 0 where
  pub kind : DependencyKind
  pub dependency : String
  pub state : ObservationState
  pub basis_identity : Option ObservedIdentity
  pub target_identity : Option ObservedIdentity
  pub evidence_digest : Option String
  pub reason : Option String

abbrev is_given : {A : Type 0} → Option A → Bool
is_given none = false
is_given (some a) = true

-- `require_version_or_digest`
unfoldable pub require_version_or_digest : ObservedIdentity → Result ObservedIdentity
require_version_or_digest i =
    if is_given i.version || is_given i.digest then ok i else err value_error

abbrev same_identities : Option ObservedIdentity → Option ObservedIdentity → Bool
same_identities (some a) (some b) = a.version == b.version && a.digest == b.digest
same_identities none none = true
same_identities _ _ = false

-- `require_state_evidence`
unfoldable pub require_state_evidence : Observation → Result Observation
require_state_evidence o =
    if state_eq o.state unknown
    then (if is_given o.reason then ok o else err value_error)
    else if is_given o.reason
    then err value_error
    else if not
        (is_given o.basis_identity && is_given o.target_identity && is_given o.evidence_digest)
    then err value_error
    else (let matching = same_identities o.basis_identity o.target_identity in
        if (if state_eq o.state unchanged then matching else not matching)
        then ok o
        else err value_error)

-- The fields of a DependencyChangeReceipt that the evaluators read.
pub record ChangeReceipt : Type 0 where
  pub observations : List Observation
  pub receipt_digest : String
