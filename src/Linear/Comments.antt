-- ===== src/Linear/Comments.antt =====
-- What a port to Linear promises of the comments that it reads and writes
-- (src/researchctl/services/linear_delivery.py: "only create_comment mutates state", and "A retry
-- observes the marker first").
use research_agent_ops.Base.{
  codes, ℕ, ◌+◌, ◌≤◌, String, ◌≡◌, Bool, true, ◌&&◌, Option, none, some, List, [], ◌∷◌, ◌++◌, ◌⊎◌,
  inl, inr, ◌==◌, string_eq, count, Bytes, ends_with, if◌then◌else◌, arith,
}
use research_agent_ops.Errors.{ok}
use research_agent_ops.Linear.Remote.{
  LinearTarget, LinearReplyTarget, LinearCommentObservation, answered, DeliveryPort,
}

-- The comment, unless it is another author's.
abbrev pub own_comment : String → Option LinearCommentObservation → Option LinearCommentObservation
own_comment app none = none
own_comment app (some c) = if c.author_app_id == app then some c else none

pub own_same :
    (app : String) (c own : LinearCommentObservation)
    → own_comment app (some c) ≡ some own
    → some c ≡ some own
own_same app c own h = ground (arith, h)

-- In a thread, or in any.
abbrev in_thread : Option String → LinearCommentObservation → Bool
in_thread none c = true
in_thread (some thread) c = c.thread_id == thread

-- A comment of an author on an issue that ends with a marker.
abbrev pub carries : String → String → String → Option String → LinearCommentObservation → Bool
carries app issue marker thread c =
    c.author_app_id == app
    && c.issue_id == issue
    && in_thread thread c
    && ends_with c.body (codes marker ++ 10 ∷ [])

module _ {World : Type 0} (port : DeliveryPort World)
    (comments : World → List LinearCommentObservation) where
  -- How many comments carry a marker.
  abbrev pub copies : String → String → String → Option String → World → ℕ
  copies app issue marker thread w = count (carries app issue marker thread) (comments w)

  -- Only `create_comment` changes the comments, by one at most, whether it answers or not; and
  -- `observe_comment` answers a comment of the author that carries the marker, if there is one.
  pub record IsLinear : Type 0 where
    pub preflight_reads :
        (t : LinearTarget) (w : World) → comments (port.preflight_target t w).1 ≡ comments w
    pub reply_preflight_reads :
        (t : LinearReplyTarget) (w : World)
        → comments (port.preflight_reply_target t w).1 ≡ comments w
    pub observe_reads :
        (issue marker app : String) (thread : Option String) (w : World)
        → comments (port.observe_comment issue marker app thread w).1 ≡ comments w
    pub observe_finds :
        (issue marker app : String) (thread : Option String) (w : World)
        (found : Option LinearCommentObservation)
        → (port.observe_comment issue marker app thread w).0 ≡ ok (answered found)
        → own_comment app found ≡ none
        → copies app issue marker thread w ≡ 0
    pub create_adds :
        (issue : String) (body : Bytes) (thread : Option String) (w : World)
        → (comments (port.create_comment issue body thread w).1 ≡ comments w)
          ⊎ ((c : LinearCommentObservation) × (comments (port.create_comment issue body thread w).1
                ≡ c ∷ comments w))

  count-cons :
      (p : LinearCommentObservation → Bool) (c : LinearCommentObservation)
      (cs : List LinearCommentObservation)
      → count p (c ∷ cs) ≤ count p cs + 1
  count-cons p c cs = ground arith

  module _ (is_linear : IsLinear) where
    -- Where no comment carries the marker, at most one does behind a call of `create_comment`.
    pub create-copies :
        (app issue marker : String) (thread : Option String) (issue' : String) (body : Bytes)
        (thread' : Option String) (w : World)
        → copies app issue marker thread w ≡ 0
        → copies app issue marker thread (port.create_comment issue' body thread' w).1 ≤ 1
    create-copies app issue marker thread issue' body thread' w absent =
        let p = carries app issue marker thread in
        elim (is_linear.create_adds issue' body thread' w) [
          | inl same ↦ rw same (omega (arith, absent))
          | inr (c, more) ↦ rw more (omega (arith, absent, count-cons p c (comments w)))
        ]
