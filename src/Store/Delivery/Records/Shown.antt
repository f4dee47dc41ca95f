-- ===== src/Store/Delivery/Records/Shown.antt =====
-- What `list_linear_deliveries` of src/researchctl/runtime/store.py returns.
use Prim.Native.String.{compare}
use text.Mathlib.Text.{is_le}
use mathlib.Core.List.{Perm}
use mathlib.Core.List.Perm
use research_agent_ops.Base.{
  ltb, not, sym, ◌∙◌, ◌==◌, Bool-cases, ℕ, ◌≤◌, ◌<◌, ◌⊎◌, inl, inr, All, All-map, string_eq, nat_eq,
  eq_iff, Bool, select, select-holds, select-fails, select-perm, sort_by-All, IsOrdered,
  IsSorted-IsOrdered, String, ◌≡◌, refl, ap, true, false, Option, none, some, List, [], ◌∷◌, ◌++◌,
  map, leb, length, arith, if◌then◌else◌, sort_by, sort_by-perm, sort_by-IsSorted,
  is_earlier_by_total, first, past, first-past, length-first,
}
use research_agent_ops.Errors.{ok}
use research_agent_ops.Json.{Fields}
use research_agent_ops.Store.Schema.{Store, Datetime, OutboxRow, OutboxState}
use research_agent_ops.Store.Checks.{require_text, encode_time}
use research_agent_ops.Store.Listings.{is_given, is_limit, state_filter, outbox_state_eq}
use research_agent_ops.Store.Delivery.Records.{
  DeliveryRecord, newest_before, is_asked, asked_rows, is_delivery_topic, delivery_record,
  list_linear_deliveries,
}

newest_before_total : (a b : OutboxRow) → newest_before a b ≡ false → newest_before b a ≡ true
newest_before_total a b h =
    is_earlier_by_total (λ (r : OutboxRow). r.created_at) (λ r. r.outbox_id) b a h

-- ## What is asked for
-- The text of a state, as an argument has it.
abbrev pub outbox_state_text : OutboxState → String
outbox_state_text OutboxState.pending = "pending"
outbox_state_text OutboxState.delivered = "delivered"
outbox_state_text OutboxState.dead_letter = "dead_letter"

abbrev pub optional_state_text : Option OutboxState → Option String
optional_state_text none = none
optional_state_text (some state) = some (outbox_state_text state)

abbrev pub IsTopic : Option String → Type 0
IsTopic topic =
    (topic ≡ none)
    ⊎ ((topic ≡ some "linear.accepted-result.v1") ⊎ (topic ≡ some "linear.session-reply.v1"))

-- The store is open, the project ID is not blank, the topic is none or one of the two, the limit is
-- from 1 to 1000, and the time has an offset.
pub record IsAnswered (project_id : String) (topic : Option String) (limit : ℕ)
    (observed_at : Datetime) (s : Store) : Type 0 where
  pub opened : s.closed ≡ false
  pub named : require_text project_id ≡ ok tt
  pub topical : IsTopic topic
  pub at_least : 1 ≤ limit
  pub at_most : limit ≤ 1000
  pub aware : observed_at.aware ≡ true

-- The row is of the project, and of the topic and in the state, where these are given.
pub record IsAskedFor (project_id : String) (topic : Option String) (state : Option OutboxState)
    (d : OutboxRow) : Type 0 where
  pub same_project : d.project_id ≡ project_id
  pub same_topic : (topic ≡ none) ⊎ (topic ≡ some d.topic)
  pub same_state : (state ≡ none) ⊎ (state ≡ some d.state)

-- The first row is newer, or as old with an ID that is not before the other's.
abbrev pub IsNewer : OutboxRow → OutboxRow → Type 0
IsNewer a b =
    (b.created_at < a.created_at)
    ⊎ ((b.created_at ≡ a.created_at) × (is_le (compare b.outbox_id a.outbox_id) ≡ true))

-- Records that answer a query of stored rows with a limit: the rows of the records, some others, and
-- the unasked are the stored rows, each as often as it is stored; the shown and the others are those
-- asked for, the newest first; and the records are as many as the limit, or all if these are fewer.
pub record ListsNewest (records : List DeliveryRecord) (IsAsked : OutboxRow → Type 0)
    (stored : List OutboxRow) (limit : ℕ) : Type 0 where
  pub others : List OutboxRow
  pub unasked : List OutboxRow
  pub same_rows :
      Perm ((map (λ (r : DeliveryRecord). r.outbox) records ++ others) ++ unasked) stored
  pub asked_for : All IsAsked (map (λ (r : DeliveryRecord). r.outbox) records ++ others)
  pub not_asked_for : All (λ d. ¬ IsAsked d) unasked
  pub newest_first : IsOrdered IsNewer (map (λ (r : DeliveryRecord). r.outbox) records ++ others)
  pub as_many : length records ≡ (
      let n = length (map (λ (r : DeliveryRecord). r.outbox) records ++ others) in
      if leb n limit then n else limit)

newest_before-IsNewer : (a b : OutboxRow) → newest_before a b ≡ true → IsNewer a b
newest_before-IsNewer a b h = elim (Bool-cases (ltb b.created_at a.created_at)) [
  | inl e ↦ inl (ground arith)
  | inr e ↦ inr (ground arith, ground arith)
]

state_eq-path : (a b : OutboxState) → outbox_state_eq a b ≡ true → a ≡ b
state_eq-path OutboxState.pending OutboxState.pending h = refl
state_eq-path OutboxState.delivered OutboxState.delivered h = refl
state_eq-path OutboxState.dead_letter OutboxState.dead_letter h = refl
state_eq-path OutboxState.pending OutboxState.delivered h = cc
state_eq-path OutboxState.pending OutboxState.dead_letter h = cc
state_eq-path OutboxState.delivered OutboxState.pending h = cc
state_eq-path OutboxState.delivered OutboxState.dead_letter h = cc
state_eq-path OutboxState.dead_letter OutboxState.pending h = cc
state_eq-path OutboxState.dead_letter OutboxState.delivered h = cc

state_eq_self : (a : OutboxState) → outbox_state_eq a a ≡ true
state_eq_self OutboxState.pending = refl
state_eq_self OutboxState.delivered = refl
state_eq_self OutboxState.dead_letter = refl

-- An argument that may be missing, as the query reads it.
module _ {A : Type 0} (test : A → A → Bool) (same : (a b : A) → test a b ≡ true → a ≡ b)
    (self : (a : A) → test a a ≡ true) where
  given-same : (o : Option A) (a : A) → is_given (test a) o ≡ true → (o ≡ none) ⊎ (o ≡ some a)
  given-same none a h = inl refl
  given-same (some b) a h = inr (ap some (sym (same a b h)))

  same-given : (o : Option A) (a : A) → (o ≡ none) ⊎ (o ≡ some a) → is_given (test a) o ≡ true
  same-given o a (inl e) = rw e refl
  same-given o a (inr e) = rw e (self a)

text_self : (x : String) → (x == x) ≡ true
text_self x = (eq_iff x x).1 refl

module _ (project_id : String) (topic : Option String) (state : Option OutboxState)
    (d : OutboxRow) where
  is_asked-IsAskedFor :
      is_asked project_id topic state none d ≡ true → IsAskedFor project_id topic state d
  is_asked-IsAskedFor h = record {
    same_project = (eq_iff d.project_id project_id).0 (ground arith);
    same_topic =
        given-same (λ (x y : String). x == y) (λ x y. (eq_iff x y).0) text_self topic d.topic
          (ground arith);
    same_state =
        given-same outbox_state_eq state_eq-path state_eq_self state d.state (ground arith);
  }

  IsAskedFor-is_asked :
      IsAskedFor project_id topic state d → is_asked project_id topic state none d ≡ true
  IsAskedFor-is_asked h =
      let project : (d.project_id == project_id) ≡ true =
        (eq_iff d.project_id project_id).1 h.same_project in
      let of_topic : is_given (λ x. d.topic == x) topic ≡ true =
        same-given (λ (x y : String). x == y) (λ x y. (eq_iff x y).0) text_self topic d.topic
          h.same_topic in
      let of_state : is_given (outbox_state_eq d.state) state ≡ true =
        same-given outbox_state_eq state_eq-path state_eq_self state d.state h.same_state in
      ground arith

module _ (marker_fields : String → Fields) (observed : ℕ) (s : Store) where
  outboxes :
      (rows : List OutboxRow)
      → map (λ (r : DeliveryRecord). r.outbox) (map (delivery_record marker_fields observed s) rows)
        ≡ rows
  unfolding delivery_record
  outboxes [] = refl
  outboxes (d ∷ rows) = ap (λ (ds : List OutboxRow). d ∷ ds) (outboxes rows)

  length-records :
      (rows : List OutboxRow)
      → length (map (delivery_record marker_fields observed s) rows) ≡ length rows
  length-records [] = refl
  length-records (d ∷ rows) = ground (arith, length-records rows)

  records-ListsNewest :
      (IsAsked : OutboxRow → Type 0) (asks : OutboxRow → Bool) (stored : List OutboxRow) (limit : ℕ)
      → ((d : OutboxRow) → asks d ≡ true → IsAsked d)
      → ((d : OutboxRow) → IsAsked d → asks d ≡ true)
      → ListsNewest
          (map
            (delivery_record marker_fields observed s)
            (first limit (sort_by newest_before (select asks stored))))
          IsAsked
          stored
          limit
  records-ListsNewest IsAsked asks stored limit sound complete =
      let rows = select asks stored in
      let sorted = sort_by newest_before rows in
      let unasked = select (λ d. not (asks d)) stored in
      let same = outboxes (first limit sorted) in
      record {
        others = past limit sorted;
        unasked = unasked;
        same_rows =
            rw (same, first-past limit sorted)
              (Perm.trans (Perm.append_right unasked (sort_by-perm newest_before rows))
                (select-perm asks stored));
        asked_for =
            rw (same, first-past limit sorted)
              (sort_by-All newest_before IsAsked rows
                (All-map sound rows (select-holds asks stored)));
        not_asked_for = All-map (λ d e h. cc (complete d h)) unasked (select-fails asks stored);
        newest_first =
            rw (same, first-past limit sorted)
              (IsSorted-IsOrdered IsNewer newest_before newest_before-IsNewer sorted
                (sort_by-IsSorted newest_before newest_before_total rows));
        as_many =
            rw (same, first-past limit sorted)
              (length-records (first limit sorted) ∙ length-first limit sorted);
      }

topic_given : (topic : Option String) → IsTopic topic → is_given is_delivery_topic topic ≡ true
topic_given topic (inl e) = rw e refl
topic_given topic (inr (inl e)) = rw e refl
topic_given topic (inr (inr e)) = rw e refl

state_named : (wanted : Option OutboxState) → state_filter (optional_state_text wanted) ≡ ok wanted
state_named none = refl
state_named (some OutboxState.pending) = refl
state_named (some OutboxState.delivered) = refl
state_named (some OutboxState.dead_letter) = refl

module _ (marker_fields : String → Fields) where
  -- On an open store, with a project ID that is not blank, a topic and a state that are missing or known,
  -- a limit from 1 to 1000 and a time with an offset, list_linear_deliveries returns, and leaves the store
  -- as it is: the records are of the newest of the rows in both outboxes that are of the project, and
  -- of the topic and in the state where these are given, in order, as many as the limit, or all if
  -- these are fewer.
  pub lists_deliveries :
      (project_id : String) (topic : Option String) (state : Option OutboxState) (limit : ℕ)
      (observed_at : Datetime) (s : Store)
      → IsAnswered project_id topic limit observed_at s
      → (records : List DeliveryRecord) × (list_linear_deliveries marker_fields project_id topic
            (optional_state_text state)
            limit
            observed_at
            s
          ≡ (ok records, s))
        × ListsNewest records
            (IsAskedFor project_id topic state)
            (s.projection_outbox ++ s.reply_outbox)
            limit
  unfolding list_linear_deliveries encode_time
  lists_deliveries project_id topic state limit observed_at s h =
      let limited : is_limit limit ≡ true = ground (arith, h.at_least, h.at_most) in
      (
        map (delivery_record marker_fields observed_at.instant s)
            (first limit (sort_by newest_before (asked_rows project_id topic state none s))),
        rw (h.named, topic_given topic h.topical, state_named state, limited, h.aware, h.opened)
            refl,
        records-ListsNewest marker_fields observed_at.instant s (IsAskedFor project_id topic state)
            (is_asked project_id topic state none) (s.projection_outbox ++ s.reply_outbox) limit
            (is_asked-IsAskedFor project_id topic state)
            (IsAskedFor-is_asked project_id topic state),
      )
