-- ===== src/Store/History.antt =====
-- Any sequence of calls of the methods of Sessions, notifications and replies, failing or not.
use research_agent_ops.Base.{ℕ, String, refl, Option, List, [], ◌∷◌}
use research_agent_ops.Json.{Json}
use research_agent_ops.Exec.{Exec, pure, ◌>>◌}
use research_agent_ops.Exec.Respects.{
  Keep-IsPreorder, IsPreorder, Respects, Respects-bind, Respects-pure,
}
use research_agent_ops.Store.Schema.{Store, SessionState, Datetime}
use research_agent_ops.Store.Leaves.{
  LeavesSessions, LeavesSessions-IsPreorder, LeavesReplies, LeavesReplies-IsPreorder,
}
use research_agent_ops.Store.Sessions.Aside.{
  save_session-LeavesReplies, update_session_state-LeavesReplies,
  rotate_session_token-LeavesReplies,
}
use research_agent_ops.Store.Replies.Published.{
  AllPublished, leaves-AllPublished, replies_stay_published,
}
use research_agent_ops.Store.Sessions.{
  SessionInput, save_session, update_session_state, rotate_session_token,
}
use research_agent_ops.Store.Sessions.Evolution.{
  Advances, Advances-IsPreorder, Advances-same, save_session-Advances,
  update_session_state-Advances, rotate_session_token-Advances,
}
use research_agent_ops.Store.Sessions.Routing.{
  save_session-Moves, update_session_state-Moves, rotate_session_token-Moves,
}
use research_agent_ops.Store.Notifications.{
  NotificationInput, create_notification, ack_notification,
}
use research_agent_ops.Store.Notifications.Tracking.{Tracks}
use research_agent_ops.Store.Notifications.Routing.{Moves, Moves-IsPreorder, RoutesWell}
use research_agent_ops.Store.Notifications.Methods.{
  create_notification-Moves, ack_notification-Moves,
}
use research_agent_ops.Store.Notifications.Aside.{
  create_notification-Respects, ack_notification-Respects,
}
use research_agent_ops.Store.Replies.{ReplyInput, reply_notification}
use research_agent_ops.Store.Replies.Methods.{reply_notification-Moves}
use research_agent_ops.Store.Replies.Aside.{reply_notification-LeavesSessions}

pub data Request : Type 0 where
  save_ : SessionInput → Request
  update_ : String → SessionState → Datetime → Option Json → Request
  rotate_ : String → String → Datetime → Request
  create_ : NotificationInput → Datetime → Request
  ack_ : String → String → Datetime → ℕ → String → Request
  reply_ : ReplyInput → Datetime → Request

module _ (sha256 : String → String) (format_time : ℕ → String) where
  pub serve : Request → Exec Store (Unit {0})
  serve (save_ x) = save_session x >> pure tt
  serve (update_ id state o metadata) = update_session_state id state o metadata >> pure tt
  serve (rotate_ id digest o) = rotate_session_token id digest o >> pure tt
  serve (create_ x o) = create_notification x o >> pure tt
  serve (ack_ id actor o expected operation_id) =
      ack_notification id actor o expected operation_id >> pure tt
  serve (reply_ x o) = reply_notification sha256 format_time x o >> pure tt

  unfoldable pub serve_all : List Request → Store → Store
  unfolding serve
  serve_all [] s = s
  serve_all (q ∷ qs) s = serve_all qs (serve q s).1

  module _ {R : Store → Store → Type 0} (R-IsPreorder : IsPreorder R) where
    serve_all-Respects :
        ((q : Request) → Respects R (serve q))
        → (qs : List Request) (s : Store) → R s (serve_all qs s)
    unfolding serve_all
    serve_all-Respects h [] s = R-IsPreorder.same s
    serve_all-Respects h (q ∷ qs) s =
        R-IsPreorder.then_ s (serve q s).1 (serve_all qs (serve q s).1) ((h q).at s)
          (serve_all-Respects h qs (serve q s).1)

  ruleset serve_moves = (
    Respects-bind, Respects-pure, Moves-IsPreorder, save_session-Moves, update_session_state-Moves,
    rotate_session_token-Moves, create_notification-Moves, ack_notification-Moves,
    reply_notification-Moves,
  )

  serve-Moves : (q : Request) → Respects Moves (serve q)
  unfolding serve
  serve-Moves (save_ x) = search serve_moves
  serve-Moves (update_ id state o metadata) = search serve_moves
  serve-Moves (rotate_ id digest o) = search serve_moves
  serve-Moves (create_ x o) = search serve_moves
  serve-Moves (ack_ id actor o expected operation_id) = search serve_moves
  serve-Moves (reply_ x o) = search serve_moves

  leaves-Advances :
      {A : Type 0} (m : Exec Store A) → Respects LeavesSessions m → Respects Advances m
  leaves-Advances m h = record { at = λ s. Advances-same s (m s).1 (h.at s).same_sessions }

  ruleset serve_advances = (
    Respects-bind, Respects-pure, Advances-IsPreorder, save_session-Advances,
    update_session_state-Advances, rotate_session_token-Advances, leaves-Advances,
    reply_notification-LeavesSessions,
  )

  serve-Advances : (q : Request) → Respects Advances (serve q)
  unfolding serve
  serve-Advances (save_ x) = search serve_advances
  serve-Advances (update_ id state o metadata) = search serve_advances
  serve-Advances (rotate_ id digest o) = search serve_advances
  serve-Advances (create_ x o) = search (
    serve_advances,
    create_notification-Respects LeavesSessions-IsPreorder (λ n s. record { same_sessions = refl }),
  )
  serve-Advances (ack_ id actor o expected operation_id) = search (
    serve_advances,
    ack_notification-Respects LeavesSessions-IsPreorder
        (λ id actor at operation_id s. record { same_sessions = refl }),
  )
  serve-Advances (reply_ x o) = search serve_advances

  -- Whatever calls of the methods of Sessions, notifications and replies follow, returning or
  -- raising, every stored Session stays, with the same project, Task, creation time, host, branch,
  -- worktree and source Session; its time of observation does not go back; and once it is lost its
  -- state, time and token digest stay as they are, and its metadata stay the same for Python's `==`,
  -- which does not tell True from 1.
  pub sessions_advance : (qs : List Request) (s : Store) → Advances s (serve_all qs s)
  sessions_advance = serve_all-Respects Advances-IsPreorder serve-Advances

  -- Under the same calls every stored notification stays, with its content; its revision does not
  -- go down, and is the same only if the whole row is; and a replied row stays as it is.
  pub notifications_follow : (qs : List Request) (s : Store) → Tracks s (serve_all qs s)
  notifications_follow qs s = (serve_all-Respects Moves-IsPreorder serve-Moves qs s).tracks

  -- If notification IDs are unique and each notification belongs to a stored Session of its project
  -- and Task, which has neither stopped nor been lost if the notification is open and routed to it,
  -- then this holds behind any sequence of these calls.
  pub routes_stay_well :
      (qs : List Request) (s : Store) → RoutesWell s → RoutesWell (serve_all qs s)
  routes_stay_well qs s = (serve_all-Respects Moves-IsPreorder serve-Moves qs s).routes

  ruleset serve_leaves = (
    Respects-bind, Respects-pure, LeavesReplies-IsPreorder, save_session-LeavesReplies,
    update_session_state-LeavesReplies, rotate_session_token-LeavesReplies,
  )

  -- A call that leaves the replies.
  leaves-published :
      (q : Request) (s : Store)
      → Respects LeavesReplies (serve q)
      → AllPublished s
      → AllPublished (serve q s).1
  leaves-published q s h =
      leaves-AllPublished s (serve q s).1 ((serve-Moves q).at s).tracks (h.at s)

  serve-published : (q : Request) (s : Store) → AllPublished s → AllPublished (serve q s).1
  unfolding serve
  serve-published (save_ x) s = leaves-published (save_ x) s (search serve_leaves)
  serve-published (update_ id state o metadata) s =
      leaves-published (update_ id state o metadata) s (search serve_leaves)
  serve-published (rotate_ id digest o) s =
      leaves-published (rotate_ id digest o) s (search serve_leaves)
  serve-published (create_ x o) s = leaves-published (create_ x o) s (
      search (
        serve_leaves,
        create_notification-Respects LeavesReplies-IsPreorder
            (λ n s. record { same_replies = refl; same_outbox = refl }),
      ))
  serve-published (ack_ id actor o expected operation_id) s =
      leaves-published (ack_ id actor o expected operation_id) s (
        search (
          serve_leaves,
          ack_notification-Respects LeavesReplies-IsPreorder
              (λ id actor at operation_id s. record { same_replies = refl; same_outbox = refl }),
        ))
  serve-published (reply_ x o) s =
      (Respects-bind (Keep-IsPreorder AllPublished) (reply_notification sha256 format_time x o) _
          (record { at = replies_stay_published sha256 format_time x o })
          λ _. Respects-pure (Keep-IsPreorder AllPublished) tt).at
        s

  -- If each stored reply has its notification closed under its ID and its event in the outbox, then
  -- this holds behind any sequence of these calls.
  pub replies_are_published :
      (qs : List Request) (s : Store) → AllPublished s → AllPublished (serve_all qs s)
  replies_are_published qs s =
      serve_all-Respects (Keep-IsPreorder AllPublished) (λ q. record { at = serve-published q }) qs
        s
