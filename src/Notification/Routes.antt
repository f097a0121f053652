-- ===== src/Notification/Routes.antt =====
-- services/notification-service/src/routes/notification.route.ts with its guard, as app.ts mounts it: at
-- the root, so that a path that it does not know is answered 401 before it is answered 404.
use intelli_store.Prelude.{ℕ, String, some, List, [], ◌∷◌, ◌==◌, if◌then◌else◌}
use intelli_store.Effects.{Exec, Result, ok, err, pure, throw, ◌>>=◌}
use intelli_store.SharedTypes.{success}
use intelli_store.Auth.Tokens.{Headers, JsonWebToken}
use intelli_store.Http.{
  Authenticated, Call, Method, Reply, async_handler, get, json, post, require_auth, route_not_found,
}
use intelli_store.Notification.{
  Inbox, NotificationList, NotificationService, get_notifications, post_read, post_read_all,
}

pub data NotificationPayload : Type 0 where
  page : NotificationList → NotificationPayload
  updated : ℕ → NotificationPayload
  -- `{ id, isRead: true }`
  marked : String → NotificationPayload

pub record NotificationApp : Type 1 where
  pub service : NotificationService
  pub jwt : JsonWebToken
  pub headers : Headers
  pub jwt_secret : String

module _ (A : NotificationApp) where
  abbrev sends :
      {R : Type 0}
      → (R → NotificationPayload)
      → Exec Inbox R
      → Exec Inbox (Reply NotificationPayload)
  sends f m = do r ← m; pure (json 200 (success (f r)))

  abbrev unknown_path : Exec Inbox (Reply NotificationPayload)
  unknown_path = pure route_not_found

  abbrev pub notification_router :
      String → Method → List String → Exec Inbox (Reply NotificationPayload)
  notification_router user get (s ∷ []) =
      if s == "notifications"
      then sends page (get_notifications A.service (some user))
      else unknown_path
  notification_router user post (s ∷ t ∷ []) =
      if s == "notifications"
      then if t == "read-all" then sends updated (post_read_all (some user)) else unknown_path
      else unknown_path
  notification_router user post (s ∷ id ∷ t ∷ []) =
      if s == "notifications"
      then if t == "read" then sends marked (post_read (some user) id) else unknown_path
      else unknown_path
  notification_router user _ _ = unknown_path

  abbrev signed_in : Result Authenticated → Call → Exec Inbox (Reply NotificationPayload)
  signed_in (ok user) c = notification_router user.id c.method c.path
  signed_in (err e) c = throw e

  unfoldable pub handle_notifications : Call → Inbox → Reply NotificationPayload × Inbox
  handle_notifications c =
      async_handler (signed_in (require_auth A.headers A.jwt A.jwt_secret c.authorization) c)
