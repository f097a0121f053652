-- ===== src/Web/Bell.antt =====
-- apps/web/src/components/NotificationBell.tsx, over the calls of apps/web/src/lib/api.ts that it makes.
-- The timer of the polling calls `load`; a click outside only closes the list. Rendering is left out.
pub mod Laws
use intelli_store.Prelude.{
  ℕ, String, ◌<>◌, Bool, true, false, not, Option, none, some, List, [], ◌∷◌, if◌then◌else◌,
}
use intelli_store.Http.{Call, Reply, get, post}
use intelli_store.Web.Api.{Outcome, Stored, auth_header, resolved, unwrap}
use intelli_store.Notification.{NotificationList, NotificationRecord}
use intelli_store.Notification.Routes.{NotificationPayload, marked, page, updated}

pub record Bell : Type 0 where
  pub is_open : Bool
  pub notifications : List NotificationRecord
  pub unread : ℕ

-- `session` is what is stored of the session, and `send` is `fetch` of the gateway.
module _ {W : Type 0} (session : Stored) (send : Call → W → Reply NotificationPayload × W) where
  abbrev get_json : List String → W → Outcome NotificationPayload × W
  get_json path w =
      let (r, w') =
        send (record { method = get; path = path; authorization = auth_header session }) w in
      (unwrap r, w')

  abbrev post_json : List String → W → Outcome NotificationPayload × W
  post_json path w =
      let (r, w') =
        send (record { method = post; path = path; authorization = auth_header session }) w in
      (unwrap r, w')

  abbrev get_notifications : W → Outcome NotificationPayload × W
  get_notifications = get_json ("api" ∷ "notifications" ∷ [])

  abbrev mark_notification_read : String → W → Outcome NotificationPayload × W
  mark_notification_read id = post_json ("api" ∷ "notifications" ∷ id ∷ "read" ∷ [])

  abbrev mark_all_notifications_read : W → Outcome NotificationPayload × W
  mark_all_notifications_read = post_json ("api" ∷ "notifications" ∷ "read-all" ∷ [])

  -- The `try` of `load`: what throws leaves the bell as it is. The notification service gives no
  -- other payload here than a page.
  abbrev loaded : Outcome NotificationPayload → Bell → Bell
  loaded (resolved (page l)) b = record b {
    notifications = l.notifications;
    unread = l.unread_count;
  }
  loaded _ b = b

  unfoldable pub load : Bell → W → Bell × W
  load b w = let (r, w') = get_notifications w in (loaded r b, w')

  unfoldable pub handle_open : Bell → W → Bell × W
  handle_open b w =
      let b' = record b { is_open = not b.is_open } in if b.is_open then (b', w) else load b' w

  -- `await` of a call, and of `load` after it, unless the call throws.
  abbrev then_load : Outcome NotificationPayload × W → Bell → Bell × W
  then_load (resolved x, w) b = load b w
  then_load (_, w) b = (b, w)

  unfoldable pub handle_mark_all : Bell → W → Bell × W
  handle_mark_all b w = then_load (mark_all_notifications_read w) b

  unfoldable pub handle_click_notification : NotificationRecord → Bell → W → Bell × W
  handle_click_notification n b w =
      if n.is_read then (b, w) else then_load (mark_notification_read n.id w) b
