-- ===== src/Web/Bell/Laws.antt =====
-- The bell, the gateway and the notification service together.
use text.Mathlib.TextPositions.{eq_refl}
use intelli_store.Prelude.{
  ℕ, ◌≤◌, String, ◌<>◌, ◌≡◌, refl, ◌∙◌, false, Option, none, some, List, [], ◌∷◌, ◌==◌, All, filter,
  length, if◌then◌else◌,
}
use intelli_store.Effects.{ok}
use intelli_store.SharedTypes.{success}
use intelli_store.Http.{Authenticated, Call, Method, Reply, get, json, post, require_auth}
use intelli_store.Notification.{Inbox, NotificationList, owned, post_read_all, unread_count}
use intelli_store.Notification.Laws.{get_notifications-IsPage, post_read_all-clears}
use intelli_store.Notification.Routes.{
  NotificationApp, NotificationPayload, handle_notifications, updated,
}
use intelli_store.Gateway.{Upstreams, mount_proxies}
use intelli_store.Web.Api.{StoredSession, session}
use intelli_store.Web.Bell.{Bell, handle_mark_all, load}

module _ (A : NotificationApp) (u : Upstreams) where
  -- Of the services behind the gateway, the notification service is up.
  abbrev notification_upstream : String → Call → Inbox → Option (Reply NotificationPayload) × Inbox
  notification_upstream target c i =
      let (r, i') = handle_notifications A c i in
      if target == u.notification then (some r, i') else (none, i)

  -- A request of the browser that the rate limit lets through.
  unfoldable pub send : Call → Inbox → Reply NotificationPayload × Inbox
  send = mount_proxies u notification_upstream false

  send-notifications :
      (c : Call) (rest : List String) (i : Inbox)
      → c.path ≡ "api" ∷ "notifications" ∷ rest
      → send c i ≡ handle_notifications A (record c { path = "notifications" ∷ rest }) i
  unfolding send mount_proxies
  send-notifications c rest i e = rw (e, eq_refl u.notification) refl

  module _ (s : StoredSession) (user : Authenticated)
      (valid : require_auth A.headers A.jwt A.jwt_secret (some ("Bearer " <> s.access_token))
        ≡ ok user) where
    abbrev call : Method → List String → Call
    call m rest = record {
      method = m;
      path = "api" ∷ "notifications" ∷ rest;
      authorization = some ("Bearer " <> s.access_token);
    }

    load-page :
        (b : Bell) (i : Inbox)
        → (l : NotificationList) × (load (session s) send b i
            ≡ (record b { notifications = l.notifications; unread = l.unread_count }, i))
          × (length l.notifications ≤ A.service.list_limit)
          × All (λ n. n.owner_id ≡ user.id) l.notifications
          × (l.unread_count ≡ unread_count user.id i)
    unfolding handle_notifications load
    load-page b i =
        let (l, e, at_most, mine, _, count) = get_notifications-IsPage A.service user.id i in
        (l, rw (send-notifications (call get []) [] i refl, valid, e) refl, at_most, mine, count)

    -- The service's answer to `read-all`.
    sent-read_all :
        (i : Inbox)
        → let i' = (post_read_all (some user.id) i).1 in
          (n : ℕ) × (send (call post ("read-all" ∷ [])) i ≡ (json 200 (success (updated n)), i'))
    unfolding handle_notifications
    sent-read_all i =
        let (e, _, _) = post_read_all-clears user.id i in
        (
          unread_count user.id i,
          rw (send-notifications (call post ("read-all" ∷ [])) ("read-all" ∷ []) i refl, valid, e)
              refl,
        )

    -- When the notification service is up, the rate limit lets the requests through, and the stored
    -- access token verifies as a user's: after a click on "Mark all read" the bell counts no unread
    -- notification, nor does the user's inbox, and what it lists is the user's; it is open or
    -- closed as before, and no other user's notifications have changed.
    pub handle_mark_all-clears :
        (b : Bell) (i : Inbox)
        → let (b', i') = handle_mark_all (session s) send b i in
          (b'.unread ≡ 0)
          × (unread_count user.id i' ≡ 0)
          × (length b'.notifications ≤ A.service.list_limit)
          × All (λ n. n.owner_id ≡ user.id) b'.notifications
          × (b'.is_open ≡ b.is_open)
          × ((other : String)
              → (user.id == other) ≡ false
              → filter (owned other) i'.rows ≡ filter (owned other) i.rows)
    unfolding handle_mark_all
    handle_mark_all-clears b i =
        let i' = (post_read_all (some user.id) i).1 in
        let (n, sent) = sent-read_all i in
        let (_, cleared, others) = post_read_all-clears user.id i in
        let (l, shown, at_most, mine, count) = load-page b i' in
        rw sent (rw shown (count ∙ cleared, cleared, at_most, mine, refl, others))
