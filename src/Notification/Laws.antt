-- ===== src/Notification/Laws.antt =====
-- What a user's inbox shows, and whose notifications a request changes.
use mathlib.Core.List.Permᴰ
use intelli_store.Prelude.{
  ℕ, zero, suc, ◌≤◌, String, ◌≡◌, refl, inl, inr, ◌⊎◌, Bool, true, false, some, List, [], ◌∷◌,
  arith, ◌==◌, eq_iff, All, All-filter_self, All-map, All-take, filter, length, length-take, take,
  update_where, ltb, ltb→lt, Bool-cases,
}
use intelli_store.Prelude.Sorting.{All-perm, Sorted}
use intelli_store.Effects.{ok, err, app_error, not_found}
use intelli_store.Notification.{
  Inbox, NotificationRecord, NotificationList, NotificationService, get_notifications, is_the,
  is_unread, list, mark_all_read, mark_read, owned, post_read, post_read_all, read, unread_count,
}

Sorted-take :
    {A : Type 0} (R : A → A → Type 0) (n : ℕ) (xs : List A) → Sorted R xs → Sorted R (take n xs)
Sorted-take R zero xs s = tt
Sorted-take R (suc n) [] s = tt
Sorted-take R (suc n) (x ∷ xs) s = (All-take (R x) n xs s.0, Sorted-take R n xs s.1)

none_left :
    (owner_id : String) (rows : List NotificationRecord)
    → length (filter (is_unread owner_id) (update_where (is_unread owner_id) read rows)) ≡ 0
none_left owner_id [] = refl
none_left owner_id (n ∷ rows) = elim (Bool-cases (is_unread owner_id n)) [
  | inl e ↦ rw e (ground (arith, none_left owner_id rows))
  | inr e ↦ rw e (rw e (none_left owner_id rows))
]

-- An UPDATE of one user's rows leaves another user's.
kept_for :
    (owner_id other : String) (p : NotificationRecord → Bool) (rows : List NotificationRecord)
    → ((n : NotificationRecord) → p n ≡ true → n.owner_id ≡ owner_id)
    → (owner_id == other) ≡ false
    → filter (owned other) (update_where p read rows) ≡ filter (owned other) rows
kept_for owner_id other p [] mine h = refl
kept_for owner_id other p (n ∷ rows) mine h = elim (Bool-cases (p n)) [
  | inl e ↦
      let o : (n.owner_id == other) ≡ false = rw (mine n e) h in
      rw e (rw o (kept_for owner_id other p rows mine h))
  | inr e ↦ rw e (rw (kept_for owner_id other p rows mine h) refl)
]

all_read :
    (owner_id id : String) (rows : List NotificationRecord)
    → All
        (λ n. n.is_read ≡ true)
        (filter (is_the owner_id id) (update_where (is_the owner_id id) read rows))
all_read owner_id id [] = tt
all_read owner_id id (n ∷ rows) = elim (Bool-cases (is_the owner_id id n)) [
  | inl e ↦ rw e (rw e (refl, all_read owner_id id rows))
  | inr e ↦ rw e (rw e (all_read owner_id id rows))
]

unchanged :
    (p : NotificationRecord → Bool) (rows : List NotificationRecord)
    → ltb 0 (length (filter p rows)) ≡ false
    → update_where p read rows ≡ rows
unchanged p [] h = refl
unchanged p (n ∷ rows) h = elim (Bool-cases (p n)) [
  | inl e ↦ absurd (ground (arith, h, e))
  | inr e ↦ rw e (rw (unchanged p rows (ground (arith, h, e))) refl)
]

-- `read-all` gives the number of unread notifications that the user had; none is left, and what any
-- other user sees is as before.
pub post_read_all-clears :
    (owner_id : String) (i : Inbox)
    → let (r, i') = post_read_all (some owner_id) i in
      (r ≡ ok (unread_count owner_id i))
      × (unread_count owner_id i' ≡ 0)
      × ((other : String)
          → (owner_id == other) ≡ false
          → filter (owned other) i'.rows ≡ filter (owned other) i.rows)
unfolding post_read_all mark_all_read
post_read_all-clears owner_id i = (
  refl,
  none_left owner_id i.rows,
  λ other h.
      kept_for owner_id other (is_unread owner_id) i.rows
        (λ n e. ground (arith, e, eq_iff n.owner_id owner_id)) h,
)

-- Marking one notification: either the user has it, and it is read afterwards, or the answer is a
-- 404 and the inbox is unchanged; what any other user sees is as before.
pub post_read-cases :
    (owner_id id : String) (i : Inbox)
    → let (r, i') = post_read (some owner_id) id i in
      (((r ≡ ok id)
          × (1 ≤ length (filter (is_the owner_id id) i.rows))
          × All (λ n. n.is_read ≡ true) (filter (is_the owner_id id) i'.rows))
        ⊎ ((r ≡ err (app_error (not_found "Notification not found"))) × (i'.rows ≡ i.rows)))
      × ((other : String)
          → (owner_id == other) ≡ false
          → filter (owned other) i'.rows ≡ filter (owned other) i.rows)
unfolding post_read mark_read
post_read-cases owner_id id i =
    elim (Bool-cases (ltb 0 (length (filter (is_the owner_id id) i.rows)))) [
      | inl e ↦ rw e (inl (refl, ltb→lt 0 _ e, all_read owner_id id i.rows), others)
      | inr e ↦ rw e (inr (refl, unchanged (is_the owner_id id) i.rows e), others)
    ]
  where
    others :
        (other : String)
        → (owner_id == other) ≡ false
        → filter (owned other) (update_where (is_the owner_id id) read i.rows)
          ≡ filter (owned other) i.rows
    others other h =
        kept_for owner_id other (is_the owner_id id) i.rows
          (λ n e. ground (arith, e, eq_iff n.owner_id owner_id)) h

-- The page has at most as many notifications as the limit, all of them the user's, the newest
-- first, and the count is of all that are unread, on the page or not; the inbox is unchanged.
pub get_notifications-IsPage :
    (S : NotificationService) (owner_id : String) (i : Inbox)
    → (page : NotificationList) × (get_notifications S (some owner_id) i ≡ (ok page, i))
      × (length page.notifications ≤ S.list_limit)
      × All (λ n. n.owner_id ≡ owner_id) page.notifications
      × Sorted (λ a b. b.created_at ≤ a.created_at) page.notifications
      × (page.unread_count ≡ unread_count owner_id i)
unfolding get_notifications list
get_notifications-IsPage S owner_id i =
    let mine = filter (owned owner_id) i.rows in
    (
      _,
      refl,
      omega (arith, length-take S.list_limit (S.postgres.order_by_desc (λ n. n.created_at) mine)),
      All-take (λ n. n.owner_id ≡ owner_id) S.list_limit _
          (All-perm (λ n. n.owner_id ≡ owner_id) (Permᴰ.symm (S.postgres.order_by_desc-perm _ mine))
            (All-map (λ n. n.owner_id ≡ owner_id) mine
              (λ n e. ground (arith, e, eq_iff n.owner_id owner_id)) (All-filter_self _ i.rows))),
      Sorted-take (λ a b. b.created_at ≤ a.created_at) S.list_limit _
          (S.postgres.order_by_desc-Sorted _ mine),
      refl,
    )
