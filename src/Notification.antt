-- ===== src/Notification.antt =====
-- services/notification-service/src/repositories/notification.repository.ts, .../services/
-- notification.service.ts and the handlers of .../routes/notification.route.ts.
pub mod Laws
pub mod Routes
pub mod Consumer
use intelli_store.Prelude.{
  ℕ, ◌+◌, String, ◌<>◌, Bool, true, false, ◌&&◌, not, Option, none, some, List, [], ◌∷◌, ◌++◌, ◌==◌,
  filter, length, take, update_where, ltb, eqb, if◌then◌else◌,
}
use intelli_store.Prelude.Sorting.{Postgres}
use intelli_store.Effects.{
  Exec, app_error, not_found, unauthorized, pure, throw, unless, or_throw, ◌>>=◌, ◌>>◌,
}
use intelli_store.SharedTypes.{ChunkUploadedBatchEvent, FileAccessedEvent}

pub record NotificationRecord : Type 0 where
  pub id : String
  pub owner_id : String
  pub kind : String
  pub message : String
  pub file_id : Option String
  pub is_read : Bool
  pub created_at : ℕ

-- The table, the number of ids that the database has given, and its clock.
pub record Inbox : Type 0 where
  pub rows : List NotificationRecord
  pub ids : ℕ
  pub clock : ℕ

pub record NotificationList : Type 0 where
  pub notifications : List NotificationRecord
  pub unread_count : ℕ

pub record NotificationService : Type 1 where
  pub postgres : Postgres
  pub gen_random_uuid : ℕ → String
  -- A number in a template literal.
  pub show : ℕ → String
  pub list_limit : ℕ

abbrev pub owned : String → NotificationRecord → Bool
owned owner_id n = n.owner_id == owner_id

abbrev pub is_unread : String → NotificationRecord → Bool
is_unread owner_id n = owned owner_id n && not n.is_read

abbrev pub is_the : String → String → NotificationRecord → Bool
is_the owner_id id n = n.id == id && n.owner_id == owner_id

abbrev pub read : NotificationRecord → NotificationRecord
read n = record n { is_read = true }

abbrev pub unread_count : String → Inbox → ℕ
unread_count owner_id i = length (filter (is_unread owner_id) i.rows)

-- UPDATE gives the number of the rows that its WHERE selects.
pub mark_read : String → String → Exec Inbox Bool
mark_read owner_id id i =
    pure (ltb 0 (length (filter (is_the owner_id id) i.rows)))
      (record i { rows = update_where (is_the owner_id id) read i.rows })

pub mark_all_read : String → Exec Inbox ℕ
mark_all_read owner_id i =
    pure (unread_count owner_id i)
      (record i { rows = update_where (is_unread owner_id) read i.rows })

module _ (S : NotificationService) where
  open S use {postgres, gen_random_uuid, show, list_limit}

  pub create : String → String → String → Option String → Exec Inbox NotificationRecord
  create owner_id kind message file_id i =
      let row : NotificationRecord = record {
        id = gen_random_uuid i.ids;
        owner_id = owner_id;
        kind = kind;
        message = message;
        file_id = file_id;
        is_read = false;
        created_at = i.clock;
      } in
      pure row (record i { rows = i.rows ++ row ∷ []; ids = i.ids + 1 })

  abbrev pub list_by_owner : String → ℕ → Inbox → List NotificationRecord
  list_by_owner owner_id limit i =
      take limit (postgres.order_by_desc (λ n. n.created_at) (filter (owned owner_id) i.rows))

  abbrev pub upload_message : ChunkUploadedBatchEvent → String
  upload_message event =
      if ltb 1 event.version_number
      then (((("New version (v" <> show event.version_number) <> ") of \"") <> event.file_name)
          <> "\" uploaded and is being replicated.")
      else (("\"" <> event.file_name)
          <> "\" uploaded successfully and is being replicated across storage nodes.")

  pub handle_chunk_uploaded : ChunkUploadedBatchEvent → Exec Inbox NotificationRecord
  handle_chunk_uploaded event =
      create event.owner_id "file.uploaded" (upload_message event) (some event.file_id)

  pub handle_file_accessed : FileAccessedEvent → Exec Inbox NotificationRecord
  handle_file_accessed event =
      create event.owner_id "file.accessed" (("\"" <> event.file_name) <> "\" was downloaded.")
        (some event.file_id)

  pub list : String → Exec Inbox NotificationList
  list owner_id i =
      pure
        (record {
          notifications = list_by_owner owner_id list_limit i;
          unread_count = unread_count owner_id i;
        })
        i

-- The handlers take the user that `requireAuth` found, if any.
abbrev pub owner_of : Option String → Exec Inbox String
owner_of user = or_throw user (app_error (unauthorized "Unauthorized"))

pub get_notifications : NotificationService → Option String → Exec Inbox NotificationList
get_notifications S user = do owner_id ← owner_of user; list S owner_id

pub post_read_all : Option String → Exec Inbox ℕ
post_read_all user = do owner_id ← owner_of user; mark_all_read owner_id

pub post_read : Option String → String → Exec Inbox String
post_read user id = do
  owner_id ← owner_of user
  found ← mark_read owner_id id
  unless (not found) (app_error (not_found "Notification not found")) (pure id)
