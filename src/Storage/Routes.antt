-- ===== src/Storage/Routes.antt =====
-- services/storage-service/src/routes/upload.route.ts with its guard, as app.ts mounts it. Paths are lists of
-- decoded segments. The health routes, log lines and CORS and security headers are left out.
pub mod Laws
use intelli_store.Prelude.{
  ℕ, zero, suc, String, Bool, true, false, Option, none, some, List, [], ◌∷◌, ◌==◌, if◌then◌else◌,
}
use intelli_store.Effects.{
  Exec, Failure, Result, ok, err, app_error, bad_request, pure, throw, unauthorized, unless, ◌>>=◌,
}
use intelli_store.SharedTypes.{success}
use intelli_store.Auth.Tokens.{Headers, JsonWebToken}
use intelli_store.Http.{
  Authenticated, Method, Reply, error_reply, get, json, post, require_auth, route_not_found,
}
use intelli_store.Storage.Chunking.{Bytes}
use intelli_store.Storage.Interfaces.{RegisterFileResult, VersionDetailResult}
use intelli_store.Storage.Upload.{DedupInfo, UploadService, upload_new_file, upload_new_version}
use intelli_store.Storage.Download.{DownloadResult, DownloadService, download}

pub record UploadedFile : Type 0 where
  pub original_name : String
  pub mime_type : String
  pub buffer : Bytes

-- What multer makes of the body: its own error, as for a file over the limit, or perhaps a file, with
-- the field `fileName`, where there is one.
pub data Multipart : Type 0 where
  multer_error : String → Multipart
  parts : Option UploadedFile → Option String → Multipart

pub record UploadRequest : Type 0 where
  pub method : Method
  pub path : List String
  pub authorization : Option String
  pub body : Multipart

pub data StoragePayload : Type 0 where
  registered : RegisterFileResult × DedupInfo → StoragePayload
  versioned : VersionDetailResult × DedupInfo → StoragePayload

-- A reply in JSON, or the bytes of a file with its name, type and version in the headers.
pub data StorageReply : Type 0 where
  in_json : Reply StoragePayload → StorageReply
  attachment : DownloadResult → StorageReply

pub record StorageApp (W : Type 0) : Type 0 where
  pub upload_service : UploadService W
  pub download_service : DownloadService W
  pub jwt : JsonWebToken
  pub headers : Headers
  pub jwt_secret : String
  -- `Number(…)` where that is an integer from 0 on.
  pub to_integer : String → Option ℕ

-- The error handler of app.ts makes a 400 of a `MulterError`, as it does of this.
abbrev pub file_of : Multipart → Result (UploadedFile × Option String)
file_of (multer_error message) = err (app_error (bad_request message))
file_of (parts none name) =
    err (app_error (bad_request "Missing \"file\" field in multipart form data"))
file_of (parts (some file) name) = ok (file, name)

-- `fileName || originalname`
abbrev file_name_of : UploadedFile → Option String → String
file_name_of file none = file.original_name
file_name_of file (some name) = if name == "" then file.original_name else name

abbrev pub positive : Option ℕ → Option ℕ
positive none = none
positive (some zero) = none
positive (some (suc n)) = some (suc n)

module _ {W : Type 0} (A : StorageApp W) where
  open A use {upload_service, download_service, to_integer}

  abbrev given : {B C : Type 0} → Result B → (B → Exec W C) → Exec W C
  given (ok b) f = f b
  given (err e) f = throw e

  abbrev require_bearer_token : Authenticated → Exec W String
  require_bearer_token user =
      unless (user.bearer_token == "") (app_error (unauthorized "Unauthorized"))
        (pure user.bearer_token)

  abbrev created : {R : Type 0} → (R → StoragePayload) → Exec W R → Exec W StorageReply
  created f m = do r ← m; pure (in_json (json 201 (success (f r))))

  unfoldable pub post_file : Authenticated → Multipart → Exec W StorageReply
  post_file user body = given (file_of body) λ (file, name). do
    token ← require_bearer_token user
    created registered
        (upload_new_file upload_service token (file_name_of file name) file.mime_type file.buffer)

  unfoldable pub post_version : Authenticated → String → Multipart → Exec W StorageReply
  post_version user id body = given (file_of body) λ (file, name). do
    token ← require_bearer_token user
    created versioned (upload_new_version upload_service token id file.mime_type file.buffer)

  unfoldable pub get_download : Authenticated → String → Option ℕ → Exec W StorageReply
  get_download user id version_number = do
    token ← require_bearer_token user
    result ← download download_service token id version_number
    pure (attachment result)

  abbrev asked_version : Option ℕ → (ℕ → Exec W StorageReply) → Exec W StorageReply
  asked_version none f = throw (app_error (bad_request "versionNumber must be a positive integer"))
  asked_version (some n) f = f n

  abbrev unrouted : Exec W StorageReply
  unrouted = pure (in_json route_not_found)

  -- The routes under /files, by the segments after it.
  unfoldable pub upload_router :
      Authenticated → Multipart → Method → List String → Exec W StorageReply
  upload_router user body post [] = post_file user body
  upload_router user body post (id ∷ s ∷ []) =
      if s == "versions" then post_version user id body else unrouted
  upload_router user body get (id ∷ s ∷ []) =
      if s == "download" then get_download user id none else unrouted
  upload_router user body get (id ∷ s ∷ n ∷ t ∷ []) =
      if s == "versions"
      then if t == "download"
        then asked_version (positive (to_integer n)) (λ k. get_download user id (some k))
        else unrouted
      else unrouted
  upload_router user body _ _ = unrouted

  abbrev pub uploader_of : UploadRequest → Result Authenticated
  uploader_of r = require_auth A.headers A.jwt A.jwt_secret r.authorization

  abbrev pub under_files : UploadRequest → List String → Exec W StorageReply
  under_files r [] = unrouted
  under_files r (s ∷ rest) =
      if s == "files"
      then given (uploader_of r) (λ user. upload_router user r.body r.method rest)
      else unrouted

  abbrev pub caught : Result StorageReply → StorageReply
  caught (ok reply) = reply
  caught (err e) = in_json (error_reply e)

  unfoldable pub handle_upload : UploadRequest → W → StorageReply × W
  handle_upload r w = let (reply, w') = under_files r r.path w in (caught reply, w')
