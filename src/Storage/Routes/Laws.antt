-- ===== src/Storage/Routes/Laws.antt =====
-- To whom the storage service sends the bytes of a file.
use intelli_store.Prelude.{
  ℕ, String, ◌≡◌, refl, subst, inl, inr, Option, none, some, List, [], ◌∷◌, ◌==◌, Bool-cases,
  Option-cases,
}
use intelli_store.Effects.{Exec, Result, ok, err, Result-cases}
use intelli_store.Http.{Authenticated, Method, get, post}
use intelli_store.Storage.Interfaces.{VersionDetailResult}
use intelli_store.Storage.Upload.{upload_new_file, upload_new_version}
use intelli_store.Storage.Download.{DownloadResult, download}
use intelli_store.Storage.Download.Laws.{download-IsVerified}
use intelli_store.Storage.Routes.{
  Multipart, StorageApp, StoragePayload, StorageReply, UploadRequest, attachment, caught, created,
  file_name_of, file_of, get_download, handle_upload, in_json, positive, post_file, post_version,
  registered, under_files, upload_router, uploader_of, versioned,
}

module _ {W : Type 0} (A : StorageApp W) where
  open A use {upload_service, download_service, to_integer}

  -- The bytes are those of a version that the metadata service showed to the user's token.
  abbrev pub IsShownTo : Authenticated → DownloadResult → Type 0
  IsShownTo user x =
      (file_id : String) × (n : ℕ) × (v : W) × (detail : VersionDetailResult)
      × ((download_service.metadata_client.get_version_detail user.bearer_token file_id n v).0
          ≡ ok detail)
      × (download_service.sha256 x.buffer ≡ detail.version.checksum)
      × (x.version_number ≡ detail.version.version_number)

  abbrev IsAllowed : Authenticated → Result StorageReply → Type 0
  IsAllowed user (ok (attachment x)) = IsShownTo user x
  IsAllowed user (ok (in_json r)) = Unit
  IsAllowed user (err e) = Unit

  created-IsAllowed :
      {R : Type 0} (user : Authenticated) (f : R → StoragePayload) (m : Exec W R) (w : W)
      → IsAllowed user (created A f m w).0
  created-IsAllowed user f m w = elim (Result-cases (m w).0) [
    | inl (r, e) ↦ rw e tt
    | inr (x, e) ↦ rw e tt
  ]

  get_download-IsAllowed :
      (user : Authenticated) (id : String) (n : Option ℕ) (w : W)
      → IsAllowed user (get_download A user id n w).0
  unfolding get_download
  get_download-IsAllowed user id n w = elim (Bool-cases (user.bearer_token == "")) [
    | inl b ↦ rw b tt
    | inr b ↦ elim (Result-cases (download download_service user.bearer_token id n w).0) [
      | inr (x, e) ↦ rw b (rw e tt)
      | inl (x, e) ↦
          let (_, detail, _, (k, v, _, shown), verified) =
            download-IsVerified download_service user.bearer_token id n w e in
          rw b (rw e (id, k, v, detail, shown, verified.intact, verified.numbered))
    ]
  ]

  post_file-IsAllowed :
      (user : Authenticated) (body : Multipart) (w : W) → IsAllowed user (post_file A user body w).0
  unfolding post_file
  post_file-IsAllowed user body w = elim (Result-cases (file_of body)) [
    | inr (x, e) ↦ rw e tt
    | inl ((file, name), e) ↦ elim (Bool-cases (user.bearer_token == "")) [
      | inl b ↦ rw e (rw b tt)
      | inr b ↦ rw e (
          rw b (
            created-IsAllowed user registered
              (upload_new_file upload_service user.bearer_token (file_name_of file name)
                file.mime_type file.buffer)
              w))
    ]
  ]

  post_version-IsAllowed :
      (user : Authenticated) (id : String) (body : Multipart) (w : W)
      → IsAllowed user (post_version A user id body w).0
  unfolding post_version
  post_version-IsAllowed user id body w = elim (Result-cases (file_of body)) [
    | inr (x, e) ↦ rw e tt
    | inl ((file, name), e) ↦ elim (Bool-cases (user.bearer_token == "")) [
      | inl b ↦ rw e (rw b tt)
      | inr b ↦ rw e (
          rw b (
            created-IsAllowed user versioned
              (upload_new_version upload_service user.bearer_token id file.mime_type file.buffer)
              w))
    ]
  ]

  upload_router-IsAllowed :
      (user : Authenticated) (body : Multipart) (m : Method) (path : List String) (w : W)
      → IsAllowed user (upload_router A user body m path w).0
  unfolding upload_router
  upload_router-IsAllowed user body get [] w = tt
  upload_router-IsAllowed user body post [] w = post_file-IsAllowed user body w
  upload_router-IsAllowed user body get (a ∷ []) w = tt
  upload_router-IsAllowed user body post (a ∷ []) w = tt
  upload_router-IsAllowed user body get (id ∷ s ∷ []) w = elim (Bool-cases (s == "download")) [
    | inl b ↦ rw b (get_download-IsAllowed user id none w)
    | inr b ↦ rw b tt
  ]
  upload_router-IsAllowed user body post (id ∷ s ∷ []) w = elim (Bool-cases (s == "versions")) [
    | inl b ↦ rw b (post_version-IsAllowed user id body w)
    | inr b ↦ rw b tt
  ]
  upload_router-IsAllowed user body get (a ∷ s ∷ n ∷ []) w = tt
  upload_router-IsAllowed user body post (a ∷ s ∷ n ∷ []) w = tt
  upload_router-IsAllowed user body get (id ∷ s ∷ n ∷ t ∷ []) w =
      elim (Bool-cases (s == "versions")) [
        | inr b ↦ rw b tt
        | inl b ↦ elim (Bool-cases (t == "download")) [
          | inr c ↦ rw (b, c) tt
          | inl c ↦ elim (Option-cases (positive (to_integer n))) [
            | inl e ↦ rw (b, c, e) tt
            | inr (k, e) ↦ rw (b, c, e) (get_download-IsAllowed user id (some k) w)
          ]
        ]
      ]
  upload_router-IsAllowed user body post (a ∷ s ∷ n ∷ t ∷ []) w = tt
  upload_router-IsAllowed user body get (a ∷ s ∷ n ∷ t ∷ u ∷ us) w = tt
  upload_router-IsAllowed user body post (a ∷ s ∷ n ∷ t ∷ u ∷ us) w = tt

  caught-IsShownTo :
      (user : Authenticated) (x : DownloadResult) (reply : Result StorageReply)
      → IsAllowed user reply
      → caught A reply ≡ attachment x
      → IsShownTo user x
  caught-IsShownTo user x (ok (attachment y)) h e =
      let same : y ≡ x = cc in subst (IsShownTo user) same h
  caught-IsShownTo user x (ok (in_json r)) h e = absurd (cc)
  caught-IsShownTo user x (err f) h e = absurd (cc)

  -- The service sends the bytes of a file only in reply to a request with an access token that
  -- verifies, and only those of a version that the metadata service has shown to this token: they
  -- have its checksum, and the header has its number.
  pub handle_upload-IsShownTo :
      (r : UploadRequest) (w : W) {x : DownloadResult}
      → (handle_upload A r w).0 ≡ attachment x
      → (user : Authenticated) × (uploader_of A r ≡ ok user) × IsShownTo user x
  unfolding handle_upload
  handle_upload-IsShownTo r w {x} h = go r.path h
    where
      go :
          (path : List String)
          → caught A (under_files A r path w).0 ≡ attachment x
          → (user : Authenticated) × (uploader_of A r ≡ ok user) × IsShownTo user x
      go [] = λ h. absurd (cc)
      go (s ∷ rest) = elim (Bool-cases (s == "files")) [
        | inr b ↦ rw b (λ h. absurd (cc))
        | inl b ↦ elim (Result-cases (uploader_of A r)) [
          | inr (e, f) ↦ rw (b, f) (λ h. absurd (cc))
          | inl (user, f) ↦
              rw (b, f)
                (λ h. (
                  user,
                  refl,
                  caught-IsShownTo user x (upload_router A user r.body r.method rest w).0
                      (upload_router-IsAllowed user r.body r.method rest w) h,
                ))
        ]
      ]
