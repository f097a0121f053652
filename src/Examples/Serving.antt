-- ===== src/Examples/Serving.antt =====
-- services/storage-service over HTTP: alice downloads the file that was uploaded.
use intelli_store.Prelude.{◌≡◌, refl, none, some, [], ◌∷◌}
use intelli_store.Effects.{ok}
use intelli_store.Auth.Tokens.{access, payload, verify_token}
use intelli_store.Http.{Authenticated, get, require_auth}
use intelli_store.Storage.Download.RoundTrip.{download_service}
use intelli_store.Storage.Routes.{
  StorageApp, UploadRequest, attachment, get_download, handle_upload, parts, upload_router,
  uploader_of,
}
use intelli_store.Storage.Routes.Laws.{IsShownTo, handle_upload-IsShownTo}
use intelli_store.Examples.Shelf.{Store}
use intelli_store.Examples.Storing.{after_upload, downloaded, result, service}

abbrev app : StorageApp Store
app = record {
  upload_service = service;
  download_service = download_service service (λ _. 9);
  jwt = record {
    verify = λ token secret. some (payload (some "alice") (some "alice@x") (some access));
  };
  headers = record { after_prefix = λ prefix header. some "token" };
  jwt_secret = "secret";
  to_integer = λ s. none;
}

abbrev request : UploadRequest
request = record {
  method = get;
  path = "files" ∷ "f" ∷ "download" ∷ [];
  authorization = some "Bearer token";
  body = parts none none;
}

sent : (handle_upload app request after_upload).0 ≡ attachment result
unfolding handle_upload upload_router get_download require_auth verify_token
sent = rw downloaded refl

handle_upload-IsShownTo_example :
    (user : Authenticated) × (uploader_of app request ≡ ok user) × IsShownTo app user result
handle_upload-IsShownTo_example = handle_upload-IsShownTo app request after_upload sent
