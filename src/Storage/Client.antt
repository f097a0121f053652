-- ===== src/Storage/Client.antt =====
-- `HttpMetadataClient` of services/storage-service/src/clients/metadata.client.ts, over `fetch`.
use intelli_store.Prelude.{ℕ, String, ◌<>◌}
use intelli_store.Effects.{Exec, Result, ok, err, error, app_error, bad_gateway}
use intelli_store.SharedTypes.{ApiResponse, success, failure}
use intelli_store.Storage.Interfaces.{
  RegisterFilePayload, AddVersionPayload, RegisterFileResult, FileDetailResult, VersionDetailResult,
  MetadataClient,
}

-- How a `fetch` and the `res.json()` after it end: no reply, a reply with its status and parsed
-- body, or a body that is no JSON, with the parser's message.
pub data Fetched {ℓ} (A : Type ℓ) : Type ℓ where
  unreachable : Fetched A
  replied : ℕ → ApiResponse A → Fetched A
  not_json : String → Fetched A

pub data Method : Type 0 where
  get post : Method

pub record Request : Type 0 where
  pub method : Method
  pub path : String
  pub bearer_token : String

abbrev pub read_reply {ℓ} : {A : Type ℓ} → Fetched A → Result A
read_reply unreachable = err (app_error (bad_gateway "Metadata service is unreachable"))
read_reply (not_json message) = err (error message)
read_reply (replied status (failure code message)) =
    err (app_error (record { status_code = status; code = code; message = message }))
read_reply (replied status (success a)) = ok a

-- `fetch` for each type of body and reply, and the printing of a number in a template literal.
pub record Fetch (W : Type 0) : Type 0 where
  pub fetch_registration : Request → RegisterFilePayload → W → Fetched RegisterFileResult × W
  pub fetch_version : Request → AddVersionPayload → W → Fetched VersionDetailResult × W
  pub fetch_file_detail : Request → W → Fetched FileDetailResult × W
  pub fetch_version_detail : Request → W → Fetched VersionDetailResult × W
  pub show : ℕ → String

module _ {W : Type 0} (F : Fetch W) where
  abbrev request : {A : Type 0} → (W → Fetched A × W) → Exec W A
  request fetch w = let (r, w') = fetch w in (read_reply r, w')

  unfoldable pub http_metadata_client : MetadataClient W
  http_metadata_client = record {
    register_file = λ token payload. request (
        F.fetch_registration (record { method = post; path = "/files"; bearer_token = token })
          payload);
    add_version = λ token file_id payload. request (
        F.fetch_version
          (record {
            method = post;
            path = ("/files/" <> file_id) <> "/versions";
            bearer_token = token;
          })
          payload);
    get_file_detail = λ token file_id. request (
        F.fetch_file_detail
          (record { method = get; path = "/files/" <> file_id; bearer_token = token }));
    get_version_detail = λ token file_id version_number. request (
        F.fetch_version_detail (record {
          method = get;
          path = (("/files/" <> file_id) <> "/versions/") <> F.show version_number;
          bearer_token = token;
        }));
  }
