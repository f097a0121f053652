-- ===== src/System/Catalogue.antt =====
-- The metadata client of the storage service, over the routes of the metadata service: what its calls do.
use intelli_store.Prelude.{
  ℕ, suc, String, ◌<>◌, ◌≡◌, refl, inl, inr, false, Option, none, some, List, [], ◌∷◌, ◌==◌, leb,
  true,
}
use intelli_store.Effects.{
  AppError, Exec, Result, Result-cases, app_error, bad_request, err, error, never_returns, ok,
}
use intelli_store.Http.{Authenticated, answer, json_limit, require_auth}
use intelli_store.Storage.Interfaces.{AddVersionPayload, MetadataClient, RegisterFilePayload}
use intelli_store.Storage.Client as Client
use intelli_store.Metadata.Files.{Database}
use intelli_store.Metadata.Service.{
  CreateFileInput, CreateVersionInput, add_version, get_file, get_version, register_file,
}
use intelli_store.Metadata.Routes.{
  App, Body, Payload, create_file_schema, create_version_schema, detail, file_router, handle,
  registered, replies, typed, version,
}
use intelli_store.System.{
  as_detail, as_registered, as_version, fetched, file_detail_dto, metadata_client_in,
  registered_dto, remote, version_detail_dto, version_input,
}

-- How Express takes the paths of a file apart, and how a number in one is read.
pub record IsRouted (A : App) (segments : String → List String) (show : ℕ → String) (id : String)
    : Type 0 where
  pub root : segments "/files" ≡ "files" ∷ []
  pub file : segments ("/files/" <> id) ≡ "files" ∷ id ∷ []
  pub versions : segments (("/files/" <> id) <> "/versions") ≡ "files" ∷ id ∷ "versions" ∷ []
  pub numbered :
      (n : ℕ)
      → segments ((("/files/" <> id) <> "/versions/") <> show (suc n))
        ≡ "files" ∷ id ∷ "versions" ∷ show (suc n) ∷ []
  -- An id is none of the words that the router knows.
  pub no_stats : (id == "_stats") ≡ false
  pub no_search : (id == "search") ≡ false

module _ (W : Type 0) (A : App) (segments : String → List String) (show : ℕ → String)
    (json_bytes : Body → ℕ) where
  ask-replies :
      {R S : Type 0} (status : ℕ) (f : R → Payload) (read : Payload → Option S) (dto : R → S)
      (m : Exec Database R) (v : W × Database)
      → ((r : R) → read (f r) ≡ some (dto r))
      → ◌≡◌ {A = Result S × (W × Database)}
          (
            Client.read_reply (fetched read (answer (replies A status f m v.1).0)),
            (v.0, (replies A status f m v.1).1),
          )
          (remote dto m v)
  ask-replies status f read dto m v h = elim (Result-cases (m v.1).0) [
    | inl (r, e) ↦ rw e (rw (h r) refl)
    | inr (app_error x, e) ↦ rw e refl
    | inr (error x, e) ↦ rw e refl
    | inr (never_returns, e) ↦ rw e refl
  ]

  module _ (token : String) (user : Authenticated)
      (valid : require_auth A.headers A.jwt A.jwt_secret (some ("Bearer " <> token))
        ≡ ok user) where
    abbrev client : MetadataClient (W × Database)
    client = metadata_client_in A segments show json_bytes

    abbrev pub registration : RegisterFilePayload → Body
    registration p = typed (some p.file_name) (version_input p.version)

    abbrev addition : AddVersionPayload → Body
    addition p = typed none (version_input p)

    abbrev pub Fits : Body → Type 0
    Fits b = leb (json_bytes b) json_limit ≡ true

    abbrev pub internal_error : AppError
    internal_error = record {
      status_code = 500;
      code = "INTERNAL_ERROR";
      message = "Internal server error";
    }

    -- The calls on the file with this id do what the operations of the file service do, the numbers of
    -- versions being positive.
    pub record IsCatalogue (id : String) : Type 0 where
      pub registers :
          (p : RegisterFilePayload) (input : CreateFileInput) (v : W × Database)
          → Fits (registration p)
          → create_file_schema A (registration p) ≡ some input
          → client.register_file token p v
            ≡ remote registered_dto (register_file A.engine user.id input) v
      pub refuses :
          (p : RegisterFilePayload) (v : W × Database)
          → Fits (registration p)
          → create_file_schema A (registration p) ≡ none
          → client.register_file token p v ≡ (err (app_error (bad_request "Validation failed")), v)
      pub too_large :
          (p : RegisterFilePayload) (v : W × Database)
          → leb (json_bytes (registration p)) json_limit ≡ false
          → client.register_file token p v ≡ (err (app_error internal_error), v)
      pub addition_too_large :
          (p : AddVersionPayload) (v : W × Database)
          → leb (json_bytes (addition p)) json_limit ≡ false
          → client.add_version token id p v ≡ (err (app_error internal_error), v)
      pub adds :
          (p : AddVersionPayload) (input : CreateVersionInput) (v : W × Database)
          → Fits (addition p)
          → create_version_schema (addition p) ≡ some input
          → client.add_version token id p v
            ≡ remote version_detail_dto (add_version A.engine user.id id input) v
      pub details :
          (v : W × Database)
          → client.get_file_detail token id v
            ≡ remote file_detail_dto (get_file A.engine user.id id) v
      pub version_details :
          (n : ℕ) (v : W × Database)
          → A.to_integer (show (suc n)) ≡ some (suc n)
          → client.get_version_detail token id (suc n) v
            ≡ remote version_detail_dto (get_version A.engine user.id id (suc n)) v

    -- For a user's access token and an id that the router can tell from its own words: each call of the
    -- storage service's metadata client whose body is at most 100kb of JSON gives what the operation of the file service gives for this
    -- user, its rows or its error, and leaves the database that the operation leaves; a payload that
    -- the schema refuses is a 400, and one of more than 100kb a 500, that change nothing.
    pub metadata_client_in-IsCatalogue :
        (id : String) → IsRouted A segments show id → IsCatalogue id
    unfolding handle file_router Client.http_metadata_client
    metadata_client_in-IsCatalogue id routed = record {
      registers = λ p input v fits e.
          rw (routed.root, fits)
            (rw (valid, e)
              (ask-replies 201 registered as_registered registered_dto
                (register_file A.engine user.id input) v (λ r. refl)));
      refuses = λ p v fits e. rw (routed.root, fits) (rw (valid, e) refl);
      too_large = λ p v h. rw (routed.root, h) refl;
      addition_too_large = λ p v h. rw (routed.versions, h) refl;
      adds = λ p input v fits e.
          rw (routed.versions, fits)
            (rw (valid, e)
              (ask-replies 201 version as_version version_detail_dto
                (add_version A.engine user.id id input) v (λ r. refl)));
      details = λ v.
          rw (routed.file, valid, routed.no_stats, routed.no_search)
            (ask-replies 200 detail as_detail file_detail_dto (get_file A.engine user.id id) v
              (λ r. refl));
      version_details = λ n v e.
          rw (routed.numbered n, valid, e)
            (ask-replies 200 version as_version version_detail_dto
              (get_version A.engine user.id id (suc n)) v (λ r. refl));
    }
