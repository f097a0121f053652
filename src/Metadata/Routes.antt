-- ===== src/Metadata/Routes.antt =====
-- services/metadata-service/src/routes/file.route.ts with its guard, validation/file.schema.ts and the
-- routing of app.ts. Paths are lists of decoded segments. Log lines and the headers of cors() and
-- helmet() are left out.
pub mod Laws
use intelli_store.Prelude.{
  ℕ, zero, suc, String, Bool, true, false, ◌&&◌, not, Option, none, some, List, [], ◌∷◌, ◌==◌,
  length, leb, ltb, eqb, if◌then◌else◌,
}
use intelli_store.Effects.{
  Exec, Failure, Result, ok, err, error, app_error, bad_request, pure, throw, unless, ◌>>=◌, ◌>>◌,
}
use intelli_store.SharedTypes.{success}
use intelli_store.Auth.Tokens.{Headers, JsonWebToken}
use intelli_store.Http.{
  Authenticated, HealthPayload, Reply, async_handler, json, json_limit, no_body, require_auth,
  route_not_found,
}
use intelli_store.Metadata.Files.{ChunkInput, Database, Engine, SystemStats}
use intelli_store.Metadata.Service.{
  CreateFileInput, CreateVersionInput, FileDetail, FileWithLatestVersion, RegisteredFile,
  VersionDetail, add_version, delete_file, get_file, get_version, list_files, read_system_stats,
  register_file, search_files,
}

pub data Method : Type 0 where
  get post delete options : Method

-- A body after `express.json()`: no JSON, over its limit of 100kb, of other types than the schemas', or of theirs, the
-- file name being optional.
pub data Body : Type 0 where
  malformed too_large other : Body
  typed : Option String → CreateVersionInput → Body

abbrev pub is_refused : Body → Bool
is_refused malformed = true
is_refused too_large = true
is_refused _ = false

-- What `express.json()` makes of a body of so many bytes.
abbrev pub received_json : ℕ → Body → Body
received_json bytes b = if leb bytes json_limit then b else too_large

-- An OPTIONS, which `cors()` answers.
abbrev pub is_options : Method → Bool
is_options options = true
is_options _ = false

-- An id in the path is taken to be a UUID; PostgreSQL refuses any other text, and the error handler
-- answers that with 500.
pub record Request : Type 0 where
  pub method : Method
  pub path : List String
  -- `req.query.q`, where it is one text.
  pub q : Option String
  pub authorization : Option String
  pub body : Body

pub data Payload : Type 0 where
  registered : RegisteredFile → Payload
  listed : List FileWithLatestVersion → Payload
  stats : SystemStats → Payload
  detail : FileDetail → Payload
  version : VersionDetail → Payload
  healthy : HealthPayload → Payload

pub record App : Type 1 where
  pub engine : Engine
  pub jwt : JsonWebToken
  pub headers : Headers
  pub jwt_secret : String
  -- `process.uptime()` and `new Date().toISOString()`
  pub uptime : Database → String
  pub iso_now : Database → String
  -- The number of UTF-16 units of a text, and `Number(…)` where that is an integer from 0 on.
  pub text_length : String → ℕ
  pub to_integer : String → Option ℕ

abbrev pub is_chunk : ChunkInput → Bool
is_chunk c = ltb 0 c.size_bytes && (not (c.checksum == "") && not (c.storage_key == ""))

abbrev pub all_chunks : List ChunkInput → Bool
all_chunks [] = true
all_chunks (c ∷ cs) = is_chunk c && all_chunks cs

abbrev pub is_version_input : CreateVersionInput → Bool
is_version_input v =
    not (v.mime_type == "")
    && (not (v.checksum == "") && (leb 1 (length v.chunks) && all_chunks v.chunks))

abbrev version_input_of : CreateVersionInput → Option CreateVersionInput
version_input_of v = if is_version_input v then some v else none

-- `createVersionSchema` leaves a file name out.
abbrev pub create_version_schema : Body → Option CreateVersionInput
create_version_schema (typed name v) = version_input_of v
create_version_schema _ = none

module _ (A : App) where
  open A use {engine, text_length, to_integer}

  abbrev pub is_file_name : String → Bool
  is_file_name name = leb 1 (text_length name) && leb (text_length name) 255

  abbrev file_input_of : String → CreateVersionInput → Option CreateFileInput
  file_input_of name v =
      if is_file_name name && is_version_input v
      then some (record {
        file_name = name;
        mime_type = v.mime_type;
        checksum = v.checksum;
        chunks = v.chunks;
      })
      else none

  abbrev pub create_file_schema : Body → Option CreateFileInput
  create_file_schema (typed (some name) v) = file_input_of name v
  create_file_schema _ = none

  abbrev validated :
      {I : Type 0} → Option I → (I → Exec Database (Reply Payload)) → Exec Database (Reply Payload)
  validated none f = throw (app_error (bad_request "Validation failed"))
  validated (some input) f = f input

  abbrev pub replies :
      {R : Type 0} → ℕ → (R → Payload) → Exec Database R → Exec Database (Reply Payload)
  replies status f m = do r ← m; pure (json status (success (f r)))

  abbrev pub query_of : Option String → String
  query_of none = ""
  query_of (some q) = q

  -- `Number.isInteger(versionNumber) && versionNumber >= 1`.
  abbrev pub version_number_of : Option ℕ → Option ℕ
  version_number_of none = none
  version_number_of (some zero) = none
  version_number_of (some (suc n)) = some (suc n)

  abbrev with_version_number :
      Option ℕ → (ℕ → Exec Database (Reply Payload)) → Exec Database (Reply Payload)
  with_version_number none f =
      throw (app_error (bad_request "versionNumber must be a positive integer"))
  with_version_number (some n) f = f n

  abbrev not_routed : Exec Database (Reply Payload)
  not_routed = pure route_not_found

  -- The routes under /files, by the segments after it, in the order of their registration.
  unfoldable pub file_router :
      Authenticated → Request → Method → List String → Exec Database (Reply Payload)
  file_router user r post [] =
      validated (create_file_schema r.body)
        (λ input. replies 201 registered (register_file engine user.id input))
  file_router user r get [] = replies 200 listed (list_files engine user.id)
  file_router user r get (s ∷ []) =
      if s == "_stats"
      then replies 200 stats (read_system_stats engine)
      else if s == "search"
      then replies 200 listed (search_files engine user.id (query_of r.q))
      else replies 200 detail (get_file engine user.id s)
  file_router user r delete (id ∷ []) = do delete_file engine user.id id; pure (no_body 204)
  file_router user r post (id ∷ s ∷ []) =
      if s == "versions"
      then validated (create_version_schema r.body)
          (λ input. replies 201 version (add_version engine user.id id input))
      else not_routed
  file_router user r get (id ∷ s ∷ n ∷ []) =
      if s == "versions"
      then with_version_number (version_number_of (to_integer n))
          (λ k. replies 200 version (get_version engine user.id id k))
      else not_routed
  file_router user r _ _ = not_routed

  abbrev guarded :
      Result Authenticated
      → (Authenticated → Exec Database (Reply Payload))
      → Exec Database (Reply Payload)
  guarded (ok user) f = f user
  guarded (err e) f = throw e

  abbrev pub user_of : Request → Result Authenticated
  user_of r = require_auth A.headers A.jwt A.jwt_secret r.authorization

  abbrev pub routed : Request → List String → Exec Database (Reply Payload)
  routed r [] = not_routed
  routed r (s ∷ rest) =
      if s == "files"
      then guarded (user_of r) (λ user. file_router user r r.method rest)
      else not_routed

  -- `express.json()` runs before the router, and its own error is no `AppError`.
  abbrev pub parsed : Body → Exec Database (Reply Payload) → Exec Database (Reply Payload)
  parsed malformed m = throw (error "Unexpected token in JSON")
  parsed too_large m = throw (error "request entity too large")
  parsed _ m = m

  abbrev pub cors : Method → Exec Database (Reply Payload) → Exec Database (Reply Payload)
  cors options m = pure (no_body 204)
  cors _ m = m

  -- healthRouter, which is mounted before the others.
  abbrev pub is_health : Method → List String → Bool
  is_health get (s ∷ []) = s == "health"
  is_health _ _ = false

  abbrev health_of : Database → HealthPayload
  health_of d = record {
    service = "metadata-service";
    status = "ok";
    uptime_seconds = A.uptime d;
    timestamp = A.iso_now d;
  }

  abbrev pub after_health : Bool → Exec Database (Reply Payload) → Exec Database (Reply Payload)
  after_health true m d = pure (json 200 (success (healthy (health_of d)))) d
  after_health false m d = m d

  unfoldable pub handle : Request → Database → Reply Payload × Database
  handle r =
      async_handler
        (cors r.method (parsed r.body (after_health (is_health r.method r.path) (routed r r.path))))
