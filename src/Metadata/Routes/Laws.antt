-- ===== src/Metadata/Routes/Laws.antt =====
-- What requests to the metadata service may do, whatever their method, path, header and body.
use intelli_store.Prelude.{
  ℕ, String, ◌≡◌, refl, ap, ◌∙◌, Bool, ◌⊎◌, inl, inr, true, false, List, [], ◌∷◌, ◌==◌, All, Unique,
  Bool-cases, Option-cases,
}
use intelli_store.Effects.{Exec, Failure, ok, err, Result-cases}
use intelli_store.SharedTypes.{failure}
use intelli_store.Http.{Authenticated, Reply, json, no_body, async_handler, require_auth-err}
use intelli_store.Metadata.Files.{Database}
use intelli_store.Metadata.Service.{
  add_version, delete_file, get_file, get_version, list_files, read_system_stats, register_file,
  search_files,
}
use intelli_store.Metadata.Service.Isolation.{
  Keeps, add_version-Keeps, delete_file-Keeps, reads-Keeps, register_file-Keeps,
}
use intelli_store.Metadata.Routes.{
  App, Body, Method, Payload, Request, after_health, cors, create_file_schema,
  create_version_schema, delete, detail, file_router, get, handle, is_health, is_options,
  is_refused, listed, options, parsed, routed, malformed, other, post, query_of, too_large,
  registered, replies, stats, typed, user_of, version, version_number_of,
}

module _ (A : App) (stranger : String) (d : Database) where
  abbrev Kept : Exec Database (Reply Payload) → Type 0
  Kept m = Keeps stranger d (m d).1

  replies-Keeps :
      {R : Type 0} (status : ℕ) (f : R → Payload) (m : Exec Database R)
      → Keeps stranger d (m d).1
      → Kept (replies A status f m)
  replies-Keeps status f m h = elim (Result-cases (m d).0) [
    | inl (r, e) ↦ rw e h
    | inr (x, e) ↦ rw e h
  ]

  module _ (u : Authenticated) (r : Request) (ne : (u.id == stranger) ≡ false)
      (unique : Unique (λ f. f.id) d.files)
      (fresh : All (λ f. (A.engine.gen_random_uuid d.ids == f.id) ≡ false) d.files) where
    file_router-Keeps : (m : Method) (path : List String) → Kept (file_router A u r m path)
    unfolding file_router
    file_router-Keeps options path = refl
    file_router-Keeps post [] = elim (Option-cases (create_file_schema A r.body)) [
      | inl e ↦ rw e refl
      | inr (input, e) ↦ rw e (
          replies-Keeps 201 registered (register_file A.engine u.id input)
            (register_file-Keeps A.engine stranger u.id ne d unique input fresh))
    ]
    file_router-Keeps get [] =
        replies-Keeps 200 listed (list_files A.engine u.id)
          (reads-Keeps A.engine stranger u.id ne d "" "" 0).0
    file_router-Keeps delete [] = refl
    file_router-Keeps get (s ∷ []) =
        let (_, searched, summed, found, _) =
          reads-Keeps A.engine stranger u.id ne d s (query_of A r.q) 0 in
        elim (Bool-cases (s == "_stats")) [
          | inl e ↦ rw e (replies-Keeps 200 stats (read_system_stats A.engine) summed)
          | inr e ↦ elim (Bool-cases (s == "search")) [
            | inl b ↦
                rw (e, b)
                  (replies-Keeps 200 listed (search_files A.engine u.id (query_of A r.q)) searched)
            | inr b ↦ rw (e, b) (replies-Keeps 200 detail (get_file A.engine u.id s) found)
          ]
        ]
    file_router-Keeps post (s ∷ []) = refl
    file_router-Keeps delete (id ∷ []) =
        let k = delete_file-Keeps A.engine stranger u.id ne d unique id in
        elim (Result-cases (delete_file A.engine u.id id d).0) [
          | inl (x, e) ↦ rw e k
          | inr (x, e) ↦ rw e k
        ]
    file_router-Keeps post (id ∷ s ∷ []) = elim (Bool-cases (s == "versions")) [
      | inr b ↦ rw b refl
      | inl b ↦ elim (Option-cases (create_version_schema r.body)) [
        | inl e ↦ rw (b, e) refl
        | inr (input, e) ↦
            rw (b, e)
              (replies-Keeps 201 version (add_version A.engine u.id id input)
                (add_version-Keeps A.engine stranger u.id ne d unique id input))
      ]
    ]
    file_router-Keeps get (id ∷ s ∷ []) = refl
    file_router-Keeps delete (id ∷ s ∷ []) = refl
    file_router-Keeps get (id ∷ s ∷ n ∷ []) = elim (Bool-cases (s == "versions")) [
      | inr b ↦ rw b refl
      | inl b ↦ elim (Option-cases (version_number_of A (A.to_integer n))) [
        | inl e ↦ rw (b, e) refl
        | inr (k, e) ↦
            let (_, _, _, _, got) = reads-Keeps A.engine stranger u.id ne d id "" k in
            rw (b, e) (replies-Keeps 200 version (get_version A.engine u.id id k) got)
      ]
    ]
    file_router-Keeps post (id ∷ s ∷ n ∷ []) = refl
    file_router-Keeps delete (id ∷ s ∷ n ∷ []) = refl
    file_router-Keeps get (id ∷ s ∷ n ∷ x ∷ xs) = refl
    file_router-Keeps post (id ∷ s ∷ n ∷ x ∷ xs) = refl
    file_router-Keeps delete (id ∷ s ∷ n ∷ x ∷ xs) = refl

  parsed-Keeps : (b : Body) (m : Exec Database (Reply Payload)) → Kept m → Kept (parsed A b m)
  parsed-Keeps malformed m h = refl
  parsed-Keeps too_large m h = refl
  parsed-Keeps other m h = h
  parsed-Keeps (typed name v) m h = h

  cors-Keeps : (k : Method) (m : Exec Database (Reply Payload)) → Kept m → Kept (cors A k m)
  cors-Keeps get m h = h
  cors-Keeps post m h = h
  cors-Keeps delete m h = h
  cors-Keeps options m h = refl

  after_health-Keeps :
      (b : Bool) (m : Exec Database (Reply Payload)) → Kept m → Kept (after_health A b m)
  after_health-Keeps true m h = refl
  after_health-Keeps false m h = h

  -- With unique file ids, and a new id for the next row: whatever a request's method, path and body
  -- are, the files of a user are as before, unless the request brings an access token that verifies
  -- as this user's.
  pub handle-Keeps :
      (r : Request)
      → Unique (λ f. f.id) d.files
      → All (λ f. (A.engine.gen_random_uuid d.ids == f.id) ≡ false) d.files
      → ((u : Authenticated) → user_of A r ≡ ok u → (u.id == stranger) ≡ false)
      → Keeps stranger d (handle A r d).1
  unfolding handle
  handle-Keeps r unique fresh ne = cors-Keeps r.method _ (
      parsed-Keeps r.body _
        (after_health-Keeps (is_health A r.method r.path) (routed A r r.path) (go r.path)))
    where
      go : (path : List String) → Kept (routed A r path)
      go [] = refl
      go (s ∷ rest) = elim (Bool-cases (s == "files")) [
        | inr b ↦ rw b refl
        | inl b ↦ elim (Result-cases (user_of A r)) [
          | inr (x, e) ↦ rw (b, e) refl
          | inl (u, e) ↦ rw (b, e) (file_router-Keeps u r (ne u e) unique fresh r.method rest)
        ]
      ]

cors-options :
    (A : App) (m : Method) (x : Exec Database (Reply Payload)) (d : Database)
    → is_options m ≡ true
    → async_handler (cors A m x) d ≡ (no_body 204, d)
cors-options A options x d h = refl
cors-options A get x d h = absurd (cc)
cors-options A post x d h = absurd (cc)
cors-options A delete x d h = absurd (cc)

cors-other :
    (A : App) (m : Method) (x : Exec Database (Reply Payload))
    → is_options m ≡ false
    → cors A m x ≡ x
cors-other A options x h = absurd (cc)
cors-other A get x h = refl
cors-other A post x h = refl
cors-other A delete x h = refl

parsed-refused :
    (A : App) (b : Body) (x : Exec Database (Reply Payload)) (d : Database)
    → is_refused b ≡ true
    → async_handler (parsed A b x) d
      ≡ (json 500 (failure "INTERNAL_ERROR" "Internal server error"), d)
parsed-refused A malformed x d h = refl
parsed-refused A too_large x d h = refl
parsed-refused A other x d h = absurd (cc)
parsed-refused A (typed name v) x d h = absurd (cc)

parsed-passed :
    (A : App) (b : Body) (x : Exec Database (Reply Payload))
    → is_refused b ≡ false
    → parsed A b x ≡ x
parsed-passed A malformed x h = absurd (cc)
parsed-passed A too_large x h = absurd (cc)
parsed-passed A other x h = refl
parsed-passed A (typed name v) x h = refl

no_health : (A : App) (m : Method) (rest : List String) → is_health A m ("files" ∷ rest) ≡ false
no_health A get [] = refl
no_health A get (s ∷ rest) = refl
no_health A post rest = refl
no_health A delete rest = refl
no_health A options rest = refl

-- Under /files, a request without an access token that verifies is answered 401, whatever the rest
-- of its path is, unless it is an OPTIONS, which is a 204, or its body is no JSON or over 100kb, which is a
-- 500; in none of these cases anything changes.
pub handle-unauthorized :
    (A : App) (r : Request) (rest : List String) (d : Database) {e : Failure}
    → r.path ≡ "files" ∷ rest
    → user_of A r ≡ err e
    → ((is_options r.method ≡ true) × (handle A r d ≡ (no_body 204, d)))
      ⊎ ((is_refused r.body ≡ true)
          × (handle A r d ≡ (json 500 (failure "INTERNAL_ERROR" "Internal server error"), d)))
      ⊎ ((message : String) × (handle A r d ≡ (json 401 (failure "UNAUTHORIZED" message), d)))
unfolding handle
handle-unauthorized A r rest d {e} path h =
    let (message, same) = require_auth-err A.headers A.jwt A.jwt_secret r.authorization h in
    let x = after_health A (is_health A r.method r.path) (routed A r r.path) in
    let none_of : is_health A r.method r.path ≡ false = rw path (no_health A r.method rest) in
    elim (Bool-cases (is_options r.method)) [
      | inl o ↦ inl (o, cors-options A r.method (parsed A r.body x) d o)
      | inr o ↦
          let on = ap (λ m. async_handler m d) (cors-other A r.method (parsed A r.body x) o) in
          elim (Bool-cases (is_refused r.body)) [
            | inl b ↦ inr (inl (b, on ∙ parsed-refused A r.body x d b))
            | inr b ↦ inr (
                inr (
                  message,
                  on
                      ∙ ap (λ m. async_handler m d) (parsed-passed A r.body x b)
                      ∙ rw (none_of, path, h, same) refl,
                ))
          ]
    ]
