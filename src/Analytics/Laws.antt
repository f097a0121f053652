-- ===== src/Analytics/Laws.antt =====
-- What the access counts count.
use intelli_store.Prelude.{
  ℕ, ◌+◌, String, ◌≡◌, refl, sym, ap, ◌∙◌, inl, inr, true, false, Option, none, some, List, [], ◌∷◌,
  ◌++◌, map, arith, ◌==◌, eq_iff, find?, filter, length, update_where, Bool-cases, Option-cases,
  if◌then◌else◌,
}
use intelli_store.SharedTypes.{FileAccessedEvent}
use intelli_store.Queue.{acked, consume_all}
use intelli_store.Analytics.{
  AccessTable, FileAccessStats, accessed_again, count_of, last_of, find_by_file_id, first_access,
  handle_file_access, of_file_id, record_access,
}

-- `stat?.accessCount ?? 0`
abbrev pub access_count_of : String → AccessTable → ℕ
access_count_of file_id rows = count_of (find_by_file_id file_id rows)

-- The last of the times, if any, else what was known before.
abbrev pub last_time : String → Option ℕ → List FileAccessedEvent → Option ℕ
last_time file_id before [] = before
last_time file_id before (e ∷ es) =
    last_time file_id (if e.file_id == file_id then some e.accessed_at else before) es

find-append :
    (f : String) (rows : AccessTable) (x : FileAccessStats)
    → find? (of_file_id f) (rows ++ x ∷ []) ≡ elim (find? (of_file_id f) rows) [
      | none ↦ (if of_file_id f x then some x else none)
      | some s ↦ some s
    ]
find-append f [] x = refl
find-append f (r ∷ rows) x = elim (Bool-cases (of_file_id f r)) [
  | inl e ↦ rw e refl
  | inr e ↦ rw e (find-append f rows x)
]

find-again :
    (f g : String) (t : ℕ) (rows : AccessTable)
    → find? (of_file_id f) (update_where (of_file_id g) (accessed_again t) rows)
      ≡ elim (find? (of_file_id f) rows) [
        | none ↦ none
        | some s ↦ some (if g == f then accessed_again t s else s)
      ]
find-again f g t [] = refl
find-again f g t (r ∷ rows) = elim (Bool-cases (of_file_id f r)) [
  | inl e ↦ elim (Bool-cases (of_file_id g r)) [
    | inl d ↦
        let same : (g == f) ≡ true =
          ground (arith, d, e, eq_iff r.file_id f, eq_iff r.file_id g, eq_iff g f) in
        rw d (rw e (rw same refl))
    | inr d ↦
        let other : (g == f) ≡ false =
          ground (arith, d, e, eq_iff r.file_id f, eq_iff r.file_id g, eq_iff g f) in
        rw d (rw e (rw other refl))
  ]
  | inr e ↦ elim (Bool-cases (of_file_id g r)) [
    | inl d ↦ rw d (rw e (find-again f g t rows))
    | inr d ↦ rw d (rw e (find-again f g t rows))
  ]
]

-- One file's row is found by the name of another only if they are one file.
find-same :
    (f g : String) (rows : AccessTable)
    → (g == f) ≡ true
    → find? (of_file_id g) rows ≡ find? (of_file_id f) rows
find-same f g rows h = ap (λ x. find? (of_file_id x) rows) ((eq_iff g f).0 h)

record_access-find :
    (f g : String) (t : ℕ) (rows : AccessTable)
    → (access_count_of f (record_access g t rows)
        ≡ access_count_of f rows + (if g == f then 1 else 0))
      × (last_of (find_by_file_id f (record_access g t rows))
          ≡ (if g == f then some t else last_of (find_by_file_id f rows)))
unfolding record_access
record_access-find f g t rows = elim (Option-cases (find? (of_file_id g) rows)) [
  | inl n ↦ elim (Option-cases (find? (of_file_id f) rows)) [
    | inl m ↦ elim (Bool-cases (g == f)) [
      | inl b ↦ rw n (rw (find-append f rows (first_access g t)) (rw m (rw b (omega arith, refl))))
      | inr b ↦ rw n (rw (find-append f rows (first_access g t)) (rw m (rw b (omega arith, refl))))
    ]
    | inr (x, m) ↦ elim (Bool-cases (g == f)) [
      | inl b ↦ absurd (let k = sym n ∙ find-same f g rows b ∙ m in cc)
      | inr b ↦ rw n (rw (find-append f rows (first_access g t)) (rw m (rw b (omega arith, refl))))
    ]
  ]
  | inr (s, n) ↦ elim (Option-cases (find? (of_file_id f) rows)) [
    | inl m ↦ elim (Bool-cases (g == f)) [
      | inl b ↦ absurd (let k = sym n ∙ find-same f g rows b ∙ m in cc)
      | inr b ↦ rw n (rw (find-again f g t rows) (rw m (rw b (omega arith, refl))))
    ]
    | inr (x, m) ↦ elim (Bool-cases (g == f)) [
      | inl b ↦ rw n (rw (find-again f g t rows) (rw m (rw b (omega arith, refl))))
      | inr b ↦ rw n (rw (find-again f g t rows) (rw m (rw b (omega arith, refl))))
    ]
  ]
]

-- Every event is acknowledged; afterwards a file's count has grown by the number of the events that
-- name it, and its last access is that of the last of them, if there is one.
pub consume_all-counts :
    (f : String) (events : List FileAccessedEvent) (rows : AccessTable)
    → let (ds, rows') = consume_all handle_file_access events rows in
      (ds ≡ map (λ _. acked) events)
      × (access_count_of f rows'
          ≡ access_count_of f rows + length (filter (λ e. e.file_id == f) events))
      × (last_of (find_by_file_id f rows') ≡ last_time f (last_of (find_by_file_id f rows)) events)
unfolding consume_all handle_file_access
consume_all-counts f [] rows = (refl, omega arith, refl)
consume_all-counts f (e ∷ es) rows =
    let rest = consume_all-counts f es (record_access e.file_id e.accessed_at rows) in
    let one = record_access-find f e.file_id e.accessed_at rows in
    (
      ap (◌∷◌ acked) rest.0,
      elim (Bool-cases (e.file_id == f)) [
        | inl b ↦ let o = rw b at one.0 in rw b (omega (arith, rest.1, o))
        | inr b ↦ let o = rw b at one.0 in rw b (omega (arith, rest.1, o))
      ],
      rw⁻¹ one.1 rest.2,
    )
