-- ===== src/Storage/Invariant/Upsert.antt =====
-- `upsert_document_for` keeps the invariant, and queues what it says that it queues.
use supermemory_rs.Prelude.{
  ℕ, ◌+◌, Text, text_eq, text_eq_iff, Bool, true, false, ◌≡◌, refl, ◌⊎◌, inl, inr, List, [], ◌∷◌,
  ◌++◌, Option, none, some, Result, ok, arith, Bool-cases, Option-cases, All, All-map, ap,
}
use supermemory_rs.Storage.State.{DocumentState, queued, failed, indexing}
use supermemory_rs.Storage.Sql.{update_where, count_where, first_where}
use supermemory_rs.Storage.Sql.Laws.{Among, All-update, All-exists, count_zero}
use supermemory_rs.Storage.Sql.Keys.{Distinct-update, Distinct-snoc}
use supermemory_rs.Storage.Tables.{
  Document, Metadata, document, Job, Db, StorageError, find_document, status_eq,
}
use supermemory_rs.Storage.Rows.{new_job}
use supermemory_rs.Storage.MemoryJobs.{stale_job}
use supermemory_rs.Storage.Upsert.{
  UpsertDocument, UpsertResult, has_active_document_job, update_full, requeue, apply_existing,
  new_document, insert_new, settle, upsert_document_for, find_existing, merge_metadata, find_custom,
  find_duplicate, metadata_equivalent, sanitize_content,
}
use supermemory_rs.Storage.Invariant.{state_of, IsCurrent, active_of, IsValid, IsValidDb}
use supermemory_rs.Storage.Invariant.Updates.{active_of_parts}
use supermemory_rs.Storage.Invariant.Enqueue.{enqueue_free}
use supermemory_rs.Storage.Invariant.Rewrite.{
  documents', jobs', idle_after, state_after, update-IsValid,
}

-- What an upsert returns, with the database after it: it reports that it queued nothing and leaves
-- the jobs as they were, or it reports that it queued the document, which then shows `queued` at
-- the revision of a queued document job.
pub data IsUpsert {V : Type 0} (now : ℕ) (job_id : Text) (db : Db V)
    : Result StorageError UpsertResult × Db V → Type 0 where
  unchanged :
      (u : UpsertResult) (db' : Db V)
      → u.enqueued ≡ false
      → db'.jobs ≡ db.jobs
      → IsValidDb db'
      → IsUpsert now job_id db (ok u, db')
  sent :
      (u : UpsertResult) (db' : Db V) (revision : ℕ)
      → u.enqueued ≡ true
      → state_of db'.documents u.id ≡ some (revision, queued)
      → Among (new_job now job_id u.id document revision) db'.jobs
      → IsValidDb db'
      → IsUpsert now job_id db (ok u, db')

last-Among : (js : List Job) (j : Job) → Among j (js ++ j ∷ [])
last-Among [] j = inl refl
last-Among (k ∷ ks) j = inr (last-Among ks j)

module _ {V : Type 0} where
  -- The metadata of a document is free.
  pub meta-state_of :
      (now : ℕ) (id : Text) (metadata : Metadata V) (ds : List (Document V)) (k : Text)
      → state_of
          (update_where
            (λ d. text_eq d.id id)
            (λ d. record d { metadata = metadata; updated_at = now })
            ds)
          k
        ≡ state_of ds k
  unfolding state_of find_document first_where update_where
  meta-state_of now id metadata [] k = refl
  meta-state_of now id metadata (d ∷ ds) k = ground (arith, meta-state_of now id metadata ds k)

  meta-IsValid :
      (now : ℕ) (id : Text) (metadata : Metadata V) (ds : List (Document V)) (js : List Job)
      → IsValid ds js
      → IsValid
          (update_where
            (λ d. text_eq d.id id)
            (λ d. record d { metadata = metadata; updated_at = now })
            ds)
          js
  meta-IsValid now id metadata ds js valid = record {
    current =
        All-map _ _
          (λ k current active. rw (meta-state_of now id metadata ds k.document_id) (current active))
          js valid.current;
    single = valid.single;
    distinct = valid.distinct;
    documents_distinct = Distinct-update (λ d. d.id) _ _ ds (λ d. refl) valid.documents_distinct;
  }

  Among-state_of :
      (d : Document V) (ds : List (Document V))
      → Among d ds
      → (r : ℕ) × (s : DocumentState) × (state_of ds d.id ≡ some (r, s))
  unfolding state_of find_document first_where
  Among-state_of d [] m = absurd m
  Among-state_of d (x ∷ ds) m = elim (Bool-cases (text_eq x.id d.id)) [
    | inl e ↦ (x.revision, x.status, ground arith)
    | inr e ↦ let (r, s, shows) = Among-state_of d ds (later m e) in (r, s, ground arith)
  ]
    where
      later : Among d (x ∷ ds) → text_eq x.id d.id ≡ false → Among d ds
      later (inl same) e = absurd (ground (arith, ap (λ y. y.id) same, text_eq_iff x.id d.id))
      later (inr m') e = m'

  first-Among :
      (p : Document V → Bool) (ds : List (Document V)) {d : Document V}
      → first_where p ds ≡ some d
      → Among d ds
  unfolding first_where
  first-Among p [] h = cc
  first-Among p (x ∷ ds) h = elim (Bool-cases (p x)) [
    | inl e ↦ inl (ground arith)
    | inr e ↦ inr (first-Among p ds (rw e at h))
  ]

  module _ (now : ℕ) (job_id : Text) (input : UpsertDocument V) (hash : Text) (db : Db V)
      (valid : IsValidDb db) (fresh : All (λ k. text_eq k.id job_id ≡ false) db.jobs) where
    requeue-IsUpsert :
        (id : Text) (metadata : Metadata V) {r : ℕ} {s : DocumentState}
        → state_of db.documents id ≡ some (r, s)
        → has_active_document_job id db ≡ false
        → IsUpsert now job_id db (settle db (requeue now job_id id input hash metadata db))
    unfolding requeue settle update_full documents' jobs' stale_job
    requeue-IsUpsert id metadata {r} shows idle =
        let updated = update_full now id input hash metadata queued db in
        let valid' : IsValidDb updated = update-IsValid now id input hash metadata db valid idle in
        let none_active = idle_after now id input hash metadata db valid idle id refl in
        let now_shows : state_of updated.documents id ≡ some (r + 1, queued) =
          rw (state_after now id input hash metadata db valid idle id)
            (rw ((text_eq_iff id id).1 refl, shows)) in
        let (e, after) =
          enqueue_free now job_id id updated valid' none_active (r + 1) now_shows
            (All-update _ _ _ (stale_job now) db.jobs (λ k h _. h) (λ k h _. h) fresh) in
        rw (e, settle, requeue)
          (sent (record { id = id; status = queued; enqueued = true }) _ (r + 1) refl now_shows
            (last-Among updated.jobs _) after)

    module _ (to_string : Metadata V → Option Text) where
      apply_existing-IsUpsert :
          (existing : Document V)
          → Among existing db.documents
          → IsUpsert now job_id db
              (settle db (apply_existing to_string now job_id existing input hash db))
      unfolding apply_existing settle
      apply_existing-IsUpsert existing among =
          let (r, s, shows) = Among-state_of existing db.documents among in
          let same : UpsertResult = record {
            id = existing.id;
            status = existing.status;
            enqueued = false;
          } in
          let again = λ (idle : has_active_document_job existing.id db ≡ false).
            requeue-IsUpsert existing.id (merge_metadata existing.metadata input.metadata) shows
              idle in
          elim (Bool-cases (has_active_document_job existing.id db)) [
            | inl busy ↦ rw (busy, settle, apply_existing) (unchanged same db refl refl valid)
            | inr idle ↦ elim (Bool-cases (status_eq existing.status failed)) [
              | inl e ↦ rw (idle, e, settle, apply_existing) (again idle)
              | inr e ↦ elim (Bool-cases (text_eq existing.content_hash hash)) [
                | inr changed ↦ rw (idle, e, changed, settle, apply_existing) (again idle)
                | inl kept ↦
                    elim (Bool-cases
                      (metadata_equivalent to_string existing.metadata input.metadata)) [
                        | inl equal ↦
                            rw (idle, e, kept, equal, settle, apply_existing)
                              (unchanged same db refl refl valid)
                        | inr differs ↦ elim (Bool-cases (status_eq existing.status indexing)) [
                          | inl stuck ↦
                              rw (idle, e, kept, differs, stuck, settle, apply_existing)
                                (again idle)
                          | inr free ↦
                              rw (idle, e, kept, differs, free, settle, apply_existing)
                                (unchanged same _ refl refl (
                                  meta-IsValid now existing.id
                                    (merge_metadata existing.metadata input.metadata) db.documents
                                    db.jobs valid))
                        ]
                      ]
              ]
            ]
          ]

  absent-state_of :
      (id : Text) (ds : List (Document V))
      → All (λ d. text_eq d.id id ≡ false) ds
      → state_of ds id ≡ none
  unfolding state_of find_document first_where
  absent-state_of id [] h = refl
  absent-state_of id (d ∷ ds) h = ground (arith, absent-state_of id ds h.1)

  new-state_of :
      (new : Document V) (ds : List (Document V))
      → All (λ d. text_eq d.id new.id ≡ false) ds
      → state_of (ds ++ new ∷ []) new.id ≡ some (new.revision, new.status)
  unfolding state_of find_document first_where
  new-state_of new [] h = ground (arith, text_eq_iff new.id new.id)
  new-state_of new (d ∷ ds) h = ground (arith, new-state_of new ds h.1)

  old-state_of :
      (ds : List (Document V)) (new : Document V) (k : Text) {x : ℕ × DocumentState}
      → state_of ds k ≡ some x
      → state_of (ds ++ new ∷ []) k ≡ some x
  unfolding state_of find_document first_where
  old-state_of [] new k h = cc
  old-state_of (d ∷ ds) new k {x} h = elim (Bool-cases (text_eq d.id k)) [
    | inl e ↦ ground arith
    | inr e ↦
        let rest : state_of ds k ≡ some x = ground arith in
        let rec = old-state_of ds new k {x = x} rest in ground arith
  ]

  inserted-IsValid :
      (new : Document V) (ds : List (Document V)) (js : List Job)
      → All (λ d. text_eq d.id new.id ≡ false) ds
      → IsValid ds js
      → IsValid (ds ++ new ∷ []) js
  inserted-IsValid new ds js absent valid = record {
    current =
        All-map _ _ (λ k current active. old-state_of ds new k.document_id (current active)) js
          valid.current;
    single = valid.single;
    distinct = valid.distinct;
    documents_distinct = Distinct-snoc (λ d. d.id) ds new absent valid.documents_distinct;
  }

  jobless :
      (id : Text) (ds : List (Document V)) (js : List Job)
      → state_of ds id ≡ none
      → All (IsCurrent ds) js
      → count_where (active_of id) js ≡ 0
  jobless id ds js missing current =
      count_zero _ js (All-map _ _ (λ k here. idle k here (Bool-cases (active_of id k))) js current)
    where
      idle :
          (k : Job)
          → IsCurrent ds k
          → (active_of id k ≡ true) ⊎ (active_of id k ≡ false)
          → active_of id k ≡ false
      idle k here (inl e) =
          let (same, active) = active_of_parts id k e in
          absurd
            (cc (ap (state_of ds) ((text_eq_iff k.document_id id).0 same), here active, missing))
      idle k here (inr e) = e

  module _ (now : ℕ) (id job_id : Text) (db : Db V) (valid : IsValidDb db)
      (fresh : All (λ k. text_eq k.id job_id ≡ false) db.jobs)
      (absent : All (λ d. text_eq d.id id ≡ false) db.documents) where
    insert_new-IsUpsert :
        (org_id : Text) (input : UpsertDocument V) (hash : Text)
        → IsUpsert now job_id db (settle db (insert_new now id job_id org_id input hash db))
    unfolding insert_new settle new_document
    insert_new-IsUpsert org_id input hash =
        let new = new_document now id org_id input hash in
        let inserted : Db V = record db { documents = db.documents ++ new ∷ [] } in
        let shows : state_of inserted.documents id ≡ some (1, queued) =
          new-state_of new db.documents absent in
        let (e, after) =
          enqueue_free now job_id id inserted
            (inserted-IsValid new db.documents db.jobs absent valid)
            (jobless id db.documents db.jobs (absent-state_of id db.documents absent) valid.current)
            1 shows fresh in
        rw (All-exists _ db.documents absent, e, settle, insert_new)
          (sent (record { id = id; status = queued; enqueued = true }) _ 1 refl shows
            (last-Among db.jobs _) after)

    module _ (to_string : Metadata V → Option Text) (content_hash : Text → Text) where
      find_existing-Among :
          (org_id : Text) (input : UpsertDocument V) {d : Document V}
          → find_existing to_string content_hash org_id input db.documents ≡ some d
          → Among d db.documents
      unfolding find_existing find_custom find_duplicate
      find_existing-Among org_id input h = elim (Option-cases input.custom_id) [
        | inl e ↦ first-Among _ db.documents (rw (e, find_existing) at h)
        | inr (c, e) ↦ first-Among _ db.documents (rw (e, find_existing) at h)
      ]

      -- On a valid database, with generated ids that no row has, an upsert succeeds and leaves a
      -- valid database: either it reports that it queued nothing and the jobs are as before, or it
      -- reports that it queued the document, which then shows `queued` at the revision of a queued
      -- document job.
      pub upsert_document_for-IsUpsert :
          (org_id : Text) (given : UpsertDocument V)
          → IsUpsert now job_id db
              (upsert_document_for to_string content_hash now id job_id org_id given db)
      unfolding upsert_document_for
      upsert_document_for-IsUpsert org_id given =
          let input : UpsertDocument V = record given {
            content = sanitize_content given.content;
          } in
          let hash = content_hash input.content in
          elim (Option-cases (find_existing to_string content_hash org_id input db.documents)) [
            | inl e ↦ rw (e, upsert_document_for) (insert_new-IsUpsert org_id input hash)
            | inr (d, e) ↦
                rw (e, upsert_document_for)
                  (apply_existing-IsUpsert now job_id input hash db valid fresh to_string d
                    (find_existing-Among org_id input e))
          ]
