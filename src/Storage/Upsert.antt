-- ===== src/Storage/Upsert.antt =====
-- crates/storage/src/documents.rs and its helpers in crates/storage/src/lib.rs: a document is
-- identified, inserted or updated, and queued, in one transaction.
use supermemory_rs.Prelude.{
  ℕ, ◌+◌, Text, text_eq, Bool, true, false, not, ◌&&◌, ◌||◌, List, [], ◌∷◌, ◌++◌, Option, none,
  some, Result, ok, err, ◌==◌, leb, if◌then◌else◌, codes, trim, is_empty, filter_chars, text_lt,
  starts_with, is_some,
}
use supermemory_rs.Storage.State.{DocumentState, queued, indexing, done, failed}
use supermemory_rs.Storage.Sql.{update_where, first_where, exists_where}
use supermemory_rs.Storage.Tables.{
  Document, Metadata, no_row, document, memory, Job, Db, StorageError, constraint, is_active,
  status_eq, kind_eq, revision_of,
}
use supermemory_rs.Storage.Rows.{insert_job, new_job, revision_is}
use supermemory_rs.Storage.MemoryJobs.{stale_job}

pub record UpsertDocument (V : Type 0) : Type 0 where
  pub content : Text
  pub custom_id : Option Text
  pub container_tags : List Text
  pub entity_context : Option Text
  pub metadata : Metadata V
  pub task_type : Text
  pub filepath : Option Text
  pub filter_by_metadata : Metadata V
  pub dreaming : Text

pub record UpsertResult : Type 0 where
  pub id : Text
  pub status : DocumentState
  pub enqueued : Bool

-- The control characters that v0.0.5 drops.
unfoldable pub is_dropped : ℕ → Bool
is_dropped c = leb c 8 || (c == 0x0b) || (c == 0x0c) || (leb 0x0e c && leb c 0x1f) || (c == 0x7f)

unfoldable pub sanitize_content : Text → Text
unfolding is_dropped
sanitize_content content = trim (filter_chars (λ c. not (is_dropped c)) (trim content))

-- `sort_unstable` on strings: equal strings cannot be told apart.
unfoldable pub insert_sorted : Text → List Text → List Text
insert_sorted t [] = t ∷ []
insert_sorted t (u ∷ us) = if text_lt u t then u ∷ insert_sorted t us else t ∷ u ∷ us

unfoldable pub normalized_tags : List Text → List Text
unfolding insert_sorted
normalized_tags [] = []
normalized_tags (t ∷ ts) =
    let rest = normalized_tags ts in if is_empty (trim t) then rest else insert_sorted t rest

unfoldable pub tags_eq : List Text → List Text → Bool
tags_eq [] [] = true
tags_eq [] (u ∷ us) = false
tags_eq (t ∷ ts) [] = false
tags_eq (t ∷ ts) (u ∷ us) = text_eq t u && tags_eq ts us

unfoldable pub option_text_eq : Option Text → Option Text → Bool
option_text_eq none none = true
option_text_eq none (some u) = false
option_text_eq (some t) none = false
option_text_eq (some t) (some u) = text_eq t u

-- revision<>(SELECT revision …): no row matches where the document is missing.
unfoldable pub is_outdated_memory_job : Text → Option ℕ → Job → Bool
unfolding kind_eq is_active revision_is
is_outdated_memory_job id current j =
    text_eq j.document_id id
    && kind_eq j.kind memory
    && (is_some current && not (revision_is current j.revision))
    && is_active j.status

-- kind='document' AND active, at the current revision of the document.
unfoldable pub is_active_document_job : Text → Option ℕ → Job → Bool
unfolding is_active kind_eq revision_is
is_active_document_job document_id current j =
    text_eq j.document_id document_id
    && revision_is current j.revision
    && kind_eq j.kind document
    && is_active j.status

module _ {V : Type 0} where
  -- `Map::insert`: a `serde_json` map is ordered by its keys.
  unfoldable pub insert_key : Text → V → Metadata V → Metadata V
  insert_key key value [] = (key, value) ∷ []
  insert_key key value ((k, v) ∷ m) =
      if text_eq k key
      then (key, value) ∷ m
      else if text_lt key k
      then (key, value) ∷ (k, v) ∷ m
      else (k, v) ∷ insert_key key value m

  unfoldable pub merge_metadata : Metadata V → Metadata V → Metadata V
  unfolding insert_key
  merge_metadata existing [] = existing
  merge_metadata existing ((key, value) ∷ incoming) =
      merge_metadata (insert_key key value existing) incoming

  -- The keys that `metadata_equivalent` compares.
  unfoldable pub comparable : Metadata V → Metadata V
  comparable [] = []
  comparable ((key, value) ∷ m) =
      let rest = comparable m in
      if not (starts_with key (codes "sm_")) && not (text_eq key (codes "commonQuestions"))
      then (key, value) ∷ rest
      else rest

  unfoldable pub has_active_document_job : Text → Db V → Bool
  unfolding is_active_document_job revision_of
  has_active_document_job id db =
      exists_where (is_active_document_job id (revision_of db.documents id)) db.jobs

  unfoldable pub enqueue_unless_active : ℕ → Text → Text → Db V → Result StorageError (Bool × Db V)
  unfolding has_active_document_job revision_of insert_job new_job
  enqueue_unless_active now job_id document_id db =
      if has_active_document_job document_id db
      then ok (false, db)
      else elim (revision_of db.documents document_id) [
        | none ↦ err no_row
        | some revision ↦ elim (insert_job (new_job now job_id document_id document revision) db) [
          | err e ↦ err e
          | ok db' ↦ ok (true, db')
        ]
      ]

  unfoldable pub rewrite_document :
      ℕ → UpsertDocument V → Text → Metadata V → DocumentState → Document V → Document V
  rewrite_document now input hash metadata status d = record d {
    content = input.content;
    content_hash = hash;
    custom_id = input.custom_id;
    status = status;
    container_tags = input.container_tags;
    entity_context = input.entity_context;
    metadata = metadata;
    task_type = input.task_type;
    filepath = input.filepath;
    filter_by_metadata = input.filter_by_metadata;
    dreaming = input.dreaming;
    revision = d.revision + 1;
    updated_at = now;
  }

  unfoldable pub update_full :
      ℕ → Text → UpsertDocument V → Text → Metadata V → DocumentState → Db V → Db V
  unfolding rewrite_document is_outdated_memory_job stale_job revision_of
  update_full now id input hash metadata status db =
      let documents =
        update_where (λ d. text_eq d.id id) (rewrite_document now input hash metadata status)
          db.documents in
      record db {
        documents = documents;
        jobs =
            update_where (is_outdated_memory_job id (revision_of documents id)) (stale_job now)
              db.jobs;
      }

  -- The tail of the branches of `apply_existing` that queue the document again.
  unfoldable pub requeue :
      ℕ
      → Text
      → Text
      → UpsertDocument V
      → Text
      → Metadata V
      → Db V
      → Result StorageError (UpsertResult × Db V)
  unfolding update_full enqueue_unless_active
  requeue now job_id id input hash metadata db =
      elim (enqueue_unless_active now job_id id
        (update_full now id input hash metadata queued db)) [
          | err e ↦ err e
          | ok (enqueued, db') ↦ ok (record { id = id; status = queued; enqueued = enqueued }, db')
        ]

  -- org_id=?1 AND custom_id=?2 AND container_tags=?3: the tags are compared as JSON text.
  unfoldable pub find_custom : Text → Text → List Text → List (Document V) → Option (Document V)
  unfolding tags_eq option_text_eq
  find_custom org_id custom_id tags = first_where (λ d.
      text_eq d.org_id org_id
      && option_text_eq d.custom_id (some custom_id)
      && tags_eq d.container_tags tags)

  -- `to_string` is `serde_json::to_string(…).ok()` of an object.
  module _ (to_string : Metadata V → Option Text) where
    unfoldable pub metadata_equivalent : Metadata V → Metadata V → Bool
    unfolding comparable option_text_eq
    metadata_equivalent left right =
        option_text_eq (to_string (comparable left)) (to_string (comparable right))

    unfoldable pub apply_existing :
        ℕ
        → Text
        → Document V
        → UpsertDocument V
        → Text
        → Db V
        → Result StorageError (UpsertResult × Db V)
    unfolding has_active_document_job status_eq requeue merge_metadata metadata_equivalent
    apply_existing now job_id existing input hash db =
        let unchanged : UpsertResult = record {
          id = existing.id;
          status = existing.status;
          enqueued = false;
        } in
        let metadata = merge_metadata existing.metadata input.metadata in
        if has_active_document_job existing.id db
        then ok (unchanged, db)
        else if status_eq existing.status failed
        then requeue now job_id existing.id input hash metadata db
        else if text_eq existing.content_hash hash
        then if metadata_equivalent existing.metadata input.metadata
          then ok (unchanged, db)
          else if status_eq existing.status indexing
          then requeue now job_id existing.id input hash metadata db
          else ok (
            unchanged,
            record db {
              documents =
                  update_where (λ d. text_eq d.id existing.id)
                    (λ d. record d { metadata = metadata; updated_at = now }) db.documents;
            },
          )
        else requeue now job_id existing.id input hash metadata db

    unfoldable pub find_duplicate :
        Text → Text → Metadata V → List Text → List (Document V) → Option (Document V)
    unfolding tags_eq normalized_tags metadata_equivalent status_eq
    find_duplicate org_id hash metadata tags = first_where (λ d.
        text_eq d.org_id org_id
        && text_eq d.content_hash hash
        && status_eq d.status done
        && tags_eq (normalized_tags d.container_tags) (normalized_tags tags)
        && metadata_equivalent d.metadata metadata)

  unfoldable pub new_document : ℕ → Text → Text → UpsertDocument V → Text → Document V
  new_document now id org_id input hash = record {
    id = id;
    org_id = org_id;
    content = input.content;
    content_hash = hash;
    custom_id = input.custom_id;
    status = queued;
    container_tags = input.container_tags;
    entity_context = input.entity_context;
    metadata = input.metadata;
    task_type = input.task_type;
    filepath = input.filepath;
    filter_by_metadata = input.filter_by_metadata;
    dreaming = input.dreaming;
    revision = 1;
    created_at = now;
    updated_at = now;
  }

  -- The result says `enqueued` whatever `enqueue_unless_active` returned.
  unfoldable pub insert_new :
      ℕ
      → Text
      → Text
      → Text
      → UpsertDocument V
      → Text
      → Db V
      → Result StorageError (UpsertResult × Db V)
  unfolding new_document enqueue_unless_active
  insert_new now id job_id org_id input hash db =
      let inserted = record db {
        documents = db.documents ++ new_document now id org_id input hash ∷ [];
      } in
      if exists_where (λ d. text_eq d.id id) db.documents
      then err constraint
      else elim (enqueue_unless_active now job_id id inserted) [
        | err e ↦ err e
        | ok (_, db') ↦ ok (record { id = id; status = queued; enqueued = true }, db')
      ]

  -- An error rolls the transaction back.
  unfoldable pub settle {ℓ} :
      {A : Type ℓ} → Db V → Result StorageError (A × Db V) → Result StorageError A × Db V
  settle db (err e) = (err e, db)
  settle db (ok (a, db')) = (ok a, db')

  -- `content_hash` is the SHA-1 of the content, in hexadecimal.
  module _ (to_string : Metadata V → Option Text) (content_hash : Text → Text) where
    unfoldable pub find_existing : Text → UpsertDocument V → List (Document V) → Option (Document V)
    unfolding find_custom find_duplicate
    find_existing org_id input documents = elim input.custom_id [
      | some custom_id ↦ find_custom org_id custom_id input.container_tags documents
      | none ↦
          find_duplicate to_string org_id (content_hash input.content) input.metadata
            input.container_tags documents
    ]

    unfoldable pub upsert_document_for :
        ℕ → Text → Text → Text → UpsertDocument V → Db V → Result StorageError UpsertResult × Db V
    unfolding sanitize_content find_existing apply_existing insert_new settle
    upsert_document_for now id job_id org_id given db =
        let input = record given { content = sanitize_content given.content } in
        let hash = content_hash input.content in
        settle db (elim (find_existing org_id input db.documents) [
          | some existing ↦ apply_existing to_string now job_id existing input hash db
          | none ↦ insert_new now id job_id org_id input hash db
        ])
