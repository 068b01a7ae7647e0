-- ===== src/Storage/Invariant/Rewrite.antt =====
-- `update_full` of crates/storage/src/documents.rs on a document with no active job.
use supermemory_rs.Prelude.{
  ℕ, ◌+◌, ◌≤◌, Text, text_eq, text_eq_iff, true, false, ◌≡◌, refl, inl, inr, List, [], ◌∷◌, Option,
  none, some, if◌then◌else◌, arith, Bool-cases, All, All-map,
}
use supermemory_rs.Storage.State.{DocumentState, queued}
use supermemory_rs.Storage.Sql.{update_where, count_where, exists_where, first_where}
use supermemory_rs.Storage.Sql.Laws.{All-update, exists-false, count-update_le, count_zero}
use supermemory_rs.Storage.Sql.Keys.{Distinct-update, All-both}
use supermemory_rs.Storage.Tables.{
  Document, Metadata, Job, Db, is_active, find_document, revision_of,
}
use supermemory_rs.Storage.MemoryJobs.{stale_job}
use supermemory_rs.Storage.Upsert.{
  UpsertDocument, is_active_document_job, has_active_document_job, is_outdated_memory_job,
  rewrite_document, update_full,
}
use supermemory_rs.Storage.Invariant.{state_of, shown, IsCurrent, active_of, IsValid, IsValidDb}
use supermemory_rs.Storage.Invariant.Updates.{active_of_parts}

-- The state of a document after its row is rewritten.
abbrev pub bumped : Option (ℕ × DocumentState) → Option (ℕ × DocumentState)
bumped none = none
bumped (some (r, s)) = some (r + 1, queued)

abbrev revision_part : Option (ℕ × DocumentState) → Option ℕ
revision_part none = none
revision_part (some (r, s)) = some r

stuck_job :
    (id : Text) (k : Job)
    → text_eq k.document_id id ≡ true
    → is_active k.status ≡ true
    → is_active_document_job id (some k.revision) k ≡ false
    → is_outdated_memory_job id (some (k.revision + 1)) k ≡ false
    → ⊥
unfolding is_active_document_job is_outdated_memory_job
stuck_job id k same active no_document no_memory = ground arith

pub stale_idle : (now : ℕ) (id : Text) (k : Job) → active_of id (stale_job now k) ≡ true → ⊥
unfolding active_of stale_job is_active
stale_idle now id k h = ground arith

module _ {V : Type 0} where
  revision_of-state_of :
      (ds : List (Document V)) (id : Text) → revision_of ds id ≡ revision_part (state_of ds id)
  unfolding revision_of state_of
  revision_of-state_of ds id = ground arith

  state_of-rewrite :
      (now : ℕ) (id : Text) (input : UpsertDocument V) (hash : Text) (metadata : Metadata V)
      (ds : List (Document V)) (k : Text)
      → state_of
          (update_where (λ d. text_eq d.id id) (rewrite_document now input hash metadata queued) ds)
          k
        ≡ (if text_eq k id then bumped (state_of ds k) else state_of ds k)
  unfolding state_of find_document first_where update_where rewrite_document
  state_of-rewrite now id input hash metadata [] k = ground arith
  state_of-rewrite now id input hash metadata (d ∷ ds) k = ground (
    arith,
    text_eq_iff d.id k,
    text_eq_iff d.id id,
    text_eq_iff k id,
    state_of-rewrite now id input hash metadata ds k,
  )

  module _ (now : ℕ) (id : Text) (input : UpsertDocument V) (hash : Text) (metadata : Metadata V)
      (db : Db V) (valid : IsValidDb db) (idle : has_active_document_job id db ≡ false) where
    unfoldable pub documents' : List (Document V)
    unfolding update_full
    documents' = (update_full now id input hash metadata queued db).documents

    unfoldable pub jobs' : List Job
    unfolding update_full
    jobs' = (update_full now id input hash metadata queued db).jobs

    pub state_after :
        (k : Text)
        → state_of documents' k
          ≡ (if text_eq k id then bumped (state_of db.documents k) else state_of db.documents k)
    unfolding documents'
    state_after k = state_of-rewrite now id input hash metadata db.documents k

    -- After the rewrite a job that no statement met is inactive, or of another document.
    cleared :
        (k : Job)
        → IsCurrent db.documents k
        → is_active_document_job id (revision_of db.documents id) k ≡ false
        → is_outdated_memory_job id (revision_of documents' id) k ≡ false
        → is_active k.status ≡ true
        → text_eq k.document_id id ≡ false
    cleared k current no_document no_memory active = elim (Bool-cases (text_eq k.document_id id)) [
      | inl same ↦
          let e = (text_eq_iff k.document_id id).0 same in
          let before : state_of db.documents id ≡ some (k.revision, shown k.kind k.status) =
            rw e at (current active) in
          let old : revision_of db.documents id ≡ some k.revision =
            rw (revision_of-state_of, before) in
          let new : revision_of documents' id ≡ some (k.revision + 1) =
            rw (revision_of-state_of, state_after id) (rw ((text_eq_iff id id).1 refl, before)) in
          absurd (stuck_job id k same active (rw old at no_document) (rw new at no_memory))
      | inr other ↦ other
    ]

    row_after :
        (k : Job)
        → IsCurrent db.documents k
          × (is_active_document_job id (revision_of db.documents id) k ≡ false)
        → is_outdated_memory_job id (revision_of documents' id) k ≡ false
        → IsCurrent documents' k × (active_of id k ≡ false)
    row_after k (current, no_document) no_memory = (
      λ active.
          rw state_after (rw (cleared k current no_document no_memory active) (current active)),
      elim (Bool-cases (active_of id k)) [
        | inl e ↦
            let (same, active) = active_of_parts id k e in
            absurd (cc (same, cleared k current no_document no_memory active))
        | inr e ↦ e
      ],
    )

    rows_after : All (λ k. IsCurrent documents' k × (active_of id k ≡ false)) jobs'
    unfolding jobs' documents' stale_job is_active active_of exists_where has_active_document_job
    rows_after =
        All-update _ _ _ (stale_job now) db.jobs (λ k facts hit. (λ active. cc, ground arith))
          (λ k facts miss. row_after k facts miss)
          (All-both _ _ db.jobs valid.current (exists-false _ db.jobs idle))

    pub idle_after : (k : Text) → k ≡ id → count_where (active_of k) jobs' ≡ 0
    idle_after k e = rw e (count_zero _ _ (All-map _ _ (λ j facts. facts.1) jobs' rows_after))

    single_after : (k : Text) → count_where (active_of k) jobs' ≤ 1
    unfolding jobs'
    single_after k = omega (
      arith,
      valid.single k,
      count-update_le (active_of k) _ (stale_job now) db.jobs
          (All-map _ _ (λ j _ hit after. absurd (stale_idle now k j after)) db.jobs valid.current),
    )

    pub update-IsValid : IsValid documents' jobs'
    unfolding jobs' documents' stale_job rewrite_document
    update-IsValid = record {
      current = All-map _ _ (λ j facts. facts.0) jobs' rows_after;
      single = single_after;
      distinct = Distinct-update (λ j. j.id) _ _ db.jobs (λ j. refl) valid.distinct;
      documents_distinct =
          Distinct-update (λ d. d.id) _ _ db.documents (λ d. refl) valid.documents_distinct;
    }
