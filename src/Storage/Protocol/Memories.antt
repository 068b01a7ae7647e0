-- ===== src/Storage/Protocol/Memories.antt =====
-- The operations of crates/storage/src/memory_jobs.rs under a good claim.
use supermemory_rs.Prelude.{
  ℕ, Text, text_eq, Bool, true, false, ◌≡◌, refl, inl, inr, List, Option, arith, All-map, ap, ◌==◌,
}
use supermemory_rs.Storage.State.{done, failed, queued, extracting}
use supermemory_rs.Storage.Sql.{update_where, count_where}
use supermemory_rs.Storage.Sql.Laws.{count_zero}
use supermemory_rs.Storage.Sql.Keys.{Distinct-key}
use supermemory_rs.Storage.Tables.{Document, Job, Db, memory, is_active, revision_of, status_eq}
use supermemory_rs.Storage.Rows.{job_is, job_at, set_document_status, revision_is}
use supermemory_rs.Storage.MemoryJobs.{
  ClaimedMemoryJob, stale_job, finish_memory_job, retried_job, delay_seconds, mark_memory_job_stale,
  cache_memory_extraction, complete_memory_job, retry_memory_job,
}
use supermemory_rs.Storage.Invariant.{shown, IsValid, IsValidDb}
use supermemory_rs.Storage.Invariant.Updates.{quiet-IsValid}
use supermemory_rs.Storage.Invariant.Held.{focus_held, held_or_none}
use supermemory_rs.Storage.Invariant.Stages.{job_at_id}
use supermemory_rs.Storage.Protocol.Claim.{memory_claim, Holds, IsGoodDb}
use supermemory_rs.Storage.Protocol.Publish.{current_past}
use supermemory_rs.Storage.Protocol.MemoryCases.{complete_cases, retry_cases, cache_cases}

-- An update that leaves rows inactive is quiet.
inactive-IsValid :
    {V : Type 0} (ds : List (Document V)) (js : List Job) (p : Job → Bool) (f : Job → Job)
    → ((k : Job) → (f k).id ≡ k.id)
    → ((k : Job) → (f k).document_id ≡ k.document_id)
    → ((k : Job) → (f k).revision ≡ k.revision)
    → ((k : Job) → is_active (f k).status ≡ false)
    → IsValid ds js
    → IsValid ds (update_where p f js)
inactive-IsValid ds js p f keeps_id keeps_document keeps_revision inactive valid =
    quiet-IsValid ds js p f valid (record {
      keeps_id = keeps_id;
      keeps_document = keeps_document;
      keeps_revision = keeps_revision;
      quiet = All-map _ _ (λ k _ _ active. absurd (cc (active, inactive k))) js valid.current;
    })

module _ {V : Type 0} (now : ℕ) (job : ClaimedMemoryJob) (db : Db V) where
  module _ (valid : IsValidDb db) where
    pub stale-IsValid : IsValidDb (mark_memory_job_stale now job db)
    unfolding mark_memory_job_stale stale_job is_active
    stale-IsValid =
        inactive-IsValid db.documents db.jobs _ (stale_job now) (λ k. refl) (λ k. refl) (λ k. refl)
          (λ k. refl) valid

    pub cache-IsValid : (result : Text) → IsValidDb (cache_memory_extraction now job result db).1
    cache-IsValid result = cache_cases now job db IsValidDb result stale-IsValid (
        quiet-IsValid db.documents db.jobs _ _ valid (record {
          keeps_id = λ k. refl;
          keeps_document = λ k. refl;
          keeps_revision = λ k. refl;
          quiet = All-map _ _ (λ k _ _ active. (active, refl)) db.jobs valid.current;
        }))

    module _ (good : IsGoodDb db (memory_claim job)) where
      -- A claim at the current revision is held.
      held :
          revision_is (revision_of db.documents job.document_id) job.revision ≡ true
          → Holds db.jobs (memory_claim job)
      held current = elim good [
        | inl h ↦ h
        | inr gone ↦
            absurd (current_past db.documents job.document_id job.revision current gone.past)
      ]

      extracting_row :
          (h : Holds db.jobs (memory_claim job))
          → (count_where (job_at job.id job.revision extracting) db.jobs == 1) ≡ true
          → job_at job.id job.revision extracting h.row ≡ true
      extracting_row h one =
          elim (held_or_none db.documents valid h (job_at job.id job.revision extracting)
            (job_at_id _ _ _)) [
              | inl hit ↦ hit
              | inr none_hit ↦ absurd (ground (arith, count_zero _ db.jobs none_hit))
            ]

      completed-IsValid :
          Holds db.jobs (memory_claim job)
          → (count_where (job_at job.id job.revision extracting) db.jobs == 1) ≡ true
          → IsValid
              (set_document_status now job.document_id job.revision done db.documents)
              (update_where (job_at job.id job.revision extracting) (finish_memory_job now) db.jobs)
      unfolding finish_memory_job is_active
      completed-IsValid h one =
          focus_held db.documents valid h _ (job_at_id _ _ _) (finish_memory_job now) done
            (extracting_row h one) (λ k. refl) (λ k. refl) (λ k. refl) (λ active. cc) now

      pub complete-IsValid : IsValidDb (complete_memory_job now job db).1
      unfolding stale_job is_active
      complete-IsValid =
          complete_cases now job db IsValidDb valid
            (inactive-IsValid db.documents db.jobs _ (stale_job now) (λ k. refl) (λ k. refl)
              (λ k. refl) (λ k. refl) valid)
            (λ current one. completed-IsValid (held current) one)

      failed-IsValid :
          (kind error : Text) (delay : ℕ)
          → Holds db.jobs (memory_claim job)
          → (count_where (job_at job.id job.revision extracting) db.jobs == 1) ≡ true
          → IsValid (set_document_status now job.document_id job.revision failed db.documents) (
              update_where
                (job_at job.id job.revision extracting)
                (retried_job now true kind error delay)
                db.jobs)
      unfolding retried_job is_active
      failed-IsValid kind error delay h one =
          focus_held db.documents valid h _ (job_at_id _ _ _) _ failed (extracting_row h one)
            (λ k. refl) (λ k. refl) (λ k. refl) (λ active. cc) now

      requeued_row :
          (k row : Job)
          → (text_eq k.id row.id ≡ true → k ≡ row)
          → row.id ≡ job.id
          → row.kind ≡ memory
          → job_at job.id job.revision extracting k ≡ true
          → (is_active k.status ≡ true) × (shown k.kind queued ≡ shown k.kind k.status)
      unfolding job_at job_is status_eq is_active
      requeued_row k row key same_id same_kind hit =
          let at_id : text_eq k.id job.id ≡ true = ground arith in
          let same : k ≡ row = key (rw same_id at_id) in
          let memory_kind : k.kind ≡ memory = cc (ap (λ x. x.kind) same) in
          (ground arith, rw memory_kind)

      requeued-IsValid :
          (kind error : Text) (delay : ℕ)
          → Holds db.jobs (memory_claim job)
          → IsValid db.documents (
              update_where
                (job_at job.id job.revision extracting)
                (retried_job now false kind error delay)
                db.jobs)
      unfolding retried_job
      requeued-IsValid kind error delay h = quiet-IsValid db.documents db.jobs _ _ valid (record {
        keeps_id = λ k. refl;
        keeps_document = λ k. refl;
        keeps_revision = λ k. refl;
        quiet =
            All-map _ _ (λ k key hit active. requeued_row k h.row key h.same_id h.same_kind hit)
              db.jobs (Distinct-key (λ j. j.id) h.row db.jobs valid.distinct h.among);
      })

      pub retry-IsValid :
          (kind error : Text) (delay : Option ℕ)
          → IsValidDb (retry_memory_job now job kind error delay db).1
      retry-IsValid kind error delay =
          retry_cases now job db IsValidDb kind error delay valid stale-IsValid
            (λ current one. failed-IsValid kind error (delay_seconds delay) (held current) one)
            (λ current. requeued-IsValid kind error (delay_seconds delay) (held current))
