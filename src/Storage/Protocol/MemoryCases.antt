-- ===== src/Storage/Protocol/MemoryCases.antt =====
-- What the operations of crates/storage/src/memory_jobs.rs may do to the database, and that it leaves
-- the claims on other jobs good.
use supermemory_rs.Prelude.{
  ℕ, Text, text_eq, Bool, true, false, ◌≡◌, ◌≢◌, refl, inl, inr, Option, some, ok, arith,
  Bool-cases, ◌==◌,
}
use supermemory_rs.Storage.State.{done, failed, extracting}
use supermemory_rs.Storage.Sql.{update_where, count_where}
use supermemory_rs.Storage.Sql.Laws.{Among-update}
use supermemory_rs.Storage.Tables.{Job, Db, revision_of}
use supermemory_rs.Storage.Rows.{job_is, job_at, document_is, set_document_status, revision_is}
use supermemory_rs.Storage.MemoryJobs.{
  ClaimedMemoryJob, stale_job, is_active_job, finish_memory_job, retried_job, is_terminal,
  delay_seconds, mark_memory_job_stale, is_cacheable, cache_memory_extraction, complete_memory_job,
  retry_memory_job,
}
use supermemory_rs.Storage.Invariant.Stages.{job_at_id, job_is_id}
use supermemory_rs.Storage.Protocol.Claim.{
  Claim, memory_claim, IsGoodDb, IsGood-other, IsPast-set, Matches-update, Holds-miss,
}

is_active_job_id :
    (id : Text) (revision : ℕ) (j : Job)
    → is_active_job id revision j ≡ true
    → text_eq j.id id ≡ true
unfolding is_active_job job_is
is_active_job_id id revision j h = ground arith

is_cacheable_id :
    {V : Type 0} (job : ClaimedMemoryJob) (db : Db V) (j : Job)
    → is_cacheable job db j ≡ true
    → text_eq j.id job.id ≡ true
unfolding is_cacheable job_at job_is
is_cacheable_id job db j h = ground arith

module _ {V : Type 0} (now : ℕ) (job : ClaimedMemoryJob) (db : Db V) (P : Db V → Type 0) where
  pub complete_cases :
      P db
      → P (record db { jobs = update_where (job_is job.id job.revision) (stale_job now) db.jobs })
      → (revision_is (revision_of db.documents job.document_id) job.revision ≡ true
          → (count_where (job_at job.id job.revision extracting) db.jobs == 1) ≡ true
          → P (record db {
            jobs =
                update_where
                  (job_at job.id job.revision extracting)
                  (finish_memory_job now)
                  db.jobs;
            documents = set_document_status now job.document_id job.revision done db.documents;
          }))
      → P (complete_memory_job now job db).1
  unfolding complete_memory_job
  complete_cases same outdated finished =
      elim (Bool-cases (revision_is (revision_of db.documents job.document_id) job.revision)) [
        | inr stale ↦ rw (stale, complete_memory_job) outdated
        | inl current ↦
            elim (Bool-cases (count_where (job_at job.id job.revision extracting) db.jobs == 1)) [
              | inr away ↦ rw (current, away, complete_memory_job) same
              | inl one ↦
                  elim (Bool-cases
                    (count_where (document_is job.document_id job.revision) db.documents == 1)) [
                      | inr away ↦ rw (current, one, away, complete_memory_job) same
                      | inl there ↦
                          rw (current, one, there, complete_memory_job) (finished current one)
                    ]
            ]
      ]

  pub retry_cases :
      (kind error : Text) (delay : Option ℕ)
      → P db
      → P (mark_memory_job_stale now job db)
      → (revision_is (revision_of db.documents job.document_id) job.revision ≡ true
          → (count_where (job_at job.id job.revision extracting) db.jobs == 1) ≡ true
          → P (record db {
            jobs =
                update_where
                  (job_at job.id job.revision extracting)
                  (retried_job now true kind error (delay_seconds delay))
                  db.jobs;
            documents = set_document_status now job.document_id job.revision failed db.documents;
          }))
      → (revision_is (revision_of db.documents job.document_id) job.revision ≡ true
          → P (record db {
            jobs =
                update_where
                  (job_at job.id job.revision extracting)
                  (retried_job now false kind error (delay_seconds delay))
                  db.jobs;
          }))
      → P (retry_memory_job now job kind error delay db).1
  unfolding retry_memory_job
  retry_cases kind error delay same outdated terminal again =
      elim (Bool-cases (revision_is (revision_of db.documents job.document_id) job.revision)) [
        | inr stale ↦ rw (stale, retry_memory_job) outdated
        | inl current ↦
            elim (Bool-cases (count_where (job_at job.id job.revision extracting) db.jobs == 1)) [
              | inr away ↦ rw (current, away, retry_memory_job) same
              | inl one ↦ elim (Bool-cases (is_terminal delay job.attempts)) [
                | inl last ↦ rw (current, one, last, retry_memory_job) (terminal current one)
                | inr more ↦ rw (current, one, more, retry_memory_job) (again current)
              ]
            ]
      ]

  pub cache_cases :
      (result : Text)
      → P (mark_memory_job_stale now job db)
      → P (record db {
        jobs =
            update_where
              (is_cacheable job db)
              (λ j. record j { extraction_result = some result; updated_at = now })
              db.jobs;
      })
      → P (cache_memory_extraction now job result db).1
  unfolding cache_memory_extraction
  cache_cases result outdated cached =
      elim (Bool-cases (count_where (is_cacheable job db) db.jobs == 1)) [
        | inl one ↦ rw one cached
        | inr away ↦ rw away outdated
      ]

module _ {V : Type 0} (now : ℕ) (job : ClaimedMemoryJob) (db : Db V) (c : Claim)
    (other : c.id ≢ job.id) (good : IsGoodDb db c) where
  -- An update of rows with the id of the job, with no document touched.
  rows-IsGood :
      (p : Job → Bool) (f : Job → Job)
      → ((k : Job) → p k ≡ true → text_eq k.id job.id ≡ true)
      → ((k : Job) → (f k).id ≡ k.id)
      → ((k : Job) → (f k).document_id ≡ k.document_id)
      → ((k : Job) → (f k).revision ≡ k.revision)
      → IsGoodDb (record db { jobs = update_where p f db.jobs }) c
  rows-IsGood p f alone keeps_id keeps_document keeps_revision =
      IsGood-other db.documents db.documents db.jobs c job.id p f other alone keeps_id
        keeps_document keeps_revision (λ past. past) good

  stale-IsGood : IsGoodDb (mark_memory_job_stale now job db) c
  unfolding mark_memory_job_stale stale_job
  stale-IsGood =
      rows-IsGood _ (stale_job now) (is_active_job_id _ _) (λ k. refl) (λ k. refl) (λ k. refl)

  pub complete-IsGood : IsGoodDb (complete_memory_job now job db).1 c
  unfolding stale_job finish_memory_job
  complete-IsGood =
      complete_cases now job db (λ db'. IsGoodDb db' c) good
        (rows-IsGood _ (stale_job now) (job_is_id _ _) (λ k. refl) (λ k. refl) (λ k. refl))
        (λ _ _.
          IsGood-other db.documents _ db.jobs c job.id _ (finish_memory_job now) other
            (job_at_id _ _ _) (λ k. refl) (λ k. refl) (λ k. refl)
            (IsPast-set now job.document_id job.revision done db.documents c.document_id c.revision)
            good)

  pub retry-IsGood :
      (kind error : Text) (delay : Option ℕ)
      → IsGoodDb (retry_memory_job now job kind error delay db).1 c
  unfolding retried_job
  retry-IsGood kind error delay =
      retry_cases now job db (λ db'. IsGoodDb db' c) kind error delay good stale-IsGood
        (λ _ _.
          IsGood-other db.documents _ db.jobs c job.id _
            (retried_job now true kind error (delay_seconds delay)) other (job_at_id _ _ _)
            (λ k. refl) (λ k. refl) (λ k. refl)
            (IsPast-set now job.document_id job.revision failed db.documents c.document_id
              c.revision)
            good)
        (λ _.
          rows-IsGood _ (retried_job now false kind error (delay_seconds delay)) (job_at_id _ _ _)
            (λ k. refl) (λ k. refl) (λ k. refl))

  pub cache-IsGood : (result : Text) → IsGoodDb (cache_memory_extraction now job result db).1 c
  cache-IsGood result =
      cache_cases now job db (λ db'. IsGoodDb db' c) result stale-IsGood
        (rows-IsGood _ (λ j. record j { extraction_result = some result; updated_at = now })
          (is_cacheable_id job db) (λ k. refl) (λ k. refl) (λ k. refl))

-- A worker that caches what it extracted keeps its claim.
pub cached-IsGood :
    {V : Type 0} (now : ℕ) (job : ClaimedMemoryJob) (db : Db V) (result : Text)
    → IsGoodDb db (memory_claim job)
    → (cache_memory_extraction now job result db).0 ≡ ok tt
    → IsGoodDb (cache_memory_extraction now job result db).1 (memory_claim job)
unfolding cache_memory_extraction
cached-IsGood now job db result good finished =
    elim (Bool-cases (count_where (is_cacheable job db) db.jobs == 1)) [
      | inr away ↦ absurd (cc (rw away at finished))
      | inl one ↦ rw one (keep good)
    ]
  where
    cached : Job → Job
    cached j = record j { extraction_result = some result; updated_at = now }

    keep :
        IsGoodDb db (memory_claim job)
        → IsGoodDb
            (record db { jobs = update_where (is_cacheable job db) cached db.jobs })
            (memory_claim job)
    keep (inr gone) = inr (record {
      past = gone.past;
      matches =
          Matches-update (memory_claim job) (is_cacheable job db) cached db.jobs (λ k. refl)
            (λ k. refl) (λ k. refl) gone.matches;
    })
    keep (inl held) = elim (Bool-cases (is_cacheable job db held.row)) [
      | inr miss ↦ inl (Holds-miss db.jobs (memory_claim job) _ cached held miss)
      | inl hit ↦ inl (record {
        row = cached held.row;
        among = Among-update _ cached held.row db.jobs held.among hit;
        same_id = held.same_id;
        same_document = held.same_document;
        same_revision = held.same_revision;
        same_kind = held.same_kind;
        processing = held.processing;
      })
    ]
