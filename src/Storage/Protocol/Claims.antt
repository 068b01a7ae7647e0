-- ===== src/Storage/Protocol/Claims.antt =====
-- `claim_job` and `claim_memory_job`: a new claim is good, and differs from every good claim.
use supermemory_rs.Prelude.{
  ℕ, ◌≤◌, ◌<◌, Text, text_eq, text_eq_iff, true, false, ◌≡◌, ◌≢◌, refl, sym, ◌⊎◌, inl, inr, List,
  Option, none, some, ok, arith, Option-cases, All, All-map,
}
use supermemory_rs.Storage.State.{queued, extracting}
use supermemory_rs.Storage.Sql.{update_where, count_where, select_where}
use supermemory_rs.Storage.Sql.Laws.{Among, All-among, Among-select, Among-update, All-select}
use supermemory_rs.Storage.Sql.Keys.{Distinct-key, count_key}
use supermemory_rs.Storage.Tables.{
  Document, Job, Db, JobKind, memory, is_active, is_processing, status_eq, find_document,
}
use supermemory_rs.Storage.Rows.{oldest, is_queued_job, start_job, is_claimable, job_is}
use supermemory_rs.Storage.DocumentJobs.{claim_row}
use supermemory_rs.Storage.MemoryJobs.{ClaimedMemoryJob, claimed_memory_job, claim_memory_job}
use supermemory_rs.Storage.Invariant.{state_of, shown, IsValid, IsValidDb}
use supermemory_rs.Storage.Invariant.Updates.{quiet-IsValid}
use supermemory_rs.Storage.Invariant.Held.{IsHeld}
use supermemory_rs.Storage.Invariant.Claims.{
  IsClaimable, is_claimable-IsClaimable, oldest-Among, oldest-none, oldest-le, find_document_id,
}
use supermemory_rs.Storage.Protocol.Claim.{
  Claim, Holds-miss, IsPast, Matches-update, IsGood, IsGoodDb, IsPast-set,
}

is_queued_id :
    (id : Text) (revision : ℕ) (k : Job)
    → is_queued_job id revision k ≡ true
    → text_eq k.id id ≡ true
unfolding is_queued_job job_is
is_queued_id id revision k h = ground arith

processing_unqueued :
    (id : Text) (revision : ℕ) (k : Job)
    → is_processing k.status ≡ true
    → is_queued_job id revision k ≡ false
unfolding is_processing is_queued_job status_eq
processing_unqueued id revision k h = ground arith

found_state_of :
    {V : Type 0} (ds : List (Document V)) (id : Text) {d : Document V}
    → find_document ds id ≡ some d
    → state_of ds id ≡ some (d.revision, d.status)
unfolding state_of
found_state_of ds id h = ground arith

module _ {V : Type 0} (now : ℕ) (kind : JobKind) (ds : List (Document V)) (js : List Job)
    (valid : IsValid ds js) (j : Job) (among : Among j js)
    (claimable : IsClaimable now kind ds j) where
  -- A claimable job is nobody's.
  pub claimable-fresh : (c : Claim) → IsGood ds js c → c.id ≢ j.id
  unfolding is_processing
  claimable-fresh c (inl held) same =
      let key =
        All-among _ held.row js (Distinct-key (λ k. k.id) j js valid.distinct among) held.among in
      let row_is : held.row ≡ j =
        key ((text_eq_iff held.row.id j.id).1 (cc (held.same_id, same))) in
      let busy : is_processing j.status ≡ true = rw row_is at held.processing in
      absurd (ground (arith, claimable.is_queued, busy))
  claimable-fresh c (inr gone) same =
      let (same_document, same_revision) =
        All-among _ j js gone.matches among ((text_eq_iff j.id c.id).1 (sym same)) in
      let past : c.revision < claimable.source.revision =
        rw (← same_document, found_state_of ds j.document_id claimable.found) at gone.past in
      absurd (omega (arith, claimable.same_revision, same_revision))

-- A claim leaves the good claims good.
pub start-IsGood :
    {V : Type 0} (now : ℕ) (j : Job) (ds ds' : List (Document V)) (js : List Job) (c : Claim)
    → (IsPast (state_of ds c.document_id) c.revision
        → IsPast (state_of ds' c.document_id) c.revision)
    → IsGood ds js c
    → IsGood ds' (update_where (is_queued_job j.id j.revision) (start_job now) js) c
unfolding start_job
start-IsGood now j ds ds' js c past (inl held) = inl (
    Holds-miss js c _ (start_job now) held
      (processing_unqueued j.id j.revision held.row held.processing))
start-IsGood now j ds ds' js c past (inr gone) = inr (record {
  past = past gone.past;
  matches = Matches-update c _ (start_job now) js (λ k. refl) (λ k. refl) (λ k. refl) gone.matches;
})

pub claim_row-IsGood :
    {V : Type 0} (now : ℕ) (j : Job) (db : Db V) (c : Claim)
    → IsGoodDb db c
    → IsGoodDb (claim_row now j db) c
unfolding claim_row
claim_row-IsGood now j db c good =
    start-IsGood now j db.documents _ db.jobs c
      (IsPast-set now j.document_id j.revision extracting db.documents c.document_id c.revision)
      good

start_queued : (now : ℕ) (j : Job) → j.status ≡ queued → is_queued_job j.id j.revision j ≡ true
unfolding is_queued_job job_is status_eq
start_queued now j queue = ground (arith, text_eq_iff j.id j.id)

module _ {V : Type 0} (as_str : V → Option Text) where
  -- The memory job `job` is claimed: it was claimable and the oldest such, what is handed out is
  -- read from its row and its document, its row is now held at the next attempt, and no document
  -- changes.
  pub record IsMemoryClaimOf (now : ℕ) (db db' : Db V) (c : ClaimedMemoryJob) : Type 0 where
    pub job : Job
    pub among : Among job db.jobs
    pub claimable : IsClaimable now memory db.documents job
    pub first :
        All
          (λ k. is_claimable now memory db.documents k ≡ true → job.created_at ≤ k.created_at)
          db.jobs
    pub handed : c ≡ claimed_memory_job as_str job claimable.source
    pub after : db' ≡ record db {
      jobs = update_where (is_queued_job job.id job.revision) (start_job now) db.jobs;
    }
    pub held : IsHeld db'.jobs c.id c.document_id c.revision memory
    pub counted : held.row.attempts ≡ c.attempts

  module _ (now : ℕ) (db : Db V) (valid : IsValidDb db) (j : Job) (among : Among j db.jobs)
      (claimable : IsClaimable now memory db.documents j) where
    abbrev started_db : Db V
    started_db = record db {
      jobs = update_where (is_queued_job j.id j.revision) (start_job now) db.jobs;
    }

    start-held : IsHeld started_db.jobs j.id claimable.source.id j.revision memory
    unfolding start_job is_processing
    start-held = record {
      row = start_job now j;
      among =
          Among-update _ (start_job now) j db.jobs among (start_queued now j claimable.is_queued);
      same_id = refl;
      same_document = sym (find_document_id db.documents j.document_id claimable.found);
      same_revision = refl;
      same_kind = claimable.same_kind;
      processing = refl;
    }

    started_row :
        (k : Job)
        → (text_eq k.id j.id ≡ true → k ≡ j)
        → is_queued_job j.id j.revision k ≡ true
        → (is_active k.status ≡ true) × (shown k.kind extracting ≡ shown k.kind k.status)
    unfolding is_active
    started_row k key hit =
        let same : k ≡ j = key (is_queued_id j.id j.revision k hit) in
        rw same (rw claimable.is_queued refl, rw claimable.same_kind)

    start-IsValid : IsValidDb started_db
    unfolding start_job
    start-IsValid = quiet-IsValid db.documents db.jobs _ (start_job now) valid (record {
      keeps_id = λ k. refl;
      keeps_document = λ k. refl;
      keeps_revision = λ k. refl;
      quiet =
          All-map _ _ (λ k key hit active. started_row k key hit) db.jobs
            (Distinct-key (λ k. k.id) j db.jobs valid.distinct among);
    })

    start_count : count_where (is_queued_job j.id j.revision) db.jobs ≡ 1
    start_count =
        count_key (λ k. k.id) _ j db.jobs valid.distinct among
          (start_queued now j claimable.is_queued) (λ k hit. is_queued_id j.id j.revision k hit)

  memory_claim_of :
      (now : ℕ) (db : Db V) (j : Job)
      → oldest (select_where (is_claimable now memory db.documents) db.jobs) ≡ some j
      → IsValidDb db
      → (c : ClaimedMemoryJob) × (db' : Db V) × (claim_memory_job as_str now db
          ≡ (ok (some c), db'))
        × IsMemoryClaimOf now db db' c
        × IsValidDb db'
  unfolding claim_memory_job claimed_memory_job start_job start-held
  memory_claim_of now db j h valid =
      let (among, test) = Among-select _ j db.jobs (oldest-Among _ h) in
      let c = is_claimable-IsClaimable now memory db.documents j test in
      (
        claimed_memory_job as_str j c.source,
        started_db now db valid j among c,
        rw (h, claim_memory_job) (rw (c.found) (rw (start_count now db valid j among c))),
        record {
          job = j;
          among = among;
          claimable = c;
          first = All-select _ _ db.jobs (oldest-le _ h);
          handed = refl;
          after = refl;
          held = start-held now db valid j among c;
          counted = refl;
        },
        start-IsValid now db valid j among c,
      )

  -- On a valid database a memory claim either finds no claimable memory job, returns none and
  -- changes nothing, or takes the oldest claimable one: it hands out the job with what it reads of
  -- its document, and in the valid database after it the job's row is held at the next attempt, with
  -- no document changed.
  pub claim_memory_job-IsMemoryClaimOf :
      (now : ℕ) (db : Db V)
      → IsValidDb db
      → ((claim_memory_job as_str now db ≡ (ok none, db))
          × All (λ k. is_claimable now memory db.documents k ≡ false) db.jobs)
        ⊎ ((c : ClaimedMemoryJob) × (db' : Db V) × (claim_memory_job as_str now db
              ≡ (ok (some c), db'))
            × IsMemoryClaimOf now db db' c
            × IsValidDb db')
  unfolding claim_memory_job
  claim_memory_job-IsMemoryClaimOf now db valid =
      elim (Option-cases (oldest (select_where (is_claimable now memory db.documents) db.jobs))) [
        | inl e ↦ inl (rw (e, claim_memory_job), oldest-none _ _ e)
        | inr (j, e) ↦ inr (memory_claim_of now db j e valid)
      ]
