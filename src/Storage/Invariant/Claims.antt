-- ===== src/Storage/Invariant/Claims.antt =====
-- `claim_job` takes the oldest claimable job and keeps the invariant.
use native.Mathlib.Nat.{le_trans}
use supermemory_rs.Prelude.{
  ℕ, ◌+◌, ◌≤◌, Text, text_eq, text_eq_iff, Bool, true, false, ◌≡◌, refl, sym, ◌⊎◌, inl, inr, List,
  [], ◌∷◌, Option, none, some, ok, leb, arith, Bool-cases, Option-cases, All, All-map,
}
use supermemory_rs.Storage.State.{queued, extracting}
use supermemory_rs.Storage.Sql.{select_where, first_where}
use supermemory_rs.Storage.Sql.Laws.{Among, Among-select, All-select, Among-update}
use supermemory_rs.Storage.Tables.{
  Document, JobKind, document, Job, Db, ClaimedJob, is_active, is_processing, status_eq, kind_eq,
  find_document,
}
use supermemory_rs.Storage.Rows.{earlier, oldest, job_is, is_queued_job, start_job, is_claimable}
use supermemory_rs.Storage.DocumentJobs.{claim_job, claim_row, claimed_job}
use supermemory_rs.Storage.Invariant.{IsValidDb}
use supermemory_rs.Storage.Invariant.Updates.{IsFocused, focus-IsValid}
use supermemory_rs.Storage.Invariant.Held.{IsHeld}

earlier_either : (j : Job) (o : Option Job) → (j ≡ earlier j o) ⊎ (o ≡ some (earlier j o))
unfolding earlier
earlier_either j none = inl refl
earlier_either j (some k) = elim (Bool-cases (leb j.created_at k.created_at)) [
  | inl e ↦ inl (rw e)
  | inr e ↦ inr (rw e)
]

pub oldest-Among : (js : List Job) {j : Job} → oldest js ≡ some j → Among j js
unfolding oldest
oldest-Among [] h = cc
oldest-Among (k ∷ ks) {j} h = elim (earlier_either k (oldest ks)) [
  | inl e ↦ inl (cc (e, h))
  | inr e ↦ inr (oldest-Among ks (cc (e, h)))
]

-- No row is selected only where none meets the condition.
pub oldest-none :
    (p : Job → Bool) (js : List Job) → oldest (select_where p js) ≡ none → All (λ k. p k ≡ false) js
unfolding oldest select_where
oldest-none p [] h = tt
oldest-none p (j ∷ js) h = elim (Bool-cases (p j)) [
  | inl e ↦ absurd (cc (rw e at h))
  | inr e ↦ (e, oldest-none p js (rw e at h))
]

earlier_le : (j : Job) (o : Option Job) → (earlier j o).created_at ≤ j.created_at
unfolding earlier
earlier_le j none = omega arith
earlier_le j (some k) = ground arith

earlier-some_le : (j k : Job) → (earlier j (some k)).created_at ≤ k.created_at
unfolding earlier
earlier-some_le j k = ground arith

pub oldest-le :
    (js : List Job) {j : Job} → oldest js ≡ some j → All (λ k. j.created_at ≤ k.created_at) js
unfolding oldest
oldest-le [] h = tt
oldest-le (k ∷ []) {j} h =
    let is_j : earlier k none ≡ j = cc h in (rw (← is_j) (earlier_le k none), tt)
oldest-le (k ∷ x ∷ xs) {j} h =
    let m = earlier x (oldest xs) in
    let is_j : earlier k (some m) ≡ j = cc h in
    let below = oldest-le (x ∷ xs) {j = m} refl in
    let first : j.created_at ≤ m.created_at = rw (← is_j) (earlier-some_le k m) in
    (rw (← is_j) (earlier_le k (some m)), All-map _ _ (λ y le. le_trans first le) (x ∷ xs) below)

-- What the claim query demands of a row.
pub record IsClaimable {V : Type 0} (now : ℕ) (kind : JobKind) (ds : List (Document V)) (j : Job)
    : Type 0 where
  pub same_kind : j.kind ≡ kind
  pub is_queued : j.status ≡ queued
  pub due : j.available_at ≤ now
  pub source : Document V
  pub found : find_document ds j.document_id ≡ some source
  pub same_revision : j.revision ≡ source.revision

start-IsFocused :
    (now : ℕ) (j : Job)
    → j.kind ≡ document
    → j.status ≡ queued
    → IsFocused j (is_queued_job j.id j.revision) (start_job now) extracting
unfolding is_queued_job job_is start_job status_eq
start-IsFocused now j kind queue = record {
  hits = ground (arith, text_eq_iff j.id j.id);
  alone = λ k h. ground arith;
  keeps_id = λ k. refl;
  keeps_document = refl;
  keeps_revision = refl;
  matches = λ _. rw kind;
}

module _ {V : Type 0} where
  pub is_claimable-IsClaimable :
      (now : ℕ) (kind : JobKind) (ds : List (Document V)) (j : Job)
      → is_claimable now kind ds j ≡ true
      → IsClaimable now kind ds j
  unfolding is_claimable status_eq kind_eq
  is_claimable-IsClaimable now kind ds j h = elim (Option-cases (find_document ds j.document_id)) [
    | inl e ↦ absurd (ground arith)
    | inr (d, e) ↦ record {
      same_kind = ground arith;
      is_queued = ground arith;
      due = ground arith;
      source = d;
      found = e;
      same_revision = ground arith;
    }
  ]

  -- The status and revision of the document that a claimable job is joined with.
  pub claimed_state :
      (now : ℕ) (kind : JobKind) (ds : List (Document V)) (j : Job)
      → IsClaimable now kind ds j
      → is_active j.status ≡ true
  unfolding is_active
  claimed_state now kind ds j c = rw c.is_queued

  claim_row-IsValid :
      (now : ℕ) (j : Job) (db : Db V)
      → IsValidDb db
      → Among j db.jobs
      → IsClaimable now document db.documents j
      → IsValidDb (claim_row now j db)
  unfolding claim_row
  claim_row-IsValid now j db valid among c =
      focus-IsValid db.documents db.jobs j _ _ valid among
        (claimed_state now document db.documents j c) extracting
        (start-IsFocused now j c.same_kind c.is_queued) now

  pub find_document_id :
      (ds : List (Document V)) (id : Text) {d : Document V}
      → find_document ds id ≡ some d
      → d.id ≡ id
  unfolding find_document first_where
  find_document_id [] id h = cc
  find_document_id (x ∷ ds) id {d} h = elim (Bool-cases (text_eq x.id id)) [
    | inl e ↦ let same : x ≡ d = ground arith in rw (← same) ((text_eq_iff x.id id).0 e)
    | inr e ↦ find_document_id ds id (rw e at h)
  ]

  -- The document job `job` is claimed: it was claimable and the oldest such, its document is handed
  -- out as it stands, its row is now held, and the statements of the claim are what changed.
  pub record IsClaimOf (now : ℕ) (db db' : Db V) (c : ClaimedJob) : Type 0 where
    pub job : Job
    pub among : Among job db.jobs
    pub claimable : IsClaimable now document db.documents job
    pub first :
        All
          (λ k. is_claimable now document db.documents k ≡ true → job.created_at ≤ k.created_at)
          db.jobs
    pub handed : c ≡ claimed_job job claimable.source
    pub after : db' ≡ claim_row now job db
    pub held : IsHeld db'.jobs c.id c.document_id c.revision document
    pub counted : held.row.attempts ≡ job.attempts + 1

  start_held :
      (now : ℕ) (j : Job) (db : Db V)
      → Among j db.jobs
      → (c : IsClaimable now document db.documents j)
      → IsHeld (claim_row now j db).jobs j.id c.source.id j.revision document
  unfolding claim_row start_job is_processing
  start_held now j db among c = record {
    row = start_job now j;
    among =
        Among-update _ (start_job now) j db.jobs among
          (start-IsFocused now j c.same_kind c.is_queued).hits;
    same_id = refl;
    same_document = sym (find_document_id db.documents j.document_id c.found);
    same_revision = refl;
    same_kind = c.same_kind;
    processing = refl;
  }

  claim_of :
      (now : ℕ) (db : Db V) (j : Job)
      → oldest (select_where (is_claimable now document db.documents) db.jobs) ≡ some j
      → IsValidDb db
      → (c : ClaimedJob) × (db' : Db V) × (claim_job now db ≡ (ok (some c), db'))
        × IsClaimOf now db db' c
        × IsValidDb db'
  unfolding claim_job start_job start_held claimed_job
  claim_of now db j h valid =
      let (among, test) = Among-select _ j db.jobs (oldest-Among _ h) in
      let c = is_claimable-IsClaimable now document db.documents j test in
      (
        claimed_job j c.source,
        claim_row now j db,
        rw (h, claim_job) (rw c.found),
        record {
          job = j;
          among = among;
          claimable = c;
          first = All-select _ _ db.jobs (oldest-le _ h);
          handed = refl;
          after = refl;
          held = start_held now j db among c;
          counted = refl;
        },
        claim_row-IsValid now j db valid among c,
      )

-- On a valid database a claim either finds no claimable document job, returns none and changes
-- nothing, or takes the oldest claimable one: it hands out the job and its document, and in the
-- valid database after it the job's row is held at the next attempt.
pub claim_job-IsClaimOf :
    {V : Type 0} (now : ℕ) (db : Db V)
    → IsValidDb db
    → ((claim_job now db ≡ (ok none, db))
        × All (λ k. is_claimable now document db.documents k ≡ false) db.jobs)
      ⊎ ((c : ClaimedJob) × (db' : Db V) × (claim_job now db ≡ (ok (some c), db'))
          × IsClaimOf now db db' c
          × IsValidDb db')
unfolding claim_job
claim_job-IsClaimOf now db valid =
    elim (Option-cases (oldest (select_where (is_claimable now document db.documents) db.jobs))) [
      | inl e ↦ inl (rw (e, claim_job), oldest-none _ _ e)
      | inr (j, e) ↦ inr (claim_of now db j e valid)
    ]
