-- ===== src/Storage/Protocol/Recovery.antt =====
-- The recovery at open, of crates/storage/src/lib.rs, keeps the invariant: interrupted work is queued
-- again, and its documents show so.
use supermemory_rs.Prelude.{
  ℕ, ◌≤◌, Text, text_eq, text_eq_iff, Bool, true, false, ◌≡◌, refl, ap, ◌⊎◌, inl, inr, ◌&&◌, ◌==◌,
  List, [], ◌∷◌, Option, none, some, if◌then◌else◌, arith, Bool-cases, All, All-map,
}
use supermemory_rs.Storage.State.{DocumentState, queued, indexing}
use supermemory_rs.Storage.Sql.{update_where, count_where, first_where, exists_where}
use supermemory_rs.Storage.Sql.Laws.{
  Among-exists, Among, All-among, All-update, Among-update, Among-update_miss, count-update_le,
  count_one, All-exists,
}
use supermemory_rs.Storage.Sql.Keys.{Distinct-update, All-both}
use supermemory_rs.Storage.Tables.{
  Document, JobKind, document, memory, Job, Db, is_active, is_processing, find_document, status_eq,
  kind_eq,
}
use supermemory_rs.Storage.Rows.{document_is, is_claimable}
use supermemory_rs.Storage.MemoryJobs.{stale_job}
use supermemory_rs.Storage.Recovery.{
  requeue_job, is_orphaned, is_interrupted, recover_jobs, recover_documents, recover,
}
use supermemory_rs.Storage.Invariant.{state_of, shown, IsCurrent, active_of, IsValidDb}
use supermemory_rs.Storage.Invariant.Updates.{active_of_intro, active_of_parts}
use supermemory_rs.Storage.Invariant.Held.{processing-active}
use supermemory_rs.Storage.Invariant.Rewrite.{stale_idle}
use supermemory_rs.Storage.Invariant.Stages.{state_of-Among}
use supermemory_rs.Storage.Protocol.Claim.{All-self}

queued_at : JobKind → Text → ℕ → Job → Bool
queued_at kind id revision j =
    text_eq j.document_id id
    && (j.revision == revision)
    && kind_eq j.kind kind
    && status_eq j.status queued

-- A document that is being processed shows `status` where a job of the kind is queued for it.
abbrev interrupted :
    JobKind
    → DocumentState
    → List Job
    → Text
    → Option (ℕ × DocumentState)
    → Option (ℕ × DocumentState)
interrupted kind status jobs id none = none
interrupted kind status jobs id (some (r, s)) =
    some (r, if exists_where (queued_at kind id r) jobs && is_processing s then status else s)

module _ {V : Type 0} (now : ℕ) (kind : JobKind) (jobs : List Job) (status : DocumentState) where
  interrupted_row :
      (d : Document V)
      → is_interrupted kind jobs d
        ≡ (exists_where (queued_at kind d.id d.revision) jobs && is_processing d.status)
  unfolding is_interrupted queued_at
  interrupted_row d = refl

  state_of-interrupted :
      (ds : List (Document V)) (k : Text)
      → state_of
          (update_where
            (is_interrupted kind jobs)
            (λ d. record d { status = status; updated_at = now })
            ds)
          k
        ≡ interrupted kind status jobs k (state_of ds k)
  unfolding state_of find_document first_where update_where
  state_of-interrupted [] k = refl
  state_of-interrupted (d ∷ ds) k = elim (Bool-cases (text_eq d.id k)) [
    | inl e ↦
        let same : d.id ≡ k = (text_eq_iff d.id k).0 e in
        let row : is_interrupted kind jobs d
            ≡ (exists_where (queued_at kind k d.revision) jobs && is_processing d.status) =
          rw (← same) (interrupted_row d) in
        ground (arith, row)
    | inr e ↦ ground (arith, state_of-interrupted ds k)
  ]

-- What the recovered row of an active job shows.
abbrev Requeued : {V : Type 0} → List (Document V) → Job → Type 0
Requeued ds j =
    is_active j.status ≡ true
    → (j.status ≡ queued)
      × (s : DocumentState) × (is_active s ≡ true)
      × (state_of ds j.document_id ≡ some (j.revision, shown j.kind s))

active_queued : (s : DocumentState) → is_processing s ≡ false → is_active s ≡ true → s ≡ queued
unfolding is_processing is_active
active_queued s h a = ground arith

pub queued_active : (s : DocumentState) → s ≡ queued → is_active s ≡ true
unfolding is_active
queued_active s e = rw e

module _ {V : Type 0} (now : ℕ) (db : Db V) (valid : IsValidDb db) where
  abbrev requeued : List Job
  requeued = update_where (λ j. is_processing j.status) (requeue_job now) db.jobs

  requeued-rows : All (Requeued db.documents) requeued
  unfolding requeue_job is_active
  requeued-rows =
      All-update _ _ _ (requeue_job now) db.jobs
        (λ k current hit _.
          let active = processing-active k.status hit in (refl, k.status, active, current active))
        (λ k current miss active.
          (active_queued k.status miss active, k.status, active, current active))
        valid.current

  recovered-rows : All (Requeued db.documents) (recover_jobs now db)
  unfolding recover_jobs is_active
  recovered-rows =
      All-update _ _ _ (stale_job now) requeued
        (λ (k : Job) (row : Requeued db.documents k) hit active. absurd (unfold stale_job in cc))
        (λ k row miss. row) requeued-rows

  recovered-single : (id : Text) → count_where (active_of id) (recover_jobs now db) ≤ 1
  unfolding recover_jobs
  recovered-single id = omega (
    arith,
    valid.single id,
    count-update_le (active_of id) (λ j. is_processing j.status) (requeue_job now) db.jobs
        (All-map _ _ (λ k _ hit after. requeued_active id k hit after) db.jobs valid.current),
    count-update_le (active_of id) (is_orphaned db.documents) (stale_job now) requeued
        (All-map _ _ (λ k _ hit after. absurd (stale_idle now id k after)) requeued requeued-rows),
  )
    where
      requeued_active :
          (id : Text) (k : Job)
          → is_processing k.status ≡ true
          → active_of id (requeue_job now k) ≡ true
          → active_of id k ≡ true
      requeued_active id k hit after =
          let at_id : text_eq k.document_id id ≡ true =
            unfold requeue_job in (active_of_parts id (requeue_job now k) after).0 in
          active_of_intro id k at_id (processing-active k.status hit)

kind_eq_self : (kind : JobKind) → kind_eq kind kind ≡ true
unfolding kind_eq
kind_eq_self document = refl
kind_eq_self memory = refl

queued_at_self :
    (kind : JobKind) (j : Job)
    → j.kind ≡ kind
    → j.status ≡ queued
    → queued_at kind j.document_id j.revision j ≡ true
unfolding queued_at kind_eq status_eq
queued_at_self kind j same queue =
    rw (same, queue) (ground (arith, text_eq_iff j.document_id j.document_id, kind_eq_self kind))

queued_at_parts :
    (kind : JobKind) (id : Text) (revision : ℕ) (j : Job)
    → queued_at kind id revision j ≡ true
    → (active_of id j ≡ true) × (j.kind ≡ kind)
unfolding queued_at active_of kind_eq status_eq is_active
queued_at_parts kind id revision j h = (ground arith, ground arith)

-- What the documents show after both statements.
abbrev twice : List Job → Text → Option (ℕ × DocumentState) → Option (ℕ × DocumentState)
twice jobs id o = interrupted memory indexing jobs id (interrupted document queued jobs id o)

document_twice :
    (jobs : List Job) (id : Text) (r : ℕ) (s : DocumentState)
    → exists_where (queued_at document id r) jobs ≡ true
    → is_active s ≡ true
    → twice jobs id (some (r, s)) ≡ some (r, queued)
unfolding is_active is_processing
document_twice jobs id r s here active = ground arith

memory_twice :
    (jobs : List Job) (id : Text) (r : ℕ)
    → exists_where (queued_at document id r) jobs ≡ false
    → twice jobs id (some (r, indexing)) ≡ some (r, indexing)
unfolding is_processing
memory_twice jobs id r none_here = ground arith

module _ {V : Type 0} (now : ℕ) (db : Db V) (valid : IsValidDb db) where
  abbrev jobs_after : List Job
  jobs_after = recover_jobs now db

  documents_after :
      (k : Text)
      → state_of (recover_documents now jobs_after db.documents) k
        ≡ twice jobs_after k (state_of db.documents k)
  unfolding recover_documents
  documents_after k = rw (
    state_of-interrupted now memory jobs_after indexing,
    state_of-interrupted now document jobs_after queued,
  )

  -- A queued document job and a queued memory job are not of one document.
  no_document_job :
      (j : Job)
      → Among j jobs_after
      → j.kind ≡ memory
      → is_active j.status ≡ true
      → exists_where (queued_at document j.document_id j.revision) jobs_after ≡ false
  no_document_job j among same active = All-exists _ jobs_after (
      All-map _ _
        (λ k only. other k only (Bool-cases (queued_at document j.document_id j.revision k)))
        jobs_after
        (count_one (active_of j.document_id) j jobs_after
          (recovered-single now db valid j.document_id) among
          (active_of_intro j.document_id j ((text_eq_iff j.document_id j.document_id).1 refl)
            active)))
    where
      other :
          (k : Job)
          → (active_of j.document_id k ≡ true → k ≡ j)
          → (queued_at document j.document_id j.revision k ≡ true)
            ⊎ (queued_at document j.document_id j.revision k ≡ false)
          → queued_at document j.document_id j.revision k ≡ false
      other k only (inr e) = e
      other k only (inl e) =
          let (active_k, kind_k) = queued_at_parts document j.document_id j.revision k e in
          absurd (cc (ap (λ x. x.kind) (only active_k), kind_k, same))

  shows_kind :
      (kind : JobKind) (j : Job) (s : DocumentState)
      → j.kind ≡ kind
      → Among j jobs_after
      → is_active j.status ≡ true
      → j.status ≡ queued
      → is_active s ≡ true
      → state_of db.documents j.document_id ≡ some (j.revision, shown kind s)
      → state_of (recover_documents now jobs_after db.documents) j.document_id
        ≡ some (j.revision, shown kind j.status)
  shows_kind document j s same among active queue active_s before =
      rw (documents_after j.document_id, before, queue)
        (document_twice jobs_after j.document_id j.revision s
          (Among-exists _ j jobs_after among (queued_at_self document j same queue)) active_s)
  shows_kind memory j s same among active queue active_s before =
      rw (documents_after j.document_id, before)
        (memory_twice jobs_after j.document_id j.revision (no_document_job j among same active))

  recovered-IsCurrent :
      (j : Job)
      → Requeued db.documents j
      → Among j jobs_after
      → IsCurrent (recover_documents now jobs_after db.documents) j
  recovered-IsCurrent j row among active =
      let (queue, s, active_s, before) = row active in
      shows_kind j.kind j s refl among active queue active_s before

  -- Recovery keeps a valid database valid.
  pub recover-IsValid : IsValidDb (recover now db)
  unfolding recover
  recover-IsValid = record {
    current =
        All-map _ _ (λ j both. recovered-IsCurrent j both.0 both.1) jobs_after
          (All-both _ _ jobs_after (recovered-rows now db valid) (All-self jobs_after));
    single = recovered-single now db valid;
    distinct =
        unfold recover_jobs stale_job requeue_job in
        Distinct-update _ _ (stale_job now) _ (λ k. refl)
          (Distinct-update _ _ (requeue_job now) db.jobs (λ k. refl) valid.distinct);
    documents_distinct =
        unfold recover_documents in
        Distinct-update _ _ _ _ (λ d. refl)
          (Distinct-update _ _ _ db.documents (λ d. refl) valid.documents_distinct);
  }

  current_exists :
      (j : Job) {s : DocumentState}
      → state_of db.documents j.document_id ≡ some (j.revision, s)
      → exists_where (document_is j.document_id j.revision) db.documents ≡ true
  unfolding document_is
  current_exists j shows =
      let (d, among, same, revision, _) =
        state_of-Among db.documents j.document_id j.revision _ shows in
      Among-exists _ d db.documents among (ground arith)

  -- An interrupted job is no orphan.
  kept_job :
      (j : Job)
      → Among j db.jobs
      → is_processing j.status ≡ true
      → Among (requeue_job now j) jobs_after
  unfolding recover_jobs requeue_job is_orphaned
  kept_job j among busy =
      let current = All-among _ j db.jobs valid.current among (processing-active j.status busy) in
      Among-update_miss _ (stale_job now) (requeue_job now j) requeued_jobs
        (Among-update _ (requeue_job now) j db.jobs among busy)
        (ground (arith, current_exists j current))
    where
      requeued_jobs : List Job
      requeued_jobs = update_where (λ k. is_processing k.status) (requeue_job now) db.jobs

  claimable_again :
      (j : Job)
      → j.status ≡ queued
      → j.available_at ≡ now
      → IsCurrent (recover_documents now jobs_after db.documents) j
      → is_claimable now j.kind (recover_documents now jobs_after db.documents) j ≡ true
  unfolding is_claimable state_of status_eq
  claimable_again j queue due current =
      let shows = current (queued_active j.status queue) in
      rw queue (ground (arith, kind_eq_self j.kind, shows))

  -- After recovery every interrupted job of a valid database, of a document or of memories, is
  -- queued again and can be claimed at once.
  pub recover-claimable :
      (j : Job)
      → Among j db.jobs
      → is_processing j.status ≡ true
      → Among (requeue_job now j) (recover now db).jobs
        × (is_claimable now j.kind (recover now db).documents (requeue_job now j) ≡ true)
  unfolding recover
  recover-claimable j among busy =
      let kept = kept_job j among busy in
      (
        kept,
        unfold requeue_job in
            claimable_again (requeue_job now j) refl refl
              (All-among _ (requeue_job now j) jobs_after recover-IsValid.current kept),
      )
