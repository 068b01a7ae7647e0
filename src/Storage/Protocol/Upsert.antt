-- ===== src/Storage/Protocol/Upsert.antt =====
-- `upsert_document_for` leaves every good claim good.
use supermemory_rs.Prelude.{
  ℕ, Text, text_eq, text_eq_iff, Bool, true, false, ◌≡◌, ◌≢◌, refl, inl, inr, List, [], ◌∷◌, ◌++◌,
  Option, none, some, Result, ok, err, OnOk, if◌then◌else◌, arith, Bool-cases, Option-cases,
}
use supermemory_rs.Storage.State.{DocumentState, queued, failed, indexing}
use supermemory_rs.Storage.Sql.{update_where, first_where, exists_where}
use supermemory_rs.Storage.Sql.Laws.{All-among}
use supermemory_rs.Storage.Tables.{
  Document, Metadata, Job, Db, document, StorageError, constraint, find_document, revision_of,
  status_eq, job_conflicts,
}
use supermemory_rs.Storage.Rows.{insert_job, new_job}
use supermemory_rs.Storage.MemoryJobs.{stale_job}
use supermemory_rs.Storage.Upsert.{
  UpsertDocument, UpsertResult, is_outdated_memory_job, has_active_document_job,
  enqueue_unless_active, update_full, requeue, merge_metadata, apply_existing, metadata_equivalent,
  new_document, insert_new, settle, upsert_document_for, find_existing, sanitize_content,
}
use supermemory_rs.Storage.Invariant.{state_of, shown, IsValidDb}
use supermemory_rs.Storage.Invariant.Held.{processing-active}
use supermemory_rs.Storage.Invariant.Rewrite.{documents', bumped, state_after}
use supermemory_rs.Storage.Invariant.Upsert.{meta-state_of}
use supermemory_rs.Storage.Protocol.Claim.{
  Claim, Holds, Holds-miss, IsPast, Matches-update, IsGood, IsGood-Matches, IsGoodDb, IsGood-append,
}

bumped-IsPast :
    (id k : Text) (o : Option (ℕ × DocumentState)) (r : ℕ)
    → IsPast o r
    → IsPast (if text_eq k id then bumped o else o) r
bumped-IsPast id k none r past = ground arith
bumped-IsPast id k (some (x, s)) r past = ground arith

outdated_id :
    (id : Text) (current : Option ℕ) (k : Job)
    → text_eq k.document_id id ≡ false
    → is_outdated_memory_job id current k ≡ false
unfolding is_outdated_memory_job
outdated_id id current k other = ground arith

module _ {V : Type 0} (now : ℕ) (job_id : Text) (input : UpsertDocument V) (hash : Text) (db : Db V)
    (valid : IsValidDb db) (c : Claim) (fresh : c.id ≢ job_id) (good : IsGoodDb db c) where
  module _ (id : Text) (metadata : Metadata V) (idle : has_active_document_job id db ≡ false) where
    -- The rewrite of its own document puts a claim behind.
    rewritten-IsPast :
        (held : Holds db.jobs c)
        → c.document_id ≡ id
        → IsPast
            (state_of (documents' now id input hash metadata db valid idle) c.document_id)
            c.revision
    rewritten-IsPast held same =
        let shows =
          All-among _ held.row db.jobs valid.current held.among
            (processing-active _ held.processing) in
        let before : state_of db.documents id
            ≡ some (c.revision, shown held.row.kind held.row.status) =
          rw (held.same_document, held.same_revision, same) at shows in
        rw (same, state_after now id input hash metadata db valid idle id)
          (rw ((text_eq_iff id id).1 refl, before) (omega arith))

    updated-IsGood : IsGoodDb (update_full now id input hash metadata queued db) c
    unfolding update_full documents' stale_job
    updated-IsGood = elim good [
      | inr gone ↦ inr (record {
        past = rw (state_after now id input hash metadata db valid idle c.document_id) (
            bumped-IsPast id c.document_id (state_of db.documents c.document_id) c.revision
              gone.past);
        matches =
            Matches-update c _ (stale_job now) db.jobs (λ k. refl) (λ k. refl) (λ k. refl)
              gone.matches;
      })
      | inl held ↦ elim (Bool-cases (text_eq c.document_id id)) [
        | inl e ↦ inr (record {
          past = rewritten-IsPast held ((text_eq_iff c.document_id id).0 e);
          matches =
              Matches-update c _ (stale_job now) db.jobs (λ k. refl) (λ k. refl) (λ k. refl)
                (IsGood-Matches db.documents db.jobs c valid (inl held));
        })
        | inr e ↦ inl (
            Holds-miss db.jobs c _ (stale_job now) held
              (outdated_id id _ held.row (rw held.same_document e)))
      ]
    ]

  enqueued-IsGood :
      (id : Text) (x : Db V)
      → IsGoodDb x c
      → OnOk (λ r. IsGoodDb r.1 c) (enqueue_unless_active now job_id id x)
  unfolding enqueue_unless_active insert_job new_job
  enqueued-IsGood id x good' = elim (Bool-cases (has_active_document_job id x)) [
    | inl e ↦ rw e good'
    | inr e ↦ elim (Option-cases (revision_of x.documents id)) [
      | inl missing ↦ rw (e, missing, enqueue_unless_active) tt
      | inr (revision, at_revision) ↦
          elim (Bool-cases
            (exists_where (job_conflicts (new_job now job_id id document revision)) x.jobs)) [
              | inl clash ↦ rw (e, at_revision, clash, enqueue_unless_active) tt
              | inr free ↦
                  rw (e, at_revision, free, enqueue_unless_active)
                    (IsGood-append x.documents x.documents x.jobs
                      (new_job now job_id id document revision) c fresh (λ past. past) good')
            ]
    ]
  ]

  settled-IsGood :
      {A : Type 0} (r : Result StorageError (A × Db V))
      → OnOk (λ x. IsGoodDb x.1 c) r
      → IsGoodDb (settle db r).1 c
  unfolding settle
  settled-IsGood (ok (a, db')) h = h
  settled-IsGood (err e) h = good

  requeued-IsGood :
      (id : Text) (metadata : Metadata V)
      → has_active_document_job id db ≡ false
      → IsGoodDb (settle db (requeue now job_id id input hash metadata db)).1 c
  unfolding requeue
  requeued-IsGood id metadata idle = settled-IsGood (requeue now job_id id input hash metadata db) (
      relay (enqueue_unless_active now job_id id updated)
        (enqueued-IsGood id updated (updated-IsGood id metadata idle)))
    where
      updated : Db V
      updated = update_full now id input hash metadata queued db

      relay :
          (r : Result StorageError (Bool × Db V))
          → OnOk (λ x. IsGoodDb x.1 c) r
          → OnOk
              (λ (x : UpsertResult × Db V). IsGoodDb x.1 c)
              (let out : Result StorageError (UpsertResult × Db V) = elim r [
                | err e ↦ err e
                | ok (enqueued, db') ↦
                    ok (record { id = id; status = queued; enqueued = enqueued }, db')
              ] in
                out)
      relay (ok (enqueued, db')) h = h
      relay (err e) h = tt

  -- Metadata is no part of a document's state.
  meta-IsGood :
      (id : Text) (metadata : Metadata V)
      → IsGood
          (update_where
            (λ d. text_eq d.id id)
            (λ d. record d { metadata = metadata; updated_at = now })
            db.documents)
          db.jobs
          c
  meta-IsGood id metadata = elim good [
    | inl held ↦ inl held
    | inr gone ↦ inr (record {
      past = rw (meta-state_of now id metadata db.documents c.document_id) gone.past;
      matches = gone.matches;
    })
  ]

  module _ (to_string : Metadata V → Option Text) where
    existing-IsGood :
        (existing : Document V)
        → IsGoodDb (settle db (apply_existing to_string now job_id existing input hash db)).1 c
    unfolding apply_existing settle
    existing-IsGood existing =
        let again = requeued-IsGood existing.id (merge_metadata existing.metadata input.metadata) in
        elim (Bool-cases (has_active_document_job existing.id db)) [
          | inl busy ↦ rw (busy, settle, apply_existing) good
          | inr idle ↦ elim (Bool-cases (status_eq existing.status failed)) [
            | inl e ↦ rw (idle, e, settle, apply_existing) (again idle)
            | inr e ↦ elim (Bool-cases (text_eq existing.content_hash hash)) [
              | inr changed ↦ rw (idle, e, changed, settle, apply_existing) (again idle)
              | inl kept ↦
                  elim (Bool-cases
                    (metadata_equivalent to_string existing.metadata input.metadata)) [
                      | inl equal ↦ rw (idle, e, kept, equal, settle, apply_existing) good
                      | inr differs ↦ elim (Bool-cases (status_eq existing.status indexing)) [
                        | inl stuck ↦
                            rw (idle, e, kept, differs, stuck, settle, apply_existing) (again idle)
                        | inr free ↦
                            rw (idle, e, kept, differs, free, settle, apply_existing)
                              (meta-IsGood existing.id
                                (merge_metadata existing.metadata input.metadata))
                      ]
                    ]
            ]
          ]
        ]

  -- A document with another id leaves the state of a document alone.
  state_of-append :
      (ds : List (Document V)) (new : Document V) (k : Text)
      → text_eq new.id k ≡ false
      → state_of (ds ++ new ∷ []) k ≡ state_of ds k
  unfolding state_of find_document first_where
  state_of-append [] new k other = ground arith
  state_of-append (d ∷ ds) new k other = ground (arith, state_of-append ds new k other)

  module _ (id : Text) (new_id : text_eq id c.document_id ≡ false) where
    inserted-IsGood : (new : Document V) → new.id ≡ id → IsGood (db.documents ++ new ∷ []) db.jobs c
    inserted-IsGood new same = elim good [
      | inl held ↦ inl held
      | inr gone ↦ inr (record {
        past = rw (state_of-append db.documents new c.document_id (rw same new_id)) gone.past;
        matches = gone.matches;
      })
    ]

    new-IsGood :
        (org_id : Text) → IsGoodDb (settle db (insert_new now id job_id org_id input hash db)).1 c
    unfolding insert_new new_document
    new-IsGood org_id = settled-IsGood (insert_new now id job_id org_id input hash db) (
        choose (exists_where (λ d. text_eq d.id id) db.documents)
          (enqueue_unless_active now job_id id inserted)
          (enqueued-IsGood id inserted
            (inserted-IsGood (new_document now id org_id input hash) refl)))
      where
        inserted : Db V
        inserted = record db {
          documents = db.documents ++ new_document now id org_id input hash ∷ [];
        }

        choose :
            (clash : Bool) (r : Result StorageError (Bool × Db V))
            → OnOk (λ x. IsGoodDb x.1 c) r
            → OnOk
                (λ (x : UpsertResult × Db V). IsGoodDb x.1 c)
                (let out : Result StorageError (UpsertResult × Db V) =
                    if clash then err constraint else elim r [
                      | err e ↦ err e
                      | ok (_, db') ↦ ok (record { id = id; status = queued; enqueued = true }, db')
                    ] in
                  out)
        choose true r h = tt
        choose false (ok (enqueued, db')) h = h
        choose false (err e) h = tt

-- An upsert, with generated ids that no claim names, leaves a good claim good.
pub upsert-IsGood :
    {V : Type 0} (to_string : Metadata V → Option Text) (content_hash : Text → Text) (now : ℕ)
    (id job_id org_id : Text) (given : UpsertDocument V) (db : Db V) (c : Claim)
    → IsValidDb db
    → c.id ≢ job_id
    → text_eq id c.document_id ≡ false
    → IsGoodDb db c
    → IsGoodDb (upsert_document_for to_string content_hash now id job_id org_id given db).1 c
unfolding upsert_document_for
upsert-IsGood to_string content_hash now id job_id org_id given db c valid fresh new_id good =
    let input = record given { content = sanitize_content given.content } in
    let hash = content_hash input.content in
    elim (Option-cases (find_existing to_string content_hash org_id input db.documents)) [
      | inl e ↦
          rw (e, upsert_document_for)
            (new-IsGood now job_id input hash db valid c fresh good id new_id org_id)
      | inr (d, e) ↦
          rw (e, upsert_document_for)
            (existing-IsGood now job_id input hash db valid c fresh good to_string d)
    ]
