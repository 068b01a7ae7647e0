-- ===== src/Storage/Invariant/Held.antt =====
-- The operations of a worker on the job that it holds keep the invariant.
use supermemory_rs.Prelude.{
  ℕ, Text, text_eq, Bool, true, false, ◌≡◌, ◌⊎◌, inl, inr, List, arith, Bool-cases, All, All-map,
  ap,
}
use supermemory_rs.Storage.State.{DocumentState}
use supermemory_rs.Storage.Sql.{update_where}
use supermemory_rs.Storage.Sql.Laws.{Among}
use supermemory_rs.Storage.Sql.Keys.{Distinct-key}
use supermemory_rs.Storage.Tables.{Document, JobKind, Job, is_active, is_processing}
use supermemory_rs.Storage.Rows.{set_document_status}
use supermemory_rs.Storage.Invariant.{shown, IsValid}
use supermemory_rs.Storage.Invariant.Updates.{focus-IsValid}

-- A job that a worker holds: its row, of this kind, is being processed.
pub record IsHeld (jobs : List Job) (id document_id : Text) (revision : ℕ) (kind : JobKind)
    : Type 0 where
  pub row : Job
  pub among : Among row jobs
  pub same_id : row.id ≡ id
  pub same_document : row.document_id ≡ document_id
  pub same_revision : row.revision ≡ revision
  pub same_kind : row.kind ≡ kind
  pub processing : is_processing row.status ≡ true

pub processing-active : (s : DocumentState) → is_processing s ≡ true → is_active s ≡ true
unfolding is_processing is_active
processing-active s h = ground arith

module _ {V : Type 0} (ds : List (Document V)) {js : List Job} {id document_id : Text}
    {revision : ℕ} {kind : JobKind} (valid : IsValid ds js)
    (held : IsHeld js id document_id revision kind) (p : Job → Bool)
    (alone : (k : Job) → p k ≡ true → text_eq k.id id ≡ true) where
  -- A statement on the primary key of a held job meets its row or no row.
  pub held_or_none : (p held.row ≡ true) ⊎ All (λ k. p k ≡ false) js
  held_or_none = elim (Bool-cases (p held.row)) [
    | inl e ↦ inl e
    | inr e ↦ inr (
        All-map _ _ (λ k key. missed k key e) js
          (Distinct-key _ held.row js valid.distinct held.among))
  ]
    where
      missed :
          (k : Job)
          → (text_eq k.id held.row.id ≡ true → k ≡ held.row)
          → p held.row ≡ false
          → p k ≡ false
      missed k key e = elim (Bool-cases (p k)) [
        | inl hit ↦
            let same : k ≡ held.row = key (rw held.same_id (alone k hit)) in
            absurd (cc (e, hit, ap p same))
        | inr miss ↦ miss
      ]

  pub focus_held :
      (f : Job → Job) (status : DocumentState)
      → p held.row ≡ true
      → ((k : Job) → (f k).id ≡ k.id)
      → ((k : Job) → (f k).document_id ≡ k.document_id)
      → ((k : Job) → (f k).revision ≡ k.revision)
      → (is_active (f held.row).status ≡ true
          → shown (f held.row).kind (f held.row).status ≡ status)
      → (now : ℕ)
      → IsValid (set_document_status now document_id revision status ds) (update_where p f js)
  focus_held f status hit keeps_id keeps_document keeps_revision matches now =
      rw (← held.same_document, ← held.same_revision)
        (focus-IsValid ds js held.row p f valid held.among
          (processing-active held.row.status held.processing) status
          (record {
            hits = hit;
            alone = λ k h. rw held.same_id (alone k h);
            keeps_id = keeps_id;
            keeps_document = keeps_document held.row;
            keeps_revision = keeps_revision held.row;
            matches = matches;
          })
          now)
