-- ===== src/Storage/Protocol/Replace.antt =====
-- What a publication of crates/storage/src/document_jobs.rs leaves in the tables of chunks and vectors.
use supermemory_rs.Prelude.{
  ℕ, ◌+◌, Text, Bool, true, false, ◌≡◌, refl, sym, ap, ◌∙◌, inl, inr, List, [], ◌∷◌, ◌++◌, Option,
  none, some, Result, ok, err, OnOk, Bool-cases, Result-cases,
}
use mathlib.Core.List.{flat_map, append_assoc, append-nil}
use supermemory_rs.Storage.Sql.{exists_where, delete_where, update_where}
use supermemory_rs.Storage.Tables.{
  ClaimedJob, Chunk, ChunkEmbedding, Db, StorageError, Job, memory, job_conflicts, revision_of,
}
use supermemory_rs.Storage.Rows.{delete_chunks, insert_job, revision_is, new_job}
use supermemory_rs.Storage.Protocol.Without.{Without, IsStray, deleted-chunks, deleted-embeddings}
use supermemory_rs.Storage.Publish.{
  Float32, EmbeddedChunk, StableIds, stable_id_or, new_chunk, new_embedding, chunk_conflicts,
  is_key, existing_ids, publish_chunks, finish_publication, is_held, finish_job, publish_job,
}

module _ (f : Float32) where
  -- The rows are those of the document for the given chunks, in their order and numbered from `n`.
  abbrev pub IsCopy : ℕ → Text → List (EmbeddedChunk f.F) → List Chunk → Type 0
  IsCopy n document_id [] [] = Unit
  IsCopy n document_id [] (k ∷ ks) = ⊥
  IsCopy n document_id (c ∷ cs) [] = ⊥
  IsCopy n document_id (c ∷ cs) (k ∷ ks) =
      (k.document_id ≡ document_id)
      × (k.ordinal ≡ n)
      × (k.content ≡ c.content)
      × IsCopy (n + 1) document_id cs ks

  -- The vectors of the given chunks under the rows' ids.
  abbrev vectors_of :
      Option (Text × ℕ) → List (EmbeddedChunk f.F) → List Chunk → List ChunkEmbedding
  vectors_of model [] ks = []
  vectors_of model (c ∷ cs) [] = []
  vectors_of model (c ∷ cs) (k ∷ ks) = new_embedding f k.id model c.vector ++ vectors_of model cs ks

  -- What is added to the tables.
  abbrev Adds :
      ℕ
      → Text
      → Option (Text × ℕ)
      → List (EmbeddedChunk f.F)
      → List Chunk × List ChunkEmbedding
      → List Chunk × List ChunkEmbedding
      → Type 0
  Adds n document_id model cs before after =
      (new : List Chunk) × (after.0 ≡ before.0 ++ new)
      × IsCopy n document_id cs new
      × (after.1 ≡ before.1 ++ vectors_of model cs new)

  publish_chunks-Adds :
      (chunk_ids : ℕ → Text) (document_id : Text) (model : Option (Text × ℕ)) (n : ℕ)
      (cs : List (EmbeddedChunk f.F)) (existing : StableIds)
      (before : List Chunk × List ChunkEmbedding)
      → OnOk
          (Adds n document_id model cs before)
          (publish_chunks f chunk_ids document_id model n cs existing before)
  unfolding publish_chunks new_chunk
  publish_chunks-Adds chunk_ids document_id model n [] existing (chunks, vectors) =
      ([], sym (append-nil chunks), tt, sym (append-nil vectors))
  publish_chunks-Adds chunk_ids document_id model n (c ∷ cs) existing (chunks, vectors) =
      elim (Bool-cases (exists_where (chunk_conflicts row) chunks)) [
        | inl e ↦ rw e tt
        | inr e ↦
            rw e (longer rest (publish_chunks-Adds chunk_ids document_id model (n + 1) cs _ _))
      ]
    where
      row : Chunk
      row =
          new_chunk document_id n c.content (stable_id_or n c.content (chunk_ids n) existing) chunks

      rest : Result StorageError (List Chunk × List ChunkEmbedding)
      rest =
          publish_chunks f chunk_ids document_id model (n + 1) cs
            (delete_where (is_key n c.content) existing)
            (chunks ++ row ∷ [], vectors ++ new_embedding f row.id model c.vector)

      longer :
          (r : Result StorageError (List Chunk × List ChunkEmbedding))
          → OnOk
              (Adds
                (n + 1)
                document_id
                model
                cs
                (chunks ++ row ∷ [], vectors ++ new_embedding f row.id model c.vector))
              r
          → OnOk (Adds n document_id model (c ∷ cs) (chunks, vectors)) r
      longer (err e) h = tt
      longer (ok after) (new, rows, copy, vecs) = (
        row ∷ new,
        rows ∙ append_assoc chunks (row ∷ []) new,
        (refl, refl, refl, copy),
        vecs
            ∙ append_assoc vectors (new_embedding f row.id model c.vector)
                (vectors_of model cs new),
      )

  -- The vectors of the given chunks: one under each row's id, where a model is named.
  abbrev pub AreVectors :
      Option (Text × ℕ) → List (EmbeddedChunk f.F) → List Chunk → List ChunkEmbedding → Type 0
  AreVectors none cs ks vs = vs ≡ []
  AreVectors (some model) [] ks vs = vs ≡ []
  AreVectors (some model) (c ∷ cs) [] vs = vs ≡ []
  AreVectors (some model) (c ∷ cs) (k ∷ ks) [] = ⊥
  AreVectors (some model) (c ∷ cs) (k ∷ ks) (v ∷ vs) =
      (v.chunk_id ≡ k.id)
      × (v.model_id ≡ model.0)
      × (v.dimensions ≡ model.1)
      × (v.vector ≡ flat_map f.to_le_bytes c.vector)
      × AreVectors (some model) cs ks vs

  vectors_of-AreVectors :
      (model : Option (Text × ℕ)) (cs : List (EmbeddedChunk f.F)) (ks : List Chunk)
      → AreVectors model cs ks (vectors_of model cs ks)
  unfolding new_embedding
  vectors_of-AreVectors none [] ks = refl
  vectors_of-AreVectors none (c ∷ cs) [] = refl
  vectors_of-AreVectors none (c ∷ cs) (k ∷ ks) = vectors_of-AreVectors none cs ks
  vectors_of-AreVectors (some model) [] ks = refl
  vectors_of-AreVectors (some model) (c ∷ cs) [] = refl
  vectors_of-AreVectors (some model) (c ∷ cs) (k ∷ ks) =
      (refl, refl, refl, refl, vectors_of-AreVectors (some model) cs ks)

  -- The rows of the other documents stay with their vectors, and the given chunks follow with theirs.
  pub record IsReplaced {V : Type 0} (document_id : Text) (model : Option (Text × ℕ))
      (cs : List (EmbeddedChunk f.F)) (before after : Db V) : Type 0 where
    pub others : List Chunk
    pub other_vectors : List ChunkEmbedding
    pub new : List Chunk
    pub new_vectors : List ChunkEmbedding
    pub without : Without (λ (c : Chunk). c.document_id ≡ document_id) before.chunks others
    pub vectors_without : Without (IsStray others) before.embeddings other_vectors
    pub rows : after.chunks ≡ others ++ new
    pub copy : IsCopy 0 document_id cs new
    pub vectors : after.embeddings ≡ other_vectors ++ new_vectors
    pub of_new : AreVectors model cs new new_vectors

module _ (f : Float32) {V : Type 0} (now : ℕ) (chunk_ids : ℕ → Text) (job_id : Text)
    (job : ClaimedJob) (db : Db V) where
  finish-tables :
      (schedule : Bool) (x : Db V)
      → OnOk
          (λ db'. (db'.chunks ≡ x.chunks) × (db'.embeddings ≡ x.embeddings))
          (finish_publication now job_id job schedule x)
  unfolding finish_publication insert_job
  finish-tables false x = (refl, refl)
  finish-tables true x = elim (Bool-cases (exists_where (job_conflicts memory_job) finished_jobs)) [
    | inl e ↦ rw e tt
    | inr e ↦ rw e (refl, refl)
  ]
    where
      memory_job : Job
      memory_job = new_job now job_id job.document_id memory job.revision

      finished_jobs : List Job
      finished_jobs = update_where (is_held job.id job.revision) (finish_job now) x.jobs

  publish_job-grows :
      (chunks : List (EmbeddedChunk f.F)) (model : Option (Text × ℕ)) (schedule : Bool) (db' : Db V)
      → publish_job f now chunk_ids job_id job chunks model schedule db ≡ (ok tt, db')
      → Adds f 0 job.document_id model chunks
          ((delete_chunks job.document_id db).chunks, (delete_chunks job.document_id db).embeddings)
          (db'.chunks, db'.embeddings)
  unfolding publish_job
  publish_job-grows chunks model schedule db' e =
      elim (Bool-cases (revision_is (revision_of db.documents job.document_id) job.revision)) [
        | inr stale ↦ absurd (refused (rw (stale, publish_job) at e))
        | inl current ↦ elim (Result-cases published) [
          | inr (x, failed) ↦ absurd (refused (rw (current, failed, publish_job) at e))
          | inl (tables, wrote) ↦
              let x : Db V = record db { chunks = tables.0; embeddings = tables.1 } in
              elim (Result-cases (finish_publication now job_id job schedule x)) [
                | inr (y, failed) ↦ absurd (refused (rw (current, wrote, failed, publish_job) at e))
                | inl (out, finished) ↦
                    let same : out ≡ db' =
                      ap (λ (r : Result StorageError (Unit {0}) × Db V). r.1)
                        (rw (current, wrote, finished, publish_job) at e) in
                    added tables
                      (rw wrote at (
                        publish_chunks-Adds f chunk_ids job.document_id model 0 chunks
                          (existing_ids job.document_id db.chunks [])
                          (cleared.chunks, cleared.embeddings)))
                      (rw same at (rw finished at (finish-tables schedule x)))
              ]
        ]
      ]
    where
      cleared : Db V
      cleared = delete_chunks job.document_id db

      published : Result StorageError (List Chunk × List ChunkEmbedding)
      published =
          publish_chunks f chunk_ids job.document_id model 0 chunks
            (existing_ids job.document_id db.chunks []) (cleared.chunks, cleared.embeddings)

      refused :
          {x : StorageError} {d : Db V}
          → ◌≡◌ {A = Result StorageError (Unit {0}) × Db V} (err x, d) (ok tt, db')
          → ⊥
      refused h = cc (ap (λ (r : Result StorageError (Unit {0}) × Db V). r.0) h)

      added :
          (tables : List Chunk × List ChunkEmbedding)
          → Adds f 0 job.document_id model chunks (cleared.chunks, cleared.embeddings) tables
          → (db'.chunks ≡ tables.0) × (db'.embeddings ≡ tables.1)
          → Adds f 0 job.document_id model chunks
              (cleared.chunks, cleared.embeddings)
              (db'.chunks, db'.embeddings)
      added tables (new, rows, copy, vecs) (same_chunks, same_vectors) =
          (new, same_chunks ∙ rows, copy, same_vectors ∙ vecs)

  -- A publication that succeeds replaces the chunks of its document: the rows of all other documents
  -- stay, with every vector of theirs and no other, and after them stand the given chunks as rows of
  -- the document, in order and numbered from zero, each with the bytes of its vector under the row's
  -- id, with the model and its dimensions, where a model is named.
  pub publish_job-Adds :
      (chunks : List (EmbeddedChunk f.F)) (model : Option (Text × ℕ)) (schedule : Bool) (db' : Db V)
      → publish_job f now chunk_ids job_id job chunks model schedule db ≡ (ok tt, db')
      → IsReplaced f job.document_id model chunks db db'
  publish_job-Adds chunks model schedule db' e =
      let (new, rows, copy, vectors) = publish_job-grows chunks model schedule db' e in
      record {
        others = (delete_chunks job.document_id db).chunks;
        other_vectors = (delete_chunks job.document_id db).embeddings;
        new = new;
        new_vectors = vectors_of f model chunks new;
        without = deleted-chunks job.document_id db;
        vectors_without = deleted-embeddings job.document_id db;
        rows = rows;
        copy = copy;
        vectors = vectors;
        of_new = vectors_of-AreVectors f model chunks new;
      }
