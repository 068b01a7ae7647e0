-- ===== src/Storage/Documents.antt =====
-- crates/storage/src/documents.rs: finding, listing and deleting the documents of an organization,
-- and reading their chunks. The rows that `find_document_for` returns are whole.
use supermemory_rs.Prelude.{
  ℕ, Text, text_eq, Bool, true, false, ◌&&◌, List, [], ◌∷◌, Option, none, some, Result, ok, leb,
  ltb, ◌==◌, ◌||◌, if◌then◌else◌, take, drop, map,
}
use supermemory_rs.Storage.Sql.{delete_where, select_where, first_where}
use supermemory_rs.Storage.Tables.{Document, Chunk, Db, StorageError}
use supermemory_rs.Storage.Rows.{cascade_document}

-- `none` is SQL's NULL, which is equal to nothing.
unfoldable pub column_is : Option Text → Text → Bool
column_is none value = false
column_is (some t) value = text_eq t value

unfoldable pub has_tag : Text → List Text → Bool
has_tag tag [] = false
has_tag tag (t ∷ ts) = text_eq t tag || has_tag tag ts

pub record DocumentChunk : Type 0 where
  pub id : Text
  pub content : Text
  pub ordinal : ℕ

-- ORDER BY ordinal, id
unfoldable pub insert_chunk : Chunk → List Chunk → List Chunk
insert_chunk c [] = c ∷ []
insert_chunk c (k ∷ ks) =
    if ltb c.ordinal k.ordinal || ((c.ordinal == k.ordinal) && leb c.id k.id)
    then c ∷ k ∷ ks
    else k ∷ insert_chunk c ks

unfoldable pub by_ordinal : List Chunk → List Chunk
unfolding insert_chunk
by_ordinal [] = []
by_ordinal (c ∷ cs) = insert_chunk c (by_ordinal cs)

module _ {V : Type 0} where
  -- org_id=?1 AND id=?2
  unfoldable pub has_id : Text → Text → Document V → Bool
  has_id org_id identifier d = text_eq d.org_id org_id && text_eq d.id identifier

  -- org_id=?1 AND custom_id=?2
  unfoldable pub has_custom_id : Text → Text → Document V → Bool
  unfolding column_is
  has_custom_id org_id identifier d = text_eq d.org_id org_id && column_is d.custom_id identifier

  unfoldable pub find_document_for : Text → Text → Db V → Option (Document V)
  unfolding has_id has_custom_id
  find_document_for org_id identifier db =
      elim (first_where (has_id org_id identifier) db.documents) [
        | some found ↦ some found
        | none ↦ first_where (has_custom_id org_id identifier) db.documents
      ]

  -- WHERE org_id=?1 AND (id=?2 OR custom_id=?2) ORDER BY CASE WHEN id=?2 THEN 0 ELSE 1 END, rowid
  -- LIMIT 1: of the rows that match, the first by its id, or else the first.
  unfoldable pub matches_identifier : Text → Text → Document V → Bool
  unfolding column_is
  matches_identifier org_id identifier d =
      text_eq d.org_id org_id && (text_eq d.id identifier || column_is d.custom_id identifier)

  unfoldable pub identified : Text → Text → List (Document V) → Option Text
  unfolding matches_identifier
  identified org_id identifier documents =
      let rows = select_where (matches_identifier org_id identifier) documents in
      elim (first_where (λ d. text_eq d.id identifier) rows) [
        | some d ↦ some d.id
        | none ↦ elim (first_where (λ d. true) rows) [ none ↦ none | some d ↦ some d.id ]
      ]

  unfoldable pub delete_document_for : Text → Text → Db V → Result StorageError Bool × Db V
  unfolding identified has_id cascade_document
  delete_document_for org_id identifier db = elim (identified org_id identifier db.documents) [
    | none ↦ (ok false, db)
    | some id ↦ (
      ok true,
      record (cascade_document id db) { documents = delete_where (has_id org_id id) db.documents },
    )
  ]

  unfoldable pub document_chunks_for : Text → Text → Db V → Option (List DocumentChunk)
  unfolding identified by_ordinal
  document_chunks_for org_id identifier db = elim (identified org_id identifier db.documents) [
    | none ↦ none
    | some id ↦ some (
        map (λ c. record { id = c.stable_id; content = c.content; ordinal = c.ordinal })
          (by_ordinal (select_where (λ c. text_eq c.document_id id) db.chunks)))
  ]

  -- ORDER BY created_at DESC, rowid DESC: a later row stands before an older one of its second.
  unfoldable pub insert_recent : Document V → List (Document V) → List (Document V)
  insert_recent d [] = d ∷ []
  insert_recent d (e ∷ es) =
      if leb e.created_at d.created_at then d ∷ e ∷ es else e ∷ insert_recent d es

  unfoldable pub recent_onto : List (Document V) → List (Document V) → List (Document V)
  unfolding insert_recent
  recent_onto sorted [] = sorted
  recent_onto sorted (d ∷ ds) = recent_onto (insert_recent d sorted) ds

  -- ?2 IS NULL OR EXISTS(SELECT 1 FROM json_each(container_tags) WHERE value=?2)
  unfoldable pub is_listed : Text → Option Text → Document V → Bool
  unfolding has_tag
  is_listed org_id none d = text_eq d.org_id org_id
  is_listed org_id (some tag) d = text_eq d.org_id org_id && has_tag tag d.container_tags

  unfoldable pub list_documents_for : Text → ℕ → ℕ → Option Text → Db V → List (Document V)
  unfolding is_listed recent_onto
  list_documents_for org_id limit offset container_tag db =
      take limit
        (drop offset (recent_onto [] (select_where (is_listed org_id container_tag) db.documents)))
