-- ===== src/Storage/Protocol/Without.antt =====
-- Rows that a DELETE leaves, said without its condition.
use supermemory_rs.Prelude.{
  Text, Bool, true, false, ◌≡◌, ◌≢◌, inl, inr, List, [], ◌∷◌, arith, Bool-cases, All, text_eq_iff,
  ◌==◌,
}
use supermemory_rs.Storage.Sql.{delete_where, select_where, exists_where}
use supermemory_rs.Storage.Tables.{Chunk, ChunkEmbedding, Db}
use supermemory_rs.Storage.Rows.{belongs_to, delete_chunks}

-- The second list is the first without the elements of which `P` holds.
pub data Without {A : Type 0} (P : A → Type 0) : List A → List A → Type 0 where
  none_left : Without P [] []
  drops : {x : A} {xs ys : List A} → P x → Without P xs ys → Without P (x ∷ xs) ys
  stays : {x : A} {xs ys : List A} → (P x → ⊥) → Without P xs ys → Without P (x ∷ xs) (x ∷ ys)

delete-Without :
    {A : Type 0} (P : A → Type 0) (p : A → Bool) (xs : List A)
    → ((x : A) → p x ≡ true → P x)
    → ((x : A) → p x ≡ false → P x → ⊥)
    → Without P xs (delete_where p xs)
unfolding delete_where
delete-Without P p [] hit miss = none_left
delete-Without P p (x ∷ xs) hit miss = elim (Bool-cases (p x)) [
  | inl e ↦ rw e (drops (hit x e) (delete-Without P p xs hit miss))
  | inr e ↦ rw e (stays (miss x e) (delete-Without P p xs hit miss))
]

select-Without :
    {A : Type 0} (P : A → Type 0) (p : A → Bool) (xs : List A)
    → ((x : A) → p x ≡ false → P x)
    → ((x : A) → p x ≡ true → P x → ⊥)
    → Without P xs (select_where p xs)
unfolding select_where
select-Without P p [] miss hit = none_left
select-Without P p (x ∷ xs) miss hit = elim (Bool-cases (p x)) [
  | inl e ↦ rw e (stays (hit x e) (select-Without P p xs miss hit))
  | inr e ↦ rw e (drops (miss x e) (select-Without P p xs miss hit))
]

-- The vector is of none of the chunks.
abbrev pub IsStray : List Chunk → ChunkEmbedding → Type 0
IsStray chunks e = All (λ c. c.id ≢ e.chunk_id) chunks

stray : (chunks : List Chunk) (e : ChunkEmbedding) → belongs_to chunks e ≡ false → IsStray chunks e
unfolding belongs_to exists_where
stray [] e h = tt
stray (c ∷ chunks) e h = ((λ same. ground (arith, same)), stray chunks e (ground arith))

not_stray :
    (chunks : List Chunk) (e : ChunkEmbedding) → belongs_to chunks e ≡ true → IsStray chunks e → ⊥
unfolding belongs_to exists_where
not_stray [] e h s = absurd (cc h)
not_stray (c ∷ chunks) e h s = elim (Bool-cases (c.id == e.chunk_id)) [
  | inl same ↦ s.0 (ground arith)
  | inr other ↦ not_stray chunks e (ground arith) s.1
]

module _ {V : Type 0} (id : Text) (db : Db V) where
  pub deleted-chunks :
      Without (λ (c : Chunk). c.document_id ≡ id) db.chunks (delete_chunks id db).chunks
  unfolding delete_chunks
  deleted-chunks =
      delete-Without _ _ db.chunks (λ c e. (text_eq_iff c.document_id id).0 e)
        (λ c e same. absurd (cc (e, (text_eq_iff c.document_id id).1 same)))

  pub deleted-embeddings :
      Without (IsStray (delete_chunks id db).chunks) db.embeddings (delete_chunks id db).embeddings
  unfolding delete_chunks
  deleted-embeddings =
      select-Without _ _ db.embeddings (λ e miss. stray _ e miss) (λ e hit. not_stray _ e hit)
