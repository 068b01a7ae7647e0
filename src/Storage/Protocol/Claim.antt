-- ===== src/Storage/Protocol/Claim.antt =====
-- A worker's claim on a job: its row is held, or its document has moved on.
use supermemory_rs.Prelude.{
  ℕ, ◌<◌, Text, text_eq, text_eq_iff, Bool, true, false, ◌≡◌, ◌≢◌, refl, ◌⊎◌, inl, inr, List, [],
  ◌∷◌, ◌++◌, Option, none, some, arith, Bool-cases, All, All-append, All-map,
}
use supermemory_rs.Storage.State.{DocumentState}
use supermemory_rs.Storage.Sql.{update_where, count_where, first_where}
use supermemory_rs.Storage.Sql.Laws.{Among, All-update, All-among, Among-update_miss, count_zero}
use supermemory_rs.Storage.Sql.Keys.{Distinct, Distinct-key}
use supermemory_rs.Storage.Tables.{
  Document, JobKind, Job, ClaimedJob, document, memory, Db, find_document,
}
use supermemory_rs.Storage.Rows.{document_is, set_document_status}
use supermemory_rs.Storage.MemoryJobs.{ClaimedMemoryJob}
use supermemory_rs.Storage.Invariant.{state_of, IsValid}
use supermemory_rs.Storage.Invariant.Updates.{state_of-set, set-Distinct, same-IsValid, touched}
use supermemory_rs.Storage.Invariant.Held.{IsHeld}

-- What a claimed job says of its row.
pub record Claim : Type 0 where
  pub id : Text
  pub document_id : Text
  pub revision : ℕ
  pub kind : JobKind

abbrev pub document_claim : ClaimedJob → Claim
document_claim job = record {
  id = job.id;
  document_id = job.document_id;
  revision = job.revision;
  kind = document;
}

abbrev pub memory_claim : ClaimedMemoryJob → Claim
memory_claim job = record {
  id = job.id;
  document_id = job.document_id;
  revision = job.revision;
  kind = memory;
}

-- The document is past the revision, or deleted.
abbrev pub IsPast : Option (ℕ × DocumentState) → ℕ → Type 0
IsPast none revision = Unit
IsPast (some (r, s)) revision = revision < r

-- The rows with the id of the claim are of its document and revision.
abbrev pub Matches : Claim → List Job → Type 0
Matches c =
    All λ k. text_eq k.id c.id ≡ true → (k.document_id ≡ c.document_id) × (k.revision ≡ c.revision)

pub record IsGone {V : Type 0} (ds : List (Document V)) (js : List Job) (c : Claim) : Type 0 where
  pub past : IsPast (state_of ds c.document_id) c.revision
  pub matches : Matches c js

abbrev pub Holds : List Job → Claim → Type 0
Holds js c = IsHeld js c.id c.document_id c.revision c.kind

-- A claim is good while its row is held or its document has moved on.
abbrev pub IsGood : {V : Type 0} → List (Document V) → List Job → Claim → Type 0
IsGood ds js c = Holds js c ⊎ IsGone ds js c

abbrev pub IsGoodDb : {V : Type 0} → Db V → Claim → Type 0
IsGoodDb db c = IsGood db.documents db.jobs c

-- The rows with the id of a good claim are of its document and revision.
pub IsGood-Matches :
    {V : Type 0} (ds : List (Document V)) (js : List Job) (c : Claim)
    → IsValid ds js
    → IsGood ds js c
    → Matches c js
IsGood-Matches ds js c valid (inr gone) = gone.matches
IsGood-Matches ds js c valid (inl held) =
    All-map _ _
      (λ k key same.
        let e = key (rw held.same_id same) in rw e (held.same_document, held.same_revision))
      js (Distinct-key (λ j. j.id) held.row js valid.distinct held.among)

-- An update by a condition that a held row fails.
pub Holds-miss :
    (js : List Job) (c : Claim) (p : Job → Bool) (f : Job → Job)
    → (held : Holds js c) → p held.row ≡ false
    → Holds (update_where p f js) c
Holds-miss js c p f held miss = record {
  row = held.row;
  among = Among-update_miss p f held.row js held.among miss;
  same_id = held.same_id;
  same_document = held.same_document;
  same_revision = held.same_revision;
  same_kind = held.same_kind;
  processing = held.processing;
}

pub Matches-update :
    (c : Claim) (p : Job → Bool) (f : Job → Job) (js : List Job)
    → ((k : Job) → (f k).id ≡ k.id)
    → ((k : Job) → (f k).document_id ≡ k.document_id)
    → ((k : Job) → (f k).revision ≡ k.revision)
    → Matches c js
    → Matches c (update_where p f js)
Matches-update c p f js keeps_id keeps_document keeps_revision =
    All-update _ _ p f js (λ k h _. rw (keeps_id k, keeps_document k, keeps_revision k) h)
      (λ k h _. h)

other_id : (id id' : Text) (k : Job) → k.id ≡ id' → id' ≢ id → text_eq k.id id ≡ false
other_id id id' k same other = elim (Bool-cases (text_eq k.id id)) [
  | inl e ↦ absurd (other (cc (same, (text_eq_iff k.id id).0 e)))
  | inr e ↦ e
]

-- An operation on the rows of another id, on documents whose states keep their revisions.
pub IsGood-other :
    {V : Type 0} (ds ds' : List (Document V)) (js : List Job) (c : Claim) (id : Text)
    (p : Job → Bool) (f : Job → Job)
    → c.id ≢ id
    → ((k : Job) → p k ≡ true → text_eq k.id id ≡ true)
    → ((k : Job) → (f k).id ≡ k.id)
    → ((k : Job) → (f k).document_id ≡ k.document_id)
    → ((k : Job) → (f k).revision ≡ k.revision)
    → (IsPast (state_of ds c.document_id) c.revision
        → IsPast (state_of ds' c.document_id) c.revision)
    → IsGood ds js c
    → IsGood ds' (update_where p f js) c
IsGood-other ds ds' js c id p f other alone keeps_id keeps_document keeps_revision past (inl held) =
    inl (Holds-miss js c p f held (missed (Bool-cases (p held.row))))
  where
    missed : (p held.row ≡ true) ⊎ (p held.row ≡ false) → p held.row ≡ false
    missed (inl hit) =
        absurd (cc (alone held.row hit, other_id id c.id held.row held.same_id other))
    missed (inr miss) = miss
IsGood-other ds ds' js c id p f other alone keeps_id keeps_document keeps_revision past (inr gone) =
    inr (record {
      past = past gone.past;
      matches = Matches-update c p f js keeps_id keeps_document keeps_revision gone.matches;
    })

touched-IsPast :
    (id : Text) (revision : ℕ) (status : DocumentState) (k : Text) (o : Option (ℕ × DocumentState))
    (r : ℕ)
    → IsPast o r
    → IsPast (touched id revision status k o) r
touched-IsPast id revision status k none r h = h
touched-IsPast id revision status k (some (x, s)) r h = ground arith

-- Setting a status moves no document back.
pub IsPast-set :
    {V : Type 0} (now : ℕ) (id : Text) (revision : ℕ) (status : DocumentState)
    (ds : List (Document V)) (k : Text) (r : ℕ)
    → IsPast (state_of ds k) r
    → IsPast (state_of (set_document_status now id revision status ds) k) r
IsPast-set now id revision status ds k r h =
    rw state_of-set (touched-IsPast id revision status k _ r h)

gone_touched :
    (id : Text) (revision : ℕ) (status : DocumentState) (k : Text) (o : Option (ℕ × DocumentState))
    → (k ≡ id → IsPast o revision)
    → touched id revision status k o ≡ o
gone_touched id revision status k none past = refl
gone_touched id revision status k (some (r, s)) past = elim (Bool-cases (text_eq k id)) [
  | inl e ↦ let h : revision < r = past ((text_eq_iff k id).0 e) in ground arith
  | inr e ↦ ground arith
]

-- The statement that sets the status of a document that has moved on meets no row.
pub gone_set-IsValid :
    {V : Type 0} (now : ℕ) (id : Text) (revision : ℕ) (status : DocumentState)
    (ds : List (Document V)) (js : List Job)
    → IsPast (state_of ds id) revision
    → IsValid ds js
    → IsValid (set_document_status now id revision status ds) js
gone_set-IsValid now id revision status ds js past valid =
    same-IsValid ds _ js
      (λ k. rw state_of-set (gone_touched id revision status k (state_of ds k) (λ e. rw e past)))
      (set-Distinct ds now id revision status valid.documents_distinct) valid

-- A document in the table is the one that `state_of` finds.
pub Among-state_of :
    {V : Type 0} (d : Document V) (ds : List (Document V))
    → Distinct (λ x. x.id) ds
    → Among d ds
    → state_of ds d.id ≡ some (d.revision, d.status)
unfolding state_of find_document first_where
Among-state_of d [] distinct m = absurd m
Among-state_of d (x ∷ ds) distinct (inl e) = rw e (ground (arith, text_eq_iff d.id d.id))
Among-state_of d (x ∷ ds) distinct (inr m) = ground (
  arith,
  Among-state_of d ds distinct.1 m,
  All-among _ d ds distinct.0 m,
  text_eq_iff x.id d.id,
  text_eq_iff d.id x.id,
)

gone_row :
    {V : Type 0} (id : Text) (revision : ℕ) (ds : List (Document V)) (d : Document V)
    → IsPast (state_of ds id) revision
    → state_of ds d.id ≡ some (d.revision, d.status)
    → document_is id revision d ≡ false
unfolding document_is
gone_row id revision ds d past shows = elim (Bool-cases (text_eq d.id id)) [
  | inl e ↦
      let h : revision < d.revision = rw (← (text_eq_iff d.id id).0 e, shows) at past in
      ground arith
  | inr e ↦ rw e
]

pub All-self : {A : Type 0} (xs : List A) → All (λ x. Among x xs) xs
All-self [] = tt
All-self (x ∷ xs) = (inl refl, All-map _ _ (λ y m. inr m) xs (All-self xs))

pub gone_count :
    {V : Type 0} (id : Text) (revision : ℕ) (ds : List (Document V))
    → Distinct (λ x. x.id) ds
    → IsPast (state_of ds id) revision
    → count_where (document_is id revision) ds ≡ 0
gone_count id revision ds distinct past = count_zero _ ds (
    All-map _ _ (λ d m. gone_row id revision ds d past (Among-state_of d ds distinct m)) ds
      (All-self ds))

Among-before : {A : Type 0} (x : A) (xs ys : List A) → Among x xs → Among x (xs ++ ys)
Among-before x [] ys m = absurd m
Among-before x (y ∷ xs) ys (inl e) = inl e
Among-before x (y ∷ xs) ys (inr m) = inr (Among-before x xs ys m)

-- A new row with another id.
pub IsGood-append :
    {V : Type 0} (ds ds' : List (Document V)) (js : List Job) (new : Job) (c : Claim)
    → c.id ≢ new.id
    → (IsPast (state_of ds c.document_id) c.revision
        → IsPast (state_of ds' c.document_id) c.revision)
    → IsGood ds js c
    → IsGood ds' (js ++ new ∷ []) c
IsGood-append ds ds' js new c other past (inl held) = inl (record {
  row = held.row;
  among = Among-before held.row js (new ∷ []) held.among;
  same_id = held.same_id;
  same_document = held.same_document;
  same_revision = held.same_revision;
  same_kind = held.same_kind;
  processing = held.processing;
})
IsGood-append ds ds' js new c other past (inr gone) = inr (record {
  past = past gone.past;
  matches =
      All-append _ js (new ∷ []) gone.matches
        ((λ same. absurd (other (cc ((text_eq_iff new.id c.id).0 same)))), tt);
})
