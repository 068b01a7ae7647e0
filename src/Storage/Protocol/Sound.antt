-- ===== src/Storage/Protocol/Sound.antt =====
-- What an operation does to a sound system, by what happens to the worker's claim.
use supermemory_rs.Prelude.{
  ℕ, Text, text_eq, text_eq_iff, Bool, true, false, ◌≡◌, ◌≢◌, ◌⊎◌, inl, inr, ◌==◌, List, [], ◌∷◌,
  Option, some, All, All-map, Bool-cases, Option-cases,
}
use supermemory_rs.Storage.Sql.{delete_where}
use supermemory_rs.Storage.Sql.Laws.{Among, All-among}
use supermemory_rs.Storage.Sql.Keys.{Distinct-delete, Distinct-key, All-both}
use supermemory_rs.Storage.Tables.{ClaimedJob, Db}
use supermemory_rs.Storage.Publish.{
  Float32, EmbeddedChunk, publish_job, complete_embedded_job,
  complete_embedded_job_with_memory_extraction, validate_chunks,
}
use supermemory_rs.Storage.Invariant.{IsValidDb}
use supermemory_rs.Storage.Protocol.Claim.{Claim, document_claim, IsGoodDb}
use supermemory_rs.Storage.Protocol.Publish.{publish_job-IsValid, publish_job-IsGood}
use supermemory_rs.Storage.Protocol.Step.{System, IsFresh, finished, released, IsSound}

pub text_eq-false : (a b : Text) → text_eq a b ≡ false → a ≢ b
text_eq-false a b h same = absurd (cc (h, (text_eq_iff a b).1 same))

-- The claims that stay, when those of one id go.
All-released :
    (P Q : Claim → Type 0) (id : Text) (cs : List Claim)
    → All (λ c. text_eq c.id id ≡ false → P c → Q c) cs
    → All P cs
    → All Q (released id cs)
unfolding delete_where
All-released P Q id [] keep h = tt
All-released P Q id (c ∷ cs) keep h = elim (Bool-cases (text_eq c.id id)) [
  | inl e ↦ rw e (All-released P Q id cs keep.1 h.1)
  | inr e ↦ rw e (keep.0 e h.0, All-released P Q id cs keep.1 h.1)
]

module _ {V : Type 0} (s : System V) (sound : IsSound s) where
  -- An operation that changes the database alone.
  pub shared-IsSound :
      (db' : Db V)
      → IsValidDb db'
      → All (λ c. IsGoodDb s.db c → IsGoodDb db' c) s.claims
      → IsSound (record s { db = db' })
  shared-IsSound db' valid keep = record {
    valid = valid;
    good = All-map _ _ (λ c both. both.0 both.1) s.claims (All-both _ _ s.claims keep sound.good);
    distinct = sound.distinct;
  }

  -- An operation after which the worker gives up its claim.
  pub finished-IsSound :
      (id : Text) (db' : Db V)
      → IsValidDb db'
      → All (λ c. text_eq c.id id ≡ false → IsGoodDb s.db c → IsGoodDb db' c) s.claims
      → IsSound (finished s id db')
  finished-IsSound id db' valid keep = record {
    valid = valid;
    good = All-released _ _ id s.claims keep sound.good;
    distinct = Distinct-delete (λ c. c.id) _ s.claims sound.distinct;
  }

  -- An operation with which the worker keeps its claim.
  pub kept-IsSound :
      (mine : Claim) (db' : Db V)
      → Among mine s.claims
      → IsValidDb db'
      → IsGoodDb db' mine
      → ((c : Claim) → c.id ≢ mine.id → IsGoodDb s.db c → IsGoodDb db' c)
      → IsSound (record s { db = db' })
  kept-IsSound mine db' among valid own others = shared-IsSound db' valid (
      All-map _ _ (λ c key good. choose c key good (Bool-cases (text_eq c.id mine.id))) s.claims
        (Distinct-key (λ c. c.id) mine s.claims sound.distinct among))
    where
      choose :
          (c : Claim)
          → (text_eq c.id mine.id ≡ true → c ≡ mine)
          → IsGoodDb s.db c
          → (text_eq c.id mine.id ≡ true) ⊎ (text_eq c.id mine.id ≡ false)
          → IsGoodDb db' c
      choose c key good (inl e) = rw (key e) own
      choose c key good (inr e) = others c (text_eq-false c.id mine.id e) good

  -- A new claim, on a job that no claim is on.
  pub claimed-IsSound :
      (new : Claim) (db' : Db V)
      → IsValidDb db'
      → IsGoodDb db' new
      → ((c : Claim) → IsGoodDb s.db c → (c.id ≢ new.id) × IsGoodDb db' c)
      → IsSound (record s { db = db'; claims = new ∷ s.claims })
  claimed-IsSound new db' valid own others = record {
    valid = valid;
    good = (own, All-map _ _ (λ c good. (others c good).1) s.claims sound.good);
    distinct = (
      All-map _ _ (λ c good. apart c (others c good).0 (Bool-cases (text_eq c.id new.id))) s.claims
          sound.good,
      sound.distinct,
    );
  }
    where
      apart :
          (c : Claim)
          → c.id ≢ new.id
          → (text_eq c.id new.id ≡ true) ⊎ (text_eq c.id new.id ≡ false)
          → text_eq c.id new.id ≡ false
      apart c other (inl e) = absurd (other ((text_eq_iff c.id new.id).0 e))
      apart c other (inr e) = e

  -- A claim of the system is good.
  pub mine-IsGood : (mine : Claim) → Among mine s.claims → IsGoodDb s.db mine
  mine-IsGood mine among = All-among _ mine s.claims sound.good among

  pub each : (P : Claim → Type 0) → ((c : Claim) → P c) → All P s.claims
  each P h = All-map _ _ (λ c _. h c) s.claims sound.good

module _ {V : Type 0} (f : Float32) (now : ℕ) (chunk_ids : ℕ → Text) (job_id : Text)
    (job : ClaimedJob) (s : System V) (sound : IsSound s)
    (among : Among (document_claim job) s.claims) (fresh : IsFresh s job_id) where
  pub published-IsSound :
      (chunks : List (EmbeddedChunk f.F)) (model : Option (Text × ℕ)) (schedule : Bool)
      → IsSound
          (finished s job.id (publish_job f now chunk_ids job_id job chunks model schedule s.db).1)
  published-IsSound chunks model schedule =
      finished-IsSound s sound job.id _
        (publish_job-IsValid f now chunk_ids job_id job s.db sound.valid
          (mine-IsGood s sound (document_claim job) among) chunks model schedule)
        (All-map _ _
          (λ c names other good.
            publish_job-IsGood f now chunk_ids job_id job s.db c (text_eq-false c.id job.id other)
              (text_eq-false c.id job_id names.0) good chunks model schedule)
          s.claims fresh.no_claim)

  abandoned-IsSound : IsSound (finished s job.id s.db)
  abandoned-IsSound =
      finished-IsSound s sound job.id s.db sound.valid (each s sound _ (λ c _ good. good))

  pub embedded-IsSound :
      (chunks : List (EmbeddedChunk f.F)) (model_id : Text) (dimensions : ℕ)
      → IsSound (
          finished s job.id
            (complete_embedded_job f now chunk_ids job_id job chunks model_id dimensions s.db).1)
  unfolding complete_embedded_job
  embedded-IsSound chunks model_id dimensions = elim (Bool-cases (dimensions == 0)) [
    | inl e ↦ rw e abandoned-IsSound
    | inr e ↦ elim (Option-cases (validate_chunks f chunks dimensions)) [
      | inr (x, bad) ↦ rw (e, bad, complete_embedded_job) abandoned-IsSound
      | inl fine ↦
          rw (e, fine, complete_embedded_job)
            (published-IsSound chunks (some (model_id, dimensions)) false)
    ]
  ]

  pub extraction-IsSound :
      (chunks : List (EmbeddedChunk f.F)) (model_id : Text) (dimensions : ℕ)
      → IsSound (
          finished s job.id
            (complete_embedded_job_with_memory_extraction f now chunk_ids job_id job chunks model_id
              dimensions s.db).1)
  unfolding complete_embedded_job_with_memory_extraction
  extraction-IsSound chunks model_id dimensions = elim (Bool-cases (dimensions == 768)) [
    | inr e ↦ rw e abandoned-IsSound
    | inl e ↦ elim (Option-cases (validate_chunks f chunks dimensions)) [
      | inr (x, bad) ↦ rw (e, bad, complete_embedded_job_with_memory_extraction) abandoned-IsSound
      | inl fine ↦
          rw (e, fine, complete_embedded_job_with_memory_extraction)
            (published-IsSound chunks (some (model_id, dimensions)) true)
    ]
  ]
