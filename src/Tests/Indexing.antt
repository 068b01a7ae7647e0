-- ===== src/Tests/Indexing.antt =====
-- A coordinator without a model indexes a claimed document.
use supermemory_rs.Prelude.{
  ℕ, text_eq, text_eq_iff, codes, true, false, ◌≡◌, ◌≢◌, refl, inl, [], ◌∷◌, none, arith,
}
use supermemory_rs.Storage.State.{extracting}
use supermemory_rs.Storage.Tables.{document, Db, is_processing}
use supermemory_rs.Storage.Invariant.Held.{IsHeld}
use supermemory_rs.Server.Indexing.Model.{Coordinator, process}
use supermemory_rs.Server.Indexing.Ended.{IsEnded, process-IsEnded}
use supermemory_rs.Server.Indexing.Others.{deleting_before, deleting_before-LeavesClaim}
use supermemory_rs.Tests.Storage.{db_at, claimed, job_of, valid_at}
use supermemory_rs.Tests.Protocol.{counting}

abbrev keyword_only : Coordinator ℕ ℕ
keyword_only = record {
  embeddings = none;
  has_provider = false;
  model_id = codes "m";
  embedding_text = λ _. codes "e";
  chunking_text = λ _. codes "c";
}

other_id : codes "k" ≢ codes "j"
unfolding text_eq
other_id e = ground (arith, (text_eq_iff (codes "k") (codes "j")).1 e)

busy : is_processing extracting ≡ true
unfolding is_processing
busy = refl

abbrev own : IsHeld (job_of document extracting ∷ []) (codes "j") (codes "d") 1 document
own = record {
  row = job_of document extracting;
  among = inl refl;
  same_id = refl;
  same_document = refl;
  same_revision = refl;
  same_kind = refl;
  processing = busy;
}

-- A client deletes the document before the second operation of the worker.
abbrev client : ℕ → Db ℕ → Db ℕ
client = deleting_before 1 (codes "o") (codes "d")

process-IsEnded_example : IsEnded keyword_only claimed (
    process counting
      (λ _. 9)
      (λ _. codes "s")
      (codes "k")
      keyword_only
      claimed
      client
      (db_at document extracting extracting))
process-IsEnded_example =
    process-IsEnded counting (λ _. 9) (λ _. codes "s") (codes "k") keyword_only claimed other_id
      client (deleting_before-LeavesClaim (codes "o") (codes "d") claimed 1)
      (db_at document extracting extracting) (valid_at extracting) (inl (own, refl))
