-- ===== src/Tests/Publish.antt =====
-- A worker publishes two chunks.
use supermemory_rs.Prelude.{
  ℕ, Text, text_eq, codes, false, ◌≡◌, refl, List, [], ◌∷◌, some, ok, Result,
}
use supermemory_rs.Storage.State.{extracting}
use supermemory_rs.Storage.Sql.{exists_where, first_where, delete_where}
use supermemory_rs.Storage.Tables.{document, Db, StorageError, find_document}
use supermemory_rs.Storage.Publish.{EmbeddedChunk, publish_job}
use supermemory_rs.Storage.Protocol.Replace.{IsReplaced, publish_job-Adds}
use supermemory_rs.Tests.Storage.{db_at, claimed}
use supermemory_rs.Tests.Protocol.{counting}

abbrev two : List (EmbeddedChunk ℕ)
two =
    record { content = codes "a"; vector = 3 ∷ [] }
    ∷ record { content = codes "b"; vector = [] }
    ∷ []

abbrev before : Db ℕ
before = db_at document extracting extracting

abbrev stable_ids : ℕ → Text
stable_ids n = n ∷ []

abbrev result : Result StorageError (Unit {0}) × Db ℕ
result =
    publish_job counting 9 stable_ids (codes "k") claimed two (some (codes "m", 1)) false before

succeeds : result ≡ (ok tt, result.1)
unfolding publish_job find_document first_where text_eq exists_where delete_where
succeeds = refl

publish_job-Adds_example :
    IsReplaced counting (codes "d") (some (codes "m", 1)) two before (result.1)
publish_job-Adds_example =
    publish_job-Adds counting 9 stable_ids (codes "k") claimed before two (some (codes "m", 1))
      false result.1 succeeds
