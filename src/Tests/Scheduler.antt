-- ===== src/Tests/Scheduler.antt =====
-- The embedding executor at small requests.
use supermemory_rs.Prelude.{
  ℕ, Text, codes, true, ◌≡◌, refl, ◌⊎◌, List, [], ◌∷◌, none, some, Result, ok, err, All, length,
  map, inr, arith, ◌+◌,
}
use supermemory_rs.MemoryEngine.Executor.Microbatch.{EmbeddingExecutorError, microbatch_lengths}
use supermemory_rs.MemoryEngine.Executor.Scheduler.{
  PreparedEmbeddingInput, EmbeddedText, query, document, Request, Scheduler, send, Batch,
  request_of, turn, replies, batch_values,
}
use supermemory_rs.MemoryEngine.Executor.Batches.{IsAdmissible}
use supermemory_rs.MemoryEngine.Executor.Order.{pending_queries, pending_bulk, IsTurn, turn-IsTurn}
use supermemory_rs.MemoryEngine.Executor.Queues.{
  Log, log_sent, starts, submits, AreFifo, Run-AreFifo,
}
use supermemory_rs.MemoryEngine.Executor.Starvation.{
  Arrivals, waiting, served, alone, turns, crowded-starves,
}
use supermemory_rs.MemoryEngine.Executor.Replies.{AreReplied, replies-AreReplied}
use supermemory_rs.MemoryEngine.Executor.Submission.{cut, token_counts}
use supermemory_rs.MemoryEngine.Executor.Pieces.{cut-IsAdmissible}

abbrev tea : PreparedEmbeddingInput
tea = record { text = codes "tea"; token_count = 3 }

abbrev long : PreparedEmbeddingInput
long = record { text = codes "coffee"; token_count = 6 }

abbrev short_query : Request
short_query = record { values = tea ∷ []; item_count = 1; max_item_tokens = 3; reply = 1 }

abbrev long_query : Request
long_query = record { values = long ∷ []; item_count = 1; max_item_tokens = 6; reply = 2 }

abbrev scheduler : Scheduler
scheduler = record {
  queries = short_query ∷ long_query ∷ [];
  bulk = long_query ∷ [];
  deferred = none;
  query_burst = 0;
}

turn-IsTurn_example :
    ((turn 4 8 scheduler ≡ none) × (pending_queries scheduler ≡ []) × (pending_bulk scheduler ≡ []))
    ⊎ ((batch : Batch) × (s' : Scheduler) × (turn 4 8 scheduler ≡ some (batch, s'))
        × IsTurn 4 8 scheduler batch s')
turn-IsTurn_example = turn-IsTurn 4 8 scheduler

abbrev idle : Scheduler
idle = record { queries = []; bulk = []; deferred = none; query_burst = 0 }

abbrev nothing : Log
nothing = record { sent = []; served = [] }

Run-AreFifo_example :
    AreFifo 4 8
      (send document long_query (send query short_query idle))
      (log_sent true short_query nothing)
      (log_sent true long_query nothing)
unfolding log_sent
Run-AreFifo_example =
    Run-AreFifo 4 8 (send document long_query (send query short_query idle))
      (log_sent true short_query nothing) (log_sent true long_query nothing)
      (submits document long_query (submits query short_query starts))

-- Two long queries arrive behind another, the second with a bulk request.
abbrev third_query : Request
third_query = record long_query { reply = 4 }

abbrev queue_of_queries : Arrivals
queue_of_queries = (record long_query { reply = 3 }, []) ∷ (third_query, short_query ∷ []) ∷ []

crowded-starves_example : turns 4 8 queue_of_queries (waiting 5 long_query (short_query ∷ [])) ≡ (
  map alone (served long_query queue_of_queries),
  waiting (5 + 2) third_query (short_query ∷ short_query ∷ []),
)
crowded-starves_example =
    crowded-starves 4 8 5 long_query (short_query ∷ []) queue_of_queries
      (omega arith, inr (omega arith), (omega arith, inr (omega arith), tt))

abbrev vectors : List PreparedEmbeddingInput → Result ℕ (List ℕ)
vectors [] = ok []
vectors (v ∷ vs) = elim (vectors vs) [ err e ↦ err e | ok ws ↦ ok (v.token_count ∷ ws) ]

replies-AreReplied_example :
    AreReplied
      (short_query ∷ long_query ∷ [])
      (3 ∷ 6 ∷ [])
      (replies vectors (short_query ∷ long_query ∷ []))
unfolding batch_values
replies-AreReplied_example =
    replies-AreReplied vectors (short_query ∷ long_query ∷ []) (3 ∷ 6 ∷ []) refl refl
      (refl, (refl, tt))

cut-IsAdmissible_example :
    (counts : List ℕ) × (microbatch_lengths {E = ℕ} (token_counts (tea ∷ long ∷ [])) 4 8
      ≡ ok counts)
    × All (λ piece. IsAdmissible 4 8 (request_of 1 piece)) (cut counts (tea ∷ long ∷ []))
unfolding token_counts
cut-IsAdmissible_example =
    cut-IsAdmissible 4 8 ℕ (tea ∷ long ∷ []) 1 (omega arith) (omega arith, (omega arith, tt))

abbrev prepare : Text → Result ℕ PreparedEmbeddingInput
prepare t = ok (record { text = t; token_count = length t })

abbrev in_order : List PreparedEmbeddingInput → List (EmbeddedText ℕ)
in_order [] = []
in_order (v ∷ vs) = record { text = v.text; vector = v.token_count } ∷ in_order vs

abbrev submit :
    List PreparedEmbeddingInput → Result (EmbeddingExecutorError ℕ) (List (EmbeddedText ℕ))
submit piece = ok (in_order piece)
