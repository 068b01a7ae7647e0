-- ===== src/MemoryEngine/Executor/Queues.antt =====
-- The scheduler over any sequence of submissions and turns, against two plain queues.
use mathlib.Core.Path.{subst}
use mathlib.Core.List.{append_assoc}
use supermemory_rs.Prelude.{
  ℕ, Bool, true, false, ◌≡◌, refl, sym, ap, ◌∙◌, inl, inr, List, [], ◌∷◌, ◌++◌, none, some,
}
use supermemory_rs.MemoryEngine.Executor.Scheduler.{
  EmbeddingPriority, query, document, memory, warmup, Request, Scheduler, send, Batch, turn,
}
use supermemory_rs.MemoryEngine.Executor.Order.{
  is_query, pending_queries, pending_bulk, IsTurn, turn-IsTurn,
}

-- The requests that were sent to a queue and those that were served from it, oldest first.
pub record Log : Type 0 where
  pub sent : List Request
  pub served : List Request

unfoldable pub log_sent : Bool → Request → Log → Log
log_sent true r log = record log { sent = log.sent ++ r ∷ [] }
log_sent false r log = log

unfoldable pub log_served : Bool → List Request → Log → Log
log_served true rs log = record log { served = log.served ++ rs }
log_served false rs log = log

abbrev other : Bool → Bool
other true = false
other false = true

-- What is sent is what was served and then what waits.
abbrev pub IsFifo : Log → List Request → Type 0
IsFifo log pending = log.sent ≡ log.served ++ pending

module _ (max_items max_padded_tokens : ℕ) where
  pub data Run : Scheduler → Log → Log → Type 0 where
    starts :
        Run
          (record { queries = []; bulk = []; deferred = none; query_burst = 0 })
          (record { sent = []; served = [] })
          (record { sent = []; served = [] })
    submits :
        (priority : EmbeddingPriority) (r : Request) {s : Scheduler} {queries bulk : Log}
        → Run s queries bulk
        → Run
            (send priority r s)
            (log_sent (is_query priority) r queries)
            (log_sent (other (is_query priority)) r bulk)
    serves :
        (batch : Batch) {s s' : Scheduler} {queries bulk : Log}
        → turn max_items max_padded_tokens s ≡ some (batch, s')
        → Run s queries bulk
        → Run s'
            (log_served (is_query batch.priority) batch.requests queries)
            (log_served (other (is_query batch.priority)) batch.requests bulk)

  sent-IsFifo :
      (log : Log) (r : Request) (deferred queue : List Request)
      → IsFifo log (deferred ++ queue)
      → IsFifo (log_sent true r log) (deferred ++ (queue ++ r ∷ []))
  unfolding log_sent
  sent-IsFifo log r deferred queue h =
      ap (λ l. l ++ r ∷ []) h
      ∙ (append_assoc log.served (deferred ++ queue) (r ∷ [])
          ∙ ap (λ l. log.served ++ l) (append_assoc deferred queue (r ∷ [])))

  served-IsFifo :
      (log : Log) (rs before after : List Request)
      → before ≡ rs ++ after
      → IsFifo log before
      → IsFifo (log_served true rs log) after
  unfolding log_served
  served-IsFifo log rs before after taken h =
      h ∙ (ap (λ l. log.served ++ l) taken ∙ sym (append_assoc log.served rs after))

  pub record AreFifo (s : Scheduler) (queries bulk : Log) : Type 0 where
    pub of_queries : IsFifo queries (pending_queries s)
    pub of_bulk : IsFifo bulk (pending_bulk s)

  sent-AreFifo :
      (priority : EmbeddingPriority) (r : Request) (s : Scheduler) (queries bulk : Log)
      → AreFifo s queries bulk
      → AreFifo
          (send priority r s)
          (log_sent (is_query priority) r queries)
          (log_sent (other (is_query priority)) r bulk)
  unfolding send log_sent
  sent-AreFifo query r s queries bulk h = record {
    of_queries = sent-IsFifo queries r _ s.queries h.of_queries;
    of_bulk = h.of_bulk;
  }
  sent-AreFifo document r s queries bulk h = record {
    of_queries = h.of_queries;
    of_bulk = sent-IsFifo bulk r _ s.bulk h.of_bulk;
  }
  sent-AreFifo memory r s queries bulk h = record {
    of_queries = h.of_queries;
    of_bulk = sent-IsFifo bulk r _ s.bulk h.of_bulk;
  }
  sent-AreFifo warmup r s queries bulk h = record {
    of_queries = h.of_queries;
    of_bulk = sent-IsFifo bulk r _ s.bulk h.of_bulk;
  }

  turned-AreFifo :
      (s s' : Scheduler) (batch : Batch) (queries bulk : Log)
      → IsTurn max_items max_padded_tokens s batch s'
      → AreFifo s queries bulk
      → AreFifo s'
          (log_served (is_query batch.priority) batch.requests queries)
          (log_served (other (is_query batch.priority)) batch.requests bulk)
  unfolding log_served
  turned-AreFifo s s' batch queries bulk t h = elim t.dequeues [
    | inl (kind, taken, same) ↦
        rw (kind, log_served, other)
          (record {
            of_queries =
                served-IsFifo queries batch.requests (pending_queries s) (pending_queries s') taken
                  h.of_queries;
            of_bulk = h.of_bulk ∙ ap (λ l. bulk.served ++ l) (sym same);
          })
    | inr (kind, taken, same) ↦
        rw (kind, log_served, other)
          (record {
            of_queries = h.of_queries ∙ ap (λ l. queries.served ++ l) (sym same);
            of_bulk =
                served-IsFifo bulk batch.requests (pending_bulk s) (pending_bulk s') taken
                  h.of_bulk;
          })
  ]

  -- Whatever is submitted and whenever the loop turns, each of the two queues is first in, first out:
  -- what was sent to it is what was served from it and then what waits, in the same order, so that no
  -- request is lost, served twice or overtaken by one of its own priority.
  pub Run-AreFifo :
      (s : Scheduler) (queries bulk : Log) → Run s queries bulk → AreFifo s queries bulk
  Run-AreFifo s queries bulk starts = record { of_queries = refl; of_bulk = refl }
  Run-AreFifo s' queries' bulk' (submits priority r {s} {queries} {bulk} run) =
      sent-AreFifo priority r s queries bulk (Run-AreFifo s queries bulk run)
  Run-AreFifo t queries' bulk' (serves batch {s} {s'} {queries} {bulk} turned run) =
      elim (turn-IsTurn max_items max_padded_tokens s) [
        | inl (waits, _, _) ↦ absurd (cc (waits, turned))
        | inr (b, after, e, h) ↦
            let same_batch : b ≡ batch = cc (e, turned) in
            let same_after : after ≡ s' = cc (e, turned) in
            let at_batch = subst (λ x. IsTurn max_items max_padded_tokens s x after) same_batch h in
            turned-AreFifo s s' batch queries bulk
              (subst (λ x. IsTurn max_items max_padded_tokens s batch x) same_after at_batch)
              (Run-AreFifo s queries bulk run)
      ]
