-- ===== src/MemoryEngine/Executor/Starvation.antt =====
-- Queries of which none fits a batch with the one before it, and bulk requests that wait behind them.
use supermemory_rs.Prelude.{
  ℕ, ◌+◌, ◌*◌, ◌<◌, max, ltb, true, ◌≡◌, refl, sym, ap, ◌∙◌, ◌⊎◌, List, [], ◌∷◌, ◌++◌, none, some,
  map, length, arith,
}
use mathlib.Core.List.{append_assoc, append-nil}
use supermemory_rs.MemoryEngine.Executor.Scheduler.{
  query, document, Request, Scheduler, send, exceeds, fill, next_request, tagged, burst_after,
  Batch, batch_from, turn,
}

-- What arrives before a turn: a query, and bulk requests.
abbrev pub Arrivals : Type 0
Arrivals = List (Request × List Request)

unfoldable pub send_each : List Request → Scheduler → Scheduler
unfolding send
send_each [] s = s
send_each (r ∷ rs) s = send_each rs (send document r s)

-- The deferred query is the only one.
abbrev pub waiting : ℕ → Request → List Request → Scheduler
waiting burst q bulk = record {
  queries = [];
  bulk = bulk;
  deferred = some (query, q);
  query_burst = burst;
}

-- The queries that are served, and the one that is deferred after them.
abbrev pub served : Request → Arrivals → List Request
served q [] = []
served q ((a, bulk) ∷ rest) = q ∷ served a rest

abbrev pub newest : Request → Arrivals → Request
newest q [] = q
newest q ((a, bulk) ∷ rest) = newest a rest

-- The bulk requests that arrive.
abbrev pub arrived : Arrivals → List Request
arrived [] = []
arrived ((a, bulk) ∷ rest) = bulk ++ arrived rest

abbrev pub alone : Request → Batch
alone q = record { priority = query; requests = q ∷ [] }

send_each-bulk :
    (rs : List Request) (queries bulk : List Request) (burst : ℕ) (q : Request)
    → send_each rs
        (record { queries = queries; bulk = bulk; deferred = some (query, q); query_burst = burst })
      ≡ (record {
        queries = queries;
        bulk = bulk ++ rs;
        deferred = some (query, q);
        query_burst = burst;
      })
unfolding send_each send
send_each-bulk [] queries bulk burst q =
    ap
      (λ b. record { queries = queries; bulk = b; deferred = some (query, q); query_burst = burst })
      (sym (append-nil bulk))
send_each-bulk (r ∷ rs) queries bulk burst q =
    send_each-bulk rs queries (bulk ++ r ∷ []) burst q
    ∙ ap
        (λ b. record {
          queries = queries;
          bulk = b;
          deferred = some (query, q);
          query_burst = burst;
        })
        (append_assoc bulk (r ∷ []) rs)

module _ (max_items max_padded_tokens : ℕ) where
  -- The turns of the loop, before each of which requests arrive: the batches, and what waits then.
  unfoldable pub turns : Arrivals → Scheduler → List Batch × Scheduler
  turns [] s = ([], s)
  turns ((a, bulk) ∷ rest) s =
      elim (turn max_items max_padded_tokens (send_each bulk (send query a s))) [
        | none ↦ ([], send_each bulk (send query a s))
        | some (batch, s') ↦ (batch ∷ (turns rest s').0, (turns rest s').1)
      ]

  -- Each query leaves room in a batch that the next one does not fit.
  abbrev pub Crowding : Request → Arrivals → Type 0
  Crowding q [] = Unit
  Crowding q ((a, bulk) ∷ rest) =
      (length q.values < max_items)
      × ((max_items < length q.values + length a.values)
          ⊎ (max_padded_tokens
              < (length q.values + length a.values) * max q.max_item_tokens a.max_item_tokens))
      × Crowding a rest

  turn-crowded :
      (burst : ℕ) (q a : Request) (bulk : List Request)
      → length q.values < max_items
      → (max_items < length q.values + length a.values)
        ⊎ (max_padded_tokens
            < (length q.values + length a.values) * max q.max_item_tokens a.max_item_tokens)
      → turn max_items max_padded_tokens (record {
        queries = a ∷ [];
        bulk = bulk;
        deferred = some (query, q);
        query_burst = burst;
      })
        ≡ some (alone q, waiting (burst + 1) a bulk)
  unfolding turn next_request batch_from fill tagged burst_after exceeds
  turn-crowded burst q a bulk room over = rw (open_batch, clash) refl
    where
      open_batch : ltb (length q.values) max_items ≡ true
      open_batch = ground arith

      clash : exceeds max_items max_padded_tokens (length q.values) q.max_item_tokens a ≡ true
      clash = unfold exceeds in ground arith

  turns-cons :
      (a : Request) (bulk : List Request) (rest : Arrivals) (s s' : Scheduler) (batch : Batch)
      → turn max_items max_padded_tokens (send_each bulk (send query a s)) ≡ some (batch, s')
      → turns ((a, bulk) ∷ rest) s ≡ (batch ∷ (turns rest s').0, (turns rest s').1)
  unfolding turns
  turns-cons a bulk rest s s' batch e = rw (e, turns) refl

  -- Where each arriving query does not fit a batch with the one before it, which has room, each turn
  -- serves the deferred query alone and defers the one that arrived, for as long as one arrives before
  -- each turn: the bulk requests that waited, and those that arrive, are all still waiting in the end,
  -- however many queries have been served in a row.
  pub crowded-starves :
      (burst : ℕ) (q : Request) (bulk : List Request) (arrivals : Arrivals)
      → Crowding q arrivals
      → turns arrivals (waiting burst q bulk) ≡ (
        map alone (served q arrivals),
        waiting (burst + length arrivals) (newest q arrivals) (bulk ++ arrived arrivals),
      )
  unfolding turns send
  crowded-starves burst q bulk [] h =
      ap (λ b. ([], waiting burst q b)) (sym (append-nil bulk))
      ∙ ap (λ n. ([], waiting n q (bulk ++ []))) (omega arith)
  crowded-starves burst q bulk ((a, more) ∷ rest) h =
      let sent = send_each-bulk more (a ∷ []) bulk burst q in
      let step = turn-crowded burst q a (bulk ++ more) h.0 h.1 in
      let after = crowded-starves (burst + 1) a (bulk ++ more) rest h.2 in
      turns-cons a more rest (waiting burst q bulk) (waiting (burst + 1) a (bulk ++ more)) (alone q)
        (ap (turn max_items max_padded_tokens) sent ∙ step)
      ∙ ap (λ r. (alone q ∷ r.0, r.1)) after
      ∙ ap
          (λ b. (
            alone q ∷ map alone (served a rest),
            waiting (burst + 1 + length rest) (newest a rest) b,
          ))
          (append_assoc bulk more (arrived rest))
      ∙ ap
          (λ n. (
            alone q ∷ map alone (served a rest),
            waiting n (newest a rest) (bulk ++ (more ++ arrived rest)),
          ))
          (omega arith)
