-- ===== src/MemoryEngine/Executor/Order.antt =====
-- One turn of the scheduler as two first-in-first-out queues.
use mathlib.Core.Path.{subst}
use supermemory_rs.Prelude.{
  ℕ, leb, Bool, true, false, ◌≡◌, refl, sym, ap, ◌∙◌, ◌⊎◌, inl, inr, List, [], ◌∷◌, ◌++◌, Option,
  none, some, All, length, Bool-cases,
}
use supermemory_rs.MemoryEngine.Executor.Scheduler.{
  EmbeddingPriority, query, document, memory, warmup, Request, Scheduler, Filled, receive_query,
  receive_bulk, or_else, next_request, fill, tagged, Batch, batch_from, turn,
}
use supermemory_rs.MemoryEngine.Executor.Batches.{
  deferred_list, fill-append, IsAdmissible, IsWithin, fill-IsWithin,
}

abbrev pub is_query : EmbeddingPriority → Bool
is_query query = true
is_query _ = false

abbrev deferred_query : Option (EmbeddingPriority × Request) → List Request
deferred_query none = []
deferred_query (some (query, r)) = r ∷ []
deferred_query (some (document, r)) = []
deferred_query (some (memory, r)) = []
deferred_query (some (warmup, r)) = []

abbrev deferred_bulk : Option (EmbeddingPriority × Request) → List Request
deferred_bulk none = []
deferred_bulk (some (query, r)) = []
deferred_bulk (some (document, r)) = r ∷ []
deferred_bulk (some (memory, r)) = r ∷ []
deferred_bulk (some (warmup, r)) = r ∷ []

-- The requests that wait, the deferred one before its queue.
abbrev pub pending_queries : Scheduler → List Request
pending_queries s = deferred_query s.deferred ++ s.queries

abbrev pub pending_bulk : Scheduler → List Request
pending_bulk s = deferred_bulk s.deferred ++ s.bulk

-- A request that is received: the first of those that wait with its priority.
record IsNext (s : Scheduler) (priority : EmbeddingPriority) (r : Request) (s' : Scheduler)
    : Type 0 where
  none_deferred : s'.deferred ≡ none
  order :
      ((is_query priority ≡ true)
        × (pending_queries s ≡ r ∷ s'.queries)
        × (pending_bulk s ≡ s'.bulk))
      ⊎ ((is_query priority ≡ false)
          × (pending_bulk s ≡ r ∷ s'.bulk)
          × (pending_queries s ≡ s'.queries))

abbrev Next : Scheduler → Type 0
Next s =
    ((next_request s ≡ none) × (pending_queries s ≡ []) × (pending_bulk s ≡ []))
    ⊎ ((priority : EmbeddingPriority) × (r : Request) × (s' : Scheduler) × (next_request s
          ≡ some ((priority, r), s'))
        × IsNext s priority r s')

abbrev plain : ℕ → List Request → List Request → Scheduler
plain burst queries bulk = record {
  queries = queries;
  bulk = bulk;
  deferred = none;
  query_burst = burst;
}

late : (burst : ℕ) (qs bs : List Request) → leb 4 burst ≡ true → Next (plain burst qs bs)
unfolding next_request receive_query receive_bulk or_else
late burst [] [] e = inl (rw (e, next_request) refl, refl, refl)
late burst (q ∷ qs) [] e = inr (
  query,
  q,
  plain burst qs [],
  rw (e, next_request) refl,
  record { none_deferred = refl; order = inl (refl, refl, refl) },
)
late burst qs (b ∷ bs) e = inr (
  document,
  b,
  plain burst qs bs,
  rw (e, next_request) refl,
  record { none_deferred = refl; order = inr (refl, refl, refl) },
)

early : (burst : ℕ) (qs bs : List Request) → leb 4 burst ≡ false → Next (plain burst qs bs)
unfolding next_request receive_query receive_bulk or_else
early burst [] [] e = inl (rw (e, next_request) refl, refl, refl)
early burst (q ∷ qs) bs e = inr (
  query,
  q,
  plain burst qs bs,
  rw (e, next_request) refl,
  record { none_deferred = refl; order = inl (refl, refl, refl) },
)
early burst [] (b ∷ bs) e = inr (
  document,
  b,
  plain burst [] bs,
  rw (e, next_request) refl,
  record { none_deferred = refl; order = inr (refl, refl, refl) },
)

received :
    (burst : ℕ) (qs bs : List Request) (d : Option (EmbeddingPriority × Request))
    → Next (record { queries = qs; bulk = bs; deferred = d; query_burst = burst })
unfolding next_request
received burst qs bs none = elim (Bool-cases (leb 4 burst)) [
  | inl e ↦ late burst qs bs e
  | inr e ↦ early burst qs bs e
]
received burst qs bs (some (query, r)) = inr (
  query,
  r,
  plain burst qs bs,
  refl,
  record { none_deferred = refl; order = inl (refl, refl, refl) },
)
received burst qs bs (some (document, r)) = inr (
  document,
  r,
  plain burst qs bs,
  refl,
  record { none_deferred = refl; order = inr (refl, refl, refl) },
)
received burst qs bs (some (memory, r)) = inr (
  memory,
  r,
  plain burst qs bs,
  refl,
  record { none_deferred = refl; order = inr (refl, refl, refl) },
)
received burst qs bs (some (warmup, r)) = inr (
  warmup,
  r,
  plain burst qs bs,
  refl,
  record { none_deferred = refl; order = inr (refl, refl, refl) },
)

-- What a turn does to the requests that wait.
abbrev pub Dequeues : Batch → Scheduler → Scheduler → Type 0
Dequeues batch s s' =
    ((is_query batch.priority ≡ true)
      × (pending_queries s ≡ batch.requests ++ pending_queries s')
      × (pending_bulk s' ≡ pending_bulk s))
    ⊎ ((is_query batch.priority ≡ false)
        × (pending_bulk s ≡ batch.requests ++ pending_bulk s')
        × (pending_queries s' ≡ pending_queries s))

module _ (max_items max_padded_tokens : ℕ) where
  -- All that waits may be given to the model, each request on its own.
  pub record IsSound (s : Scheduler) : Type 0 where
    pub queries : All (IsAdmissible max_items max_padded_tokens) (pending_queries s)
    pub bulk : All (IsAdmissible max_items max_padded_tokens) (pending_bulk s)

  pub record IsTurn (s : Scheduler) (batch : Batch) (s' : Scheduler) : Type 0 where
    pub dequeues : Dequeues batch s s'
    pub within : IsSound s → IsWithin max_items max_padded_tokens batch.requests

  deferred-tagged_query :
      (o : Option Request)
      → (deferred_query (tagged query o) ≡ deferred_list o) × (deferred_bulk (tagged query o) ≡ [])
  unfolding tagged
  deferred-tagged_query none = (refl, refl)
  deferred-tagged_query (some r) = (refl, refl)

  deferred-tagged_bulk :
      (o : Option Request)
      → (deferred_bulk (tagged document o) ≡ deferred_list o)
        × (deferred_query (tagged document o) ≡ [])
  unfolding tagged
  deferred-tagged_bulk none = (refl, refl)
  deferred-tagged_bulk (some r) = (refl, refl)

  abbrev filled : Request → List Request → Filled
  filled r queue = fill max_items max_padded_tokens (length r.values) r.max_item_tokens queue

  taken_order :
      (r : Request) (queue pending d : List Request)
      → pending ≡ r ∷ queue
      → d ≡ deferred_list (filled r queue).deferred
      → pending ≡ (r ∷ (filled r queue).requests) ++ (d ++ (filled r queue).rest)
  taken_order r queue pending d first held =
      let parts =
        fill-append max_items max_padded_tokens (length r.values) r.max_item_tokens queue in
      rw held (first ∙ ap (λ rs. r ∷ rs) (sym parts))

  IsWithin-order :
      (r : Request) (queue pending : List Request)
      → pending ≡ r ∷ queue
      → All (IsAdmissible max_items max_padded_tokens) pending
      → IsWithin max_items max_padded_tokens (r ∷ (filled r queue).requests)
  IsWithin-order r queue pending first h =
      let both = subst (All (IsAdmissible max_items max_padded_tokens)) first h in
      fill-IsWithin max_items max_padded_tokens r queue both.0 both.1

  queries-IsTurn :
      (s s' : Scheduler) (r : Request) (burst : ℕ)
      → IsNext s query r s'
      → IsTurn s
          (record { priority = query; requests = r ∷ (filled r s'.queries).requests })
          (record s' {
            queries = (filled r s'.queries).rest;
            deferred = tagged query (filled r s'.queries).deferred;
            query_burst = burst;
          })
  queries-IsTurn s s' r burst h = elim h.order [
    | inr (other, _, _) ↦ absurd (cc other)
    | inl (_, first, rest) ↦
        let (held, free) = deferred-tagged_query (filled r s'.queries).deferred in
        record {
          dequeues = inl (
            refl,
            taken_order r s'.queries (pending_queries s) _ first held,
            ap (λ d. d ++ s'.bulk) free ∙ sym rest,
          );
          within = λ sound. IsWithin-order r s'.queries (pending_queries s) first sound.queries;
        }
  ]

  bulk-IsTurn :
      (s s' : Scheduler) (priority : EmbeddingPriority) (r : Request) (burst : ℕ)
      → is_query priority ≡ false
      → IsNext s priority r s'
      → IsTurn s
          (record { priority = priority; requests = r ∷ (filled r s'.bulk).requests })
          (record s' {
            bulk = (filled r s'.bulk).rest;
            deferred = tagged document (filled r s'.bulk).deferred;
            query_burst = burst;
          })
  bulk-IsTurn s s' priority r burst not_query h = elim h.order [
    | inl (other, _, _) ↦ absurd (cc (not_query, other))
    | inr (_, first, rest) ↦
        let (held, free) = deferred-tagged_bulk (filled r s'.bulk).deferred in
        record {
          dequeues = inr (
            not_query,
            taken_order r s'.bulk (pending_bulk s) _ first held,
            ap (λ d. d ++ s'.queries) free ∙ sym rest,
          );
          within = λ sound. IsWithin-order r s'.bulk (pending_bulk s) first sound.bulk;
        }
  ]

  -- The turn that starts with a request, by its priority.
  batch_from-IsTurn :
      (s s' : Scheduler) (priority : EmbeddingPriority) (r : Request)
      → IsNext s priority r s'
      → IsTurn s
          (batch_from max_items max_padded_tokens priority r s').0
          (batch_from max_items max_padded_tokens priority r s').1
  unfolding batch_from
  batch_from-IsTurn s s' query r h = queries-IsTurn s s' r _ h
  batch_from-IsTurn s s' document r h = bulk-IsTurn s s' document r _ refl h
  batch_from-IsTurn s s' memory r h = bulk-IsTurn s s' memory r _ refl h
  batch_from-IsTurn s s' warmup r h = bulk-IsTurn s s' warmup r _ refl h

  -- The loop waits only where no request waits. Else a turn makes one batch, of queries or of bulk
  -- requests and never of both: the first that wait with that priority, in their order, the deferred one
  -- first, while those of the other priority stay as they are. Where each request that waits may be
  -- given to the model, the batch keeps to both limits, each of its items padded to the longest.
  pub turn-IsTurn :
      (s : Scheduler)
      → ((turn max_items max_padded_tokens s ≡ none)
          × (pending_queries s ≡ [])
          × (pending_bulk s ≡ []))
        ⊎ ((batch : Batch) × (s' : Scheduler) × (turn max_items max_padded_tokens s
              ≡ some (batch, s'))
            × IsTurn s batch s')
  unfolding turn
  turn-IsTurn s = elim (received s.query_burst s.queries s.bulk s.deferred) [
    | inl (e, queries, bulk) ↦ inl (rw (e, turn) refl, queries, bulk)
    | inr (priority, r, s', e, h) ↦ inr (
      (batch_from max_items max_padded_tokens priority r s').0,
      (batch_from max_items max_padded_tokens priority r s').1,
      rw (e, turn) refl,
      batch_from-IsTurn s s' priority r h,
    )
  ]
