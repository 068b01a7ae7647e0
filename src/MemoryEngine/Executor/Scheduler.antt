-- ===== src/MemoryEngine/Executor/Scheduler.antt =====
-- `run` and `submit` of crates/memory-engine/src/embedding_executor.rs: one turn of the loop takes
-- requests off the two queues, makes one batch of them and replies. A request names its reply
-- channel. The inference is a parameter, and what is only logged is left out.
use supermemory_rs.Prelude.{
  ℕ, ◌+◌, ◌*◌, max, Text, Bool, ◌||◌, List, [], ◌∷◌, ◌++◌, Option, none, some, Result, ok, err, ltb,
  leb, if◌then◌else◌, length, take, drop,
}
use supermemory_rs.MemoryEngine.Executor.Microbatch.{EmbeddingExecutorError, batch_failed}

-- The priorities `Memory` and `Warmup` go to the queue of documents.
pub data EmbeddingPriority : Type 0 where
  query document memory warmup : EmbeddingPriority

pub record PreparedEmbeddingInput : Type 0 where
  pub text : Text
  pub token_count : ℕ

pub record EmbeddedText (W : Type 0) : Type 0 where
  pub text : Text
  pub vector : W

pub record Request : Type 0 where
  pub values : List PreparedEmbeddingInput
  pub item_count : ℕ
  pub max_item_tokens : ℕ
  pub reply : ℕ

-- `.max().unwrap_or(1)`
unfoldable pub max_tokens : List PreparedEmbeddingInput → ℕ
max_tokens [] = 0
max_tokens (v ∷ vs) = max v.token_count (max_tokens vs)

unfoldable pub max_item_tokens : List PreparedEmbeddingInput → ℕ
unfolding max_tokens
max_item_tokens [] = 1
max_item_tokens (v ∷ vs) = max_tokens (v ∷ vs)

-- The request that `submit` sends.
unfoldable pub request_of : ℕ → List PreparedEmbeddingInput → Request
unfolding max_item_tokens
request_of reply values = record {
  values = values;
  item_count = length values;
  max_item_tokens = max_item_tokens values;
  reply = reply;
}

-- The two queues, oldest first, and the variables of the loop.
pub record Scheduler : Type 0 where
  pub queries : List Request
  pub bulk : List Request
  pub deferred : Option (EmbeddingPriority × Request)
  pub query_burst : ℕ

unfoldable pub send : EmbeddingPriority → Request → Scheduler → Scheduler
send query r s = record s { queries = s.queries ++ r ∷ [] }
send document r s = record s { bulk = s.bulk ++ r ∷ [] }
send memory r s = record s { bulk = s.bulk ++ r ∷ [] }
send warmup r s = record s { bulk = s.bulk ++ r ∷ [] }

abbrev pub Taken : Type 0
Taken = Option ((EmbeddingPriority × Request) × Scheduler)

unfoldable pub receive_query : Scheduler → Taken
receive_query s = elim s.queries [
  | [] ↦ none
  | r ∷ rest ↦ some ((query, r), record s { queries = rest })
]

unfoldable pub receive_bulk : Scheduler → Taken
receive_bulk s = elim s.bulk [
  | [] ↦ none
  | r ∷ rest ↦ some ((document, r), record s { bulk = rest })
]

-- `or_else`
unfoldable pub or_else : Taken → Taken → Taken
or_else none other = other
or_else (some taken) other = some taken

-- The request that starts the next batch; with none, the loop waits.
unfoldable pub next_request : Scheduler → Taken
unfolding receive_query receive_bulk or_else
next_request s = elim s.deferred [
  | some taken ↦ some (taken, record s { deferred = none })
  | none ↦
      or_else (if leb 4 s.query_burst then receive_bulk s else none)
        (or_else (receive_query s) (receive_bulk s))
]

-- What the loop over a queue takes and defers, and what it leaves.
pub record Filled : Type 0 where
  pub requests : List Request
  pub deferred : Option Request
  pub rest : List Request

unfoldable pub exceeds : ℕ → ℕ → ℕ → ℕ → Request → Bool
exceeds max_items max_padded_tokens items longest r =
    ltb max_items (items + length r.values)
    || ltb max_padded_tokens ((items + length r.values) * max longest r.max_item_tokens)

unfoldable pub fill : ℕ → ℕ → ℕ → ℕ → List Request → Filled
unfolding exceeds
fill max_items max_padded_tokens items longest [] = record {
  requests = [];
  deferred = none;
  rest = [];
}
fill max_items max_padded_tokens items longest (r ∷ queue) =
    let more =
      fill max_items max_padded_tokens (items + length r.values) (max longest r.max_item_tokens)
        queue in
    if ltb items max_items
    then if exceeds max_items max_padded_tokens items longest r
      then record { requests = []; deferred = some r; rest = queue }
      else record more { requests = r ∷ more.requests }
    else record { requests = []; deferred = none; rest = r ∷ queue }

unfoldable pub tagged : EmbeddingPriority → Option Request → Option (EmbeddingPriority × Request)
tagged priority none = none
tagged priority (some r) = some (priority, r)

unfoldable pub burst_after : EmbeddingPriority → ℕ → ℕ
burst_after query burst = burst + 1
burst_after document burst = 0
burst_after memory burst = 0
burst_after warmup burst = 0

pub record Batch : Type 0 where
  pub priority : EmbeddingPriority
  pub requests : List Request

module _ (max_items max_padded_tokens : ℕ) where
  -- The batch that a request starts.
  unfoldable pub batch_from : EmbeddingPriority → Request → Scheduler → Batch × Scheduler
  unfolding fill tagged burst_after
  batch_from query r s =
      let filled = fill max_items max_padded_tokens (length r.values) r.max_item_tokens s.queries in
      (
        record { priority = query; requests = r ∷ filled.requests },
        record s {
          queries = filled.rest;
          deferred = tagged query filled.deferred;
          query_burst = burst_after query s.query_burst;
        },
      )
  batch_from priority r s =
      let filled = fill max_items max_padded_tokens (length r.values) r.max_item_tokens s.bulk in
      (
        record { priority = priority; requests = r ∷ filled.requests },
        record s {
          bulk = filled.rest;
          deferred = tagged document filled.deferred;
          query_burst = burst_after priority s.query_burst;
        },
      )

  -- One turn of the loop.
  unfoldable pub turn : Scheduler → Option (Batch × Scheduler)
  unfolding next_request batch_from
  turn s = elim (next_request s) [
    | none ↦ none
    | some ((priority, r), s') ↦ some (batch_from priority r s')
  ]

unfoldable pub batch_values : List Request → List PreparedEmbeddingInput
batch_values [] = []
batch_values (r ∷ rs) = r.values ++ batch_values rs

module _ {W : Type 0} where
  -- `zip`: as many pairs as the shorter list has elements.
  unfoldable pub embedded : List PreparedEmbeddingInput → List W → List (EmbeddedText W)
  embedded [] vectors = []
  embedded (v ∷ values) [] = []
  embedded (v ∷ values) (w ∷ vectors) =
      record { text = v.text; vector = w } ∷ embedded values vectors

  unfoldable pub reply_each :
      {E : Type 0}
      → List Request
      → List PreparedEmbeddingInput
      → List W
      → List (ℕ × Result (EmbeddingExecutorError E) (List (EmbeddedText W)))
  unfolding embedded
  reply_each [] values vectors = []
  reply_each (r ∷ rs) values vectors =
      (r.reply, ok (embedded (take r.item_count values) (take r.item_count vectors)))
      ∷ reply_each rs (drop r.item_count values) (drop r.item_count vectors)

  unfoldable pub fail_each :
      {E : Type 0}
      → List Request
      → E
      → List (ℕ × Result (EmbeddingExecutorError E) (List (EmbeddedText W)))
  fail_each [] error = []
  fail_each (r ∷ rs) error = (r.reply, err (batch_failed error)) ∷ fail_each rs error

  -- What the requests of a batch are replied.
  unfoldable pub replies :
      {E : Type 0}
      → (List PreparedEmbeddingInput → Result E (List W))
      → List Request
      → List (ℕ × Result (EmbeddingExecutorError E) (List (EmbeddedText W)))
  unfolding batch_values reply_each fail_each
  replies embed_prepared requests = elim (embed_prepared (batch_values requests)) [
    | ok vectors ↦ reply_each requests (batch_values requests) vectors
    | err error ↦ fail_each requests error
  ]
