-- ===== src/MemoryEngine/Executor/Replies.antt =====
-- What the requests of a batch are replied.
use mathlib.Core.Path.{subst}
use supermemory_rs.Prelude.{
  ℕ, ◌+◌, Text, ◌≡◌, refl, sym, ap, ◌∙◌, List, [], ◌∷◌, ◌++◌, Result, ok, err, take, drop, length,
  length-append, length-take, length-drop, take-append-drop, All, Pairs, arith,
}
use supermemory_rs.MemoryEngine.Executor.Microbatch.{EmbeddingExecutorError}
use supermemory_rs.MemoryEngine.Executor.Scheduler.{
  PreparedEmbeddingInput, EmbeddedText, Request, batch_values, embedded, reply_each, replies,
}

take-length_append : {A : Type 0} (xs ys : List A) → take (length xs) (xs ++ ys) ≡ xs
take-length_append [] ys = refl
take-length_append (x ∷ xs) ys = ap (λ l. x ∷ l) (take-length_append xs ys)

drop-length_append : {A : Type 0} (xs ys : List A) → drop (length xs) (xs ++ ys) ≡ ys
drop-length_append [] ys = refl
drop-length_append (x ∷ xs) ys = drop-length_append xs ys

abbrev pub texts_of : List PreparedEmbeddingInput → List Text
texts_of [] = []
texts_of (v ∷ vs) = v.text ∷ texts_of vs

module _ {W : Type 0} where
  abbrev pub embedded_texts : List (EmbeddedText W) → List Text
  embedded_texts [] = []
  embedded_texts (t ∷ ts) = t.text ∷ embedded_texts ts

  abbrev pub vectors_of : List (EmbeddedText W) → List W
  vectors_of [] = []
  vectors_of (t ∷ ts) = t.vector ∷ vectors_of ts

  embedded-texts :
      (values : List PreparedEmbeddingInput) (ws : List W)
      → length ws ≡ length values
      → (embedded_texts (embedded values ws) ≡ texts_of values)
        × (vectors_of (embedded values ws) ≡ ws)
  unfolding embedded
  embedded-texts [] [] h = (refl, refl)
  embedded-texts [] (w ∷ ws) h = absurd (omega (arith, h))
  embedded-texts (v ∷ values) [] h = absurd (omega (arith, h))
  embedded-texts (v ∷ values) (w ∷ ws) h =
      let (own, vectors) = embedded-texts values ws (omega (arith, h)) in
      (ap (λ l. v.text ∷ l) own, ap (λ l. w ∷ l) vectors)

module _ {W E : Type 0} where
  -- The request's own texts, on its channel.
  pub record IsReplied (r : Request)
      (reply : ℕ × Result (EmbeddingExecutorError E) (List (EmbeddedText W))) : Type 0 where
    pub out : List (EmbeddedText W)
    pub sent : reply ≡ (r.reply, ok out)
    pub own : embedded_texts out ≡ texts_of r.values

  -- The vectors of the replies, one after the other.
  abbrev pub replied_vectors :
      List (ℕ × Result (EmbeddingExecutorError E) (List (EmbeddedText W))) → List W
  replied_vectors [] = []
  replied_vectors ((_, ok out) ∷ rest) = vectors_of out ++ replied_vectors rest
  replied_vectors ((_, err e) ∷ rest) = replied_vectors rest

  pub record AreReplied (requests : List Request) (ws : List W)
      (out : List (ℕ × Result (EmbeddingExecutorError E) (List (EmbeddedText W)))) : Type 0 where
    pub each : Pairs IsReplied requests out
    pub vectors : replied_vectors out ≡ ws

  reply_first :
      (r : Request) (rs : List Request) (ws : List W)
      → r.item_count ≡ length r.values
      → reply_each {E = E} (r ∷ rs) (r.values ++ batch_values rs) ws
        ≡ (r.reply, ok (embedded r.values (take (length r.values) ws)))
          ∷ reply_each rs (batch_values rs) (drop (length r.values) ws)
  unfolding reply_each
  reply_first r rs ws counted =
      rw
        (
          counted,
          take-length_append r.values (batch_values rs),
          drop-length_append r.values (batch_values rs),
        )
        refl

  reply_each-AreReplied :
      (requests : List Request) (ws : List W)
      → All (λ r. r.item_count ≡ length r.values) requests
      → length ws ≡ length (batch_values requests)
      → AreReplied requests ws (reply_each requests (batch_values requests) ws)
  unfolding batch_values
  reply_each-AreReplied [] [] counted long =
      unfold reply_each in record { each = tt; vectors = refl }
  reply_each-AreReplied [] (w ∷ ws) counted long = absurd (omega (arith, long))
  reply_each-AreReplied (r ∷ rs) ws counted long =
      let total : length ws ≡ length r.values + length (batch_values rs) =
        long ∙ length-append r.values (batch_values rs) in
      let front : length (take (length r.values) ws) ≡ length r.values =
        omega (arith, total, length-take (length r.values) ws) in
      let back : length (drop (length r.values) ws) ≡ length (batch_values rs) =
        omega (arith, total, length-drop (length r.values) ws) in
      let (own, vectors) = embedded-texts r.values (take (length r.values) ws) front in
      let rest = reply_each-AreReplied rs (drop (length r.values) ws) counted.1 back in
      subst (AreReplied (r ∷ rs) ws) (sym (reply_first r rs ws counted.0)) (record {
        each = (
          record { out = embedded r.values (take (length r.values) ws); sent = refl; own = own },
          rest.each,
        );
        vectors = cc (vectors, rest.vectors, take-append-drop (length r.values) ws);
      })

  -- Where inference gives one vector for each item, every request of the batch is replied on its own
  -- channel, once and in order, with its own texts in their order; and the vectors of the replies are,
  -- one after the other, those of the inference.
  pub replies-AreReplied :
      (embed_prepared : List PreparedEmbeddingInput → Result E (List W)) (requests : List Request)
      (ws : List W)
      → embed_prepared (batch_values requests) ≡ ok ws
      → length ws ≡ length (batch_values requests)
      → All (λ r. r.item_count ≡ length r.values) requests
      → AreReplied requests ws (replies embed_prepared requests)
  unfolding replies
  replies-AreReplied embed_prepared requests ws done long counted =
      rw (done, replies) (reply_each-AreReplied requests ws counted long)
