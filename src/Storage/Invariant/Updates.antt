-- ===== src/Storage/Invariant/Updates.antt =====
-- The shapes of update that keep the invariant, each for the operations that make it.
use supermemory_rs.Prelude.{
  ℕ, ◌≤◌, Text, text_eq, text_eq_iff, Bool, true, false, ◌&&◌, ◌≡◌, refl, ◌⊎◌, inl, inr, List, [],
  ◌∷◌, ◌++◌, Option, none, some, ◌==◌, if◌then◌else◌, arith, Bool-cases, All, All-append, All-map,
}
use supermemory_rs.Storage.State.{DocumentState}
use supermemory_rs.Storage.Sql.{update_where, count_where, first_where}
use supermemory_rs.Storage.Sql.Laws.{
  Among, All-update, count-update_le, count-append, count_one, zero-All,
}
use supermemory_rs.Storage.Sql.Keys.{
  Distinct, Distinct-update, Distinct-snoc, Distinct-key, All-both,
}
use supermemory_rs.Storage.Tables.{Document, Job, is_active, find_document}
use supermemory_rs.Storage.Rows.{document_is, set_document_status}
use supermemory_rs.Storage.Invariant.{state_of, shown, IsCurrent, active_of, IsValid}

-- The state of a document after the status of document `id` at `revision` is set.
abbrev pub touched :
    Text → ℕ → DocumentState → Text → Option (ℕ × DocumentState) → Option (ℕ × DocumentState)
touched id revision status k none = none
touched id revision status k (some (r, s)) =
    if text_eq k id && (r == revision) then some (r, status) else some (r, s)

module _ {V : Type 0} where
  pub state_of-set :
      (now : ℕ) (id : Text) (revision : ℕ) (status : DocumentState) (ds : List (Document V))
      (k : Text)
      → state_of (set_document_status now id revision status ds) k
        ≡ touched id revision status k (state_of ds k)
  unfolding state_of find_document first_where set_document_status update_where document_is
  state_of-set now id revision status [] k = refl
  state_of-set now id revision status (d ∷ ds) k =
      ground (arith, text_eq_iff d.id k, state_of-set now id revision status ds k)

pub set-Distinct :
    {V : Type 0} (ds : List (Document V)) (now : ℕ) (id : Text) (revision : ℕ)
    (status : DocumentState)
    → Distinct (λ d. d.id) ds
    → Distinct (λ d. d.id) (set_document_status now id revision status ds)
unfolding set_document_status
set-Distinct ds now id revision status h = Distinct-update (λ d. d.id) _ _ ds (λ k. refl) h

pub active_of_intro :
    (id : Text) (k : Job)
    → text_eq k.document_id id ≡ true
    → is_active k.status ≡ true
    → active_of id k ≡ true
unfolding active_of
active_of_intro id k same active = ground arith

pub active_of_parts :
    (id : Text) (k : Job)
    → active_of id k ≡ true
    → (text_eq k.document_id id ≡ true) × (is_active k.status ≡ true)
unfolding active_of
active_of_parts id k h = (ground arith, ground arith)

touched_self :
    (id : Text) (revision : ℕ) (status : DocumentState) {s : DocumentState}
    {o : Option (ℕ × DocumentState)}
    → o ≡ some (revision, s)
    → touched id revision status id o ≡ some (revision, status)
touched_self id revision status e = rw e (ground (arith, text_eq_iff id id))

pub state_of-set_self :
    {V : Type 0} (now : ℕ) (id : Text) (revision : ℕ) (status : DocumentState)
    (ds : List (Document V)) {s : DocumentState}
    → state_of ds id ≡ some (revision, s)
    → state_of (set_document_status now id revision status ds) id ≡ some (revision, status)
state_of-set_self now id revision status ds e = rw state_of-set (touched_self id revision status e)

touched_other :
    (id : Text) (revision : ℕ) (status : DocumentState) (k : Text) {r : ℕ} {s : DocumentState}
    → (text_eq k id ≡ true → ⊥)
    → touched id revision status k (some (r, s)) ≡ some (r, s)
touched_other id revision status k other = elim (Bool-cases (text_eq k id)) [
  | inl e ↦ absurd (other e)
  | inr e ↦ rw e
]

count_one_le : (q : Job → Bool) (j : Job) → count_where q (j ∷ []) ≤ 1
unfolding count_where
count_one_le q j = ground arith

count_none : (q : Job → Bool) (j : Job) → q j ≡ false → count_where q (j ∷ []) ≡ 0
unfolding count_where
count_none q j h = ground arith

-- An update of the row `j` alone, whose new status the document is to show.
pub record IsFocused (j : Job) (p : Job → Bool) (f : Job → Job) (status : DocumentState)
    : Type 0 where
  pub hits : p j ≡ true
  pub alone : (k : Job) → p k ≡ true → text_eq k.id j.id ≡ true
  pub keeps_id : (k : Job) → (f k).id ≡ k.id
  pub keeps_document : (f j).document_id ≡ j.document_id
  pub keeps_revision : (f j).revision ≡ j.revision
  pub matches : is_active (f j).status ≡ true → shown (f j).kind (f j).status ≡ status

module _ {V : Type 0} (ds : List (Document V)) (js : List Job) (j : Job) (p : Job → Bool)
    (f : Job → Job) (valid : IsValid ds js) (among : Among j js)
    (active : is_active j.status ≡ true) where
  -- Rows of the primary key of `j`, and active rows of its document, are `j`.
  sole :
      All (λ k. (text_eq k.id j.id ≡ true → k ≡ j) × (active_of j.document_id k ≡ true → k ≡ j)) js
  sole = All-both _ _ js (Distinct-key _ j js valid.distinct among) (
      count_one (active_of j.document_id) j js (valid.single j.document_id) among
        (unfold active_of in ground (arith, text_eq_iff j.document_id j.document_id)))

  module _ (status : DocumentState) (focus : IsFocused j p f status) where
    kept : (id : Text) (k : Job) → k ≡ j → active_of id (f k) ≡ true → active_of id k ≡ true
    kept id k e after = rw e (
        active_of_intro id j
          (rw focus.keeps_document at ((active_of_parts id (f j) (rw e at after)).0)) active)

    focus_single : (id : Text) → count_where (active_of id) (update_where p f js) ≤ 1
    focus_single id = omega (
      arith,
      valid.single id,
      count-update_le (active_of id) p f js
          (All-map _ _ (λ k key hit after. kept id k (key.0 (focus.alone k hit)) after) js sole),
    )

    focus_hit :
        (now : ℕ) (k : Job)
        → k ≡ j
        → IsCurrent ds k
        → IsCurrent (set_document_status now j.document_id j.revision status ds) (f k)
    focus_hit now k e current = rw e λ after.
        rw (focus.keeps_document, focus.keeps_revision)
          (rw (focus.matches after, state_of-set)
            (touched_self j.document_id j.revision status (rw e at current active)))

    focus_miss :
        (now : ℕ) (k : Job)
        → (active_of j.document_id k ≡ true → k ≡ j)
        → p k ≡ false
        → IsCurrent ds k
        → IsCurrent (set_document_status now j.document_id j.revision status ds) k
    focus_miss now k only miss current after = rw state_of-set (
        rw (current after) (
          touched_other j.document_id j.revision status k.document_id
            λ same. cc (focus.hits, miss, only (active_of_intro j.document_id k same after))))

    focus-IsCurrent :
        (now : ℕ)
        → All
            (IsCurrent (set_document_status now j.document_id j.revision status ds))
            (update_where p f js)
    focus-IsCurrent now =
        All-update _ _ p f js
          (λ k facts hit. focus_hit now k (facts.1.0 (focus.alone k hit)) facts.0)
          (λ k facts miss. focus_miss now k facts.1.1 miss facts.0)
          (All-both _ _ js valid.current sole)

    -- The row of an active job is updated, and its document made to show the new status.
    pub focus-IsValid :
        (now : ℕ)
        → IsValid (set_document_status now j.document_id j.revision status ds) (update_where p f js)
    focus-IsValid now = record {
      current = focus-IsCurrent now;
      single = focus_single;
      distinct = Distinct-update _ p f js focus.keeps_id valid.distinct;
      documents_distinct =
          set-Distinct ds now j.document_id j.revision status valid.documents_distinct;
    }

-- An update of jobs alone, by which no row becomes active or changes what its document shows.
pub record IsQuiet (js : List Job) (p : Job → Bool) (f : Job → Job) : Type 0 where
  pub keeps_id : (k : Job) → (f k).id ≡ k.id
  pub keeps_document : (k : Job) → (f k).document_id ≡ k.document_id
  pub keeps_revision : (k : Job) → (f k).revision ≡ k.revision
  pub quiet :
      All
        (λ k.
          p k ≡ true
          → is_active (f k).status ≡ true
          → (is_active k.status ≡ true) × (shown (f k).kind (f k).status ≡ shown k.kind k.status))
        js

module _ {V : Type 0} (ds : List (Document V)) (js : List Job) (p : Job → Bool) (f : Job → Job)
    (valid : IsValid ds js) (still : IsQuiet js p f) where
  quiet_active :
      (id : Text) (k : Job)
      → (is_active (f k).status ≡ true → is_active k.status ≡ true)
      → active_of id (f k) ≡ true
      → active_of id k ≡ true
  quiet_active id k before after =
      let parts = active_of_parts id (f k) after in
      active_of_intro id k (rw still.keeps_document at parts.0) (before parts.1)

  pub quiet-IsValid : IsValid ds (update_where p f js)
  quiet-IsValid = record {
    current =
        All-update _ _ p f js
          (λ k facts hit after.
            let (before, same) = facts.1 hit after in
            rw (still.keeps_document, still.keeps_revision, same) (facts.0 before))
          (λ k facts miss. facts.0) (All-both _ _ js valid.current still.quiet);
    single = λ id. omega (
      arith,
      valid.single id,
      count-update_le (active_of id) p f js (
          All-map _ _ (λ k quiet hit after. quiet_active id k (λ a. (quiet hit a).0) after) js
            still.quiet),
    );
    distinct = Distinct-update _ p f js still.keeps_id valid.distinct;
    documents_distinct = valid.documents_distinct;
  }

-- Documents that are replaced with none of their states changed.
pub same-IsValid :
    {V : Type 0} (ds ds' : List (Document V)) (js : List Job)
    → ((k : Text) → state_of ds' k ≡ state_of ds k)
    → Distinct (λ d. d.id) ds'
    → IsValid ds js
    → IsValid ds' js
same-IsValid ds ds' js same distinct valid = record {
  current = All-map _ _ (λ k current active. rw same (current active)) js valid.current;
  single = valid.single;
  distinct = valid.distinct;
  documents_distinct = distinct;
}

module _ {V : Type 0} (ds : List (Document V)) (js : List Job) (valid : IsValid ds js) where
  -- The status of a document with no active job is free.
  pub idle-IsValid :
      (now : ℕ) (id : Text) (revision : ℕ) (status : DocumentState)
      → count_where (active_of id) js ≡ 0
      → IsValid (set_document_status now id revision status ds) js
  idle-IsValid now id revision status idle = record {
    current =
        All-map _ _
          (λ k facts after. rw state_of-set (
            rw (facts.0 after) (
              touched_other id revision status k.document_id
                λ same. cc (facts.1, active_of_intro id k same after))))
          js (All-both _ _ js valid.current (zero-All (active_of id) js idle));
    single = valid.single;
    distinct = valid.distinct;
    documents_distinct = set-Distinct ds now id revision status valid.documents_distinct;
  }

  -- A new active job of a document that has none, at its revision.
  pub snoc-IsValid :
      (new : Job)
      → count_where (active_of new.document_id) js ≡ 0
      → All (λ k. text_eq k.id new.id ≡ false) js
      → IsCurrent ds new
      → IsValid ds (js ++ new ∷ [])
  snoc-IsValid new idle fresh current = record {
    current = All-append _ js (new ∷ []) valid.current (current, tt);
    single = λ id. snoc_single id (Bool-cases (active_of id new));
    distinct = Distinct-snoc _ js new fresh valid.distinct;
    documents_distinct = valid.documents_distinct;
  }
    where
      snoc_single :
          (id : Text)
          → (active_of id new ≡ true) ⊎ (active_of id new ≡ false)
          → count_where (active_of id) (js ++ new ∷ []) ≤ 1
      snoc_single id (inl e) =
          let same : new.document_id ≡ id =
            (text_eq_iff new.document_id id).0 (active_of_parts id new e).0 in
          let idle' : count_where (active_of id) js ≡ 0 = rw (← same) idle in
          omega (
            arith,
            count-append (active_of id) js (new ∷ []),
            idle',
            count_one_le (active_of id) new,
          )
      snoc_single id (inr e) = omega (
        arith,
        count-append (active_of id) js (new ∷ []),
        valid.single id,
        count_none (active_of id) new e,
      )
