-- ===== src/Storage/Protocol/Deletes.antt =====
-- `delete_empty_document` and `delete_document_for`: a document goes with its jobs.
use supermemory_rs.Prelude.{
  Text, text_eq, text_eq_iff, Bool, true, false, ◌≡◌, refl, inl, inr, List, [], ◌∷◌, none, some,
  arith, Bool-cases, Option-cases, All, All-map,
}
use supermemory_rs.Storage.Sql.{delete_where, select_where, first_where, exists_where}
use supermemory_rs.Storage.Sql.Laws.{Among, All-delete, count-delete_le, Among-select}
use supermemory_rs.Storage.Sql.Keys.{Distinct-delete, Distinct-key}
use supermemory_rs.Storage.Tables.{ClaimedJob, Document, Job, Db, find_document}
use supermemory_rs.Storage.Rows.{document_is, cascade_document}
use supermemory_rs.Storage.DocumentJobs.{is_empty_document, delete_empty_document}
use supermemory_rs.Storage.Documents.{has_id, matches_identifier, identified, delete_document_for}
use supermemory_rs.Storage.Invariant.{state_of, IsCurrent, active_of, IsValid, IsValidDb}
use supermemory_rs.Storage.Protocol.Claim.{Claim, IsGood-Matches, IsGood, IsGoodDb}

exists-Among :
    {R : Type 0} (p : R → Bool) (rs : List R)
    → exists_where p rs ≡ true
    → (r : R) × Among r rs × (p r ≡ true)
unfolding exists_where
exists-Among p [] h = cc
exists-Among p (r ∷ rs) h = elim (Bool-cases (p r)) [
  | inl e ↦ (r, inl refl, e)
  | inr e ↦ let (k, m, hit) = exists-Among p rs (rw e at h) in (k, inr m, hit)
]

first-Among-hit :
    {R : Type 0} (p : R → Bool) (rs : List R) {r : R}
    → first_where p rs ≡ some r
    → Among r rs × (p r ≡ true)
unfolding first_where
first-Among-hit p [] h = cc
first-Among-hit p (x ∷ rs) {r} h = elim (Bool-cases (p x)) [
  | inl e ↦ let same : x ≡ r = ground arith in (inl same, rw (← same) e)
  | inr e ↦ let (m, hit) = first-Among-hit p rs (rw e at h) in (inr m, hit)
]

Among-delete_miss :
    {R : Type 0} (p : R → Bool) (r : R) (rs : List R)
    → Among r rs
    → p r ≡ false
    → Among r (delete_where p rs)
unfolding delete_where
Among-delete_miss p r [] m miss = m
Among-delete_miss p r (x ∷ rs) (inl same) miss =
    let e : p x ≡ false = rw same miss in rw e (inl same)
Among-delete_miss p r (x ∷ rs) (inr m) miss = elim (Bool-cases (p x)) [
  | inl e ↦ rw e (Among-delete_miss p r rs m miss)
  | inr e ↦ rw e (inr (Among-delete_miss p r rs m miss))
]

module _ {V : Type 0} (id : Text) (p : Document V → Bool)
    (alone : (d : Document V) → p d ≡ true → text_eq d.id id ≡ true) where
  state_of-delete_other :
      (ds : List (Document V)) (k : Text)
      → text_eq k id ≡ false
      → state_of (delete_where p ds) k ≡ state_of ds k
  unfolding state_of find_document first_where delete_where
  state_of-delete_other [] k other = refl
  state_of-delete_other (d ∷ ds) k other = ground (
    arith,
    state_of-delete_other ds k other,
    alone d,
    text_eq_iff d.id k,
    text_eq_iff d.id id,
    text_eq_iff k id,
  )

  state_of-deleted :
      (ds : List (Document V))
      → All (λ d. text_eq d.id id ≡ true → p d ≡ true) ds
      → state_of (delete_where p ds) id ≡ none
  unfolding state_of find_document first_where delete_where
  state_of-deleted [] h = refl
  state_of-deleted (d ∷ ds) h = ground (arith, state_of-deleted ds h.1, h.0)

  module _ (ds : List (Document V)) (js : List Job) (valid : IsValid ds js) where
    abbrev of_document : Job → Bool
    of_document j = text_eq j.document_id id

    kept : (j : Job) → IsCurrent ds j → of_document j ≡ false → IsCurrent (delete_where p ds) j
    kept j current other active = rw (state_of-delete_other ds j.document_id other) (current active)

    kept_rows :
        (rs : List Job)
        → All (IsCurrent ds) rs
        → All (IsCurrent (delete_where p ds)) (delete_where of_document rs)
    unfolding delete_where
    kept_rows [] h = tt
    kept_rows (j ∷ rs) h = elim (Bool-cases (of_document j)) [
      | inl e ↦ rw e (kept_rows rs h.1)
      | inr e ↦ rw e (kept j h.0 e, kept_rows rs h.1)
    ]

    pub delete-IsValid : IsValid (delete_where p ds) (delete_where of_document js)
    delete-IsValid = record {
      current = kept_rows js valid.current;
      single = λ k. omega (arith, valid.single k, count-delete_le (active_of k) of_document js);
      distinct = Distinct-delete _ _ js valid.distinct;
      documents_distinct = Distinct-delete _ _ ds valid.documents_distinct;
    }

    -- The document was there.
    module _ (d : Document V) (among : Among d ds) (hit : p d ≡ true) where
      gone : state_of (delete_where p ds) id ≡ none
      gone = state_of-deleted ds (
          All-map _ _ (λ k key same. rw (key (rw ((text_eq_iff d.id id).0 (alone d hit)) same)) hit)
            ds (Distinct-key (λ x. x.id) d ds valid.documents_distinct among))

      pub delete-IsGood :
          (c : Claim) → IsGood ds js c → IsGood (delete_where p ds) (delete_where of_document js) c
      delete-IsGood c good =
          let matches = IsGood-Matches ds js c valid good in
          elim (Bool-cases (text_eq c.document_id id)) [
            | inl e ↦ inr (record {
              past = rw ((text_eq_iff c.document_id id).0 e, gone) tt;
              matches = All-delete _ _ js matches;
            })
            | inr e ↦ elim good [
              | inl held ↦ inl (record {
                row = held.row;
                among =
                    Among-delete_miss of_document held.row js held.among (rw held.same_document e);
                same_id = held.same_id;
                same_document = held.same_document;
                same_revision = held.same_revision;
                same_kind = held.same_kind;
                processing = held.processing;
              })
              | inr past ↦ inr (record {
                past = rw (state_of-delete_other ds c.document_id e) past.past;
                matches = All-delete _ _ js past.matches;
              })
            ]
          ]

is_empty_id :
    {V : Type 0} (job : ClaimedJob) (d : Document V)
    → is_empty_document job d ≡ true
    → text_eq d.id job.document_id ≡ true
unfolding is_empty_document document_is
is_empty_id job d h = ground arith

has_id_id :
    {V : Type 0} (org_id id : Text) (d : Document V)
    → has_id org_id id d ≡ true
    → text_eq d.id id ≡ true
unfolding has_id
has_id_id org_id id d h = ground arith

module _ {V : Type 0} (job : ClaimedJob) (db : Db V) (valid : IsValidDb db) where
  pub delete_empty-IsValid : IsValidDb (delete_empty_document job db).1
  unfolding delete_empty_document cascade_document
  delete_empty-IsValid = elim (Bool-cases (exists_where (is_empty_document job) db.documents)) [
    | inl e ↦
        rw e
          (delete-IsValid job.document_id _ (λ d h. is_empty_id job d h) db.documents db.jobs valid)
    | inr e ↦ rw e valid
  ]

  pub delete_empty-IsGood :
      (c : Claim) → IsGoodDb db c → IsGoodDb (delete_empty_document job db).1 c
  unfolding delete_empty_document cascade_document
  delete_empty-IsGood c good =
      elim (Bool-cases (exists_where (is_empty_document job) db.documents)) [
        | inl e ↦
            let (d, among, hit) = exists-Among _ db.documents e in
            rw e (
              delete-IsGood job.document_id _ (λ d h. is_empty_id job d h) db.documents db.jobs
                valid d among hit c good)
        | inr e ↦ rw e good
      ]

named_hit :
    {V : Type 0} (org_id identifier id : Text) (d : Document V)
    → matches_identifier org_id identifier d ≡ true
    → d.id ≡ id
    → has_id org_id id d ≡ true
unfolding matches_identifier has_id
named_hit org_id identifier id d h same = ground (arith, text_eq_iff d.id id)

-- The document that an identifier names is one of the organization.
identified-Among :
    {V : Type 0} (org_id identifier : Text) (ds : List (Document V)) {id : Text}
    → identified org_id identifier ds ≡ some id
    → (d : Document V) × Among d ds × (has_id org_id id d ≡ true)
unfolding identified
identified-Among {V} org_id identifier ds {id} h =
    elim (Option-cases (first_where (λ d. text_eq d.id identifier) rows)) [
      | inr (d, e) ↦ named d (first-Among-hit _ rows e).0 (rw (e, identified) at h)
      | inl e ↦ elim (Option-cases (first_where (λ d. true) rows)) [
        | inr (d, e') ↦ named d (first-Among-hit _ rows e').0 (rw (e, e', identified) at h)
        | inl e' ↦ absurd (cc (rw (e, e', identified) at h))
      ]
    ]
  where
    rows : List (Document V)
    rows = select_where (matches_identifier org_id identifier) ds

    named :
        (d : Document V)
        → Among d rows
        → some d.id ≡ some id
        → (d : Document V) × Among d ds × (has_id org_id id d ≡ true)
    named d m same =
        let (among, hit) = Among-select _ d ds m in
        (d, among, named_hit org_id identifier id d hit (cc))

module _ {V : Type 0} (org_id identifier : Text) (db : Db V) (valid : IsValidDb db) where
  pub delete_document-IsValid : IsValidDb (delete_document_for org_id identifier db).1
  unfolding delete_document_for cascade_document
  delete_document-IsValid = elim (Option-cases (identified org_id identifier db.documents)) [
    | inl e ↦ rw (e, delete_document_for) valid
    | inr (id, e) ↦
        rw (e, delete_document_for)
          (delete-IsValid id _ (λ d h. has_id_id org_id id d h) db.documents db.jobs valid)
  ]

  pub delete_document-IsGood :
      (c : Claim) → IsGoodDb db c → IsGoodDb (delete_document_for org_id identifier db).1 c
  unfolding delete_document_for cascade_document
  delete_document-IsGood c good = elim (Option-cases (identified org_id identifier db.documents)) [
    | inl e ↦ rw (e, delete_document_for) good
    | inr (id, e) ↦
        let (d, among, hit) = identified-Among org_id identifier db.documents e in
        rw (e, delete_document_for)
          (delete-IsGood id _ (λ d h. has_id_id org_id id d h) db.documents db.jobs valid d among
            hit c good)
  ]
