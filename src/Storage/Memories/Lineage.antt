-- ===== src/Storage/Memories/Lineage.antt =====
-- What holds of the memories between two operations, and what an operation keeps of them.
use supermemory_rs.Prelude.{
  ◌+◌, Text, text_eq, text_eq_iff, Bool, true, false, ◌≡◌, refl, sym, ap, ◌∙◌, List, [], ◌∷◌, ◌++◌,
  Option, none, some, All, All-append, All-map, arith, Bool-cases, inl, inr,
}
use mathlib.Core.Path.{subst}
use supermemory_rs.Storage.Sql.{update_where}
use supermemory_rs.Storage.Sql.Laws.{
  Among, All-update, All-among, Among-update, Among-update_miss, All-intro,
}
use supermemory_rs.Storage.Sql.Keys.{Distinct, Distinct-update, Distinct-snoc}
use supermemory_rs.Storage.Memories.Store.{Memory, MemoryEmbedding, MemoryTables, deactivate}
use supermemory_rs.Storage.Memories.Resolve.{root_or}

pub Among-left : {A : Type 0} (x : A) (xs ys : List A) → Among x xs → Among x (xs ++ ys)
Among-left x [] ys m = absurd m
Among-left x (y ∷ xs) ys (inl e) = inl e
Among-left x (y ∷ xs) ys (inr m) = inr (Among-left x xs ys m)

pub Among-last : {A : Type 0} (x : A) (xs : List A) → Among x (xs ++ x ∷ [])
Among-last x [] = inl refl
Among-last x (y ∷ xs) = inr (Among-last x xs)

module _ {V : Type 0} where
  -- The same memory later: its text and its place in the lineage stay, and it is not revived.
  pub record IsLater (m m' : Memory V) : Type 0 where
    pub same_id : m'.id ≡ m.id
    pub same_org : m'.org_id ≡ m.org_id
    pub same_tag : m'.container_tag ≡ m.container_tag
    pub same_content : m'.content ≡ m.content
    pub same_root : m'.root_memory_id ≡ m.root_memory_id
    pub same_parent : m'.parent_memory_id ≡ m.parent_memory_id
    pub same_version : m'.version ≡ m.version
    pub stays_old : m.is_latest ≡ false → m'.is_latest ≡ false
    pub stays_forgotten : m.is_forgotten ≡ true → m'.is_forgotten ≡ true

  abbrev pub Later : List (Memory V) → Memory V → Type 0
  Later ms' m = (m' : Memory V) × Among m' ms' × IsLater m m'

  abbrev pub Persists : List (Memory V) → List (Memory V) → Type 0
  Persists ms ms' = All (Later ms') ms

  IsLater-refl : (m : Memory V) → IsLater m m
  IsLater-refl m = record {
    same_id = refl;
    same_org = refl;
    same_tag = refl;
    same_content = refl;
    same_root = refl;
    same_parent = refl;
    same_version = refl;
    stays_old = λ h. h;
    stays_forgotten = λ h. h;
  }

  pub IsLater-trans : (a b c : Memory V) → IsLater a b → IsLater b c → IsLater a c
  IsLater-trans a b c h k = record {
    same_id = k.same_id ∙ h.same_id;
    same_org = k.same_org ∙ h.same_org;
    same_tag = k.same_tag ∙ h.same_tag;
    same_content = k.same_content ∙ h.same_content;
    same_root = k.same_root ∙ h.same_root;
    same_parent = k.same_parent ∙ h.same_parent;
    same_version = k.same_version ∙ h.same_version;
    stays_old = λ o. k.stays_old (h.stays_old o);
    stays_forgotten = λ o. k.stays_forgotten (h.stays_forgotten o);
  }

  pub Persists-refl : (ms : List (Memory V)) → Persists ms ms
  Persists-refl ms = All-intro _ ms (λ m among. (m, among, IsLater-refl m))

  pub Persists-trans :
      (xs ys zs : List (Memory V)) → Persists xs ys → Persists ys zs → Persists xs zs
  Persists-trans xs ys zs h k =
      All-map _ _
        (λ a later.
          let (b, among, ab) = later in
          let (c, among', bc) = All-among (Later zs) b ys k among in
          (c, among', IsLater-trans a b c ab bc))
        xs h

  pub Persists-snoc : (ms new : List (Memory V)) → Persists ms (ms ++ new)
  Persists-snoc ms new = All-intro _ ms (λ m among. (m, Among-left m ms new among, IsLater-refl m))

  pub Persists-update :
      (p : Memory V → Bool) (f : Memory V → Memory V) (ms : List (Memory V))
      → ((m : Memory V) → IsLater m (f m))
      → Persists ms (update_where p f ms)
  Persists-update p f ms later = All-intro _ ms λ m among. elim (Bool-cases (p m)) [
    | inl e ↦ (f m, Among-update p f m ms among e, later m)
    | inr e ↦ (m, Among-update_miss p f m ms among e, IsLater-refl m)
  ]

  -- A memory under its parent: in the same container, one version on, with the same root.
  pub record IsChild (ms : List (Memory V)) (m : Memory V) (parent_id : Text) : Type 0 where
    pub parent : Memory V
    pub among : Among parent ms
    pub named : parent.id ≡ parent_id
    pub same_org : m.org_id ≡ parent.org_id
    pub same_tag : m.container_tag ≡ parent.container_tag
    pub next : m.version ≡ parent.version + 1
    pub same_root : m.root_memory_id ≡ some (root_or parent.id parent.root_memory_id)

  abbrev pub HasLineageAt : List (Memory V) → Memory V → Option Text → Type 0
  HasLineageAt ms m none = (m.version ≡ 1) × (m.root_memory_id ≡ none)
  HasLineageAt ms m (some parent_id) = IsChild ms m parent_id

  abbrev pub HasLineage : List (Memory V) → Memory V → Type 0
  HasLineage ms m = HasLineageAt ms m m.parent_memory_id

  same_lineage_root :
      (m m' : Memory V)
      → IsLater m m'
      → root_or m'.id m'.root_memory_id ≡ root_or m.id m.root_memory_id
  same_lineage_root m m' h = cc (h.same_root, h.same_id)

  lineage_at-later :
      (ms ms' : List (Memory V)) (m m' : Memory V) (parent_id : Option Text)
      → Persists ms ms'
      → IsLater m m'
      → HasLineageAt ms m parent_id
      → HasLineageAt ms' m' parent_id
  lineage_at-later ms ms' m m' none persists later h =
      (later.same_version ∙ h.0, later.same_root ∙ h.1)
  lineage_at-later ms ms' m m' (some parent_id) persists later h =
      let (parent, among, l) = All-among (Later ms') h.parent ms persists h.among in
      record {
        parent = parent;
        among = among;
        named = l.same_id ∙ h.named;
        same_org = later.same_org ∙ (h.same_org ∙ sym l.same_org);
        same_tag = later.same_tag ∙ (h.same_tag ∙ sym l.same_tag);
        next = later.same_version ∙ (h.next ∙ ap (λ v. v + 1) (sym l.same_version));
        same_root =
            later.same_root ∙ (h.same_root ∙ ap some (sym (same_lineage_root h.parent parent l)));
      }

  pub lineage-later :
      (ms ms' : List (Memory V)) (m m' : Memory V)
      → Persists ms ms'
      → IsLater m m'
      → HasLineage ms m
      → HasLineage ms' m'
  lineage-later ms ms' m m' persists later h =
      subst (HasLineageAt ms' m') (sym later.same_parent)
        (lineage_at-later ms ms' m m' m.parent_memory_id persists later h)

  -- A static memory is the latest of its lineage, and the latest is not forgotten.
  pub record HasFlags (m : Memory V) : Type 0 where
    pub static_latest : m.is_static ≡ true → m.is_latest ≡ true
    pub latest_kept : m.is_latest ≡ true → m.is_forgotten ≡ false

  -- The memory of an id is the latest.
  abbrev pub IsLatest : List (Memory V) → Text → Type 0
  IsLatest ms id = All (λ m. text_eq m.id id ≡ true → m.is_latest ≡ true) ms

  pub record IsValidMemories (ms : List (Memory V)) (es : List MemoryEmbedding) : Type 0 where
    pub distinct : Distinct (λ m. m.id) ms
    pub flags : All HasFlags ms
    pub lineage : All (HasLineage ms) ms
    pub current : All (λ e. e.active ≡ true → IsLatest ms e.memory_id) es

  abbrev pub IsValidTables : MemoryTables V → Type 0
  IsValidTables tables = IsValidMemories tables.memories tables.embeddings

  -- A memory that is later and hidden.
  pub record IsRetired (m m' : Memory V) : Type 0 where
    pub later : IsLater m m'
    pub old : m'.is_latest ≡ false
    pub plain : m'.is_static ≡ false

  module _ (id : Text) (f : Memory V → Memory V)
      (retired : (m : Memory V) → IsRetired m (f m)) where
    abbrev named : Memory V → Bool
    named m = text_eq m.id id

    -- Another memory that is the latest stays so.
    pub IsLatest-retire :
        (ms : List (Memory V)) (other : Text)
        → text_eq other id ≡ false
        → IsLatest ms other
        → IsLatest (update_where named f ms) other
    IsLatest-retire ms other apart h =
        All-update _ _ named f ms
          (λ m k hit same. absurd (
            ground (
              arith,
              let same' : text_eq m.id other ≡ true = rw (← (retired m).later.same_id) same in
                  same',
              text_eq_iff m.id other,
              text_eq_iff m.id id,
              text_eq_iff other id,
            )))
          (λ m k _. k) h

    pub retire-IsValidMemories :
        (ms : List (Memory V)) (es : List MemoryEmbedding)
        → IsValidMemories ms es
        → IsValidMemories (update_where named f ms) (deactivate id es)
    unfolding deactivate
    retire-IsValidMemories ms es h = record {
      distinct = Distinct-update (λ m. m.id) named f ms (λ m. (retired m).later.same_id) h.distinct;
      flags =
          All-update _ _ named f ms
            (λ m k _. record {
              static_latest = λ s. absurd (cc ((retired m).plain, s));
              latest_kept = λ s. absurd (cc ((retired m).old, s));
            })
            (λ m k _. k) h.flags;
      lineage =
          All-update _ _ named f ms
            (λ m k _. lineage-later ms _ m (f m) persists (retired m).later k)
            (λ m k _. lineage-later ms _ m m persists (IsLater-refl m) k) h.lineage;
      current =
          All-update _ _ (λ e. text_eq e.memory_id id) (λ e. record e { active = false }) es
            (λ e k _ on. absurd (cc on))
            (λ e k apart on. IsLatest-retire ms e.memory_id apart (k on)) h.current;
    }
      where
        persists : Persists ms (update_where named f ms)
        persists = Persists-update named f ms (λ m. (retired m).later)

  pub insert-IsValidMemories :
      (ms : List (Memory V)) (es : List MemoryEmbedding) (row : Memory V)
      → All (λ m. text_eq m.id row.id ≡ false) ms
      → HasFlags row
      → row.is_latest ≡ true
      → HasLineage ms row
      → IsValidMemories ms es
      → IsValidMemories (ms ++ row ∷ []) es
  insert-IsValidMemories ms es row fresh flags latest lineage h = record {
    distinct = Distinct-snoc (λ m. m.id) ms row fresh h.distinct;
    flags = All-append _ ms (row ∷ []) h.flags (flags, tt);
    lineage =
        All-append _ ms (row ∷ [])
          (All-map _ _ (λ m k. lineage-later ms _ m m persists (IsLater-refl m) k) ms h.lineage)
          (lineage-later ms _ row row persists (IsLater-refl row) lineage, tt);
    current =
        All-map _ _ (λ e k on. All-append _ ms (row ∷ []) (k on) ((λ _. latest), tt)) es h.current;
  }
    where
      persists : Persists ms (ms ++ row ∷ [])
      persists = Persists-snoc ms (row ∷ [])

  pub embed-IsValidMemories :
      (ms : List (Memory V)) (es : List MemoryEmbedding) (e : MemoryEmbedding)
      → IsLatest ms e.memory_id
      → IsValidMemories ms es
      → IsValidMemories ms (es ++ e ∷ [])
  embed-IsValidMemories ms es e latest h = record {
    distinct = h.distinct;
    flags = h.flags;
    lineage = h.lineage;
    current = All-append _ es (e ∷ []) h.current ((λ _. latest), tt);
  }
