-- ===== src/Storage/Memories/Growth.antt =====
-- One new memory in the tables: its parents, its row, and what becomes of the memories it updates.
use mathlib.Core.Path.{subst}
use supermemory_rs.Prelude.{
  ℕ, ◌+◌, Text, text_eq, text_eq_iff, Bool, true, false, ◌≡◌, refl, sym, ap, ◌∙◌, List, [], ◌∷◌,
  some, All, arith, Bool-cases, Option-cases, inl, inr, codes,
}
use supermemory_rs.Storage.Sql.{first_where}
use supermemory_rs.Storage.Sql.Laws.{Among}
use supermemory_rs.Storage.Memories.Store.{Memory, MemoryTables, superseded, supersede}
use supermemory_rs.Storage.Memories.Resolve.{
  MemoryParent, ResolvedParent, TextMap, head, id_of, root_under, version_under, in_container,
  find_memory, get_or_same, resolve_memory_parents, link_parent, link_parents,
}
use supermemory_rs.Storage.Memories.Lineage.{
  HasLineageAt, Persists, Persists-refl, Persists-trans, Persists-update, HasLineage, IsLatest,
  IsRetired, IsLatest-retire, IsValidMemories, retire-IsValidMemories,
}

pub first-hit :
    {R : Type 0} (p : R → Bool) (rs : List R) {r : R}
    → first_where p rs ≡ some r
    → Among r rs × (p r ≡ true)
unfolding first_where
first-hit p [] h = cc
first-hit p (x ∷ rs) {r} h = elim (Bool-cases (p x)) [
  | inl e ↦
      let same : some x ≡ some r = rw e at h in
      let same' : x ≡ r = cc same in (inl same', rw (← same') e)
  | inr e ↦ let (m, hit) = first-hit p rs (rw e at h) in (inr m, hit)
]

module _ {V : Type 0} where
  -- A row of the container that the resolved parent was read from.
  pub record IsParent (org_id container_tag : Text) (ms : List (Memory V)) (p : ResolvedParent)
      : Type 0 where
    pub row : Memory V
    pub among : Among row ms
    pub same_id : row.id ≡ p.id
    pub same_org : row.org_id ≡ org_id
    pub same_tag : row.container_tag ≡ container_tag
    pub same_root : row.root_memory_id ≡ p.root_memory_id
    pub same_version : row.version ≡ p.version

  pub in_container-eq :
      (org_id container_tag : Text) (m : Memory V)
      → in_container org_id container_tag m ≡ true
      → (m.org_id ≡ org_id) × (m.container_tag ≡ container_tag)
  unfolding in_container
  in_container-eq org_id container_tag m h = (
    (text_eq_iff m.org_id org_id).0 (ground arith),
    (text_eq_iff m.container_tag container_tag).0 (ground arith),
  )

  find_memory-IsParent :
      (org_id container_tag : Text) (ms : List (Memory V)) (m : Memory V) (id relation : Text)
      → find_memory org_id container_tag id ms ≡ some m
      → IsParent org_id container_tag ms (record {
        id = m.id;
        relation = relation;
        root_memory_id = m.root_memory_id;
        version = m.version;
      })
  unfolding find_memory
  find_memory-IsParent org_id container_tag ms m id relation e =
      let (among, hit) = first-hit _ ms e in
      let (org, tag) = in_container-eq org_id container_tag m (ground (arith, hit)) in
      record {
        row = m;
        among = among;
        same_id = refl;
        same_org = org;
        same_tag = tag;
        same_root = refl;
        same_version = refl;
      }

  pub resolve_memory_parents-IsParent :
      (org_id container_tag : Text) (ms : List (Memory V)) (ids : TextMap) (ps : List MemoryParent)
      → All
          (IsParent org_id container_tag ms)
          (resolve_memory_parents org_id container_tag ms ids ps)
  unfolding resolve_memory_parents
  resolve_memory_parents-IsParent org_id container_tag ms ids [] = tt
  resolve_memory_parents-IsParent org_id container_tag ms ids (p ∷ ps) =
      elim (Option-cases (find_memory org_id container_tag (get_or_same ids p.memory_id) ms)) [
        | inl e ↦
            rw (e, All, resolve_memory_parents)
              (resolve_memory_parents-IsParent org_id container_tag ms ids ps)
        | inr (m, e) ↦
            rw (e, All, resolve_memory_parents)
              (
                find_memory-IsParent org_id container_tag ms m _ p.relation e,
                resolve_memory_parents-IsParent org_id container_tag ms ids ps,
              )
      ]

  pub superseded-IsRetired : (now : ℕ) (m : Memory V) → IsRetired m (superseded now m)
  unfolding superseded
  superseded-IsRetired now m = record {
    later = record {
      same_id = refl;
      same_org = refl;
      same_tag = refl;
      same_content = refl;
      same_root = refl;
      same_parent = refl;
      same_version = refl;
      stays_old = λ _. refl;
      stays_forgotten = λ h. h;
    };
    old = refl;
    plain = refl;
  }

  -- What linking a new memory to its parents keeps.
  pub record IsLinked (id : Text) (before after : MemoryTables V) : Type 0 where
    pub persists : Persists before.memories after.memories
    pub valid :
        IsValidMemories before.memories before.embeddings
        → IsValidMemories after.memories after.embeddings
    pub latest : IsLatest before.memories id → IsLatest after.memories id
    pub same_sources : after.sources ≡ before.sources

  IsLinked-trans :
      (id : Text) (a b c : MemoryTables V) → IsLinked id a b → IsLinked id b c → IsLinked id a c
  IsLinked-trans id a b c h k = record {
    persists = Persists-trans a.memories b.memories c.memories h.persists k.persists;
    valid = λ v. k.valid (h.valid v);
    latest = λ l. k.latest (h.latest l);
    same_sources = k.same_sources ∙ h.same_sources;
  }

  link_parent-IsLinked :
      (now : ℕ) (id : Text) (p : ResolvedParent) (tables : MemoryTables V)
      → text_eq id p.id ≡ false
      → IsLinked id tables (link_parent now id p tables)
  unfolding link_parent supersede
  link_parent-IsLinked now id p tables apart =
      elim (Bool-cases (text_eq p.relation (codes "updates"))) [
        | inr e ↦ rw e (record {
          persists = Persists-refl tables.memories;
          valid = λ v. v;
          latest = λ l. l;
          same_sources = refl;
        })
        | inl e ↦ rw e (record {
          persists = Persists-update _ _ tables.memories (λ m. (superseded-IsRetired now m).later);
          valid =
              retire-IsValidMemories p.id (superseded now) (superseded-IsRetired now)
                tables.memories tables.embeddings;
          latest =
              IsLatest-retire p.id (superseded now) (superseded-IsRetired now) tables.memories id
                apart;
          same_sources = refl;
        })
      ]

  pub link_parents-IsLinked :
      (now : ℕ) (id : Text) (ps : List ResolvedParent) (tables : MemoryTables V)
      → All (λ p. text_eq id p.id ≡ false) ps
      → IsLinked id tables (link_parents now id ps tables)
  unfolding link_parents
  link_parents-IsLinked now id [] tables apart = record {
    persists = Persists-refl tables.memories;
    valid = λ v. v;
    latest = λ l. l;
    same_sources = refl;
  }
  link_parents-IsLinked now id (p ∷ ps) tables apart =
      IsLinked-trans id tables _ _ (link_parent-IsLinked now id p tables apart.0)
        (link_parents-IsLinked now id ps (link_parent now id p tables) apart.1)

  -- The lineage of a row under the first of its parents.
  pub row-HasLineage :
      (org_id container_tag : Text) (ms : List (Memory V)) (ps : List ResolvedParent)
      (row : Memory V)
      → All (IsParent org_id container_tag ms) ps
      → row.org_id ≡ org_id
      → row.container_tag ≡ container_tag
      → row.parent_memory_id ≡ id_of (head ps)
      → row.version ≡ version_under (head ps)
      → row.root_memory_id ≡ root_under (head ps)
      → HasLineage ms row
  unfolding id_of version_under root_under
  row-HasLineage org_id container_tag ms [] row h org tag parent version root =
      subst (λ o. HasLineageAt ms row o) (sym parent) (version, root)
  row-HasLineage org_id container_tag ms (p ∷ ps) row h org tag parent version root =
      subst (λ o. HasLineageAt ms row o) (sym parent)
        (record {
          parent = h.0.row;
          among = h.0.among;
          named = h.0.same_id;
          same_org = org ∙ sym h.0.same_org;
          same_tag = tag ∙ sym h.0.same_tag;
          next = version ∙ ap (λ v. v + 1) (sym h.0.same_version);
          same_root = cc (root, h.0.same_root, h.0.same_id);
        })
