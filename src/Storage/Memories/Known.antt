-- ===== src/Storage/Memories/Known.antt =====
-- The map from normalized contents to memories that reconciliation starts from.
use supermemory_rs.Prelude.{
  Text, text_eq, text_eq_iff, Bool, true, ◌≡◌, refl, ap, ◌∙◌, List, [], ◌∷◌, some, All, All-map,
  arith, Bool-cases, Option-cases, inl, inr,
}
use supermemory_rs.Storage.Sql.{select_where}
use supermemory_rs.Storage.Sql.Laws.{Among, All-among, Among-select, All-intro}
use supermemory_rs.Storage.Memories.Dedup.{Unicode, normalized_memory}
use supermemory_rs.Storage.Memories.Store.{Memory}
use supermemory_rs.Storage.Memories.Resolve.{
  TextMap, get, or_insert, keyed, is_live_in, precedes, active_memory_ids_by_content,
}
use supermemory_rs.Storage.Memories.Lineage.{Later, Persists}
use supermemory_rs.Storage.Memories.Growth.{in_container-eq}
use supermemory_rs.Storage.Sql.Order.{All-order_by}

pub All-selected :
    {R : Type 0} (p : R → Bool) (rs : List R)
    → All (λ r. Among r rs × (p r ≡ true)) (select_where p rs)
All-selected p rs = All-intro _ (select_where p rs) (λ r m. Among-select p r rs m)

pub select-All {κ} :
    {R : Type 0} (P : R → Type κ) (p : R → Bool) (rs : List R)
    → All P rs
    → All P (select_where p rs)
select-All P p rs h =
    All-map (λ r. Among r rs × (p r ≡ true)) P (λ r m. All-among P r rs h m.0) (select_where p rs)
      (All-selected p rs)

-- The pairs of a map, as their entries are inserted.
All-or_insert {κ} :
    (P : Text × Text → Type κ) (new map : TextMap)
    → All P new
    → All P map
    → All P (or_insert new map)
unfolding or_insert
All-or_insert P [] map h hm = hm
All-or_insert P ((key, id) ∷ rest) map h hm = elim (Option-cases (get key map)) [
  | inl e ↦ rw (e, All, or_insert) (All-or_insert P rest ((key, id) ∷ map) h.1 (h.0, hm))
  | inr (v, e) ↦ rw (e, All, or_insert) (All-or_insert P rest map h.1 hm)
]

pub get-All {κ} :
    (P : Text × Text → Type κ) (key v : Text) (map : TextMap)
    → get key map ≡ some v
    → All P map
    → P (key, v)
unfolding get
get-All P key v [] e h = cc e
get-All P key v ((k, w) ∷ rest) e h = elim (Bool-cases (text_eq k key)) [
  | inr miss ↦ get-All P key v rest (rw miss at e) h.1
  | inl hit ↦
      let same : some w ≡ some v = rw hit at e in
      let same_v : w ≡ v = cc same in
      let same_k : k ≡ key = (text_eq_iff k key).0 hit in rw (← same_v, ← same_k) h.0
]

module _ {V : Type 0} (unicode : Unicode) (org_id container_tag : Text) where
  -- The memory of an id stands in the container and says what the key says.
  pub record Says (ms : List (Memory V)) (key id : Text) : Type 0 where
    pub row : Memory V
    pub among : Among row ms
    pub same_id : row.id ≡ id
    pub same_org : row.org_id ≡ org_id
    pub same_tag : row.container_tag ≡ container_tag
    pub same_key : normalized_memory unicode row.content ≡ key

  pub Says-later :
      (ms ms' : List (Memory V)) (key id : Text)
      → Persists ms ms'
      → Says ms key id
      → Says ms' key id
  Says-later ms ms' key id persists h =
      let (row, among, later) = All-among (Later ms') h.row ms persists h.among in
      record {
        row = row;
        among = among;
        same_id = later.same_id ∙ h.same_id;
        same_org = later.same_org ∙ h.same_org;
        same_tag = later.same_tag ∙ h.same_tag;
        same_key = ap (normalized_memory unicode) later.same_content ∙ h.same_key;
      }

  All-keyed :
      (ms rows : List (Memory V))
      → All (λ m. Among m ms × (m.org_id ≡ org_id) × (m.container_tag ≡ container_tag)) rows
      → All (λ kv. Says ms kv.0 kv.1) (keyed unicode rows)
  unfolding keyed
  All-keyed ms [] h = tt
  All-keyed ms (m ∷ rows) ((among, org, tag), rest) = (
    record {
      row = m;
      among = among;
      same_id = refl;
      same_org = org;
      same_tag = tag;
      same_key = refl;
    },
    All-keyed ms rows rest,
  )

  live-container :
      (m : Memory V)
      → is_live_in org_id container_tag m ≡ true
      → (m.org_id ≡ org_id) × (m.container_tag ≡ container_tag)
  unfolding is_live_in
  live-container m h = in_container-eq org_id container_tag m (ground (arith, h))

  pub active_memory_ids_by_content-Says :
      (ms : List (Memory V))
      → All (λ kv. Says ms kv.0 kv.1) (active_memory_ids_by_content unicode org_id container_tag ms)
  unfolding active_memory_ids_by_content
  active_memory_ids_by_content-Says ms =
      All-or_insert _ _ []
        (All-keyed ms _ (
          All-order_by _ precedes _ (
            All-map _ _ (λ m live. let held = live-container m live.1 in (live.0, held.0, held.1)) _
              (All-selected _ ms))))
        tt
