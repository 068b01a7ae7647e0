-- ===== src/Storage/Sql.antt =====
-- The statements of SQL that the storage crate runs, on a table as the list of its rows in
-- `rowid` order.
pub mod Laws
pub mod Keys
pub mod Order
use supermemory_rs.Prelude.{
  ℕ, zero, suc, Bool, true, false, ◌≡◌, refl, List, [], ◌∷◌, ◌++◌, Option, none, some,
  if◌then◌else◌, ◌≤◌, ◌+◌, arith, Bool-cases, inl, inr, All,
}

module _ {ℓ} {R : Type ℓ} where
  -- UPDATE … SET … WHERE …
  unfoldable pub update_where : (R → Bool) → (R → R) → List R → List R
  update_where p f [] = []
  update_where p f (r ∷ rs) = (if p r then f r else r) ∷ update_where p f rs

  -- DELETE FROM … WHERE …
  unfoldable pub delete_where : (R → Bool) → List R → List R
  delete_where p [] = []
  delete_where p (r ∷ rs) = let rest = delete_where p rs in if p r then rest else r ∷ rest

  -- SELECT … WHERE …
  unfoldable pub select_where : (R → Bool) → List R → List R
  select_where p [] = []
  select_where p (r ∷ rs) = let rest = select_where p rs in if p r then r ∷ rest else rest

  -- … ORDER BY rowid LIMIT 1
  unfoldable pub first_where : (R → Bool) → List R → Option R
  first_where p [] = none
  first_where p (r ∷ rs) = let rest = first_where p rs in if p r then some r else rest

  -- SELECT EXISTS(SELECT 1 FROM … WHERE …)
  unfoldable pub exists_where : (R → Bool) → List R → Bool
  exists_where p [] = false
  exists_where p (r ∷ rs) = let rest = exists_where p rs in if p r then true else rest

  -- The number of rows that a statement with this condition affects.
  unfoldable pub count_where : (R → Bool) → List R → ℕ
  count_where p [] = 0
  count_where p (r ∷ rs) = let rest = count_where p rs in if p r then suc rest else rest

  -- ORDER BY: a row before those that it is not to stand behind.
  unfoldable pub insert_by : (R → R → Bool) → R → List R → List R
  insert_by before r [] = r ∷ []
  insert_by before r (k ∷ ks) =
      let rest = insert_by before r ks in if before k r then k ∷ rest else r ∷ k ∷ ks

  unfoldable pub order_by : (R → R → Bool) → List R → List R
  unfolding insert_by
  order_by before [] = []
  order_by before (r ∷ rs) = insert_by before r (order_by before rs)
