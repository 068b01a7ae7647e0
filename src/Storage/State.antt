-- ===== src/Storage/State.antt =====
-- `DocumentState` of crates/storage/src/lib.rs: the lifecycle and its stored form.
use mathlib.Core.Path.{subst, sym}
use supermemory_rs.Prelude.{
  Text, codes, text_eq, text_eq_iff, ◌≡◌, ◌↔◌, refl, Result, ok, err, if◌then◌else◌, arith,
}

pub data DocumentState : Type 0 where
  unknown queued extracting chunking embedding indexing done failed : DocumentState

unfoldable pub as_str : DocumentState → Text
as_str unknown = codes "unknown"
as_str queued = codes "queued"
as_str extracting = codes "extracting"
as_str chunking = codes "chunking"
as_str embedding = codes "embedding"
as_str indexing = codes "indexing"
as_str done = codes "done"
as_str failed = codes "failed"

pub record TransitionError : Type 0 where
  pub from : DocumentState
  pub to : DocumentState

unfoldable pub transition : DocumentState → DocumentState → Result TransitionError DocumentState
transition unknown queued = ok queued
transition failed queued = ok queued
transition queued extracting = ok extracting
transition extracting chunking = ok chunking
transition chunking embedding = ok embedding
transition embedding indexing = ok indexing
transition indexing done = ok done
transition queued failed = ok failed
transition extracting failed = ok failed
transition chunking failed = ok failed
transition embedding failed = ok failed
transition indexing failed = ok failed
transition from to = err (record { from = from; to = to })

-- The error holds the rejected text.
unfoldable pub from_str : Text → Result Text DocumentState
unfolding as_str
from_str value =
    if text_eq value (codes "unknown")
    then ok unknown
    else if text_eq value (codes "queued")
    then ok queued
    else if text_eq value (codes "extracting")
    then ok extracting
    else if text_eq value (codes "chunking")
    then ok chunking
    else if text_eq value (codes "embedding")
    then ok embedding
    else if text_eq value (codes "indexing")
    then ok indexing
    else if text_eq value (codes "done")
    then ok done
    else if text_eq value (codes "failed")
    then ok failed
    else err value

-- A stored state reads back as itself.
from_str-as_str : (s : DocumentState) → from_str (as_str s) ≡ ok s
unfolding from_str as_str text_eq
from_str-as_str unknown = refl
from_str-as_str _ = refl

-- Only the text of a state is read as that state.
from_str-eq_ok : (t : Text) (s : DocumentState) → from_str t ≡ ok s → t ≡ as_str s
unfolding from_str as_str
from_str-eq_ok t s h = ground (
  arith,
  text_eq_iff t (codes "unknown"),
  text_eq_iff t (codes "queued"),
  text_eq_iff t (codes "extracting"),
  text_eq_iff t (codes "chunking"),
  text_eq_iff t (codes "embedding"),
  text_eq_iff t (codes "indexing"),
  text_eq_iff t (codes "done"),
  text_eq_iff t (codes "failed"),
)

-- A text reads as a state exactly when it is the text that the state is stored as: each state reads
-- back as itself, and no other text as it.
pub from_str_iff : (t : Text) (s : DocumentState) → (from_str t ≡ ok s) ↔ (t ≡ as_str s)
from_str_iff t s =
    (from_str-eq_ok t s, λ same. subst (λ x. from_str x ≡ ok s) (sym same) (from_str-as_str s))
