-- ===== src/Storage/Memories/Current.antt =====
-- Which memories of a container are current, said without the conditions of the queries.
use supermemory_rs.Prelude.{
  ℕ, ◌<◌, Text, text_eq_iff, true, false, ◌≡◌, ◌↔◌, refl, inl, inr, Option, none, some, arith,
  Option-cases,
}
use supermemory_rs.Storage.Memories.Store.{Memory, Clock, is_future, is_unexpired}
use supermemory_rs.Storage.Memories.Resolve.{in_container, is_live_in}
use supermemory_rs.Storage.Memories.Profiles.{is_remembered, is_static_row, is_dynamic_row}
use supermemory_rs.Storage.Memories.Extraction.{is_extraction_context}

-- No date to forget the memory by, or one that reads as a later time.
abbrev pub IsUnexpired : Clock → ℕ → Option Text → Type 0
IsUnexpired clock now none = Unit
IsUnexpired clock now (some value) = (time : ℕ) × (clock.datetime value ≡ some time) × (now < time)

pub record IsCurrent {V : Type 0} (clock : Clock) (now : ℕ) (org_id container_tag : Text)
    (m : Memory V) : Type 0 where
  pub organization : m.org_id ≡ org_id
  pub container : m.container_tag ≡ container_tag
  pub latest : m.is_latest ≡ true
  pub kept : m.is_forgotten ≡ false
  pub unexpired : IsUnexpired clock now m.forget_after

module _ (clock : Clock) (now : ℕ) where
  is_unexpired_iff :
      (after : Option Text) → (is_unexpired clock now after ≡ true) ↔ IsUnexpired clock now after
  unfolding is_unexpired is_future
  is_unexpired_iff none = (λ _. tt, λ _. refl)
  is_unexpired_iff (some value) = elim (Option-cases (clock.datetime value)) [
    | inl e ↦ rw e (λ h. absurd (cc h), λ h. absurd (cc (h.1)))
    | inr (time, e) ↦ rw e (λ h. (time, refl, ground arith), λ h. ground (arith, h.2, h.1))
  ]

  module _ {V : Type 0} (org_id container_tag : Text) where
    pub extraction_context_iff :
        (m : Memory V)
        → (is_extraction_context clock now org_id container_tag m ≡ true)
          ↔ IsCurrent clock now org_id container_tag m
    unfolding is_extraction_context is_live_in in_container
    extraction_context_iff m =
        let when = is_unexpired_iff m.forget_after in
        let org = text_eq_iff m.org_id org_id in
        let tag = text_eq_iff m.container_tag container_tag in
        (
          λ h. record {
            organization = org.0 (ground arith);
            container = tag.0 (ground arith);
            latest = ground arith;
            kept = ground arith;
            unexpired = when.0 (ground arith);
          },
          λ c. ground (
            arith,
            org.1 c.organization,
            tag.1 c.container,
            c.latest,
            c.kept,
            when.1 c.unexpired,
          ),
        )

    pub static-IsCurrent :
        (m : Memory V)
        → is_static_row clock now org_id container_tag m ≡ true
        → IsCurrent clock now org_id container_tag m × (m.is_static ≡ true)
    unfolding is_static_row is_remembered in_container
    static-IsCurrent m h = (
      record {
        organization = (text_eq_iff m.org_id org_id).0 (ground arith);
        container = (text_eq_iff m.container_tag container_tag).0 (ground arith);
        latest = ground arith;
        kept = ground arith;
        unexpired = (is_unexpired_iff m.forget_after).0 (ground arith);
      },
      ground arith,
    )

    pub dynamic-IsCurrent :
        (m : Memory V)
        → is_dynamic_row clock now org_id container_tag m ≡ true
        → IsCurrent clock now org_id container_tag m × (m.is_static ≡ false)
    unfolding is_dynamic_row is_remembered in_container
    dynamic-IsCurrent m h = (
      record {
        organization = (text_eq_iff m.org_id org_id).0 (ground arith);
        container = (text_eq_iff m.container_tag container_tag).0 (ground arith);
        latest = ground arith;
        kept = ground arith;
        unexpired = (is_unexpired_iff m.forget_after).0 (ground arith);
      },
      ground arith,
    )
