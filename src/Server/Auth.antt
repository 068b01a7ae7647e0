-- ===== src/Server/Auth.antt =====
-- crates/server/src/auth.rs: the organization that a request acts for. SHA-256 and its comparison in
-- constant time are parameters.
use supermemory_rs.Prelude.{
  Text, Bool, true, false, not, ◌&&◌, ◌≡◌, refl, sym, ap, ◌∙◌, ◌⊎◌, inl, inr, ◌↔◌, List, [], ◌∷◌,
  Option, none, some, Result, ok, err, codes, starts_with, drop, is_some, if◌then◌else◌, arith,
  Bool-cases, Option-cases,
}
use mathlib.Core.Path.{subst}
use supermemory_rs.Storage.Sql.{first_where}

-- SHA-256.
pub record Hash : Type 1 where
  pub Digest : Type 0
  pub digest : Text → Digest
  pub ct_eq : Digest → Digest → Bool

-- What is read of a request and its connection: `authorization` is the header's value if there is one
-- and it is text.
pub record Request : Type 0 where
  pub authorization : Option Text
  pub has_cookie : Bool
  pub is_loopback : Bool

pub data AuthError : Type 0 where
  unauthorized : AuthError

abbrev pub bearer : Text
bearer = codes "Bearer "

unfoldable pub strip_bearer : Option Text → Option Text
strip_bearer none = none
strip_bearer (some value) = if starts_with value bearer then some (drop 7 value) else none

module _ (hash : Hash) where
  -- The first key with the digest of what was supplied.
  unfoldable pub organization_of : List (hash.Digest × Text) → Text → Option Text
  unfolding first_where
  organization_of api_keys supplied =
      elim (first_where (λ key. hash.ct_eq (hash.digest supplied) key.0) api_keys) [
        | none ↦ none
        | some key ↦ some key.1
      ]

  -- Who may act without a key.
  unfoldable pub local_of : Request → Text → Option Text
  unfolding strip_bearer
  local_of request local_org_id =
      if not (is_some (strip_bearer request.authorization))
        && not request.has_cookie
        && request.is_loopback
      then some local_org_id
      else none

  unfoldable pub keyed_organization : List (hash.Digest × Text) → Option Text → Option Text
  unfolding organization_of
  keyed_organization api_keys none = none
  keyed_organization api_keys (some supplied) = organization_of api_keys supplied

  unfoldable pub authenticate : List (hash.Digest × Text) → Text → Request → Result AuthError Text
  unfolding strip_bearer keyed_organization local_of
  authenticate api_keys local_org_id request =
      elim (keyed_organization api_keys (strip_bearer request.authorization)) [
        | some organization ↦ ok organization
        | none ↦ elim (local_of request local_org_id) [
          | some organization ↦ ok organization
          | none ↦ err unauthorized
        ]
      ]

  -- The key is in the list, with its organization.
  abbrev pub Holds : List (hash.Digest × Text) → Text → Text → Type 0
  Holds [] supplied organization = ⊥
  Holds (key ∷ keys) supplied organization =
      ((hash.ct_eq (hash.digest supplied) key.0 ≡ true) × (key.1 ≡ organization))
      ⊎ ((hash.ct_eq (hash.digest supplied) key.0 ≡ false) × Holds keys supplied organization)

  -- The request carries the key of the organization, or it carries neither key nor cookie, comes from
  -- this machine, and the organization is the local one.
  abbrev pub IsAuthorized : List (hash.Digest × Text) → Text → Request → Text → Type 0
  IsAuthorized api_keys local_org_id request organization =
      ((supplied : Text) × (strip_bearer request.authorization ≡ some supplied)
        × Holds api_keys supplied organization)
      ⊎ ((strip_bearer request.authorization ≡ none)
          × (request.has_cookie ≡ false)
          × (request.is_loopback ≡ true)
          × (local_org_id ≡ organization))

  organization_of-first :
      (key : hash.Digest × Text) (keys : List (hash.Digest × Text)) (supplied : Text)
      → hash.ct_eq (hash.digest supplied) key.0 ≡ true
      → organization_of (key ∷ keys) supplied ≡ some key.1
  unfolding organization_of first_where
  organization_of-first key keys supplied e = rw (organization_of, e) refl

  organization_of-later :
      (key : hash.Digest × Text) (keys : List (hash.Digest × Text)) (supplied : Text)
      → hash.ct_eq (hash.digest supplied) key.0 ≡ false
      → organization_of (key ∷ keys) supplied ≡ organization_of keys supplied
  unfolding organization_of first_where
  organization_of-later key keys supplied e = rw (organization_of, e) refl

  organization_of-Holds :
      (keys : List (hash.Digest × Text)) (supplied organization : Text)
      → (organization_of keys supplied ≡ some organization) ↔ Holds keys supplied organization
  organization_of-Holds [] supplied organization =
      unfold organization_of first_where in (λ e. absurd (ground arith), λ h. absurd h)
  organization_of-Holds (key ∷ keys) supplied organization =
      elim (Bool-cases (hash.ct_eq (hash.digest supplied) key.0)) [
        | inl e ↦
            let same = organization_of-first key keys supplied e in
            (
              λ found. inl (e, ground (arith, found, same)),
              λ h. elim h [ inl own ↦ same ∙ ap some own.1 | inr other ↦ absurd (cc (e, other.0)) ],
            )
        | inr e ↦
            let same = organization_of-later key keys supplied e in
            let rest = organization_of-Holds keys supplied organization in
            (
              λ found. inr (e, rest.0 (sym same ∙ found)),
              λ h. elim h [ inl own ↦ absurd (cc (e, own.0)) | inr other ↦ same ∙ rest.1 other.1 ],
            )
      ]

  -- A request is let through for exactly the organization that it is authorized for: it carries a
  -- bearer key whose digest is first found with that organization, or it carries no bearer key and
  -- no cookie, comes from a loopback address, and the organization is the local one.
  pub authenticate-IsAuthorized :
      (api_keys : List (hash.Digest × Text)) (local_org_id : Text) (request : Request)
      (organization : Text)
      → (authenticate api_keys local_org_id request ≡ ok organization)
        ↔ IsAuthorized api_keys local_org_id request organization
  unfolding authenticate keyed_organization local_of
  authenticate-IsAuthorized api_keys local_org_id request organization =
      elim (Option-cases (strip_bearer request.authorization)) [
        | inl e ↦ ground (arith, e)
        | inr (supplied, e) ↦
            let holds = organization_of-Holds api_keys supplied organization in
            elim (Option-cases (organization_of api_keys supplied)) [
              | inl missing ↦
                  let refused : authenticate api_keys local_org_id request ≡ err unauthorized =
                    refuses supplied e missing in
                  (
                    λ yes. absurd (ground (arith, refused, yes)),
                    λ may. absurd (ground (arith, missing, holds.1 (known supplied e may))),
                  )
              | inr (found, own) ↦
                  let given : authenticate api_keys local_org_id request ≡ ok found =
                    rw (authenticate, e, keyed_organization, own) refl in
                  (
                    λ yes. inl (supplied, e, holds.0 (ground (arith, given, yes, own))),
                    λ may. ground (arith, given, own, holds.1 (known supplied e may)),
                  )
            ]
      ]
    where
      refuses :
          (supplied : Text)
          → strip_bearer request.authorization ≡ some supplied
          → organization_of api_keys supplied ≡ none
          → authenticate api_keys local_org_id request ≡ err unauthorized
      refuses supplied e missing =
          rw (authenticate, e, keyed_organization, missing) (rw (local_of, e) refl)

      known :
          (supplied : Text)
          → strip_bearer request.authorization ≡ some supplied
          → IsAuthorized api_keys local_org_id request organization
          → Holds api_keys supplied organization
      known supplied e (inl (other, same, h)) =
          let agree : other ≡ supplied = ground (arith, e, same) in
          subst (λ t. Holds api_keys t organization) agree h
      known supplied e (inr may) = absurd (ground (arith, e, may.0))
