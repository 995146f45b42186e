-- ===== src/Tenancy/Slugs.antt =====
-- The slug of a tenant: which one is chosen, and that it is chosen again.
use self_consistency_answer.Common.{
  ◌≡◌, refl, sym, ap, subst, ◌∙◌, inl, inr, true, false, none, some, String, List, [], ◌∷◌, ◌++◌,
  arith, map, or_else, str_eq, eq_iff, eq_refl, if◌then◌else◌, Bool-cases,
}
use self_consistency_answer.Tenancy.{Tenant, is_set_to}
use self_consistency_answer.Tenancy.Mirror.{
  is_free, holder_of, first_free, is_held, rename, is_mirrored, upsert_tenant,
}

abbrev new_tenant : String → String → String → String → Tenant
new_tenant external_id slug name id = record {
  id = id;
  slug = slug;
  name = name;
  external_id = some external_id;
  deleted_at = none;
}

abbrev upserted : String → String → String → String → List Tenant → List Tenant
upserted external_id slug name id tenants =
    if is_mirrored external_id tenants
    then map (rename external_id slug name) tenants
    else tenants ++ new_tenant external_id slug name id ∷ []

-- A slug that another organization holds is still held after a rename to another slug.
held_after_rename :
    (external_id slug name candidate : String) (tenants : List Tenant)
    → str_eq slug candidate ≡ false
    → is_free external_id (holder_of candidate tenants) ≡ false
    → is_free external_id (holder_of candidate (map (rename external_id slug name) tenants)) ≡ false
held_after_rename external_id slug name candidate [] differs held = held
held_after_rename external_id slug name candidate (t ∷ tenants) differs held =
    elim (Bool-cases (is_set_to external_id t.external_id)) [
      | inl own ↦ elim (Bool-cases (str_eq t.slug candidate)) [
        | inl here ↦
            let never : is_set_to external_id t.external_id ≡ false = rw here at held in absurd cc
        | inr other ↦
            rw (own, differs)
              (held_after_rename external_id slug name candidate tenants differs (rw other at held))
      ]
      | inr others ↦ elim (Bool-cases (str_eq t.slug candidate)) [
        | inl here ↦ rw (others, here) others
        | inr other ↦
            rw (others, other)
              (held_after_rename external_id slug name candidate tenants differs (rw other at held))
      ]
    ]

held_after_append :
    (external_id candidate : String) (tenants : List Tenant) (t : Tenant)
    → is_free external_id (holder_of candidate tenants) ≡ false
    → is_free external_id (holder_of candidate (tenants ++ t ∷ [])) ≡ false
held_after_append external_id candidate [] t held = absurd cc
held_after_append external_id candidate (x ∷ tenants) t held =
    elim (Bool-cases (str_eq x.slug candidate)) [
      | inl here ↦ rw here (rw here at held)
      | inr other ↦ rw other (held_after_append external_id candidate tenants t (rw other at held))
    ]

free_if_not_held :
    (external_id slug : String) (tenants : List Tenant)
    → is_held slug external_id tenants ≡ false
    → is_free external_id (holder_of slug tenants) ≡ true
free_if_not_held external_id slug [] h = refl
free_if_not_held external_id slug (t ∷ tenants) h = elim (Bool-cases (str_eq t.slug slug)) [
  | inl here ↦ rw here (ground (arith, here, h))
  | inr other ↦ rw other (free_if_not_held external_id slug tenants (ground (arith, other, h)))
]

held_rename :
    (external_id slug name : String) (tenants : List Tenant)
    → is_held slug external_id tenants ≡ false
    → is_held slug external_id (map (rename external_id slug name) tenants) ≡ false
held_rename external_id slug name [] h = refl
held_rename external_id slug name (t ∷ tenants) h =
    elim (Bool-cases (is_set_to external_id t.external_id)) [
      | inl own ↦
          rw (own, own)
            (ground (arith, held_rename external_id slug name tenants (ground (arith, own, h))))
      | inr others ↦
          rw (others, others)
            (ground
              (arith, h, held_rename external_id slug name tenants (ground (arith, others, h))))
    ]

held_append :
    (external_id slug name id : String) (tenants : List Tenant)
    → is_held slug external_id tenants ≡ false
    → is_held slug external_id (tenants ++ new_tenant external_id slug name id ∷ []) ≡ false
held_append external_id slug name id [] h = ground (arith, eq_refl external_id)
held_append external_id slug name id (t ∷ tenants) h =
    ground (arith, h, held_append external_id slug name id tenants (ground (arith, h)))

rename-rename :
    (external_id slug name : String) (tenants : List Tenant)
    → map (rename external_id slug name) (map (rename external_id slug name) tenants)
      ≡ map (rename external_id slug name) tenants
rename-rename external_id slug name [] = refl
rename-rename external_id slug name (t ∷ tenants) =
    elim (Bool-cases (is_set_to external_id t.external_id)) [
      | inl own ↦ rw (own, own, rename-rename external_id slug name tenants) refl
      | inr others ↦ rw (others, others, rename-rename external_id slug name tenants) refl
    ]

mirrored_rename :
    (external_id slug name : String) (tenants : List Tenant)
    → is_mirrored external_id (map (rename external_id slug name) tenants)
      ≡ is_mirrored external_id tenants
mirrored_rename external_id slug name [] = refl
mirrored_rename external_id slug name (t ∷ tenants) =
    elim (Bool-cases (is_set_to external_id t.external_id)) [
      | inl own ↦ rw (own, own) refl
      | inr others ↦ rw (others, others) (mirrored_rename external_id slug name tenants)
    ]

mirrored_append :
    (external_id slug name id : String) (tenants : List Tenant)
    → is_mirrored external_id (tenants ++ new_tenant external_id slug name id ∷ []) ≡ true
mirrored_append external_id slug name id [] = ground (arith, eq_refl external_id)
mirrored_append external_id slug name id (t ∷ tenants) =
    ground (arith, mirrored_append external_id slug name id tenants)

rename_absent :
    (external_id slug name id : String) (tenants : List Tenant)
    → is_mirrored external_id tenants ≡ false
    → map (rename external_id slug name) (tenants ++ new_tenant external_id slug name id ∷ [])
      ≡ tenants ++ new_tenant external_id slug name id ∷ []
rename_absent external_id slug name id [] h = rw (eq_refl external_id) refl
rename_absent external_id slug name id (t ∷ tenants) h =
    let others : is_set_to external_id t.external_id ≡ false = ground (arith, h) in
    rw (others, rename_absent external_id slug name id tenants (ground (arith, h))) refl

-- What a slug that was taken leaves: no other organization holds it, the row is there, taking it again
-- changes nothing, and every other slug that was held still is.
abbrev pub IsStable : String → String → String → List Tenant → List Tenant → Type 0
IsStable external_id slug name tenants after =
    (is_held slug external_id after ≡ false)
    × (is_mirrored external_id after ≡ true)
    × (map (rename external_id slug name) after ≡ after)
    × ((candidate : String)
        → str_eq slug candidate ≡ false
        → is_free external_id (holder_of candidate tenants) ≡ false
        → is_free external_id (holder_of candidate after) ≡ false)

upserted-IsStable :
    (external_id slug name id : String) (tenants : List Tenant)
    → is_held slug external_id tenants ≡ false
    → IsStable external_id slug name tenants (upserted external_id slug name id tenants)
upserted-IsStable external_id slug name id tenants h =
    elim (Bool-cases (is_mirrored external_id tenants)) [
      | inl there ↦
          let same : map (rename external_id slug name) tenants
              ≡ upserted external_id slug name id tenants =
            rw there refl in
          subst (IsStable external_id slug name tenants) same (
            held_rename external_id slug name tenants h,
            mirrored_rename external_id slug name tenants ∙ there,
            rename-rename external_id slug name tenants,
            λ candidate. held_after_rename external_id slug name candidate tenants,
          )
      | inr absent ↦
          let same : tenants ++ new_tenant external_id slug name id ∷ []
              ≡ upserted external_id slug name id tenants =
            rw absent refl in
          subst (IsStable external_id slug name tenants) same (
            held_append external_id slug name id tenants h,
            mirrored_append external_id slug name id tenants,
            rename_absent external_id slug name id tenants absent,
            λ candidate differs.
                held_after_append external_id candidate tenants
                  (new_tenant external_id slug name id),
          )
    ]

differs_from_held :
    (slug candidate external_id : String) (tenants : List Tenant)
    → is_held slug external_id tenants ≡ false
    → is_free external_id (holder_of candidate tenants) ≡ false
    → str_eq slug candidate ≡ false
differs_from_held slug candidate external_id tenants was held =
    elim (Bool-cases (str_eq slug candidate)) [
      | inr differs ↦ differs
      | inl same ↦
          let is : slug ≡ candidate = ground (arith, same, eq_iff slug candidate) in
          let free = free_if_not_held external_id slug tenants was in
          let also : is_free external_id (holder_of candidate tenants) ≡ true =
            subst (λ s. is_free external_id (holder_of s tenants) ≡ true) is free in
          absurd cc
    ]

-- The choice among the slug_candidates is the same again once it has been taken.
pub first_free_again :
    (list : List String) (last external_id name slug : String) (tenants after : List Tenant)
    → first_free list last external_id tenants ≡ slug
    → is_held slug external_id tenants ≡ false
    → IsStable external_id slug name tenants after
    → first_free list last external_id after ≡ slug
unfolding first_free
first_free_again [] last external_id name slug tenants after chosen was stable = chosen
first_free_again (c ∷ list) last external_id name slug tenants after chosen was stable =
    elim (Bool-cases (is_free external_id (holder_of c tenants))) [
      | inl free ↦
          let is : c ≡ slug = rw (first_free, free) at chosen in
          let again : is_free external_id (holder_of c after) ≡ true =
            subst (λ s. is_free external_id (holder_of s after) ≡ true) (sym is)
              (free_if_not_held external_id slug after stable.0) in
          rw (first_free, again) is
      | inr held ↦
          let still = stable.3 c (differs_from_held slug c external_id tenants was held) held in
          rw (first_free, still)
            (first_free_again list last external_id name slug tenants after
              (rw (first_free, held) at chosen) was stable)
    ]

pub upsert_again :
    (external_id slug name id again : String) (tenants after : List Tenant)
    → upsert_tenant external_id slug name id tenants ≡ some after
    → IsStable external_id slug name tenants after
      × (is_held slug external_id tenants ≡ false)
      × (upsert_tenant external_id slug name again after ≡ some after)
unfolding upsert_tenant
upsert_again external_id slug name id again tenants after h =
    elim (Bool-cases (is_held slug external_id tenants)) [
      | inl held ↦ let never : none ≡ some after = rw (upsert_tenant, held) at h in absurd cc
      | inr free ↦
          let same : some (upserted external_id slug name id tenants) ≡ some after =
            rw (upsert_tenant, free) at h in
          let stable =
            subst (IsStable external_id slug name tenants) (ap (λ o. or_else o after) same)
              (upserted-IsStable external_id slug name id tenants free) in
          (stable, free, rw (upsert_tenant, stable.0, stable.1, stable.2) refl)
    ]
