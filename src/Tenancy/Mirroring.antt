-- ===== src/Tenancy/Mirroring.antt =====
-- Events of the identity provider that come again, and rows that stand in each other's way.
use self_consistency_answer.Common.{
  ◌≡◌, refl, ap, subst, ◌∙◌, inl, inr, Option, none, some, String, or_else, Option-cases,
}
use self_consistency_answer.Tenancy.{Directory}
use self_consistency_answer.Tenancy.Mirror.{
  Host, tenant_slug_for, slug_candidates, fallback, upsert_tenant, with_tenants, available_slug,
  sync_clerk_organization,
}
use self_consistency_answer.Tenancy.Slugs.{first_free_again, upsert_again}

-- An event about an organization that is delivered again changes nothing: once it has been mirrored, the
-- same event gives the same directory, the slug that was chosen included, whether the slug was the
-- preferred one, one with a suffix or the last resort, and whatever id a new row would be given.
pub sync_clerk_organization_twice :
    (host : Host) (external_id name : String) (slug : Option String) (id again : String)
    (d after : Directory)
    → sync_clerk_organization host external_id name slug id d ≡ some after
    → sync_clerk_organization host external_id name slug again after ≡ some after
unfolding sync_clerk_organization available_slug
sync_clerk_organization_twice host external_id name slug id again d after h =
    let preferred = tenant_slug_for host external_id slug in
    let last = fallback host preferred external_id in
    let taken = available_slug host preferred external_id d.tenants in
    elim (Option-cases (upsert_tenant external_id taken name id d.tenants)) [
      | inl thrown ↦
          let never : none ≡ some after = rw (sync_clerk_organization, thrown) at h in absurd cc
      | inr (tenants, done) ↦
          let same : some (record d { tenants = tenants }) ≡ some after =
            rw (sync_clerk_organization, done) at h in
          let (stable, free, once_more) =
            upsert_again external_id taken name id again d.tenants tenants done in
          let slug_again : available_slug host preferred external_id tenants ≡ taken =
            first_free_again (slug_candidates preferred) last external_id name taken d.tenants
              tenants refl free stable in
          let result : sync_clerk_organization host external_id name slug again
                (record d { tenants = tenants })
              ≡ some (record d { tenants = tenants }) =
            ap
              (λ s.
                with_tenants (record d { tenants = tenants })
                  (upsert_tenant external_id s name again tenants))
              slug_again
            ∙ ap (with_tenants (record d { tenants = tenants })) once_more in
          subst (λ x. sync_clerk_organization host external_id name slug again x ≡ some x)
            (ap (λ o. or_else o after) same) result
    ]
