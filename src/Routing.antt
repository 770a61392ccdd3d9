-- ===== src/Routing.antt =====
-- src/operations/executive-role-router.ts: which executive is accountable, and in which trust domain.
use real_ming.Base.{◌≡◌, Option, none, some, arith}
use real_ming.Contracts.Kinds.{
  ExecutiveRole, coo, cto, personal_cfo, cao, cmo, Workstream, personal_life, career_job,
  micro_saas, content_creation, TrustDomain, personal, ming_creatives, entertainment,
}

-- `workstreamRoutes[workstream].executive`
unfoldable pub workstream_executive : Workstream → ExecutiveRole
workstream_executive personal_life = coo
workstream_executive career_job = coo
workstream_executive Workstream.finance = personal_cfo
workstream_executive Workstream.academic = cao
workstream_executive micro_saas = cto
workstream_executive content_creation = cmo

-- `workstreamRoutes[workstream].trustDomain`
unfoldable pub workstream_trust_domain : Workstream → TrustDomain
workstream_trust_domain personal_life = personal
workstream_trust_domain career_job = personal
workstream_trust_domain Workstream.finance = TrustDomain.finance
workstream_trust_domain Workstream.academic = TrustDomain.academic
workstream_trust_domain micro_saas = ming_creatives
workstream_trust_domain content_creation = ming_creatives

trust_domain_by_executive : ExecutiveRole → TrustDomain
trust_domain_by_executive coo = personal
trust_domain_by_executive cto = ming_creatives
trust_domain_by_executive personal_cfo = TrustDomain.finance
trust_domain_by_executive cao = TrustDomain.academic
trust_domain_by_executive cmo = ming_creatives

unfoldable pub route_accountable_executive :
    Option ExecutiveRole → Option Workstream → ExecutiveRole
unfolding workstream_executive
route_accountable_executive (some explicit) workstream = explicit
route_accountable_executive none (some workstream) = workstream_executive workstream
route_accountable_executive none none = coo

unfoldable pub route_trust_domain : Option Workstream → ExecutiveRole → TrustDomain
unfolding workstream_trust_domain trust_domain_by_executive
route_trust_domain none executive = trust_domain_by_executive executive
route_trust_domain (some workstream) executive = workstream_trust_domain workstream

-- Entertainment has no role reader.
unfoldable pub retrieval_role_for_trust_domain : TrustDomain → Option ExecutiveRole
retrieval_role_for_trust_domain personal = some coo
retrieval_role_for_trust_domain ming_creatives = some cto
retrieval_role_for_trust_domain TrustDomain.academic = some cao
retrieval_role_for_trust_domain TrustDomain.finance = some personal_cfo
retrieval_role_for_trust_domain entertainment = none

-- A Work Item that is routed by its workstream alone lies in one trust domain, whether the domain
-- is read off the workstream or off the executive that the workstream is routed to.
route_trust_domain-routed :
    (workstream : Workstream)
    → route_trust_domain (some workstream) (route_accountable_executive none (some workstream))
      ≡ route_trust_domain none (route_accountable_executive none (some workstream))
unfolding route_trust_domain route_accountable_executive
route_trust_domain-routed workstream = ground arith

-- Reading a domain back through its role ends in the same domain.
pub retrieval_role-route_trust_domain :
    (domain : TrustDomain) (role : ExecutiveRole)
    → retrieval_role_for_trust_domain domain ≡ some role
    → route_trust_domain none role ≡ domain
unfolding route_trust_domain retrieval_role_for_trust_domain
retrieval_role-route_trust_domain domain role e = ground arith
