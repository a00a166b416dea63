-- ===== src/Session/Membership.antt =====
-- imbi_api/auth/membership.py: the default role of a user without an organization.
use imbi_api.Prelude.{
  ℕ, ◌+◌, ltb, String, Bool, true, false, ◌&&◌, ◌||◌, Option, none, some, List, [], ◌∷◌, ◌==◌,
  if◌then◌else◌, member,
}
use imbi_api.Session.Graph.{Graph, User, Role, Membership, find_user}

-- count(m) of (u:User {email})-[m:MEMBER_OF]->()
unfoldable pub count_memberships : String → List Membership → ℕ
count_memberships email [] = 0
count_memberships email (m ∷ others) =
    (if m.email == email then 1 else 0) + count_memberships email others

-- MATCH (r:Role {is_default: true}) RETURN r.slug LIMIT 1
unfoldable pub resolve_default_role : List Role → Option String
resolve_default_role [] = none
resolve_default_role (r ∷ roles) =
    let later = resolve_default_role roles in if r.is_default then some r.slug else later

-- The sole organization, and else the one called default.
unfoldable pub resolve_target_org : List String → Option String
resolve_target_org (slug ∷ []) = some slug
resolve_target_org slugs = if member "default" slugs then some "default" else none

unfoldable pub has_role : String → List Role → Bool
has_role slug [] = false
has_role slug (r ∷ roles) = r.slug == slug || has_role slug roles

unfoldable pub same_membership : Membership → Membership → Bool
same_membership a b = a.email == b.email && a.organization == b.organization && a.role == b.role

unfoldable pub has_membership : Membership → List Membership → Bool
has_membership m [] = false
has_membership m (n ∷ others) = same_membership n m || has_membership m others

-- MERGE adds the edge unless it is there.
unfoldable pub merge_membership : Membership → List Membership → List Membership
merge_membership m edges = if has_membership m edges then edges else m ∷ edges

-- Whether the query's MATCH finds the user, the organization and the role.
unfoldable pub has_user : Option User → Bool
has_user none = false
has_user (some u) = true

unfoldable pub create_membership : String → String → String → Graph → Bool × Graph
create_membership email org role g =
    if has_user (find_user email g.users) && member org g.organizations && has_role role g.roles
    then (
      true,
      record g {
        member_of =
            merge_membership (record { email = email; organization = org; role = role })
              g.member_of;
      },
    )
    else (false, g)

-- The role slug if the edge was created.
unfoldable pub assigned : String → Bool × Graph → Option String × Graph
assigned role (true, g) = (some role, g)
assigned role (false, g) = (none, g)

unfoldable pub assign : String → Graph → Option String → Option String → Option String × Graph
assign email g none org = (none, g)
assign email g (some role) none = (none, g)
assign email g (some role) (some org) = assigned role (create_membership email org role g)

unfoldable pub ensure_user_membership : String → Graph → Option String × Graph
ensure_user_membership email g =
    if ltb 0 (count_memberships email g.member_of)
    then (none, g)
    else assign email g (resolve_default_role g.roles) (resolve_target_org g.organizations)
