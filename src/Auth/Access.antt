-- ===== src/Auth/Access.antt =====
-- `require_permission` and `require_resource_access` of auth/permissions.py.
use Prim.Native.String.{◌++◌}
use imbi_api.Prelude.{
  ◌≡◌, ◌↔◌, ◌⊎◌, inl, inr, refl, String, Bool, true, false, ◌&&◌, Option, none, some, List, [], ◌∷◌,
  if◌then◌else◌, member, lookup, Entries, subst, sym, ap, ◌∙◌, ◌≢◌,
}
use imbi_api.Auth.Types.{User, AuthContext, Reply, ok, refuse, break, is_admin, admin_of}
use imbi_api.Auth.Directory.{Directory, check_resource_permission}
use imbi_api.Auth.Keys.{filtered, user_context}
use imbi_api.Auth.Keys.Checks.{member-filtered, allows}

unfoldable pub check_permission : String → AuthContext → Reply AuthContext
check_permission permission auth =
    if is_admin auth
    then ok auth
    else if member permission auth.permissions
    then ok auth
    else refuse 403 ("Permission denied: " ++ (permission ++ " required"))

-- _RESOURCE_LABEL_MAP
abbrev pub resource_labels : Entries String
resource_labels =
    ("blueprint", "Blueprint")
    ∷ ("document", "Document")
    ∷ ("document_template", "DocumentTemplate")
    ∷ ("environment", "Environment")
    ∷ ("identity_connection", "IdentityConnection")
    ∷ ("integration", "Integration")
    ∷ ("link_definition", "LinkDefinition")
    ∷ ("organization", "Organization")
    ∷ ("project", "Project")
    ∷ ("project_type", "ProjectType")
    ∷ ("release", "Release")
    ∷ ("role", "Role")
    ∷ ("tag", "Tag")
    ∷ ("team", "Team")
    ∷ []

-- `none` is the KeyError.
unfoldable pub resolve_resource_label : String → Option String
resolve_resource_label resource_type = lookup resource_type resource_labels

first_iff :
    (b : Bool) (auth : AuthContext) {rest : Reply AuthContext}
    → rest ≢ ok auth
    → ((if b then ok auth else rest) ≡ ok auth) ↔ (b ≡ true)
first_iff true auth h = (λ e. refl, λ e. refl)
first_iff false auth h = (λ e. absurd (h e), λ e. cc)

either_iff :
    (a b : Bool) (auth : AuthContext) {rest : Reply AuthContext} {Q : Type 0}
    → ((rest ≡ ok auth) ↔ Q)
    → ((if a then ok auth else if b then ok auth else rest) ≡ ok auth)
      ↔ ((a ≡ true) ⊎ ((b ≡ true) ⊎ Q))
either_iff true b auth q = (λ e. inl refl, λ h. refl)
either_iff false true auth q = (λ e. inr (inl refl), λ h. refl)
either_iff false false auth q = (
  λ e. inr (inr (q.0 e)),
  λ h. elim h [
    | inl e ↦ (let wrong : false ≡ true = e in cc)
    | inr more ↦ elim more [ inl e ↦ (let wrong : false ≡ true = e in cc) | inr x ↦ q.1 x ]
  ],
)

admin_none : admin_of none ≡ false
unfolding admin_of
admin_none = refl

two_iff :
    (a b : Bool) (auth : AuthContext) {rest : Reply AuthContext}
    → rest ≢ ok auth
    → ((if a then ok auth else if b then ok auth else rest) ≡ ok auth) ↔ ((a ≡ true) ⊎ (b ≡ true))
two_iff true b auth h = (λ e. inl refl, λ e. refl)
two_iff false true auth h = (λ e. inr refl, λ e. refl)
two_iff false false auth h = (
  λ e. absurd (h e),
  λ c. elim c [
    | inl e ↦ (let wrong : false ≡ true = e in cc)
    | inr e ↦ (let wrong : false ≡ true = e in cc)
  ],
)

-- For a user's API key: an administrator passes whatever the key's scopes are; anyone else needs a
-- permission that a role grants and the scopes allow.
pub check_permission_key :
    (p : String) (user : User) (key_id : String) (all scopes : List String) (ids : Entries String)
    → (check_permission p (user_context user key_id (filtered all scopes) ids)
        ≡ ok (user_context user key_id (filtered all scopes) ids))
      ↔ ((user.is_admin ≡ true) ⊎ ((member p all && allows scopes p) ≡ true))
unfolding check_permission is_admin admin_of user_context
check_permission_key p user key_id all scopes ids = rw (sym (member-filtered p all scopes)) (
    two_iff user.is_admin (member p (filtered all scopes))
      (user_context user key_id (filtered all scopes) ids) (λ e. cc))

-- A service account passes with the permission itself, and in no other way.
pub check_permission_service_account :
    (p : String) (auth : AuthContext)
    → auth.user ≡ none
    → (check_permission p auth ≡ ok auth) ↔ (member p auth.permissions ≡ true)
unfolding check_permission is_admin
check_permission_service_account p auth h =
    let lone : admin_of auth.user ≡ false = ap admin_of h ∙ admin_none in
    rw lone (first_iff (member p auth.permissions) auth (λ e. cc))

module _ (d : Directory) (resource_type action slug : String) where
  abbrev pub denied : Reply AuthContext
  denied = refuse 403 ("Access denied to " ++ (resource_type ++ (":" ++ slug)))

  unfoldable pub by_label : AuthContext → User → Option String → Reply AuthContext
  by_label auth user none = break
  by_label auth user (some label) =
      if check_resource_permission d user.email label slug action then ok auth else denied

  unfoldable pub by_resource : AuthContext → Option User → Reply AuthContext
  by_resource auth none = denied
  by_resource auth (some user) = by_label auth user (resolve_resource_label resource_type)

  unfoldable pub check_access : AuthContext → Reply AuthContext
  check_access auth =
      if is_admin auth
      then ok auth
      else if member (resource_type ++ (":" ++ action)) auth.permissions
      then ok auth
      else by_resource auth auth.user

  -- The user was granted the action on the resource itself.
  abbrev pub HasGrant : Option User → Type 0
  HasGrant none = ⊥
  HasGrant (some user) =
      (label : String) × (resolve_resource_label resource_type ≡ some label)
      × (check_resource_permission d user.email label slug action ≡ true)

  denied_lem : {auth : AuthContext} → denied ≢ ok auth
  denied_lem e = cc

  by_label_iff :
      (auth : AuthContext) (user : User) (label : Option String)
      → (by_label auth user label ≡ ok auth) ↔ (
          (l : String) × (label ≡ some l)
          × (check_resource_permission d user.email l slug action ≡ true))
  unfolding by_label
  by_label_iff auth user none = (λ e. cc, λ h. let (l, e, more) = h in cc)
  by_label_iff auth user (some label) =
      let given =
        first_iff (check_resource_permission d user.email label slug action) auth denied_lem in
      (
        λ e. (label, refl, given.0 e),
        λ h.
            let (l, e, more) = h in
            let same : label ≡ l = cc in
            given.1 (
              subst (λ x. check_resource_permission d user.email x slug action ≡ true) (sym same)
                more),
      )

  by_resource_iff :
      (auth : AuthContext) (user : Option User) → (by_resource auth user ≡ ok auth) ↔ HasGrant user
  unfolding by_resource
  by_resource_iff auth none = (λ e. cc, λ h. absurd h)
  by_resource_iff auth (some user) = by_label_iff auth user (resolve_resource_label resource_type)

  -- Access to a resource is given exactly to administrators, to principals with the permission on
  -- all resources of the type, and to users with a grant on the resource itself.
  pub check_access_iff :
      (auth : AuthContext)
      → (check_access auth ≡ ok auth) ↔ (
          (is_admin auth ≡ true)
          ⊎ ((member (resource_type ++ (":" ++ action)) auth.permissions ≡ true)
              ⊎ HasGrant auth.user))
  unfolding check_access
  check_access_iff auth =
      either_iff (is_admin auth) (member (resource_type ++ (":" ++ action)) auth.permissions) auth
        (by_resource_iff auth auth.user)
