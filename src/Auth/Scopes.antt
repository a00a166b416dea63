-- ===== src/Auth/Scopes.antt =====
-- `validate_scopes` of auth/permissions.py: the scopes that a new key may be given.
use imbi_api.Prelude.{
  ◌≡◌, refl, String, not, ◌&&◌, Option, none, some, List, [], ◌∷◌, ◌==◌, eq_iff, if◌then◌else◌,
  member, arith,
}
use imbi_api.Auth.Directory.{Directory}

-- Accepted, or HTTPException(400) over the unknown scopes. Python sorts their names for the message.
pub data ScopeCheck : Type 0 where
  accepted : ScopeCheck
  unknown_scopes : List String → ScopeCheck

-- A name that is a text and not empty.
unfoldable pub add_name : Option String → List String → List String
add_name none names = names
add_name (some name) names = if name == "" then names else name ∷ names

unfoldable pub permission_names : List (Option String) → List String
permission_names [] = []
permission_names (row ∷ rows) = add_name row (permission_names rows)

-- {s for s in scopes if s}
unfoldable pub requested_of : List String → List String
requested_of [] = []
requested_of (s ∷ scopes) =
    let rest = requested_of scopes in
    if s == "" then rest else if member s rest then rest else s ∷ rest

-- requested - known
unfoldable pub difference : List String → List String → List String
difference [] known = []
difference (s ∷ requested) known =
    let rest = difference requested known in if member s known then rest else s ∷ rest

unfoldable pub scope_check : List String → ScopeCheck
scope_check [] = accepted
scope_check (s ∷ unknown) = unknown_scopes (s ∷ unknown)

module _ (d : Directory) where
  unfoldable pub load_all_permission_names : List String
  load_all_permission_names = permission_names d.known_permissions

  unfoldable pub check_requested : List String → ScopeCheck
  check_requested [] = accepted
  check_requested (s ∷ requested) =
      scope_check (difference (s ∷ requested) load_all_permission_names)

  unfoldable pub validate_scopes : List String → ScopeCheck
  validate_scopes scopes = check_requested (requested_of scopes)

member-requested_of :
    (s : String) (scopes : List String)
    → member s (requested_of scopes) ≡ (member s scopes && not (s == ""))
unfolding requested_of
member-requested_of s [] = refl
member-requested_of s (t ∷ scopes) =
    let ih = member-requested_of s scopes in
    let ih₂ = member-requested_of t scopes in
    ground (arith, ih, ih₂, eq_iff t s, eq_iff t "", eq_iff s "")

member-difference :
    (s : String) (requested known : List String)
    → member s (difference requested known) ≡ (member s requested && not (member s known))
unfolding difference
member-difference s [] known = refl
member-difference s (t ∷ requested) known =
    let ih = member-difference s requested known in ground (arith, ih, eq_iff t s)

-- The scopes of the refusal.
abbrev pub rejected : ScopeCheck → List String
rejected accepted = []
rejected (unknown_scopes names) = names

scope_check-rejected : (names : List String) → rejected (scope_check names) ≡ names
unfolding scope_check
scope_check-rejected [] = refl
scope_check-rejected (s ∷ names) = refl

module _ (d : Directory) where
  check_requested-rejected :
      (requested : List String)
      → rejected (check_requested d requested) ≡ difference requested (load_all_permission_names d)
  unfolding check_requested difference
  check_requested-rejected [] = refl
  check_requested-rejected (s ∷ requested) =
      scope_check-rejected (difference (s ∷ requested) (load_all_permission_names d))

  -- A scope is named in the refusal exactly if it was asked for, is not empty, and no permission
  -- with that name is known.
  pub member-validate_scopes :
      (s : String) (scopes : List String)
      → member s (rejected (validate_scopes d scopes))
        ≡ ((member s scopes && not (s == "")) && not (member s (load_all_permission_names d)))
  unfolding validate_scopes
  member-validate_scopes s scopes =
      rw
        (
          check_requested-rejected (requested_of scopes),
          member-difference s (requested_of scopes) (load_all_permission_names d),
          member-requested_of s scopes,
        )
        refl
