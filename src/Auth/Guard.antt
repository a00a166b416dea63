-- ===== src/Auth/Guard.antt =====
-- `require_permission` of auth/permissions.py from a request's credentials to its context.
use imbi_api.Prelude.{
  ℕ, ◌≡◌, ◌↔◌, ◌⊎◌, inl, inr, refl, sym, subst, ap, String, Bool, true, false, Option,
  if◌then◌else◌, member,
}
use imbi_api.Auth.Types.{AuthContext, Reply, ok, refuse, break, is_admin}
use imbi_api.Auth.Directory.{Directory}
use imbi_api.Auth.Tokens.{Session, get_current_user, get_current_user_cookie_fallback}
use imbi_api.Auth.Access.{check_permission}

unfoldable pub after_resolving : String → Reply AuthContext × Session → Reply AuthContext × Session
after_resolving permission (ok auth, st) = (check_permission permission auth, st)
after_resolving permission (answer, st) = (answer, st)

module _ (digest : String → String) (d : Directory) where
  unfoldable pub resolve :
      Bool → ℕ → ℕ → Option String → Option String → Session → Reply AuthContext × Session
  resolve true wall mono credentials cookie st =
      get_current_user_cookie_fallback digest d wall mono credentials cookie st
  resolve false wall mono credentials cookie st = get_current_user digest d wall mono credentials st

  unfoldable pub require_permission :
      String → Bool → ℕ → ℕ → Option String → Option String → Session → Reply AuthContext × Session
  require_permission permission allow_cookie wall mono credentials cookie st =
      after_resolving permission (resolve allow_cookie wall mono credentials cookie st)

-- The context may use a permission.
abbrev pub MayUse : String → AuthContext → Type 0
MayUse permission ctx = (is_admin ctx ≡ true) ⊎ (member permission ctx.permissions ≡ true)

tests_iff :
    (a b : Bool) (c ctx : AuthContext) (code : ℕ) (detail : String)
    → ((if a then ok c else if b then ok c else refuse code detail) ≡ ok ctx)
      ↔ ((c ≡ ctx) × ((a ≡ true) ⊎ (b ≡ true)))
tests_iff true b c ctx code detail = (λ e. (cc, inl refl), λ h. ap ok h.0)
tests_iff false true c ctx code detail = (λ e. (cc, inr refl), λ h. ap ok h.0)
tests_iff false false c ctx code detail = (
  λ e. cc,
  λ h. elim h.1 [
    | inl e ↦ (let wrong : false ≡ true = e in cc)
    | inr e ↦ (let wrong : false ≡ true = e in cc)
  ],
)

check_permission-MayUse :
    (permission : String) (c ctx : AuthContext)
    → (check_permission permission c ≡ ok ctx) ↔ ((c ≡ ctx) × MayUse permission c)
unfolding check_permission
check_permission-MayUse permission c ctx =
    tests_iff (is_admin c) (member permission c.permissions) c ctx 403 _

after_resolving-MayUse :
    (permission : String) (r : Reply AuthContext × Session) (ctx : AuthContext)
    → ((after_resolving permission r).0 ≡ ok ctx) ↔ ((r.0 ≡ ok ctx) × MayUse permission ctx)
unfolding after_resolving
after_resolving-MayUse permission (ok c, st) ctx =
    let p = check_permission-MayUse permission c ctx in
    (
      λ e. let (same, may) = p.0 e in (ap ok same, subst (MayUse permission) same may),
      λ h.
          let (e, may) = h in
          let same : c ≡ ctx = cc in p.1 (same, subst (MayUse permission) (sym same) may),
    )
after_resolving-MayUse permission (refuse code detail, st) ctx = (λ e. cc, λ h. let e = h.0 in cc)
after_resolving-MayUse permission (break, st) ctx = (λ e. cc, λ h. let e = h.0 in cc)

-- A request passes a permission's guard exactly if its credentials, the cookie included where the
-- guard allows it, authenticate it as the context that it gets, and that context is an
-- administrator's or has the permission.
pub require_permission-MayUse :
    (digest : String → String) (d : Directory) (permission : String) (allow_cookie : Bool)
    (wall mono : ℕ) (credentials cookie : Option String) (st : Session) (ctx : AuthContext)
    → ((require_permission digest d permission allow_cookie wall mono credentials cookie st).0
        ≡ ok ctx)
      ↔ (((resolve digest d allow_cookie wall mono credentials cookie st).0 ≡ ok ctx)
          × MayUse permission ctx)
unfolding require_permission
require_permission-MayUse digest d permission allow_cookie wall mono credentials cookie st ctx =
    after_resolving-MayUse permission
      (resolve digest d allow_cookie wall mono credentials cookie st) ctx
