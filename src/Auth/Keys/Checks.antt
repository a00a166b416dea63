-- ===== src/Auth/Keys/Checks.antt =====
-- Which API keys `authenticate_api_key` admits when nothing is cached, and with which permissions.
use imbi_api.Prelude.{
  ℕ, ◌≡◌, ◌↔◌, refl, ap, String, Bool, true, false, not, ◌&&◌, Option, none, some, List, [], ◌∷◌,
  eq_iff, member, arith,
}
use imbi_api.Auth.Types.{User, ServiceAccount, AuthContext, Reply, ok}
use imbi_api.Auth.Directory.{
  Directory, KeyRow, names_of, load_principal_permissions, load_user_identities, is_selector,
}
use imbi_api.Auth.Keys.{
  refuse_if, is_orphan, is_expired, intersection, filtered, service_account_context, user_context,
  with_permissions, resolve_owner, check_row,
}

pub refuse_if_iff :
    {A : Type 0} (b : Bool) (code : ℕ) (detail : String) (rest : Reply A) (a : A)
    → (refuse_if b code detail rest ≡ ok a) ↔ ((b ≡ false) × (rest ≡ ok a))
refuse_if_iff true code detail rest a = (λ e. cc, λ h. let wrong = h.0 in cc)
refuse_if_iff false code detail rest a = (λ e. (refl, e), λ h. h.1)

-- The last test of an owner.
pub active_iff :
    (active : Bool) (code : ℕ) (detail : String) (c ctx : AuthContext)
    → (refuse_if (not active) code detail (ok c) ≡ ok ctx) ↔ ((active ≡ true) × (ctx ≡ c))
active_iff true code detail c ctx = (λ e. (refl, let same = e in cc), λ h. let same = h.1 in cc)
active_iff false code detail c ctx = (λ e. cc, λ h. let wrong = h.0 in cc)

module _ (d : Directory) where
  -- The owner of a key is active, and the context is the owner's, over what its roles grant and the
  -- key's scopes allow.
  abbrev pub OwnerHas :
      String → List String → Option User → Option ServiceAccount → AuthContext → Type 0
  OwnerHas key_id scopes user (some sa) ctx =
      (sa.is_active ≡ true)
      × (ctx
          ≡ service_account_context sa key_id
              (filtered (names_of (d.grants "ServiceAccount" "slug" sa.slug)) scopes))
  OwnerHas key_id scopes (some user) none ctx =
      (user.is_active ≡ true)
      × (ctx
          ≡ user_context user key_id
              (filtered (names_of (d.grants "User" "email" user.email)) scopes)
              (load_user_identities d user.id))
  OwnerHas key_id scopes none none ctx = ⊥

  resolve_owner-OwnerHas :
      (key_id : String) (scopes : List String) (user : Option User) (sa : Option ServiceAccount)
      (ctx : AuthContext)
      → (resolve_owner d key_id scopes user sa ≡ ok ctx) ↔ OwnerHas key_id scopes user sa ctx
  unfolding resolve_owner load_principal_permissions with_permissions is_selector
  resolve_owner-OwnerHas key_id scopes user (some sa) ctx = active_iff sa.is_active 401 _ _ ctx
  resolve_owner-OwnerHas key_id scopes (some user) none ctx = active_iff user.is_active 401 _ _ ctx
  resolve_owner-OwnerHas key_id scopes none none ctx = (λ e. cc, λ h. absurd h)

  orphan_lem :
      (key_id : String) (scopes : List String) (user : Option User) (sa : Option ServiceAccount)
      (ctx : AuthContext)
      → OwnerHas key_id scopes user sa ctx
      → is_orphan d user sa ≡ false
  unfolding is_orphan
  orphan_lem key_id scopes (some user) (some sa) ctx h = refl
  orphan_lem key_id scopes none (some sa) ctx h = refl
  orphan_lem key_id scopes (some user) none ctx h = refl
  orphan_lem key_id scopes none none ctx h = absurd h

  -- The key is neither revoked nor expired, the secret fits its hash, and the owner is active.
  abbrev pub IsAdmitted : ℕ → String → String → Option KeyRow → AuthContext → Type 0
  IsAdmitted now key_id secret none ctx = ⊥
  IsAdmitted now key_id secret (some row) ctx =
      (row.key.revoked ≡ false)
      × (is_expired row.key.expires_at now ≡ false)
      × (d.verify_password secret row.key.key_hash ≡ true)
      × OwnerHas key_id row.key.scopes row.user row.service_account ctx

  pub not-false : (b : Bool) → (not b ≡ false) ↔ (b ≡ true)
  not-false true = (λ e. refl, λ e. refl)
  not-false false = (λ e. cc, λ e. cc)

  -- A key that is not cached gets a context exactly if it is neither revoked nor expired, the secret
  -- fits its hash and its owner is active; the context is then its owner's, over the permissions
  -- that the owner's roles grant and the key's scopes allow.
  pub check_row-IsAdmitted :
      (now : ℕ) (key_id secret : String) (row : Option KeyRow) (ctx : AuthContext)
      → (check_row d now key_id secret row ≡ ok ctx) ↔ IsAdmitted now key_id secret row ctx
  unfolding check_row
  check_row-IsAdmitted now key_id secret none ctx = (λ e. cc, λ h. absurd h)
  check_row-IsAdmitted now key_id secret (some row) ctx =
      let owner = resolve_owner-OwnerHas key_id row.key.scopes row.user row.service_account ctx in
      let fits = not-false (d.verify_password secret row.key.key_hash) in
      (
        λ e.
            let (o, e₁) =
              (refuse_if_iff (is_orphan d row.user row.service_account) _ _ _ ctx).0 e in
            let (r, e₂) = (refuse_if_iff row.key.revoked _ _ _ ctx).0 e₁ in
            let (x, e₃) = (refuse_if_iff (is_expired row.key.expires_at now) _ _ _ ctx).0 e₂ in
            let (v, e₄) =
              (refuse_if_iff (not (d.verify_password secret row.key.key_hash)) _ _ _ ctx).0 e₃ in
            (r, x, fits.0 v, owner.0 e₄),
        λ h.
            let (r, x, v, o) = h in
            (refuse_if_iff (is_orphan d row.user row.service_account) _ _ _ ctx).1 (
              orphan_lem key_id row.key.scopes row.user row.service_account ctx o,
              (refuse_if_iff row.key.revoked _ _ _ ctx).1 (
                r,
                (refuse_if_iff (is_expired row.key.expires_at now) _ _ _ ctx).1 (
                  x,
                  (refuse_if_iff (not (d.verify_password secret row.key.key_hash)) _ _ _ ctx).1
                      (fits.1 v, owner.1 o),
                ),
              ),
            ),
      )

pub member-intersection :
    (p : String) (all scopes : List String)
    → member p (intersection all scopes) ≡ (member p all && member p scopes)
unfolding intersection
member-intersection p [] scopes = refl
member-intersection p (q ∷ all) scopes =
    let ih = member-intersection p all scopes in
    ground (arith, ih, eq_iff q p, λ (e : q ≡ p). ap (λ x. member x scopes) e)

-- Whether a key's scopes name a permission; without scopes a key is not restricted.
abbrev pub allows : List String → String → Bool
allows [] p = true
allows (s ∷ scopes) p = member p (s ∷ scopes)

-- A key with scopes carries just the permissions that its owner has and its scopes name; one
-- without carries all that its owner has.
pub member-filtered :
    (p : String) (all scopes : List String)
    → member p (filtered all scopes) ≡ (member p all && allows scopes p)
unfolding filtered
member-filtered p all [] = ground arith
member-filtered p all (s ∷ scopes) = member-intersection p all (s ∷ scopes)
