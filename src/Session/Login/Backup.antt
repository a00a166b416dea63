-- ===== src/Session/Login/Backup.antt =====
-- Backup codes.
use imbi_api.Prelude.{
  ℕ, ◌≡◌, ◌≢◌, ◌⊎◌, Bool, inl, inr, refl, sym, ap, subst, arith, eq_iff, String, true, false,
  Option, none, some, List, [], ◌∷◌, ◌==◌, if_both, if_first, if_second, Bool-cases, member,
}
use imbi_api.Prelude.Replies.{Reply, ok, refuse, break}
use imbi_api.Session.Graph.{Graph, User, TotpSecret}
use imbi_api.Session.Totp.{
  Checks, verify_totp_code, consume_code, drop_code, set_holding, any_holds, holds_code,
  without_code,
}
use imbi_api.Session.Login.{use_code, use_backup, check_code}

pub member-without_code :
    (used : String) (hashes : List String) → member used (without_code used hashes) ≡ false
unfolding without_code
member-without_code used [] = refl
member-without_code used (h ∷ hashes) =
    let ih = member-without_code used hashes in ground (arith, ih, eq_iff h used)

pub dropped :
    (email used : String) (t : TotpSecret) → holds_code email used (drop_code used t) ≡ false
unfolding holds_code drop_code
dropped email used t = let gone = member-without_code used t.backup_codes in ground (arith, gone)

-- A code that was consumed is held nowhere.
pub any-set_holding :
    (email used : String) (secrets : List TotpSecret)
    → any_holds email used (set_holding (drop_code used) email used secrets) ≡ false
unfolding any_holds set_holding
any-set_holding email used [] = refl
any-set_holding email used (t ∷ others) =
    let ih = any-set_holding email used others in
    elim (Bool-cases (holds_code email used t)) [
      | inl e ↦ rw (e, dropped email used t) ih
      | inr e ↦ rw (e, e) ih
    ]

pub consume_code-gone :
    (email used : String) (secrets left : List TotpSecret)
    → consume_code (drop_code used) email used secrets ≡ some left
    → any_holds email used left ≡ false
unfolding consume_code
consume_code-gone email used secrets left e =
    let (held, e₁) = if_first (λ o. o ≡ some left) (any_holds email used secrets) _ _ (λ w. cc) e in
    let same : set_holding (drop_code used) email used secrets ≡ left = cc in
    subst (λ x. any_holds email used x ≡ false) same (any-set_holding email used secrets)

module _ (c : Checks) where
  pub use_backup-gone :
      (email used : String) (u v : User) (g h : Graph) (secrets : List TotpSecret)
      (left : Option (List TotpSecret))
      → left ≡ consume_code (drop_code used) email used secrets
      → use_backup c u g left ≡ (ok v, h)
      → any_holds email used h.totp_secrets ≡ false
  unfolding use_backup
  use_backup-gone email used u v g h secrets none e first =
      let answer = ap (λ (r : Reply User × Graph). r.0) first in cc
  use_backup-gone email used u v g h secrets (some kept) e first =
      let gone = consume_code-gone email used secrets kept (sym e) in
      let state = ap (λ (r : Reply User × Graph). r.1.totp_secrets) first in
      subst (λ x. any_holds email used x ≡ false) state gone

  abbrev pub Fails : Reply User × Graph → Type 0
  Fails r = (w : User) → r.0 ≢ ok w

  -- A code that is valid by other means than the stored hash `used`.
  abbrev pub IsValidWithout : String → Reply (Bool × Option String) → Type 0
  IsValidWithout used r =
      (matched : Option String) × (r ≡ ok (true, matched)) × (matched ≢ some used)

  some-inj : (a b : String) → some a ≡ some b → a ≡ b
  some-inj a b e = cc

  use_code-gone :
      (later : ℕ) (u : User) (used : String) (second : Graph) (r : Reply (Bool × Option String))
      → any_holds u.email used second.totp_secrets ≡ false
      → Fails (use_code c later u second r) ⊎ IsValidWithout used r
  unfolding use_code use_backup consume_code
  use_code-gone later u used second (ok (false, m)) gone = inl (λ w e. cc)
  use_code-gone later u used second (ok (true, none)) gone = inr (none, refl, λ e. cc)
  use_code-gone later u used second (ok (true, some h)) gone = elim (Bool-cases (h == used)) [
    | inl same ↦
        let gone' : any_holds u.email h second.totp_secrets ≡ false =
          rw ((eq_iff h used).0 same) gone in
        inl (rw gone' (λ w e. cc))
    | inr apart ↦ inr (
      some h,
      refl,
      λ e. let hit = (eq_iff h used).1 (some-inj h used e) in ground (arith, apart, hit),
    )
  ]
  use_code-gone later u used second (refuse status detail) gone = inl (λ w e. cc)
  use_code-gone later u used second break gone = inl (λ w e. cc)

  -- A backup code gets in once. After a login that used one, a login of that user in a state with the
  -- secrets that the first one left fails, or it brings a one-time code or another stored hash: that
  -- holds whatever secret it has read, the one from before the first login or the one from after it.
  -- The code that the first login used, on the secret that it read, is refused.
  pub backup_code_once :
      (between : Graph → Graph) (now later : ℕ) (u v : User) (g h before second : Graph)
      (t t' : TotpSecret) (code code' used : String)
      → verify_totp_code c t code ≡ ok (true, some used)
      → check_code c between now u g t (some code) ≡ (ok v, h)
      → second.totp_secrets ≡ h.totp_secrets
      → (Fails (check_code c (λ x. second) later u before t' (some code'))
          ⊎ IsValidWithout used (verify_totp_code c t' code'))
        × ((check_code c (λ x. second) later u before t (some code)).0
            ≡ refuse 401 "Invalid MFA code")
  unfolding check_code use_code use_backup consume_code
  backup_code_once between now later u v g h before second t t' code code' used valid first same =
      let (given, e₁) =
        if_second (λ (r : Reply User × Graph). r ≡ (ok v, h)) (code == "") _ _
          (λ w. let answer = ap (λ (r : Reply User × Graph). r.0) w in cc) first in
      let e₂ = subst (λ r. use_code c now u (between g) r ≡ (ok v, h)) valid e₁ in
      let gone =
        use_backup-gone u.email used u v (between g) h (between g).totp_secrets _ refl e₂ in
      (
        if_both
            (λ (r : Reply User × Graph).
              Fails r ⊎ IsValidWithout used (verify_totp_code c t' code'))
            (code' == "") _ _ (inl (λ w e. cc))
            (use_code-gone later u used second (verify_totp_code c t' code') (rw same gone)),
        rw (given, valid, same, gone) refl,
      )
