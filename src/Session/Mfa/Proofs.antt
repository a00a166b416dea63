-- ===== src/Session/Mfa/Proofs.antt =====
-- What turns a user's second factor on and off.
use imbi_api.Prelude.{
  ℕ, ◌≡◌, ◌≢◌, ◌⊎◌, ap, eq_iff, if◌then◌else◌, inl, inr, refl, arith, eq_refl, String, Bool, true,
  false, not, Option, none, some, List, [], ◌∷◌, ◌==◌, subst, Bool-cases,
}
use imbi_api.Prelude.Replies.{Reply, ok, refuse, break}
use imbi_api.Auth.Keys.Checks.{refuse_if_iff}
use imbi_api.Session.Graph.{Graph, User, TotpSecret}
use imbi_api.Session.Totp.{Checks, fetch_totp_secret, verify_totp_code}
use imbi_api.Session.Login.{check_mfa}
use imbi_api.Session.Mfa.{
  Drawn, setup_mfa, without_secret, get_mfa_status, status_of, proof_by_password, code_is_valid,
  proof_by_code, proof_of_identity, delete_secret, disable_secret, disable_mfa,
}

fetch-without :
    (email : String) (secrets : List TotpSecret)
    → fetch_totp_secret email (without_secret email secrets) ≡ none
unfolding fetch_totp_secret without_secret
fetch-without email [] = refl
fetch-without email (t ∷ others) = let ih = fetch-without email others in ground (arith, ih)

fetch-without_other :
    (email other : String) (secrets : List TotpSecret)
    → fetch_totp_secret other (without_secret email secrets)
      ≡ (if email == other then none else fetch_totp_secret other secrets)
unfolding fetch_totp_secret without_secret
fetch-without_other email other [] = ground arith
fetch-without_other email other (t ∷ others) =
    let ih = fetch-without_other email other others in
    ground (arith, ih, eq_iff t.email email, eq_iff t.email other, eq_iff email other)

module _ (c : Checks) where
  -- Once a user has called setup, a login of that user asks for no code, whether or not the second
  -- factor was enabled before: setup replaces an enabled secret by one that is not enabled, and asks
  -- for no proof of identity.
  pub check_mfa-setup_mfa :
      (between : Graph → Graph) (now : ℕ) (drawn : Drawn) (u : User) (mfa_code : Option String)
      (g : Graph)
      → let h = setup_mfa c drawn u.email g in
        check_mfa c between now u mfa_code h (fetch_totp_secret u.email h.totp_secrets) ≡ (ok u, h)
  unfolding setup_mfa fetch_totp_secret check_mfa
  check_mfa-setup_mfa between now drawn u mfa_code g = rw (eq_refl u.email) refl

  -- No password.
  abbrev pub HasNone : Option String → Type 0
  HasNone hash = (hash ≡ none) ⊎ (hash ≡ some "")

  -- The proof that disabling asks for: the password of a user that has one, and else a valid code.
  abbrev pub HasProof : Option String → Option String → Option String → TotpSecret → Type 0
  HasProof hash password code t =
      ((stored : String) × (given : String) × (hash ≡ some stored)
        × (password ≡ some given)
        × (c.verify_password given stored ≡ true))
      ⊎ ((given : String) × (matched : Option String) × HasNone hash
          × (code ≡ some given)
          × (verify_totp_code c t given ≡ ok (true, matched)))

  code_is_valid-ok :
      (r : Reply (Bool × Option String))
      → code_is_valid c r ≡ ok tt
      → (matched : Option String) × (r ≡ ok (true, matched))
  unfolding code_is_valid
  code_is_valid-ok (ok (true, matched)) e = (matched, refl)
  code_is_valid-ok (ok (false, matched)) e = cc
  code_is_valid-ok (refuse status detail) e = cc
  code_is_valid-ok break e = cc

  proof_by_code-HasProof :
      (hash password code : Option String) (t : TotpSecret)
      → HasNone hash
      → proof_by_code c t code ≡ ok tt
      → HasProof hash password code t
  unfolding proof_by_code
  proof_by_code-HasProof hash password none t bare e = cc
  proof_by_code-HasProof hash password (some given) t bare e =
      let (nonempty, e₁) = (refuse_if_iff (given == "") _ _ _ tt).0 e in
      let (matched, valid) = code_is_valid-ok (verify_totp_code c t given) e₁ in
      inr (given, matched, bare, refl, valid)

  proof_by_password-HasProof :
      (stored : String) (password code : Option String) (t : TotpSecret)
      → proof_by_password c stored password ≡ ok tt
      → HasProof (some stored) password code t
  unfolding proof_by_password
  proof_by_password-HasProof stored none code t e = cc
  proof_by_password-HasProof stored (some given) code t e =
      let (nonempty, e₁) = (refuse_if_iff (given == "") _ _ _ tt).0 e in
      let (right, e₂) = (refuse_if_iff (not (c.verify_password given stored)) _ _ _ tt).0 e₁ in
      inl (stored, given, refl, refl, ground (arith, right))

  proof-HasProof :
      (hash password code : Option String) (t : TotpSecret)
      → proof_of_identity c hash password code t ≡ ok tt
      → HasProof hash password code t
  unfolding proof_of_identity
  proof-HasProof none password code t e = proof_by_code-HasProof none password code t (inl refl) e
  proof-HasProof (some stored) password code t e = elim (Bool-cases (stored == "")) [
    | inl empty ↦
        let same : proof_of_identity c (some stored) password code t ≡ proof_by_code c t code =
          rw empty refl in
        proof_by_code-HasProof (some stored) password code t
          (inr (ap some ((eq_iff stored "").0 empty))) (cc)
    | inr given ↦
        let same : proof_of_identity c (some stored) password code t
            ≡ proof_by_password c stored password =
          rw given refl in
        proof_by_password-HasProof stored password code t (cc)
  ]

  -- The secrets without a user's.
  abbrev removed : String → Graph → Graph
  removed email g = record g { totp_secrets = without_secret email g.totp_secrets }

  -- What a call of disabling does: it removes the secret, with a proof, or nothing.
  abbrev Disables :
      User → Option String → Option String → Graph → Option TotpSecret → Reply Unit × Graph → Type 0
  Disables u password code g o r =
      ((r ≡ (ok tt, removed u.email g))
        × (t : TotpSecret) × (o ≡ some t)
        × (t.enabled ≡ true)
        × HasProof u.password_hash password code t)
      ⊎ ((r.0 ≢ ok tt) × (r.1 ≡ g))

  delete-Disables :
      (u : User) (password code : Option String) (g : Graph) (t : TotpSecret) (r : Reply Unit)
      → t.enabled ≡ true
      → (r ≡ ok tt → HasProof u.password_hash password code t)
      → Disables u password code g (some t) (delete_secret c u.email g r)
  unfolding delete_secret
  delete-Disables u password code g t (ok done) on proof = inl (refl, t, refl, on, proof refl)
  delete-Disables u password code g t (refuse status detail) on proof = inr (λ e. cc, refl)
  delete-Disables u password code g t break on proof = inr (λ e. cc, refl)

  disable_secret-Disables :
      (u : User) (password code : Option String) (g : Graph) (o : Option TotpSecret)
      → Disables u password code g o (disable_secret c u password code g o)
  unfolding disable_secret
  disable_secret-Disables u password code g none = inr (λ e. cc, refl)
  disable_secret-Disables u password code g (some t) = elim (Bool-cases t.enabled) [
    | inr off ↦ rw off (inr (λ e. cc, refl))
    | inl on ↦
        let kept =
          delete-Disables u password code g t (proof_of_identity c u.password_hash password code t)
            on (proof-HasProof u.password_hash password code t) in
        let taken : delete_secret c u.email g (proof_of_identity c u.password_hash password code t)
            ≡ disable_secret c u password code g (some t) =
          rw on refl in
        subst (Disables u password code g (some t)) taken kept
  ]

  -- A call of disabling either succeeds, or changes nothing. It succeeds only if the second factor
  -- was enabled and the user proved its identity: by password where there is one, else by a valid
  -- code. It is off then, and the secrets of the other users are as before.
  pub disable_mfa-HasProof :
      (u : User) (password code : Option String) (g : Graph)
      → let r = disable_mfa c u password code g in
        ((r.0 ≡ ok tt)
          × ((get_mfa_status u.email r.1).enabled ≡ false)
          × ((other : String)
              → fetch_totp_secret other r.1.totp_secrets
                ≡ (if u.email == other then none else fetch_totp_secret other g.totp_secrets))
          × (t : TotpSecret) × (fetch_totp_secret u.email g.totp_secrets ≡ some t)
          × (t.enabled ≡ true)
          × HasProof u.password_hash password code t)
        ⊎ ((r.0 ≢ ok tt) × (r.1 ≡ g))
  unfolding disable_mfa get_mfa_status status_of
  disable_mfa-HasProof u password code g =
      elim (disable_secret-Disables u password code g (fetch_totp_secret u.email g.totp_secrets)) [
        | inr kept ↦ inr kept
        | inl (made, t, held, on, proof) ↦
            let state = ap (λ (r : Reply Unit × Graph). r.1.totp_secrets) made in
            inl (
              ap (λ (r : Reply Unit × Graph). r.0) made,
              rw (state, fetch-without u.email g.totp_secrets) refl,
              λ other. rw state (fetch-without_other u.email other g.totp_secrets),
              t,
              held,
              on,
              proof,
            )
      ]
