-- ===== src/Session/Single/Chains.antt =====
-- Chains of rotations over any sequence of calls.
use imbi_api.Prelude.{
  ℕ, ◌≡◌, String, not, Option, none, some, List, [], ◌∷◌, if_both, Option-cases, inl, inr, arith,
}
use imbi_api.Prelude.Replies.{Reply}
use imbi_api.Auth.Directory.{Claims, Verified, verified, expired, invalid}
use imbi_api.Auth.Tokens.{is_text}
use imbi_api.Session.Graph.{Graph, revoke_where}
use imbi_api.Session.Issue.{AuthSettings, Moment, Issued}
use imbi_api.Session.Refresh.{
  Write, after_revoke, revoke_refresh, rotate_verified, rotate_refresh_token, find_live_refresh,
  is_live_refresh,
}
use imbi_api.Session.Rows.{reuse-keeps, logout-keeps, KeptByRevoking}
use imbi_api.Session.Added.{rotate_for-Adds}
use imbi_api.Session.Calls.{Call, issues, rotates, logs_out, step, run}
use imbi_api.Session.Single.{
  IsSingle, IsUnique, DrawsNew, count-revoke_where, Adds-IsSingle, issue-IsSingle, claimed_free,
}

module _ (s : AuthSettings) where
  revoking-IsSingle : KeptByRevoking IsSingle s
  revoking-IsSingle p now ts h family =
      let fewer = count-revoke_where family p now ts in let one = h family in omega arith

  module _ (moment : Moment) (tries : ℕ → Write) where
    after_revoke-IsSingle :
        (claims : Claims) (jti : String) (g : Graph)
        → IsUnique g
        → DrawsNew moment g
        → IsSingle g.tokens
        → IsSingle
            (after_revoke s moment tries claims jti g (find_live_refresh jti g.tokens)).1.tokens
    unfolding after_revoke
    after_revoke-IsSingle claims jti g u new h =
        elim (Option-cases (find_live_refresh jti g.tokens)) [
          | inl e ↦ rw e (reuse-keeps IsSingle s revoking-IsSingle tries jti moment.now g h)
          | inr (t, e) ↦
              let claimed : Graph = record g {
                tokens = revoke_where (is_live_refresh jti) moment.now g.tokens;
              } in
              rw e (
                Adds-IsSingle s moment t.family_id claimed _ u
                  (claimed_free s moment jti g t e new h)
                  (revoking-IsSingle (is_live_refresh jti) moment.now g.tokens h)
                  (rotate_for-Adds s moment t.family_id claimed claims.auth_method claims.sub))
        ]

    revoke_refresh-IsSingle :
        (claims : Claims) (g : Graph) (jti : Option String)
        → IsUnique g
        → DrawsNew moment g
        → IsSingle g.tokens
        → IsSingle (revoke_refresh s moment tries claims g jti).1.tokens
    unfolding revoke_refresh
    revoke_refresh-IsSingle claims g none u new h = h
    revoke_refresh-IsSingle claims g (some jti) u new h = after_revoke-IsSingle claims jti g u new h

    rotate_verified-IsSingle :
        (g : Graph) (v : Verified)
        → IsUnique g
        → DrawsNew moment g
        → IsSingle g.tokens
        → IsSingle (rotate_verified s moment tries g v).1.tokens
    unfolding rotate_verified
    rotate_verified-IsSingle g expired u new h = h
    rotate_verified-IsSingle g invalid u new h = h
    rotate_verified-IsSingle g (verified claims) u new h =
        if_both (λ (r : Reply Issued × Graph). IsSingle r.1.tokens)
          (not (is_text claims.type "refresh")) _ _ h
          (revoke_refresh-IsSingle claims g claims.jti u new h)

    -- A rotation leaves a family with one live refresh token at most.
    rotate-IsSingle :
        (verify : String → Verified) (token : String) (g : Graph)
        → IsUnique g
        → DrawsNew moment g
        → IsSingle g.tokens
        → IsSingle (rotate_refresh_token s moment tries verify token g).1.tokens
    unfolding rotate_refresh_token
    rotate-IsSingle verify token g u new h = rotate_verified-IsSingle g (verify token) u new h

  -- A sign-in starts a new family, and the families that are drawn are new.
  abbrev pub IsLegal : Call → Graph → Type 0
  IsLegal (issues moment type id claims family) g = (family ≡ none) × IsUnique g × DrawsNew moment g
  IsLegal (rotates moment tries verify token) g = IsUnique g × DrawsNew moment g
  IsLegal (logs_out all caller now) g = Unit

  abbrev pub AreLegal : List Call → Graph → Type 0
  AreLegal [] g = Unit
  AreLegal (c ∷ calls) g = IsLegal c g × AreLegal calls (step s c g)

  step-IsSingle :
      (c : Call) (g : Graph) → IsLegal c g → IsSingle g.tokens → IsSingle (step s c g).tokens
  unfolding step
  step-IsSingle (issues moment type id claims family) g (new_chain, u, new) h =
      rw new_chain (issue-IsSingle s moment type id claims g u new h)
  step-IsSingle (rotates moment tries verify token) g (u, new) h =
      rotate-IsSingle moment tries verify token g u new h
  step-IsSingle (logs_out all caller now) g legal h =
      logout-keeps IsSingle s revoking-IsSingle all caller now g h

  -- Whatever sign-ins, rotations and logouts there are, no family ever has two refresh tokens that
  -- are not revoked, provided that a sign-in starts a family of a new name and that the database
  -- keeps one principal of a name.
  pub run-IsSingle :
      (calls : List Call) (g : Graph)
      → AreLegal calls g
      → IsSingle g.tokens
      → IsSingle (run s calls g).tokens
  unfolding run
  run-IsSingle [] g legal h = h
  run-IsSingle (c ∷ calls) g legal h =
      run-IsSingle calls (step s c g) legal.1 (step-IsSingle c g legal.0 h)
