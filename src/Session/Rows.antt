-- ===== src/Session/Rows.antt =====
-- What the operations do to the rows of tokens, whatever else they do.
use imbi_api.Prelude.{
  ℕ, sym, subst, inl, inr, String, Bool, true, false, not, Option, none, some, List, ◌==◌, Entries,
  if_both,
}
use imbi_api.Auth.Directory.{Claims, Verified, verified, expired, invalid}
use imbi_api.Auth.Tokens.{is_text}
use imbi_api.Session.Graph.{Graph, TokenMetadata, PrincipalType, find_token, revoke_where}
use imbi_api.Session.Issue.{
  AuthSettings, Moment, create_rows, sign, issue_token_pair, count_principals,
}
use imbi_api.Session.Refresh.{
  Write, cascade, reuse_in, reuse_of, handle_refresh_reuse, after_reuse, rotate_for, after_revoke,
  revoke_refresh, rotate_verified, rotate_refresh_token, find_live_refresh, is_live_refresh,
  cascade_commits,
}
use imbi_api.Session.Logout.{
  Caller, has_jti, revoke_access, revoke_all, revoke_pair, session_token, revoke_tokens, logout,
}
use imbi_api.Session.Added.{Adds, issue-Adds, rotate_for-Adds}

-- A property of the rows that revoking keeps, and adding the rows of a pair.
module _ (P : List TokenMetadata → Type 0) (s : AuthSettings) where
  abbrev pub KeptByRevoking : Type 0
  KeptByRevoking =
      (p : TokenMetadata → Bool) (now : ℕ) (ts : List TokenMetadata)
      → P ts
      → P (revoke_where p now ts)

  abbrev pub KeptByIssuing : Moment → Type 0
  KeptByIssuing moment =
      (n : ℕ) (type : PrincipalType) (id : String) (claims : Entries String)
      (family : Option String) (ts : List TokenMetadata)
      → P ts
      → P (create_rows n type id (sign s moment id claims family).meta ts)

  -- Where nothing or the rows of a pair are added.
  adds-keeps :
      (moment : Moment) (family : Option String) (g : Graph) (ts : List TokenMetadata)
      → KeptByIssuing moment
      → P g.tokens
      → Adds s moment family g ts
      → P ts
  adds-keeps moment family g ts issuing h (inl e) = subst P (sym e) h
  adds-keeps moment family g ts issuing h (inr (type, id, claims, e)) =
      subst P (sym e) (issuing (count_principals type id g) type id claims family g.tokens h)

  pub issue-keeps :
      (moment : Moment) (type : PrincipalType) (id : String) (claims : Entries String)
      (family : Option String) (g : Graph)
      → KeptByIssuing moment
      → P g.tokens
      → P (issue_token_pair s moment type id claims family g).1.tokens
  issue-keeps moment type id claims family g issuing h =
      adds-keeps moment family g _ issuing h (issue-Adds s moment family g type id claims)

  abbrev Keeps : {A : Type 0} → A × Graph → Type 0
  Keeps r = P r.1.tokens

  module _ (revoking : KeptByRevoking) where
    cascade-keeps :
        (b : Bool) (family : String) (now : ℕ) (g : Graph)
        → P g.tokens
        → P (cascade b family now g).1.tokens
    unfolding cascade
    cascade-keeps true family now g h = revoking _ now g.tokens h
    cascade-keeps false family now g h = h

    reuse_in-keeps :
        (tries : ℕ → Write) (now : ℕ) (g : Graph) (family : Option String)
        → P g.tokens
        → P (reuse_in tries now g family).1.tokens
    unfolding reuse_in
    reuse_in-keeps tries now g none h = h
    reuse_in-keeps tries now g (some family) h =
        if_both Keeps (family == "") _ _ h
          (cascade-keeps (cascade_commits tries 0 3) family now g h)

    reuse_of-keeps :
        (tries : ℕ → Write) (now : ℕ) (g : Graph) (t : Option TokenMetadata)
        → P g.tokens
        → P (reuse_of tries now g t).1.tokens
    unfolding reuse_of
    reuse_of-keeps tries now g none h = h
    reuse_of-keeps tries now g (some t) h =
        if_both Keeps (not t.revoked) _ _ h (reuse_in-keeps tries now g t.family_id h)

    after_reuse-keeps : (r : Bool × Graph) → P r.1.tokens → P (after_reuse r).1.tokens
    unfolding after_reuse
    after_reuse-keeps (true, g) h = h
    after_reuse-keeps (false, g) h = h

    pub reuse-keeps :
        (tries : ℕ → Write) (jti : String) (now : ℕ) (g : Graph)
        → P g.tokens
        → P (after_reuse (handle_refresh_reuse tries jti now g)).1.tokens
    unfolding handle_refresh_reuse
    reuse-keeps tries jti now g h =
        after_reuse-keeps _ (reuse_of-keeps tries now g (find_token jti g.tokens) h)

    module _ (moment : Moment) (issuing : KeptByIssuing moment) where
      pub rotate_for-keeps :
          (method subject family : Option String) (g : Graph)
          → P g.tokens
          → P (rotate_for s moment method subject family g).1.tokens
      rotate_for-keeps method subject family g h =
          adds-keeps moment family g _ issuing h (rotate_for-Adds s moment family g method subject)

      module _ (tries : ℕ → Write) where
        after_revoke-keeps :
            (claims : Claims) (jti : String) (g : Graph) (t : Option TokenMetadata)
            → P g.tokens
            → P (after_revoke s moment tries claims jti g t).1.tokens
        unfolding after_revoke
        after_revoke-keeps claims jti g none h = reuse-keeps tries jti moment.now g h
        after_revoke-keeps claims jti g (some t) h =
            rotate_for-keeps claims.auth_method claims.sub t.family_id _
              (revoking (is_live_refresh jti) moment.now g.tokens h)

        revoke_refresh-keeps :
            (claims : Claims) (g : Graph) (jti : Option String)
            → P g.tokens
            → P (revoke_refresh s moment tries claims g jti).1.tokens
        unfolding revoke_refresh
        revoke_refresh-keeps claims g none h = h
        revoke_refresh-keeps claims g (some jti) h =
            after_revoke-keeps claims jti g (find_live_refresh jti g.tokens) h

        rotate_verified-keeps :
            (g : Graph) (v : Verified)
            → P g.tokens
            → P (rotate_verified s moment tries g v).1.tokens
        unfolding rotate_verified
        rotate_verified-keeps g expired h = h
        rotate_verified-keeps g invalid h = h
        rotate_verified-keeps g (verified claims) h =
            if_both Keeps (not (is_text claims.type "refresh")) _ _ h
              (revoke_refresh-keeps claims g claims.jti h)

        pub rotate-keeps :
            (verify : String → Verified) (token : String) (g : Graph)
            → P g.tokens
            → P (rotate_refresh_token s moment tries verify token g).1.tokens
        unfolding rotate_refresh_token
        rotate-keeps verify token g h = rotate_verified-keeps g (verify token) h

    revoke_all-keeps :
        (slug email : Option String) (now : ℕ) (g : Graph)
        → P g.tokens
        → P (revoke_all slug email now g).tokens
    unfolding revoke_all
    revoke_all-keeps (some slug) email now g h = revoking _ now g.tokens h
    revoke_all-keeps none (some email) now g h = revoking _ now g.tokens h
    revoke_all-keeps none none now g h = h

    revoke_pair-keeps :
        (t : Option TokenMetadata) (now : ℕ) (g : Graph)
        → P g.tokens
        → P (revoke_pair t now g).tokens
    unfolding revoke_pair
    revoke_pair-keeps none now g h = h
    revoke_pair-keeps (some t) now g h = revoking _ now g.tokens h

    pub revoke_tokens-keeps :
        (all : Bool) (caller : Caller) (now : ℕ) (g : Graph)
        → P g.tokens
        → P (revoke_tokens all caller now g).tokens
    unfolding revoke_tokens
    revoke_tokens-keeps true caller now g h =
        revoke_all-keeps caller.service_account caller.email now g h
    revoke_tokens-keeps false caller now g h =
        revoke_pair-keeps (session_token caller.session_id g.tokens) now g h

    pub logout-keeps :
        (all : Bool) (caller : Caller) (now : ℕ) (g : Graph)
        → P g.tokens
        → P (logout all caller now g).1.tokens
    unfolding logout revoke_access
    logout-keeps all caller now g h =
        revoke_tokens-keeps all caller now _ (revoking (has_jti caller.session_id) now g.tokens h)
