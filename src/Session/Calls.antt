-- ===== src/Session/Calls.antt =====
-- Any sequence of sign-ins, rotations and logouts, one after the other.
use imbi_api.Prelude.{ℕ, ◌≢◌, String, Bool, Option, List, [], ◌∷◌, Entries, All}
use imbi_api.Auth.Directory.{Verified}
use imbi_api.Session.Graph.{Graph, TokenMetadata, PrincipalType}
use imbi_api.Session.Issue.{AuthSettings, Moment, issue_token_pair}
use imbi_api.Session.Refresh.{Write, rotate_refresh_token}
use imbi_api.Session.Logout.{Caller, logout}
use imbi_api.Session.Rows.{KeptByRevoking, KeptByIssuing, issue-keeps, rotate-keeps, logout-keeps}

pub data Call : Type 0 where
  issues : Moment → PrincipalType → String → Entries String → Option String → Call
  rotates : Moment → (ℕ → Write) → (String → Verified) → String → Call
  logs_out : Bool → Caller → ℕ → Call

module _ (s : AuthSettings) where
  unfoldable pub step : Call → Graph → Graph
  step (issues moment type id claims family) g =
      (issue_token_pair s moment type id claims family g).1
  step (rotates moment tries verify token) g =
      (rotate_refresh_token s moment tries verify token g).1
  step (logs_out all caller now) g = (logout all caller now g).1

  unfoldable pub run : List Call → Graph → Graph
  run [] g = g
  run (c ∷ calls) g = run calls (step c g)

  module _ (P : List TokenMetadata → Type 0) where
    abbrev pub KeptByCall : Call → Type 0
    KeptByCall (issues moment type id claims family) = KeptByIssuing P s moment
    KeptByCall (rotates moment tries verify token) = KeptByIssuing P s moment
    KeptByCall (logs_out all caller now) = Unit

    module _ (revoking : KeptByRevoking P s) where
      step-keeps : (c : Call) (g : Graph) → KeptByCall c → P g.tokens → P (step c g).tokens
      unfolding step
      step-keeps (issues moment type id claims family) g k h =
          issue-keeps P s moment type id claims family g k h
      step-keeps (rotates moment tries verify token) g k h =
          rotate-keeps P s revoking moment k tries verify token g h
      step-keeps (logs_out all caller now) g k h = logout-keeps P s revoking all caller now g h

-- Tokens that a moment mints have other identifiers than a given one.
abbrev pub MintsOther : String → Moment → Type 0
MintsOther jti moment =
    (id : String) (claims : Entries String)
    → ((moment.mint id claims).access_jti ≢ jti) × ((moment.mint id claims).refresh_jti ≢ jti)

-- The identifiers that a call draws are other ones.
abbrev pub DrawsOther : String → Call → Type 0
DrawsOther jti (issues moment type id claims family) = MintsOther jti moment
DrawsOther jti (rotates moment tries verify token) = MintsOther jti moment
DrawsOther jti (logs_out all caller now) = Unit

-- What revoking keeps, and minting tokens of other identifiers, every sequence of such calls keeps.
module _ (P : List TokenMetadata → Type 0) (s : AuthSettings) (jti : String)
    (revoking : KeptByRevoking P s)
    (issuing : (moment : Moment) → MintsOther jti moment → KeptByIssuing P s moment) where
  other-KeptByCall : (c : Call) → DrawsOther jti c → KeptByCall s P c
  other-KeptByCall (issues moment type id claims family) other = issuing moment other
  other-KeptByCall (rotates moment tries verify token) other = issuing moment other
  other-KeptByCall (logs_out all caller now) other = tt

  pub run-keeps :
      (calls : List Call) (g : Graph)
      → All (DrawsOther jti) calls
      → P g.tokens
      → P (run s calls g).tokens
  unfolding run
  run-keeps [] g other h = h
  run-keeps (c ∷ calls) g other h =
      run-keeps calls (step s c g) other.1
        (step-keeps s P revoking c g (other-KeptByCall c other.0) h)
