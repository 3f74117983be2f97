-- ===== src/Gateway/Platform.antt =====
-- What the gateway takes from its platform (Node's `crypto`, `Buffer` and `URL`) and from its
-- environment (components/mcp-gateway/src/config/env.ts).
use id_jag_the_hard_way.Base.{ℕ, ◌/◌, List, Option}
use id_jag_the_hard_way.Base.Text.{Text}

-- The parts of a parsed `URL` that the gateway reads.
pub record Url : Type 0 where
  pub protocol : Text
  pub hostname : Text
  pub hash : Text
  pub username : Text
  pub password : Text

pub record Platform : Type 0 where
  -- `createHash("sha256").update(s).digest("base64url")`
  pub sha256 : Text → Text
  -- `Buffer.from(s)`
  pub bytes : Text → List ℕ
  -- `new URL(s)`, with `none` where it throws
  pub parse_url : Text → Option Url

-- Lifetimes in seconds.
pub record Config : Type 0 where
  pub authorization_code_ttl : ℕ
  pub authorization_transaction_ttl : ℕ
  pub idp_logout_ticket_ttl : ℕ
  pub session_ttl : ℕ

-- `Math.floor(Date.now() / 1000)`
abbrev pub seconds : ℕ → ℕ
seconds ms = ms / 1000
