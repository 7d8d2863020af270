-- ===== src/Message.antt =====
-- The texts that the program puts together with fmt.Sprintf and `+`, as they are put together: the
-- rendering of an argument and the redaction of package security stay symbolic.
use kube_sre_mcp.Prelude.{ℕ, String, Bool, List}
use kube_sre_mcp.Prelude.Int.{ℤ}

infixr 60 ◌<>◌
pub data Message : Type 0 where
  text : String → Message  -- a literal, or an argument of %s
  quoted : String → Message  -- %q
  number : ℤ → Message  -- %d
  boolean : Bool → Message  -- %t
  names : List String → Message  -- fmt.Sprint of a []string
  rfc3339 : ℕ → Message  -- a time, formatted
  redacted : Message → Message  -- security.Redact
  ◌<>◌ : Message → Message → Message
