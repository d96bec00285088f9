-- ===== src/Safety/Context.antt =====
-- `Provenance`, `ContextSegment` and `ContextAssembler`.
use kris_ai.Base.{String, Bool, true, false, List, [], ◌∷◌}
use kris_ai.Base.Json.{Json, bool, str, arr, obj, Items, nil, item, end, field}

pub data Provenance : Type 0 where
  system user project web memory terminal mcp a2a tool : Provenance

-- The member's string value.
unfoldable pub value : Provenance → String
value system = "system"
value user = "user"
value project = "project"
value web = "web"
value memory = "memory"
value terminal = "terminal"
value mcp = "mcp"
value a2a = "a2a"
value tool = "tool"

unfoldable pub untrusted : Provenance → Bool
untrusted web = true
untrusted memory = true
untrusted terminal = true
untrusted mcp = true
untrusted a2a = true
untrusted tool = true
untrusted _ = false

pub record ContextSegment : Type 0 where
  pub provenance : Provenance
  pub source_id : String
  pub content : String

-- The parameter is the SHA-256 of a text's UTF-8, in hexadecimal.
module _ (sha256 : String → String) where
  unfoldable pub content_sha256 : ContextSegment → String
  content_sha256 s = sha256 s.content

  unfoldable pub envelope : ContextSegment → Json
  unfolding content_sha256 value untrusted
  envelope s = obj (
      field "provenance" (str (value s.provenance)) (
        field "sourceId" (str s.source_id) (
          field "contentSha256" (str (content_sha256 s)) (
            field "untrusted" (bool (untrusted s.provenance))
              (field "content" (str s.content) end)))))

  unfoldable pub envelopes : List ContextSegment → Items
  unfolding envelope
  envelopes [] = nil
  envelopes (s ∷ ss) = item (envelope s) (envelopes ss)

  unfoldable pub assemble : List ContextSegment → Json
  unfolding envelopes
  assemble segments = obj (
      field "schemaVersion" (str "2.0.0") (
        field "controlPlane"
          (obj (
            field "authoritySource" (str "policy_engine_only")
              (field "contentCannotGrantAuthority" (bool true) end)))
          (field "segments" (arr (envelopes segments)) end)))
