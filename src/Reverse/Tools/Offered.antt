-- ===== src/Reverse/Tools/Offered.antt =====
-- The tools of ida/worker.rs that are offered are those that may be called.
use dbgflow.Prelude.{
  String, ◌≡◌, refl, Bool, true, false, not, ◌&&◌, Option, none, some, List, [], ◌∷◌, codes,
  text_eq, eq_iff, arith, Bool-cases, inl, inr, option_branch, sym, ◌∙◌, ap,
}
use dbgflow.Common.Json.{Json, get, as_array}
use dbgflow.Reverse.Upstream.{UpstreamToolDescriptor, and_then}
use dbgflow.Reverse.Tools.{
  default_upstream_tools, contains_text, starts_with, is_allowed_upstream_tool, fallback_from,
  fallback_tool_descriptors, keep_allowed, tool_descriptors, descriptors_from,
}

abbrev pub AllAllowed : List UpstreamToolDescriptor → Type 0
AllAllowed [] = Unit
AllAllowed (tool ∷ tools) = (is_allowed_upstream_tool tool.name ≡ true) × AllAllowed tools

abbrev all_allowed : List String → Bool
all_allowed [] = true
all_allowed (tool ∷ tools) = is_allowed_upstream_tool tool && all_allowed tools

defaults_allowed : all_allowed default_upstream_tools ≡ true
unfolding is_allowed_upstream_tool
defaults_allowed = refl

member_allowed :
    (tool : String) (tools : List String)
    → all_allowed tools ≡ true
    → contains_text tool tools ≡ true
    → is_allowed_upstream_tool tool ≡ true
unfolding contains_text
member_allowed tool [] h c = absurd (ground arith)
member_allowed tool (t ∷ tools) h c = ground (arith, eq_iff t tool, member_allowed tool tools)

fallback-AllAllowed :
    (tools : List String) → all_allowed tools ≡ true → AllAllowed (fallback_from tools)
unfolding fallback_from
fallback-AllAllowed [] h = tt
fallback-AllAllowed (tool ∷ tools) h = ground (arith, fallback-AllAllowed tools)

keep_allowed-AllAllowed : (tools : List UpstreamToolDescriptor) → AllAllowed (keep_allowed tools)
unfolding keep_allowed
keep_allowed-AllAllowed [] = tt
keep_allowed-AllAllowed (tool ∷ tools) = ground (arith, keep_allowed-AllAllowed tools)

excluded :
    (tool : String)
    → contains_text tool default_upstream_tools ≡ false
    → is_allowed_upstream_tool tool ≡ false
unfolding is_allowed_upstream_tool
excluded tool h =
    ap
      (λ (b : Bool).
        b
        && not (text_eq tool "py_exec_file")
        && not (text_eq tool "idb_open")
        && not (text_eq tool "idb_list")
        && not (starts_with (codes "dbg_") (codes tool)))
      h

allowed-contains :
    (tool : String) → is_allowed_upstream_tool tool ≡ contains_text tool default_upstream_tools
allowed-contains tool = elim (Bool-cases (contains_text tool default_upstream_tools)) [
  | inl e ↦ member_allowed tool default_upstream_tools defaults_allowed e ∙ sym e
  | inr e ↦ excluded tool e ∙ sym e
]

offered-AllAllowed : (answer : Option Json) → AllAllowed (tool_descriptors answer)
unfolding tool_descriptors fallback_tool_descriptors
offered-AllAllowed none = fallback-AllAllowed default_upstream_tools defaults_allowed
offered-AllAllowed (some result) =
    option_branch AllAllowed (and_then (get "tools" result) as_array) _ _
      (λ _. fallback-AllAllowed default_upstream_tools defaults_allowed)
      (λ tools _. keep_allowed-AllAllowed (descriptors_from tools))

-- The tools that may be called are exactly those of the default list, none of which the further
-- tests of `is_allowed_upstream_tool` take away; and whatever the supervisor lists, or if it lists
-- nothing, only tools are offered that may be called.
pub tool_descriptors-AllAllowed :
    (tool : String) (answer : Option Json)
    → (is_allowed_upstream_tool tool ≡ contains_text tool default_upstream_tools)
      × AllAllowed (tool_descriptors answer)
tool_descriptors-AllAllowed tool answer = (allowed-contains tool, offered-AllAllowed answer)
