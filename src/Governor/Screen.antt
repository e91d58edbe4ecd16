-- ===== src/Governor/Screen.antt =====
-- The texts that harness/root_turn_governor.py compares: tool names, roles and models, as lists of
-- code points. Lower case and white space are those of ASCII.
use codex_loop_orchestra.Prelude.{
  ℕ, ◌+◌, Bool, ◌&&◌, String, List, [], ◌∷◌, Option, none, some, any, map, leb, starts, same_codes,
  if◌then◌else◌,
}
use codex_loop_orchestra.StateMachine.PacketId.{codes}
use codex_loop_orchestra.StateMachine.Stream.{is_space}

abbrev pub Text : Type 0
Text = List ℕ

-- `s.lower()`, and `s.casefold()`
abbrev pub lower : Text → Text
lower = map (λ c. if leb 65 c && leb c 90 then c + 32 else c)

-- `s.strip()`
abbrev pub rstrip : Text → Text
rstrip [] = []
rstrip (c ∷ cs) = elim (rstrip cs) [ [] ↦ if is_space c then [] else c ∷ [] | r ∷ rs ↦ c ∷ r ∷ rs ]

abbrev pub lstrip : Text → Text
lstrip [] = []
lstrip (c ∷ cs) = if is_space c then lstrip cs else c ∷ cs

abbrev pub strip : Text → Text
strip s = rstrip (lstrip s)

-- `GATED_TOOLS`
abbrev pub gated_tools : List String
gated_tools =
    "shell" ∷ "shell_command" ∷ "bash" ∷ "local_shell" ∷ "exec_command" ∷ "functions.exec"
    ∷ "run_terminal" ∷ "terminal" ∷ "web_search" ∷ "search" ∷ "grep" ∷ "glob" ∷ "mcp__"
    ∷ "read_mcp_resource" ∷ "list_mcp" ∷ "read_many_files" ∷ "read_file" ∷ "list_files" ∷ "pytest"
    ∷ "test" ∷ []

-- `(tool_name or "").lower().startswith(GATED_TOOLS)`
unfoldable pub is_gated : Text → Bool
is_gated tool = any (λ t. starts (lower tool) (codes t)) gated_tools

unfoldable pub is_child_role : Text → Bool
is_child_role role =
    any (λ r. same_codes (lower (strip role)) (codes r))
      ("worker" ∷ "verifier" ∷ "reviewer" ∷ "plan_expander" ∷ "duty_officer" ∷ "explorer" ∷ [])

pub data Family : Type 0 where
  sol k3 v4 : Family

-- The model that the policy pins for each family.
pub record Pins : Type 0 where
  pub sol_pin : Text
  pub k3_pin : Text
  pub v4_pin : Text

abbrev pub family_of : Pins → Text → Option Family
family_of pins value =
    if same_codes value pins.sol_pin
    then some sol
    else if same_codes value pins.k3_pin
    then some k3
    else if same_codes value pins.v4_pin
    then some v4
    else none

-- `_model_family`; the pins are missing where the policy lacks one of them.
unfoldable pub model_family : Option Pins → Text → Option Family
model_family none model = none
model_family (some pins) model = elim (strip model) [ [] ↦ none | c ∷ cs ↦ family_of pins (c ∷ cs) ]
