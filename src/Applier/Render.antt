-- ===== src/Applier/Render.antt =====
-- `render_create_issue` of applier.py: the title and the body of an issue, from the approved item alone.
use Prim.Native.Char.{code}
use Prim.Native.String.{◌++◌}
use delivery_system.Base.{
  ℕ_eq, String, String_eq, List, [], ◌∷◌, Bool, true, false, not, ◌||◌, Option, none, some, ◌==◌,
  same_set, ltb,
}
use delivery_system.Errors.{
  Result, ok, ◌>>=◌, ◌>>◌, raise, raise_if, or_raise, sealed_item_field_invalid,
  sealed_item_provenance_invalid,
}
use delivery_system.Value.{Value, text, list, tuple, Fields, keys, get, nonempty_text, as_dict}
use delivery_system.Applier.Commands.{TextLibrary}

unfoldable pub is_text_value : Option Value → String → Bool
is_text_value (some (text s)) expected = s == expected
is_text_value _ expected = false

-- `not isinstance(value, str) or not value`
unfoldable pub lacks_text : Option Value → Bool
unfolding nonempty_text
lacks_text v = elim (nonempty_text v) [ none ↦ true | some s ↦ false ]

-- `_source`: a declared field, a mapping of exactly three keys.
unfoldable pub source : Fields → String → Result Value
unfolding is_text_value lacks_text
source item name = do
  value ← or_raise (as_dict (get item name)) sealed_item_field_invalid
  raise_if (not (same_set (keys value) ("value" ∷ "declared_source" ∷ "provenance_status" ∷ [])))
      sealed_item_field_invalid
  raise_if
      (not (is_text_value (get value "provenance_status") "declared_unverified")
        || lacks_text (get value "declared_source"))
      sealed_item_provenance_invalid
  or_raise (get value "value") sealed_item_field_invalid

-- `any(ord(char) < 0x20 or ord(char) == 0x7f for char in title)`
unfoldable pub has_control_character : String → Bool
has_control_character String.[] = false
has_control_character (String.◌∷◌ c s) = ltb (code c) 32 || code c == 127 || has_control_character s

unfoldable pub is_sequence : Value → Bool
is_sequence (list vs) = true
is_sequence (tuple vs) = true
is_sequence _ = false

module _ (texts : TextLibrary) where
  -- One section of the body: its heading, and its value as JSON in an indented block.
  unfoldable pub section : String → Value → String
  section heading value = "## " ++ heading ++ "\n\n    " ++ texts.dumps value

  -- `"\n\n".join(body_parts)`
  unfoldable pub join_sections : List String → String
  join_sections [] = ""
  join_sections (part ∷ []) = part
  join_sections (part ∷ next ∷ rest) = part ++ "\n\n" ++ join_sections (next ∷ rest)

  unfoldable pub check_title : Value → Result String
  unfolding has_control_character
  check_title (text title) = do
    raise_if (title == "" || has_control_character title) sealed_item_field_invalid
    ok title
  check_title _ = raise sealed_item_field_invalid

  unfoldable pub render_create_issue : Fields → Result (String × String)
  unfolding source check_title is_sequence section join_sections
  render_create_issue item = do
    client_ref ← or_raise (nonempty_text (get item "client_ref")) sealed_item_field_invalid
    role ← source item "role"
    title_value ← source item "title"
    context_problem ← source item "context_problem"
    outcome ← source item "outcome"
    scope ← source item "scope"
    non_goals ← source item "non_goals"
    acceptance_criteria ← source item "acceptance_criteria"
    verification ← source item "verification"
    required_capabilities ← source item "required_capabilities"
    write_metadata ← source item "write_metadata"
    title ← check_title title_value
    raise_if
        (not (is_sequence non_goals)
          || (not (is_sequence acceptance_criteria) || not (is_sequence required_capabilities)))
        sealed_item_field_invalid
    ok (
      title,
      join_sections (
          section "Client reference" (text client_ref)
          ∷ section "Role" role
          ∷ section "Context / Problem" context_problem
          ∷ section "Outcome" outcome
          ∷ section "Scope" scope
          ∷ section "Non-goals" non_goals
          ∷ section "Acceptance criteria" acceptance_criteria
          ∷ section "Verification" verification
          ∷ section "Required capabilities" required_capabilities
          ∷ section "Write metadata (informational only)" write_metadata
          ∷ []),
    )
