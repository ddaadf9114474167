-- ===== src/Driver/Created.antt =====
-- drivers/github_write.py together with applier.py: the result of a created issue is evidence for the
-- check of `_trusted_success_result`.
use Prim.Native.String.{count}
use delivery_system.Base.{
  ◌≡◌, refl, ap, ◌∙◌, ℕ, ℕ_eq, String, String_eq, String-discrete, Bool, true, ◌&&◌, Option, none,
  some, ◌!=◌, leb, ltb, arith, Bool-cases, eq_refl, inl, inr, !=-eq-false,
}
use delivery_system.Value.{Value, Fields, text, integer, pos, get, keys}
use delivery_system.Applier.Commands.{TextLibrary}
use delivery_system.Applier.Render.{is_text_value}
use delivery_system.Applier.Evidence.{
  is_issue_evidence, is_numeric_id, is_positive_integer, is_any_text, is_nonempty_text,
  is_created_status,
}
use delivery_system.Driver.Response.{HttpLibrary}
use delivery_system.Driver.Dispatch.{
  Connection, created_result, github_number, github_node_id, result_of_values, result_of_answer,
}

-- What the code relies on of Python's `str` and `strip`: a number of at most twenty digits is printed as
-- its digits, and the empty text is stripped to itself.
pub record PrintsDecimals (texts : TextLibrary) : Type 0 where
  pub prints :
      (n : ℕ)
      → leb 1 n ≡ true
      → leb n 99999999999999999999 ≡ true
      → is_numeric_id (some (text (texts.str (integer (pos n))))) ≡ true
  pub strip_empty : texts.strip "" ≡ ""

both : {a b : Bool} → a ≡ true → b ≡ true → (a && b) ≡ true
both p q = ground arith

leb-ltb : (n : ℕ) → leb 1 n ≡ true → ltb 0 n ≡ true
leb-ltb n h = ground arith

module _ (texts : TextLibrary) (library : HttpLibrary) (connection : Connection) where
  created-evidence :
      PrintsDecimals texts
      → (repository : String) (id number : ℕ) (node : String) → leb 1 id ≡ true
      → leb id 99999999999999999999 ≡ true
      → leb 1 number ≡ true
      → (node != "") ≡ true
      → is_issue_evidence repository
          (created_result texts library connection repository id number node)
        ≡ true
  unfolding is_issue_evidence created_result is_text_value is_any_text is_created_status
      is_positive_integer is_nonempty_text get keys String_eq String-discrete ℕ_eq
  created-evidence python repository id number node low high positive named = both refl (
      both (eq_refl repository) (
        both (leb-ltb number positive)
          (both (python.prints id low high) (both named (both refl (both refl refl))))))

  github_number-bounds :
      (v : Option Value) (n : ℕ)
      → github_number texts library connection v ≡ some n
      → (leb 1 n ≡ true) × (leb n 99999999999999999999 ≡ true)
  unfolding github_number
  github_number-bounds v n h = ground arith

  node-named :
      PrintsDecimals texts
      → (v : Option Value) (node : String) → github_node_id texts library connection v ≡ some node
      → (node != "") ≡ true
  unfolding github_node_id
  node-named python v node h = elim (Bool-cases (node != "")) [
    | inl named ↦ named
    | inr empty ↦
        let no_count : count (texts.strip node) ≡ 0 =
          ap count (ap texts.strip (!=-eq-false node "" empty) ∙ python.strip_empty) in
        let counted : leb 1 (count (texts.strip node)) ≡ true = ground arith in ground arith
  ]

  values-evidence :
      PrintsDecimals texts
      → (repository : String) (v w x : Option Value) (id number : Option ℕ) (node : Option String)
        (result : Fields)
      → github_number texts library connection v ≡ id
      → github_number texts library connection w ≡ number
      → github_node_id texts library connection x ≡ node
      → result_of_values texts library connection repository id number node ≡ some result
      → is_issue_evidence repository result ≡ true
  unfolding result_of_values
  values-evidence python repository v w x (some id) (some number) (some node) result a b c h =
      let (low, high) = github_number-bounds v id a in
      let (positive, small) = github_number-bounds w number b in
      let same : created_result texts library connection repository id number node ≡ result =
        ground arith in
      rw⁻¹ same (
        created-evidence python repository id number node low high positive
          (node-named python x node c))
  values-evidence python repository v w x none number found result a b c h = ground arith
  values-evidence python repository v w x (some id) none found result a b c h = ground arith
  values-evidence python repository v w x (some id) (some number) none result a b c h = ground arith

  -- What a created issue's answer holds is evidence.
  pub answer-evidence :
      PrintsDecimals texts
      → (repository : String) (object : Option Fields) (result : Fields)
      → result_of_answer texts library connection repository object ≡ some result
      → is_issue_evidence repository result ≡ true
  unfolding result_of_answer
  answer-evidence python repository none result h = ground arith
  answer-evidence python repository (some value) result h =
      values-evidence python repository (get value "id") (get value "number") (get value "node_id")
        _ _ _ result refl refl refl h
