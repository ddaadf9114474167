-- ===== src/Audit/Lifecycle.antt =====
-- What becomes of an audit and of its approval as the audit's status changes.
use delivery_system.Base.{
  sym, ap, ◌∙◌, String, String_eq, Option_eq, ℕ_eq, Bool, true, false, not, ◌&&◌, ◌||◌, none, some,
  ◌==◌, ◌!=◌, ◌≡◌, ◌≢◌, refl, arith, ||-eq-false, !=-eq-false, not-eq-false, ==_ne, ==_iff, Option,
  Eq, Bool-cases, inl, inr, ltb, any, [], ◌∷◌,
}
use delivery_system.Errors.{
  ok, >>=-eq-ok, raise_if-then-eq-ok, ok-injective, invalid_audit_status_transition,
  approval_requires_passed_active_audit, approval_requires_remote_snapshot_digest, other,
}
use delivery_system.Audit.{
  AuditRecord, AuditStatus, active, AuditStatus_eq, passed, AuditResult_eq, AuditDigests,
  check_audit, checked, computed_digest, verify_audit_digest, status_allowed, transition,
  approval_eligible, ApprovalRecord, approval_matches, is_structurally_valid, create_approval,
  is_absent, text_or_empty, result_text, audit_payload,
}

fourth-false : (x y z : Bool) → (x && (y && (z && false))) ≡ false
fourth-false x y z = ground arith

one-false :
    (r i p l d o s : Bool)
    → (r || ((i || (p || (l || (d || (o || false))))) || s)) ≡ false
    → d ≡ false
one-false r i p l d o s h = ground arith

ne_of : (x y : String) → (x == y) ≡ false → (x != y) ≡ true
ne_of x y h = ground arith

&&-false : (b : Bool) → (b && false) ≡ false
&&-false b = ground arith

status_allowed-inactive : (from to : AuditStatus) → status_allowed from to ≡ true → to ≢ active
unfolding status_allowed
status_allowed-inactive from to h e = ground arith

inactive-approval-eligible : (a : AuditRecord) → a.status ≢ active → approval_eligible a ≡ false
unfolding approval_eligible
inactive-approval-eligible a gone =
    rw (==_ne a.status active gone) (&&-false (a.audit_scope == "WriteEligible"))

both : {a b : Bool} → a ≡ true → b ≡ true → (a && b) ≡ true
both e f = rw e f

same {ℓ} : {A : Type ℓ} ⦃e : Eq A⦄ (x y : A) → x ≡ y → (x == y) ≡ true
same x y h = (==_iff x y).1 h

present-text : (o : Option String) → is_absent o ≡ false → some (text_or_empty o) ≡ o
unfolding is_absent text_or_empty
present-text none h = cc
present-text (some t) h = refl

module _ (digests : AuditDigests) where
  checked-eq-ok :
      (a a' : AuditRecord) → checked digests a ≡ ok a' → (check_audit digests a ≡ ok tt) × (a' ≡ a)
  unfolding checked
  checked-eq-ok a a' h =
      let (u, e, h1) = >>=-eq-ok (check_audit digests a) _ h in (e, sym (ok-injective _ _ h1))

  -- The record that a change of status makes.
  abbrev moved_to : AuditRecord → AuditStatus → AuditRecord
  moved_to a status = record a {
    status = status;
    audit_digest = computed_digest digests (record a { status = status; audit_digest = "pending" });
  }

  -- What a transition to another status has checked and made.
  record IsMove (a : AuditRecord) (status : AuditStatus) (a' : AuditRecord) : Type 0 where
    pub allowed : status_allowed a.status status ≡ true
    pub made : a' ≡ moved_to a status
    pub sound : check_audit digests (moved_to a status) ≡ ok tt

  transition-eq-ok :
      (a : AuditRecord) (status : AuditStatus) (a' : AuditRecord)
      → (status == a.status) ≡ false
      → transition digests a status ≡ ok a'
      → IsMove a status a'
  unfolding transition
  transition-eq-ok a status a' differs h =
      let h0 = rw differs at h in
      let (f1, h1) =
        raise_if-then-eq-ok (not (status_allowed a.status status)) invalid_audit_status_transition _
          h0 in
      let (moved, made, h2) = >>=-eq-ok (checked digests (record a { status = status })) _ h1 in
      let (draft, drawn, h3) =
        >>=-eq-ok (checked digests (record moved { audit_digest = "pending" })) _ h2 in
      let (c1, e1) = checked-eq-ok _ moved made in
      let (c2, e2) = checked-eq-ok _ draft drawn in
      let (c3, e3) = checked-eq-ok _ a' h3 in
      let same : record draft { audit_digest = computed_digest digests draft } ≡ moved_to a status =
        ap (λ (d : AuditRecord). record d { audit_digest = computed_digest digests d })
          (e2 ∙ ap (λ (m : AuditRecord). record m { audit_digest = "pending" }) e1) in
      record {
        allowed = not-eq-false _ f1;
        made = e3 ∙ same;
        sound = ap (check_audit digests) (sym same) ∙ c3;
      }

  check_audit-digest :
      (a : AuditRecord) → check_audit digests a ≡ ok tt → (a.audit_digest == "") ≡ false
  unfolding check_audit
  check_audit-digest a h =
      let (f1, h1) =
        raise_if-then-eq-ok
          (ltb a.revision 1
            || (any (λ value. value == "")
                  (a.audit_id ∷ a.preview_id ∷ a.plan_digest ∷ a.audit_digest
                    ∷ a.operation_set_digest ∷ [])
                || a.remote_snapshot_digest == some ""))
          (other "AuditRecord required fields are invalid") _ h in
      one-false (ltb a.revision 1) (a.audit_id == "") (a.preview_id == "") (a.plan_digest == "")
        (a.audit_digest == "") (a.operation_set_digest == "") (a.remote_snapshot_digest == some "")
        f1

  digest-intact :
      (a : AuditRecord)
      → (a.audit_digest == "") ≡ false
      → a.audit_digest ≡ computed_digest digests a
      → verify_audit_digest digests a ≡ true
  unfolding verify_audit_digest
  digest-intact a nonempty e =
      rw (ne_of a.audit_digest "" nonempty)
        (rw ((==_iff a.audit_digest (computed_digest digests a)).1 e) refl)

  -- A transition that returns, to another status, leaves an intact digest over the new status, and
  -- neither keeps the audit active nor eligible for approval.
  pub transition-intact :
      (a : AuditRecord) (status : AuditStatus) (a' : AuditRecord)
      → status ≢ a.status
      → transition digests a status ≡ ok a'
      → (verify_audit_digest digests a' ≡ true)
        × (a'.status ≡ status)
        × (approval_eligible a' ≡ false)
  unfolding verify_audit_digest computed_digest audit_payload approval_eligible
  transition-intact a status a' differs h =
      let facts = transition-eq-ok a status a' (==_ne status a.status differs) h in
      let intact : verify_audit_digest digests (moved_to a status) ≡ true =
        digest-intact (moved_to a status) (check_audit-digest (moved_to a status) facts.sound)
          refl in
      (
        ap (verify_audit_digest digests) facts.made ∙ intact,
        ap (λ (x : AuditRecord). x.status) facts.made,
        ap approval_eligible facts.made
            ∙ (inactive-approval-eligible (moved_to a status)
                (status_allowed-inactive a.status status facts.allowed)),
      )

  -- A chain of transitions that return.
  pub data History (a : AuditRecord) : AuditRecord → Type 0 where
    begun : History a a
    moved :
        {b c : AuditRecord} (status : AuditStatus)
        → History a b
        → transition digests b status ≡ ok c
        → History a c

  same_record :
      (a : AuditRecord) (status : AuditStatus) (a' : AuditRecord)
      → (status == a.status) ≡ true
      → transition digests a status ≡ ok a'
      → a ≡ a'
  unfolding transition
  same_record a status a' same h = ok-injective _ _ (rw same at h)

  stays_inactive :
      (a : AuditRecord) (status : AuditStatus) (a' : AuditRecord)
      → a.status ≢ active
      → transition digests a status ≡ ok a'
      → a'.status ≢ active
  stays_inactive a status a' gone h = elim (Bool-cases (status == a.status)) [
    | inl same ↦ (λ is_active.
        gone (ap (λ (x : AuditRecord). x.status) (same_record a status a' same h) ∙ is_active))
    | inr differs ↦
        (let facts = transition-eq-ok a status a' differs h in
          λ is_active.
            status_allowed-inactive a.status status facts.allowed
              (ap (λ (x : AuditRecord). x.status) (sym facts.made) ∙ is_active))
  ]

  History-inactive : {a b : AuditRecord} → a.status ≢ active → History a b → b.status ≢ active
  History-inactive gone begun = gone
  History-inactive gone (moved {b} {c} status r h) =
      stays_inactive b status c (History-inactive gone r) h

  inactive-matches :
      (approval : ApprovalRecord) (a : AuditRecord)
      → a.status ≢ active
      → approval_matches digests approval a ≡ false
  unfolding approval_matches
  inactive-matches approval a gone = rw (==_ne a.status active gone) (
      fourth-false (is_structurally_valid digests approval)
        (approval.audit_result == result_text passed) (a.result == passed))

  inactive-approval :
      (approval : ApprovalRecord) (a : AuditRecord)
      → a.status ≢ active
      → (approval_eligible a ≡ false) × (approval_matches digests approval a ≡ false)
  inactive-approval approval a gone =
      (inactive-approval-eligible a gone, inactive-matches approval a gone)

  -- An audit that is no longer active never serves an approval again: after any chain of transitions
  -- it is not eligible, and no approval validates against it.
  pub inactive_forever :
      (approval : ApprovalRecord) {a b : AuditRecord}
      → a.status ≢ active
      → History a b
      → (approval_eligible b ≡ false) × (approval_matches digests approval b ≡ false)
  inactive_forever approval {a} {b} gone history =
      inactive-approval approval b (History-inactive gone history)

  -- An approval that is created from an intact audit validates against that audit whenever it is
  -- structurally valid.
  pub create_approval-matches :
      (approval_id : String) (audit : AuditRecord)
      (repository_identity approver_claim approved_at approval_command : String)
      (approval : ApprovalRecord)
      → verify_audit_digest digests audit ≡ true
      → create_approval approval_id audit repository_identity approver_claim approved_at
          approval_command
        ≡ ok approval
      → is_structurally_valid digests approval ≡ true
      → approval_matches digests approval audit ≡ true
  unfolding create_approval approval_matches
  create_approval-matches approval_id audit repository_identity approver_claim approved_at
        approval_command approval intact h valid =
      let (f1, h1) =
        raise_if-then-eq-ok (audit.result != passed || audit.status != active)
          approval_requires_passed_active_audit _ h in
      let (f2, h2) =
        raise_if-then-eq-ok (is_absent audit.remote_snapshot_digest)
          approval_requires_remote_snapshot_digest _ h1 in
      let (g1, g2) = ||-eq-false _ _ f1 in
      let is_passed = !=-eq-false audit.result passed g1 in
      let is_active = !=-eq-false audit.status active g2 in
      let held = present-text audit.remote_snapshot_digest f2 in
      let made = ok-injective _ _ h2 in
      (both valid (
        both
          (same approval.audit_result (result_text passed)
            (ap (λ (r : ApprovalRecord). r.audit_result) (sym made) ∙ ap result_text is_passed))
          (both (same audit.result passed (is_passed)) (
            both (same audit.status active (is_active)) (
              both intact (
                both
                  (same approval.audit_id audit.audit_id
                    (ap (λ (r : ApprovalRecord). r.audit_id) (sym made)))
                  (both
                    (same approval.audit_digest audit.audit_digest
                      (ap (λ (r : ApprovalRecord). r.audit_digest) (sym made)))
                    (both
                      (same approval.preview_id audit.preview_id
                        (ap (λ (r : ApprovalRecord). r.preview_id) (sym made)))
                      (both
                        (same approval.revision audit.revision
                          (ap (λ (r : ApprovalRecord). r.revision) (sym made)))
                        (both
                          (same approval.plan_digest audit.plan_digest
                            (ap (λ (r : ApprovalRecord). r.plan_digest) (sym made)))
                          (both
                            (same (some approval.remote_snapshot_digest)
                              audit.remote_snapshot_digest
                              (ap (λ (r : ApprovalRecord). some r.remote_snapshot_digest) (sym made)
                                ∙ held))
                            (same approval.operation_set_digest audit.operation_set_digest (
                              ap (λ (r : ApprovalRecord). r.operation_set_digest)
                                (sym made))))))))))))))
