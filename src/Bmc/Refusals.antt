-- ===== src/Bmc/Refusals.antt =====
-- What an error of `Execute` means.
use metalwatch.Base.{
  ◌≡◌, ◌≢◌, ◌↔◌, ◌⊎◌, ◌++◌, ◌∷◌, refl, sym, ap, ◌∙◌, subst, String, true, false, Option, none, some,
  List, [], str_eq, Bool-cases, Option-cases, inl, inr, arith,
}
use metalwatch.Base.Int.{ℤ}
use metalwatch.Bmc.{
  ServiceError, invalid_input, not_found_in_service, other_error, ServiceReturn, refused,
  BmcCommandInput, ProtoCommand, validate, build_proto_command,
}
use metalwatch.Bmc.Checked.{IsChecked, BuiltFor, build_proto_command-BuiltFor}
use metalwatch.Bmc.Execute.{
  AuditRow, Scene, CredentialRead, cred_read, cred_missing, cred_failed, Executed, not_begun,
  Creation, inserted, not_inserted, number_unknown, audited, create, row_of, run_command, built,
  credentials, addressed, execute,
}

module _ (sc : Scene) (host_id : ℤ) (operator : String) (i : BmcCommandInput)
    (audit : List AuditRow) where
  -- The ways that a call can go.
  pub data Course (x : Executed) : Type 0 where
    invalid : validate i ≡ false → x ≡ not_begun audit (refused invalid_input) → Course x
    unable :
        (e : ServiceError)
        → validate i ≡ true
        → e ≢ invalid_input
        → x ≡ not_begun audit (refused e)
        → Course x
    left_pending :
        (cmd : ProtoCommand)
        → validate i ≡ true
        → sc.new_id ≡ some cmd.command_id
        → sc.creation ≡ number_unknown
        → x
          ≡ not_begun
              (create (row_of sc host_id operator i cmd.command_id) audit)
              (refused other_error)
        → Course x
    ran :
        (cmd : ProtoCommand)
        → validate i ≡ true
        → sc.new_id ≡ some cmd.command_id
        → IsChecked cmd
        → x
          ≡ run_command sc host_id operator i cmd
              (create (row_of sc host_id operator i cmd.command_id) audit)
        → Course x

  not_found_is_other : not_found_in_service ≢ invalid_input
  not_found_is_other e = ground (arith, e)

  other_is_other : other_error ≢ invalid_input
  other_is_other e = ground (arith, e)

  audited-Course :
      (c : Creation) (cmd : ProtoCommand)
      → validate i ≡ true
      → sc.new_id ≡ some cmd.command_id
      → sc.creation ≡ c
      → IsChecked cmd
      → Course (audited sc host_id operator i c cmd audit)
  unfolding audited
  audited-Course inserted cmd v n k c = ran cmd v n c refl
  audited-Course not_inserted cmd v n k c = unable other_error v other_is_other refl
  audited-Course number_unknown cmd v n k c = left_pending cmd v n k refl

  built-Course :
      (id : String) (o : ServiceReturn ProtoCommand)
      → validate i ≡ true
      → sc.new_id ≡ some id
      → BuiltFor id o
      → Course (built sc host_id operator i o audit)
  unfolding built
  built-Course id o v n b =
      subst (λ (r : ServiceReturn ProtoCommand). Course (built sc host_id operator i r audit))
        (sym b.built_is)
        (audited-Course sc.creation b.sent v (n ∙ ap (λ (x : String). some x) (sym b.has_id)) refl
          b.checked)

  opened-Course :
      validate i ≡ true
      → Course (built sc host_id operator i (build_proto_command sc.new_id i) audit)
  unfolding built build_proto_command
  opened-Course v = elim (Option-cases sc.new_id) [
    | inl e ↦ rw (build_proto_command, e) (unable other_error v other_is_other refl)
    | inr (id, e) ↦
        subst
          (λ (n : Option String).
            Course (built sc host_id operator i (build_proto_command n i) audit))
          (sym e)
          (built-Course id (build_proto_command (some id) i) v e
            (build_proto_command-BuiltFor id i v))
  ]

  credentials-Course :
      (c : CredentialRead) → validate i ≡ true → Course (credentials sc host_id operator i c audit)
  unfolding credentials
  credentials-Course cred_missing v = unable not_found_in_service v not_found_is_other refl
  credentials-Course cred_failed v = unable other_error v other_is_other refl
  credentials-Course cred_read v = elim (Bool-cases sc.opened) [
    | inl o ↦ simp o (opened-Course v)
    | inr o ↦ rw o (unable other_error v other_is_other refl)
  ]

  addressed-Course :
      (h : Option (Option String))
      → validate i ≡ true
      → Course (addressed sc host_id operator i h audit)
  unfolding addressed
  addressed-Course none v = unable not_found_in_service v not_found_is_other refl
  addressed-Course (some none) v = unable not_found_in_service v not_found_is_other refl
  addressed-Course (some (some ip)) v = elim (Bool-cases (str_eq ip "")) [
    | inl b ↦ rw b (unable not_found_in_service v not_found_is_other refl)
    | inr b ↦ rw b (credentials-Course sc.cred v)
  ]

  pub execute-Course : Course (execute sc host_id operator i audit)
  unfolding execute
  execute-Course = elim (Bool-cases (validate i)) [
    | inl v ↦ rw v (addressed-Course sc.host v)
    | inr v ↦ rw v (invalid v refl)
  ]

  -- What an error may leave: nothing, or the pending row of this request, where its number could
  -- not be told after the INSERT.
  pub data Left (rows : List AuditRow) : Type 0 where
    untouched : rows ≡ audit → Left rows
    one_pending :
        (id : String)
        → sc.new_id ≡ some id
        → sc.creation ≡ number_unknown
        → rows ≡ audit ++ (record (row_of sc host_id operator i id) { status = "pending" } ∷ [])
        → Left rows

  pub record Refused (x : Executed) (e : ServiceError) : Type 0 where
    pub nothing_run : x.calls ≡ []
    pub left : Left x.audit
    pub kind : (e ≡ invalid_input) ↔ (validate i ≡ false)
    pub invalid_leaves_nothing : (e ≢ invalid_input) ⊎ (x.audit ≡ audit)

  Course-Refused :
      (x : Executed) (e : ServiceError) → Course x → x.outcome ≡ refused e → Refused x e
  unfolding run_command
  Course-Refused x e (invalid v p) h =
      let same : e ≡ invalid_input = ground (arith, h, ap (λ (y : Executed). y.outcome) p) in
      let rows = ap (λ (y : Executed). y.audit) p in
      record {
        nothing_run = ap (λ (y : Executed). y.calls) p;
        left = untouched rows;
        kind = (λ _. v, λ _. same);
        invalid_leaves_nothing = inr rows;
      }
  Course-Refused x e (unable f v n p) h =
      let same : e ≡ f = ground (arith, h, ap (λ (y : Executed). y.outcome) p) in
      let rows = ap (λ (y : Executed). y.audit) p in
      record {
        nothing_run = ap (λ (y : Executed). y.calls) p;
        left = untouched rows;
        kind = (λ q. absurd (n (sym same ∙ q)), λ w. absurd (ground (arith, v, w)));
        invalid_leaves_nothing = inr rows;
      }
  Course-Refused x e (left_pending cmd v n k p) h =
      let same : e ≡ other_error = ground (arith, h, ap (λ (y : Executed). y.outcome) p) in
      let differs : e ≢ invalid_input = λ q. other_is_other (sym same ∙ q) in
      record {
        nothing_run = ap (λ (y : Executed). y.calls) p;
        left = one_pending cmd.command_id n k (ap (λ (y : Executed). y.audit) p);
        kind = (λ q. absurd (differs q), λ w. absurd (ground (arith, v, w)));
        invalid_leaves_nothing = inl differs;
      }
  Course-Refused x e (ran cmd v n c p) h =
      absurd (ground (arith, h, ap (λ (y : Executed). y.outcome) p))

  -- An error of Execute means that no call of ipmitool was made, and that the audit is as it was
  -- or, only where LastInsertId failed after the INSERT, has one more row, the pending one of this
  -- operator, host and request; the error is ErrInvalidInput exactly where Validate refuses the
  -- request, and then the audit is as it was.
  pub execute_refuses :
      (e : ServiceError)
      → (execute sc host_id operator i audit).outcome ≡ refused e
      → Refused (execute sc host_id operator i audit) e
  execute_refuses e h = Course-Refused (execute sc host_id operator i audit) e execute-Course h
