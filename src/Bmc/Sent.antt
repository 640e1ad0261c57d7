-- ===== src/Bmc/Sent.antt =====
-- What `Execute` lets through to a BMC, and what it leaves in the audit.
use metalwatch.Base.{
  ◌≡◌, refl, sym, subst, String, Bool, true, false, ◌&&◌, not, Option, none, some, All, List, [],
  ◌∷◌, str_eq, eq_iff, if◌then◌else◌, Bool-cases, inl, inr, arith,
}
use metalwatch.Base.Int.{ℤ, pos, ◌≤ℤ◌}
use metalwatch.Bmc.{BmcCommandInput, ProtoCommand, is_power_action}
use metalwatch.Bmc.Client.{
  Executor, Applied, auto_call, manual_call, speed_call, power_call, identify_call, says_on,
  clamp_percent, ended_with, action_or_status, unknown_command, set_speed, fan_part, power_part,
  identify_part, apply_as, apply_command,
}
use metalwatch.Bmc.Execute.{AuditRow, Scene, Executed, run_command, execute}
use metalwatch.Bmc.Checked.{IsChecked, hands_back, sets_speed, switches, identifies}
use metalwatch.Bmc.Refusals.{Course, invalid, unable, left_pending, ran, execute-Course}

-- The calls of ipmitool that the service may make.
pub data IsPermitted (call : List String) : Type 0 where
  auto : call ≡ auto_call → IsPermitted call
  manual : call ≡ manual_call → IsPermitted call
  speed : (p : ℤ) → pos 1 ≤ℤ p → p ≤ℤ pos 100 → call ≡ speed_call p → IsPermitted call
  power : (act : String) → is_power_action act ≡ true → call ≡ power_call act → IsPermitted call
  identify : (d : ℤ) → pos 0 ≤ℤ d → d ≤ℤ pos 3600 → call ≡ identify_call d → IsPermitted call

ended_with-calls :
    (o : Option String) (calls : List (List String)) (output : String) (observed : ℤ)
    → (ended_with o calls output observed).calls ≡ calls
ended_with-calls none calls output observed = refl
ended_with-calls (some e) calls output observed = refl

ended_with-failed :
    (o : Option String) (calls : List (List String)) (output : String) (observed : ℤ)
    → (ended_with o calls output observed).failed
      ≡ not (ended_with o calls output observed).result.ok
ended_with-failed none calls output observed = refl
ended_with-failed (some e) calls output observed = refl

clamp_lem : (p : ℤ) → pos 1 ≤ℤ p → p ≤ℤ pos 100 → clamp_percent p ≡ p
unfolding clamp_percent
clamp_lem p l h = ground arith

named_action : (a : String) → is_power_action a ≡ true → action_or_status a ≡ a
named_action a h = elim (Bool-cases (str_eq a "")) [
  | inl e ↦
      absurd
        (ground (arith, subst (λ (x : String). is_power_action x ≡ true) ((eq_iff a "").0 e) h))
  | inr e ↦ rw e refl
]

-- That the error and the result agree.
abbrev pub Agreeing : Applied → Type 0
Agreeing a = a.failed ≡ not a.result.ok

if-Agreeing : (b : Bool) (x y : Applied) → Agreeing x → Agreeing y → Agreeing (if b then x else y)
if-Agreeing true x y h k = h
if-Agreeing false x y h k = k

module _ (exec : Executor) where
  set_speed-IsPermitted :
      (p : ℤ) (o : Option String)
      → pos 1 ≤ℤ p
      → p ≤ℤ pos 100
      → All IsPermitted (set_speed exec p o).calls
  set_speed-IsPermitted p (some e) l h = (manual refl, tt)
  set_speed-IsPermitted p none l h =
      rw
        (ended_with-calls (exec (speed_call p)).failed (manual_call ∷ speed_call p ∷ [])
          (exec (speed_call p)).output p)
        (manual refl, (speed p l h refl, tt))

  set_speed-failed :
      (p : ℤ) (o : Option String) → (set_speed exec p o).failed ≡ not (set_speed exec p o).result.ok
  set_speed-failed p (some e) = refl
  set_speed-failed p none =
      ended_with-failed (exec (speed_call p)).failed (manual_call ∷ speed_call p ∷ [])
        (exec (speed_call p)).output p

  calls_as :
      (c : ProtoCommand) (t : String)
      → c.cmd_type ≡ t
      → All IsPermitted (apply_as exec t c).calls
      → All IsPermitted (apply_command exec c).calls
  unfolding apply_command
  calls_as c t e h = subst (λ (u : String). All IsPermitted (apply_as exec u c).calls) (sym e) h

  fan_part-IsPermitted :
      (b : Bool) (p : ℤ)
      → (b ≡ false → pos 1 ≤ℤ p × p ≤ℤ pos 100)
      → All IsPermitted (fan_part exec b p).calls
  fan_part-IsPermitted true p h =
      rw (ended_with-calls (exec auto_call).failed (auto_call ∷ []) (exec auto_call).output p)
        (auto refl, tt)
  fan_part-IsPermitted false p h =
      set_speed-IsPermitted p (exec manual_call).failed (h refl).0 (h refl).1

  power_part-IsPermitted :
      (act : String) → is_power_action act ≡ true → All IsPermitted (power_part exec act).calls
  power_part-IsPermitted act a =
      let ran = exec (power_call act) in
      rw
        (ended_with-calls ran.failed (power_call act ∷ []) ran.output
          (if str_eq act "status" && says_on ran.output then pos 1 else pos 0))
        (power act a refl, tt)

  apply_command-IsPermitted :
      (c : ProtoCommand) → IsChecked c → All IsPermitted (apply_command exec c).calls
  unfolding apply_as
  apply_command-IsPermitted c (hands_back t m) = calls_as c "fan_speed" t (
      fan_part-IsPermitted c.auto_mode (clamp_percent c.speed_percent)
        (λ f. absurd (ground (arith, m, f))))
  apply_command-IsPermitted c (sets_speed t m l h) =
      let same = clamp_lem c.speed_percent l h in
      calls_as c "fan_speed" t (
        fan_part-IsPermitted c.auto_mode (clamp_percent c.speed_percent) (λ f. (
          subst (λ (p : ℤ). pos 1 ≤ℤ p) (sym same) l,
          subst (λ (p : ℤ). p ≤ℤ pos 100) (sym same) h,
        )))
  apply_command-IsPermitted c (switches t a) = calls_as c "power" t (
      power_part-IsPermitted (action_or_status c.power_action)
        (subst (λ (x : String). is_power_action x ≡ true) (sym (named_action c.power_action a)) a))
  apply_command-IsPermitted c (identifies t l h) =
      let ran = exec (identify_call c.duration_sec) in
      calls_as c "identify" t (
        rw (ended_with-calls ran.failed (identify_call c.duration_sec ∷ []) ran.output (pos 0))
          (identify c.duration_sec l h refl, tt))

  fan_part-Agreeing : (b : Bool) (p : ℤ) → Agreeing (fan_part exec b p)
  fan_part-Agreeing true p =
      ended_with-failed (exec auto_call).failed (auto_call ∷ []) (exec auto_call).output p
  fan_part-Agreeing false p = set_speed-failed p (exec manual_call).failed

  power_part-Agreeing : (act : String) → Agreeing (power_part exec act)
  power_part-Agreeing act =
      let ran = exec (power_call act) in
      ended_with-failed ran.failed (power_call act ∷ []) ran.output
        (if str_eq act "status" && says_on ran.output then pos 1 else pos 0)

  identify_part-Agreeing : (d : ℤ) → Agreeing (identify_part exec d)
  identify_part-Agreeing d =
      let ran = exec (identify_call d) in
      ended_with-failed ran.failed (identify_call d ∷ []) ran.output (pos 0)

  -- A command fails exactly where its result is not ok.
  pub apply_as-Agreeing : (t : String) (c : ProtoCommand) → Agreeing (apply_as exec t c)
  unfolding apply_as
  apply_as-Agreeing t c =
      let p = power_part exec (action_or_status c.power_action) in
      let i = identify_part exec c.duration_sec in
      let rest = if str_eq t "identify" then i else unknown_command t in
      let f = fan_part exec c.auto_mode (clamp_percent c.speed_percent) in
      if-Agreeing (str_eq t "fan_speed") f (if str_eq t "power" then p else rest)
        (fan_part-Agreeing c.auto_mode (clamp_percent c.speed_percent))
        (if-Agreeing (str_eq t "power") p rest
          (power_part-Agreeing (action_or_status c.power_action))
          (if-Agreeing (str_eq t "identify") i (unknown_command t)
            (identify_part-Agreeing c.duration_sec) refl))

module _ (sc : Scene) (host_id : ℤ) (operator : String) (i : BmcCommandInput)
    (audit : List AuditRow) where
  Course-IsPermitted :
      (x : Executed) → Course sc host_id operator i audit x → All IsPermitted x.calls
  unfolding run_command
  Course-IsPermitted x (invalid v p) = subst (λ (y : Executed). All IsPermitted y.calls) (sym p) tt
  Course-IsPermitted x (unable e v n p) =
      subst (λ (y : Executed). All IsPermitted y.calls) (sym p) tt
  Course-IsPermitted x (left_pending cmd v n k p) =
      subst (λ (y : Executed). All IsPermitted y.calls) (sym p) tt
  Course-IsPermitted x (ran cmd v n c p) =
      subst (λ (y : Executed). All IsPermitted y.calls) (sym p)
        (apply_command-IsPermitted sc.exec cmd c)

  -- Whatever is requested, and whatever the store, the password and the BMC do, each call of
  -- ipmitool that Execute makes hands the fans back, takes them over, sets a speed of 1 to 100
  -- percent, does one of the five power actions, or lights the host for 0 to 3600 seconds.
  pub execute-IsPermitted : All IsPermitted (execute sc host_id operator i audit).calls
  execute-IsPermitted =
      Course-IsPermitted (execute sc host_id operator i audit)
        (execute-Course sc host_id operator i audit)
