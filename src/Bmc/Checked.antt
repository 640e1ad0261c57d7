-- ===== src/Bmc/Checked.antt =====
-- The commands that `buildProtoCommand` makes of a checked request.
use metalwatch.Base.{
  ◌≡◌, refl, String, Bool, true, false, Option, some, str_eq, Bool-cases, Option-cases, inl, inr,
  arith,
}
use metalwatch.Base.Int.{ℤ, pos, ◌≤ℤ◌, eqb_ℤ}
use metalwatch.Bmc.{
  ServiceReturn, returned, BmcCommandInput, ProtoCommand, is_power_action, is_auto, fan_is_valid,
  duration_or_default, blank_command, fan_command, validate, build_proto_command,
}

-- A command that the service may send.
pub data IsChecked (c : ProtoCommand) : Type 0 where
  hands_back : c.cmd_type ≡ "fan_speed" → c.auto_mode ≡ true → IsChecked c
  sets_speed :
      c.cmd_type ≡ "fan_speed"
      → c.auto_mode ≡ false
      → pos 1 ≤ℤ c.speed_percent
      → c.speed_percent ≤ℤ pos 100
      → IsChecked c
  switches : c.cmd_type ≡ "power" → is_power_action c.power_action ≡ true → IsChecked c
  identifies :
      c.cmd_type ≡ "identify" → pos 0 ≤ℤ c.duration_sec → c.duration_sec ≤ℤ pos 3600 → IsChecked c

-- A command for a request, with its ID.
pub record BuiltFor (id : String) (o : ServiceReturn ProtoCommand) : Type 0 where
  pub sent : ProtoCommand
  pub built_is : o ≡ returned sent
  pub has_id : sent.command_id ≡ id
  pub checked : IsChecked sent

fan_command-BuiltFor :
    (c : ProtoCommand) (auto : Option Bool) (speed : Option ℤ)
    → c.auto_mode ≡ false
    → fan_is_valid auto speed ≡ true
    → BuiltFor c.command_id (fan_command c auto speed)
fan_command-BuiltFor c auto speed m v = elim (Bool-cases (is_auto auto)) [
  | inl e ↦ rw e (record {
    sent = record c { cmd_type = "fan_speed"; auto_mode = true };
    built_is = refl;
    has_id = refl;
    checked = hands_back refl refl;
  })
  | inr e ↦ elim (Option-cases speed) [
    | inl n ↦ absurd (ground (arith, v, n, e))
    | inr (p, k) ↦
        let low : pos 1 ≤ℤ p = ground (arith, v, k, e) in
        let high : p ≤ℤ pos 100 = ground (arith, v, k, e) in
        let nonzero : eqb_ℤ p (pos 0) ≡ false = ground arith in
        rw (e, k, nonzero)
          (record {
            sent = record c { cmd_type = "fan_speed"; speed_percent = p };
            built_is = refl;
            has_id = refl;
            checked = sets_speed refl m low high;
          })
  ]
]

-- A checked request becomes a command that may be sent.
pub build_proto_command-BuiltFor :
    (id : String) (i : BmcCommandInput)
    → validate i ≡ true
    → BuiltFor id (build_proto_command (some id) i)
unfolding build_proto_command validate
build_proto_command-BuiltFor id i v = elim (Bool-cases (str_eq i.cmd_type "fan")) [
  | inl e ↦ rw e (
      fan_command-BuiltFor (blank_command id i.target) i.auto_mode i.speed_percent refl
        (ground (arith, v, e)))
  | inr nf ↦ elim (Bool-cases (str_eq i.cmd_type "power")) [
    | inl e ↦
        rw (nf, e)
          (record {
            sent = record (blank_command id i.target) {
              cmd_type = "power";
              power_action = i.power_action;
            };
            built_is = refl;
            has_id = refl;
            checked = switches refl (ground (arith, v, nf, e));
          })
    | inr np ↦ elim (Bool-cases (str_eq i.cmd_type "identify")) [
      | inl e ↦
          rw (nf, np, e)
            (record {
              sent = record (blank_command id i.target) {
                cmd_type = "identify";
                duration_sec = duration_or_default i.duration_sec;
              };
              built_is = refl;
              has_id = refl;
              checked =
                  identifies refl (ground (arith, v, nf, np, e)) (ground (arith, v, nf, np, e));
            })
      | inr ni ↦ elim (Bool-cases (str_eq i.cmd_type "policy")) [
        | inl e ↦
            rw (nf, np, ni, e)
              (record {
                sent = record (blank_command id i.target) {
                  cmd_type = "fan_speed";
                  auto_mode = true;
                };
                built_is = refl;
                has_id = refl;
                checked = hands_back refl refl;
              })
        | inr ny ↦ absurd (ground (arith, v, nf, np, ni, ny))
      ]
    ]
  ]
]
