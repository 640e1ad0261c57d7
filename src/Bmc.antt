-- ===== src/Bmc.antt =====
-- The control of BMCs: the requests of backend/internal/service/bmcctl.go, what ApplyCommand of
-- backend/pkg/ipmi/ipmi.go runs for them, and the audit rows of backend/internal/adapter/bmcctl.go.
pub mod Client
pub mod Execute
pub mod Checked
pub mod Refusals
pub mod Sent
pub mod Audit
pub mod Capability
use metalwatch.Base.{
  ℕ, String, Bool, true, false, ◌&&◌, ◌||◌, not, Option, none, some, List, [], ◌∷◌, ◌++◌, str_eq,
  if◌then◌else◌,
}
use metalwatch.Base.Int.{ℤ, pos, ltb_ℤ, eqb_ℤ}

-- The errors that a caller tells apart; the handlers answer 422, 404 and 500.
pub data ServiceError : Type 0 where
  invalid_input : ServiceError
  not_found_in_service : ServiceError
  other_error : ServiceError

-- The outcome of a Go function that returns a value and an error, or panics.
pub data ServiceReturn (A : Type 0) : Type 0 where
  returned : A → ServiceReturn A
  refused : ServiceError → ServiceReturn A
  panicked : ServiceReturn A

pub record BmcCommandInput : Type 0 where
  pub cmd_type : String
  pub target : String
  pub speed_percent : Option ℤ
  pub auto_mode : Option Bool
  pub power_action : String
  pub duration_sec : Option ℤ

abbrev pub is_power_action : String → Bool
is_power_action a =
    str_eq a "on" || str_eq a "off" || str_eq a "reset" || str_eq a "cycle" || str_eq a "soft"

-- `in.AutoMode != nil && *in.AutoMode`
abbrev pub is_auto : Option Bool → Bool
is_auto none = false
is_auto (some b) = b

abbrev pub duration_or_default : Option ℤ → ℤ
duration_or_default none = pos 30
duration_or_default (some d) = d

abbrev pub fan_is_valid : Option Bool → Option ℤ → Bool
fan_is_valid auto none = is_auto auto
fan_is_valid auto (some p) = is_auto auto || not (ltb_ℤ p (pos 1) || ltb_ℤ (pos 100) p)

-- Whether `Validate` returns nil; every error of it is ErrInvalidInput.
unfoldable pub validate : BmcCommandInput → Bool
validate i =
    let d = duration_or_default i.duration_sec in
    if str_eq i.cmd_type "fan"
    then fan_is_valid i.auto_mode i.speed_percent
    else if str_eq i.cmd_type "power"
    then is_power_action i.power_action
    else if str_eq i.cmd_type "identify"
    then not (ltb_ℤ d (pos 0) || ltb_ℤ (pos 3600) d)
    else if str_eq i.cmd_type "policy"
    then not (not (str_eq i.target "") && not (str_eq i.target "thermal"))
    else false

pub record ProtoCommand : Type 0 where
  pub command_id : String
  pub cmd_type : String
  pub target : String
  pub speed_percent : ℤ
  pub auto_mode : Bool
  pub power_action : String
  pub duration_sec : ℤ

abbrev pub blank_command : String → String → ProtoCommand
blank_command id target = record {
  command_id = id;
  cmd_type = "";
  target = target;
  speed_percent = pos 0;
  auto_mode = false;
  power_action = "";
  duration_sec = pos 0;
}

-- `*in.SpeedPercent` panics where there is none.
abbrev pub fan_command : ProtoCommand → Option Bool → Option ℤ → ServiceReturn ProtoCommand
fan_command c auto speed =
    let fan = record c { cmd_type = "fan_speed" } in
    if is_auto auto then returned (record fan { auto_mode = true }) else elim speed [
      | none ↦ panicked
      | some p ↦
          if eqb_ℤ p (pos 0)
          then returned (record fan { auto_mode = true })
          else returned (record fan { speed_percent = p })
    ]

-- `buildProtoCommand`, given the new command ID or that there is none.
unfoldable pub build_proto_command : Option String → BmcCommandInput → ServiceReturn ProtoCommand
build_proto_command none i = refused other_error
build_proto_command (some id) i =
    let c = blank_command id i.target in
    if str_eq i.cmd_type "fan"
    then fan_command c i.auto_mode i.speed_percent
    else if str_eq i.cmd_type "power"
    then returned (record c { cmd_type = "power"; power_action = i.power_action })
    else if str_eq i.cmd_type "identify"
    then returned
        (record c { cmd_type = "identify"; duration_sec = duration_or_default i.duration_sec })
    else if str_eq i.cmd_type "policy"
    then returned (record c { cmd_type = "fan_speed"; auto_mode = true })
    else refused invalid_input

-- A value of the parameters that the audit keeps.
pub data Param : Type 0 where
  text : String → Param
  number : ℤ → Param
  flag : Bool → Param

abbrev text_param : String → String → List (String × Param)
text_param key s = if str_eq s "" then [] else (key, text s) ∷ []

abbrev optional_param {ℓ} : {A : Type ℓ} → String → (A → Param) → Option A → List (String × Param)
optional_param key f none = []
optional_param key f (some a) = (key, f a) ∷ []

-- The map that `marshalParams` writes as JSON.
unfoldable pub params_of : BmcCommandInput → List (String × Param)
params_of i =
    (("cmd_type", text i.cmd_type) ∷ [])
    ++ text_param "target" i.target
    ++ optional_param "speed_percent" number i.speed_percent
    ++ optional_param "auto_mode" flag i.auto_mode
    ++ text_param "power_action" i.power_action
    ++ optional_param "duration_sec" number i.duration_sec
