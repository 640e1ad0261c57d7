-- ===== src/Bmc/Capability.antt =====
-- `Capability`, backend/internal/service/bmcctl.go: what `mc info` says that a BMC can do.
use Prim.Native.Char.{code}
use Prim.Native.String.{[], ◌∷◌}
use metalwatch.Base.{
  ◌≡◌, ◌≢◌, ◌↔◌, eq_iff, refl, String, Bool, true, false, ◌&&◌, ◌||◌, not, Option, none, some, List,
  [], ◌∷◌, str_eq, ◌==◌, if◌then◌else◌, Bool-cases, inl, inr, arith,
}
use metalwatch.Base.Int.{ℤ, pos, ltb_ℤ, leb_ℤ}
use metalwatch.Auth.{trim_space}
use metalwatch.Bmc.{
  ServiceError, not_found_in_service, other_error, ServiceReturn, returned, refused, panicked,
}
use metalwatch.Bmc.Client.{Executor, Ran}
use metalwatch.Bmc.Execute.{CredentialRead, cred_read, cred_missing, cred_failed, truncate_one_line}

-- The first line of a text, and the lines behind it.
unfoldable lines_from : String → String × List String
lines_from [] = ("", [])
lines_from (c ∷ s) =
    let (line, lines) = lines_from s in
    if code c == 10 then ("", line ∷ lines) else (c ∷ line, lines)

-- `strings.Cut(line, ":")`
unfoldable cut_colon : String → Option (String × String)
cut_colon [] = none
cut_colon (c ∷ s) =
    if code c == 58
    then some ("", s)
    else elim (cut_colon s) [ none ↦ none | some (name, value) ↦ some (c ∷ name, value) ]

unfoldable field_in : String → List String → String
unfolding cut_colon trim_space
field_in field [] = ""
field_in field (line ∷ lines) =
    let rest = field_in field lines in
    elim (cut_colon line) [
      | none ↦ rest
      | some (name, value) ↦ if str_eq (trim_space name) field then trim_space value else rest
    ]

unfoldable pub mc_info_field : String → String → String
unfolding lines_from field_in
mc_info_field text field = let (line, lines) = lines_from text in field_in field (line ∷ lines)

unfoldable has_prefix : String → String → Bool
has_prefix [] s = true
has_prefix (c ∷ p) [] = false
has_prefix (c ∷ p) (d ∷ s) = code c == code d && has_prefix p s

unfoldable contains_text : String → String → Bool
unfolding has_prefix
contains_text part [] = has_prefix part []
contains_text part (c ∷ s) = has_prefix part (c ∷ s) || contains_text part s

unfoldable pub ipmi_looks_real : String → Bool
unfolding contains_text
ipmi_looks_real text = contains_text "Device ID" text

pub record BmcCapability : Type 0 where
  pub host_id : ℤ
  pub fan_control : Bool
  pub power_control : Bool
  pub identify : Bool
  pub bmc_model : String
  pub firmware_version : String
  pub detail : String

-- What one call meets; `factory` is none where the service was made without a factory of executors,
-- and holds what the factory returns otherwise, which may be nil.
pub record Probe : Type 0 where
  pub host : Option (Option String)
  pub cred : CredentialRead
  pub opened : Bool
  pub factory : Option (Option Executor)

abbrev incapable : ℤ → String → BmcCapability
incapable host_id detail = record {
  host_id = host_id;
  fan_control = false;
  power_control = false;
  identify = false;
  bmc_model = "";
  firmware_version = "";
  detail = detail;
}

unfoldable pub capability_of : ℤ → Ran → BmcCapability
unfolding truncate_one_line ipmi_looks_real mc_info_field
capability_of host_id ran = elim ran.failed [
  | some e ↦ incapable host_id (truncate_one_line e 200)
  | none ↦
      if not (ipmi_looks_real ran.output)
      then incapable host_id "BMC 响应不是有效的 mc info 输出"
      else record {
        host_id = host_id;
        fan_control = true;
        power_control = true;
        identify = true;
        bmc_model = mc_info_field ran.output "Product Name";
        firmware_version = mc_info_field ran.output "Firmware Revision";
        detail = "";
      }
]

abbrev pub mc_info_call : List String
mc_info_call = "mc" ∷ "info" ∷ []

-- `var exec ipmi.Executor`, and the factory's result where there is one.
abbrev pub executor_of : Option (Option Executor) → Option Executor
executor_of none = none
executor_of (some made) = made

-- `exec.Run` on a nil interface panics.
unfoldable probed : ℤ → Option Executor → ServiceReturn BmcCapability
unfolding capability_of
probed host_id none = panicked
probed host_id (some exec) = returned (capability_of host_id (exec mc_info_call))

unfoldable probe_with : Probe → ℤ → CredentialRead → ServiceReturn BmcCapability
unfolding probed
probe_with pr host_id cred_missing = refused not_found_in_service
probe_with pr host_id cred_failed = refused other_error
probe_with pr host_id cred_read =
    if pr.opened then probed host_id (executor_of pr.factory) else refused other_error

unfoldable probe_addressed : Probe → ℤ → Option (Option String) → ServiceReturn BmcCapability
unfolding probe_with
probe_addressed pr host_id none = refused not_found_in_service
probe_addressed pr host_id (some none) = refused not_found_in_service
probe_addressed pr host_id (some (some ip)) =
    if str_eq ip "" then refused not_found_in_service else probe_with pr host_id pr.cred

unfoldable pub capability : Probe → ℤ → ServiceReturn BmcCapability
unfolding probe_addressed
capability pr host_id = probe_addressed pr host_id pr.host

-- The limit that `ListAudit` asks the store for.
unfoldable pub audit_limit : ℤ → ℤ
audit_limit limit = if leb_ℤ limit (pos 0) || ltb_ℤ (pos 500) limit then pos 100 else limit

-- What a call needs to come to the BMC: a host with an address, credentials, and a password that can
-- be decrypted.
pub record Reaches (pr : Probe) : Type 0 where
  pub ip : String
  pub has_address : pr.host ≡ some (some ip)
  pub not_blank : ip ≢ ""
  pub has_cred : pr.cred ≡ cred_read
  pub decrypted : pr.opened ≡ true

abbrev Panics : ServiceReturn BmcCapability → Probe → Type 0
Panics o pr = (o ≡ panicked) ↔ (Reaches pr × (executor_of pr.factory ≡ none))

not_Panics :
    (o : ServiceReturn BmcCapability) (pr : Probe) → o ≢ panicked → ¬ Reaches pr → Panics o pr
not_Panics o pr n r = (λ e. absurd (n e), λ p. absurd (r p.0))

module _ (pr : Probe) (host_id : ℤ) where
  probed-panicked : (o : Option Executor) → (probed host_id o ≡ panicked) ↔ (o ≡ none)
  unfolding probed
  probed-panicked none = (λ _. refl, λ _. refl)
  probed-panicked (some exec) = (λ e. absurd (ground (arith, e)), λ e. absurd (ground (arith, e)))

  refused-Panics : (e : ServiceError) → ¬ Reaches pr → Panics (refused e) pr
  refused-Panics e r = not_Panics (refused e) pr (λ h. ground (arith, h)) r

  probe_with-Panics :
      (ip : String) (r : CredentialRead)
      → pr.host ≡ some (some ip)
      → ip ≢ ""
      → pr.cred ≡ r
      → Panics (probe_with pr host_id r) pr
  unfolding probe_with
  probe_with-Panics ip cred_missing a b c =
      refused-Panics not_found_in_service (λ r. ground (arith, c, r.has_cred))
  probe_with-Panics ip cred_failed a b c =
      refused-Panics other_error (λ r. ground (arith, c, r.has_cred))
  probe_with-Panics ip cred_read a b c = elim (Bool-cases pr.opened) [
    | inl o ↦
        let iff = probed-panicked (executor_of pr.factory) in
        simp o (
          λ e. (
            record { ip = ip; has_address = a; not_blank = b; has_cred = c; decrypted = o },
            iff.0 e,
          ),
          λ p. iff.1 p.1,
        )
    | inr o ↦ simp o (refused-Panics other_error (λ r. ground (arith, o, r.decrypted)))
  ]

  probe_addressed-Panics :
      (h : Option (Option String)) → pr.host ≡ h → Panics (probe_addressed pr host_id h) pr
  unfolding probe_addressed
  probe_addressed-Panics none e =
      refused-Panics not_found_in_service (λ r. ground (arith, e, r.has_address))
  probe_addressed-Panics (some none) e =
      refused-Panics not_found_in_service (λ r. ground (arith, e, r.has_address))
  probe_addressed-Panics (some (some ip)) e = elim (Bool-cases (str_eq ip "")) [
    | inl b ↦ rw b (
        refused-Panics not_found_in_service
          (λ r. r.not_blank (ground (arith, e, r.has_address, (eq_iff ip "").0 b))))
    | inr b ↦
        rw b (probe_with-Panics ip pr.cred e (λ q. ground (arith, b, (eq_iff ip "").1 q)) refl)
  ]

  -- Capability panics exactly where the host has a BMC address, its credentials are read and
  -- decrypted, and the service has no factory of executors or one that returns nil.
  pub capability_panics :
      (capability pr host_id ≡ panicked) ↔ (Reaches pr × (executor_of pr.factory ≡ none))
  unfolding capability
  capability_panics = probe_addressed-Panics pr.host refl
