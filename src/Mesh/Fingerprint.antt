-- ===== src/Mesh/Fingerprint.antt =====
-- `fingerprint`, backend/internal/engine/mesh_engine.go: the sum by which `Compute` sees whether the
-- probes have changed. The formats are those of Go on a 64-bit machine (amd64).
use Prim.Native.Char.{code}
use Prim.Native.String.{[], ◌∷◌}
use Prim.Native.Nat.{bit_xor}
use metalwatch.Base.{
  ℕ, zero, suc, ◌+◌, ◌*◌, ◌/◌, ◌%◌, ◌^◌, String, Bool, ◌&&◌, not, Option, none, some, List, [], ◌∷◌,
  ◌++◌, str_eq, str_gt, ltb, if◌then◌else◌,
}
use metalwatch.Base.Int.{ℤ, pos, negsuc}
use metalwatch.Base.Bytes.{Bytes}
use metalwatch.Base.Float.{Float64, feq, flt}
use metalwatch.Base.Float.Sum.{fmul, truncated}
use metalwatch.Mesh.Graph.{LinkProbe}

-- UTF-8, as `[]byte(s)` gives it.
abbrev char_bytes : ℕ → Bytes
char_bytes c =
    if ltb c 128
    then c ∷ []
    else if ltb c 2048
    then (192 + c / 64) ∷ (128 + c % 64) ∷ []
    else if ltb c 65536
    then (224 + c / 4096) ∷ (128 + c / 64 % 64) ∷ (128 + c % 64) ∷ []
    else (240 + c / 262144) ∷ (128 + c / 4096 % 64) ∷ (128 + c / 64 % 64) ∷ (128 + c % 64) ∷ []

unfoldable text_bytes : String → Bytes
text_bytes [] = []
text_bytes (c ∷ s) = char_bytes (code c) ++ text_bytes s

unfoldable decimal_digits : ℕ → ℕ → Bytes → Bytes
decimal_digits zero n rest = rest
decimal_digits (suc left) n rest =
    let more = decimal_digits left (n / 10) ((48 + n % 10) ∷ rest) in
    if ltb n 10 then (48 + n) ∷ rest else more

-- `strconv.Itoa`: a 64-bit integer has at most 19 decimal_digits.
abbrev itoa : ℤ → Bytes
unfolding decimal_digits
itoa (pos n) = decimal_digits 20 n []
itoa (negsuc n) = 45 ∷ decimal_digits 20 (suc n) []

-- FNV-1a, 64 bits.
unfoldable fnv64a : ℕ → Bytes → ℕ
fnv64a h [] = h
fnv64a h (b ∷ bytes) = fnv64a (bit_xor h b * 1099511628211 % 2 ^ 64) bytes

-- The order of `sort.Slice`.
unfoldable pub probe_before : LinkProbe → LinkProbe → Bool
unfolding feq flt
probe_before a b =
    if not (str_eq a.from_agent b.from_agent)
    then str_gt b.from_agent a.from_agent
    else if not (str_eq a.to_agent b.to_agent)
    then str_gt b.to_agent a.to_agent
    else if not (feq a.rtt_ms b.rtt_ms)
    then flt a.rtt_ms b.rtt_ms
    else if not (feq a.loss_rate b.loss_rate)
    then flt a.loss_rate b.loss_rate
    else not a.direct && b.direct

-- Each probe goes behind those that are not after it.
unfoldable put_probe : LinkProbe → List LinkProbe → List LinkProbe
unfolding probe_before
put_probe p [] = p ∷ []
put_probe p (q ∷ ps) =
    let later = put_probe p ps in if probe_before p q then p ∷ q ∷ ps else q ∷ later

unfoldable sort_probes : List (Option LinkProbe) → List LinkProbe → List LinkProbe
unfolding put_probe
sort_probes [] ps = ps
sort_probes (none ∷ probes) ps = sort_probes probes ps
sort_probes (some p ∷ probes) ps = sort_probes probes (put_probe p ps)

abbrev million : Float64
million = 0x412e848000000000

-- What the hasher reads of a probe.
unfoldable pub probe_bytes : LinkProbe → Bytes
unfolding text_bytes itoa truncated fmul
probe_bytes p =
    text_bytes p.from_agent
    ++ (0 ∷ [])
    ++ (text_bytes p.to_agent ++ (0 ∷ []))
    ++ (itoa (truncated p.rtt_ms) ++ (0 ∷ []))
    ++ (itoa (truncated (fmul p.loss_rate million)) ++ (0 ∷ []))
    ++ (if p.direct then 1 ∷ 0 ∷ [] else 0 ∷ [])

unfoldable all_bytes : List LinkProbe → Bytes
unfolding probe_bytes
all_bytes [] = []
all_bytes (p ∷ ps) = probe_bytes p ++ all_bytes ps

-- `hasher.Sum(nil)`, by its value: the eight bytes are its decimal_digits.
unfoldable pub fingerprint : List (Option LinkProbe) → ℕ
unfolding fnv64a sort_probes all_bytes
fingerprint probes = fnv64a 14695981039346656037 (all_bytes (sort_probes probes []))
