-- ===== src/Tsdb/Xor.antt =====
-- A value survives its mixing with the value before it.
use Prim.Native.Nat.{bit_xor}
use native.Mathlib.Nat.{
  pow-suc, pow-le-pow_right, one-le-pow, div-div-eq-div-mul, div-lt_iff_lt-mul, div-le_self,
  div-eq_of_lt, div-eq_of_eq-mul_left,
}
use mathlib.Core.List.{append_assoc}
use metalwatch.Base.{
  ℕ, zero, suc, ◌+◌, ◌-◌, ◌*◌, ◌/◌, ◌%◌, ◌^◌, ◌≤◌, ◌<◌, ◌≡◌, ◌≢◌, refl, sym, ap, ◌∙◌, subst, List,
  [], ◌∷◌, ◌++◌, length, take, drop, length-append, arith, ◌==◌, Bool-cases, inl, inr, ◌⊎◌,
}
use metalwatch.Base.Bytes.{Bytes}
use metalwatch.Base.Bits.{bit_xor-lt, bit_xor_twice, zero-bit_xor}
use metalwatch.Base.Int.{pos}
use metalwatch.Tsdb.{
  uvarint_bytes, uvarint_groups, xor_fields, lead_zeros, trail_zeros, bytes_down, xor_bytes, got,
  join_bytes, xor_body, xor_at,
}
use metalwatch.Tsdb.Varint.{read_uvarint-bytes}

top_clear : (p x : ℕ) → x < 256 ^ suc p → x / 256 ^ p % 256 ≡ 0 → x < 256 ^ p
top_clear p x h z =
    let d = 256 ^ p in
    let up : 0 < d = one-le-pow p 256 (omega arith) in
    let q : x / d < 256 = (div-lt_iff_lt-mul up).1 (omega (arith, pow-suc 256 p)) in
    omega (arith, (div-lt_iff_lt-mul {x = x} {y = 1} up).0 (omega (arith, q, z)))

-- The bytes from place p - 1 down that are 0 can go.
lead_zeros-bound : (p x : ℕ) → x < 256 ^ p → (lead_zeros p x ≤ p) × (x < 256 ^ (p - lead_zeros p x))
unfolding lead_zeros
lead_zeros-bound zero x h = (omega arith, h)
lead_zeros-bound (suc p) x h = elim (Bool-cases (x / 256 ^ p % 256 == 0)) [
  | inl clear ↦ rw clear (
      let (le, lt) = lead_zeros-bound p x (top_clear p x h (ground arith)) in
      (omega (arith, le), subst (λ (n : ℕ). x < 256 ^ n) (omega arith) lt))
  | inr set ↦ rw set (omega arith, subst (λ (n : ℕ). x < 256 ^ n) (omega arith) h)
]

-- The bytes from place i up that are 0 divide it.
trail_zeros-divides :
    (left i x q : ℕ)
    → x ≡ q * 256 ^ i
    → (r : ℕ) × (x ≡ r * 256 ^ (i + trail_zeros left i x)) × (trail_zeros left i x ≤ left)
unfolding trail_zeros
trail_zeros-divides zero i x q h = (q, h ∙ ap (λ (n : ℕ). q * 256 ^ n) (omega arith), omega arith)
trail_zeros-divides (suc left) i x q h = elim (Bool-cases (x / 256 ^ i % 256 == 0)) [
  | inl clear ↦
      let up : 0 < 256 ^ i = one-le-pow i 256 (omega arith) in
      let quot : x / 256 ^ i ≡ q = div-eq_of_eq-mul_left up h in
      let whole : q ≡ q / 256 * 256 = ground arith in
      let again : x ≡ q / 256 * 256 ^ suc i = omega (
        arith,
        h,
        ap (λ (t : ℕ). q / 256 * t) (pow-suc 256 i),
        ap (λ (t : ℕ). t * 256 ^ i) whole,
      ) in
      let (r, e, le) = trail_zeros-divides left (suc i) x (q / 256) again in
      rw clear (r, e ∙ ap (λ (n : ℕ). r * 256 ^ n) (omega arith), omega (arith, le))
  | inr set ↦ rw set (q, h ∙ ap (λ (n : ℕ). q * 256 ^ n) (omega arith), omega arith)
]

next_byte :
    (x k : ℕ) → x < 2 ^ 64 → x / 256 ^ suc k * 256 % 2 ^ 64 + x / 256 ^ k % 256 ≡ x / 256 ^ k
next_byte x k h =
    let z = x / 256 ^ k in
    let high : z / 256 ≡ x / 256 ^ suc k =
      div-div-eq-div-mul x (256 ^ k) 256 ∙ ap (λ (d : ℕ). x / d) (sym (pow-suc 256 k)) in
    let below : z ≤ x = div-le_self x (256 ^ k) in omega (arith, high, below)

-- The bytes from place t + n - 1 down to place t, behind what stands above them.
join-bytes_down :
    (n t x : ℕ)
    → x < 2 ^ 64
    → join_bytes (x / 256 ^ (t + n)) (bytes_down n (t + n - 1) x) ≡ x / 256 ^ t
unfolding join_bytes bytes_down
join-bytes_down zero t x h = ap (λ (k : ℕ). x / 256 ^ k) (omega arith)
join-bytes_down (suc n) t x h =
    let place : t + suc n - 1 ≡ t + n = omega arith in
    let above : t + suc n ≡ suc (t + n) = omega arith in
    rw (place, above, next_byte x (t + n) h) (join-bytes_down n t x h)

multiple_ge : (r d : ℕ) → r * d ≢ 0 → d ≤ r * d
multiple_ge zero d h = absurd (h (omega arith))
multiple_ge (suc r) d h = omega arith

-- A number that is not 0 has a byte between the clear ones above and below.
significant_room :
    (x lead t r : ℕ) → x ≢ 0 → lead ≤ 8 → x < 256 ^ (8 - lead) → x ≡ r * 256 ^ t → lead + t ≤ 7
significant_room x lead t r nz le lt e =
    let cases : (lead + t ≤ 7) ⊎ (8 - lead ≤ t) = omega arith in
    elim cases [
      | inl room ↦ room
      | inr over ↦
          let wide = pow-le-pow_right {n = 256} (omega arith) over in
          absurd (omega (arith, wide, lt, e, multiple_ge r (256 ^ t) (λ z. nz (e ∙ z))))
    ]

-- A word that is not 0 is its significant bytes, moved up past the clear ones below them.
join_significant :
    (x : ℕ)
    → x < 2 ^ 64
    → x ≢ 0
    → let lead = lead_zeros 8 x in
      let sig = 8 - lead - trail_zeros 8 0 x in
      (lead + sig ≤ 8) × (join_bytes 0 (bytes_down sig (7 - lead) x) * 256 ^ (8 - (lead + sig)) ≡ x)
join_significant x h nz =
    let lead = lead_zeros 8 x in
    let t = trail_zeros 8 0 x in
    let (le, lt) = lead_zeros-bound 8 x (omega arith) in
    let (r, e, tle) = trail_zeros-divides 8 0 x x (omega arith) in
    let room =
      significant_room x lead t r nz le lt (e ∙ ap (λ (n : ℕ). r * 256 ^ n) (omega arith)) in
    let sig = 8 - lead - t in
    let top : t + sig ≡ 8 - lead = omega (arith, room) in
    let clear : x / 256 ^ (t + sig) ≡ 0 = ap (λ (n : ℕ). x / 256 ^ n) top ∙ div-eq_of_lt lt in
    let start : t + sig - 1 ≡ 7 - lead = omega (arith, room) in
    let low : 8 - (lead + sig) ≡ t = omega (arith, room) in
    let up : 0 < 256 ^ t = one-le-pow t 256 (omega arith) in
    let whole : x ≡ r * 256 ^ t = e ∙ ap (λ (n : ℕ). r * 256 ^ n) (omega arith) in
    let quot : x / 256 ^ t ≡ r = div-eq_of_eq-mul_left up whole in
    (
      omega (arith, room),
      ap (λ (n : ℕ). join_bytes 0 (bytes_down sig (7 - lead) x) * 256 ^ n) low
          ∙ ap (λ (y : ℕ). y * 256 ^ t)
              (ap (λ (z : ℕ). join_bytes z (bytes_down sig (7 - lead) x)) (sym clear)
                ∙ ap (λ (p : ℕ). join_bytes (x / 256 ^ (t + sig)) (bytes_down sig p x)) (sym start)
                ∙ join-bytes_down sig t x h
                ∙ quot)
          ∙ sym whole,
    )

pub length-bytes_down : (n p x : ℕ) → length (bytes_down n p x) ≡ n
unfolding bytes_down
length-bytes_down zero p x = refl
length-bytes_down (suc n) p x = ap suc (length-bytes_down n (p - 1) x)

bit_xor-zero_eq : (v prev : ℕ) → v < 2 ^ 64 → prev < 2 ^ 64 → bit_xor v prev ≡ 0 → prev ≡ v
bit_xor-zero_eq v prev h k e =
    sym (zero-bit_xor prev) ∙ ap (λ (x : ℕ). bit_xor x prev) (sym e) ∙ bit_xor_twice 64 v prev h k

module _ {ℓ} {A : Type ℓ} where
  pub drop-length : (xs ys : List A) → drop (length xs) (xs ++ ys) ≡ ys
  drop-length [] ys = refl
  drop-length (x ∷ xs) ys = drop-length xs ys

  pub take-length : (xs ys : List A) → take (length xs) (xs ++ ys) ≡ xs
  take-length [] ys = refl
  take-length (x ∷ xs) ys = ap (◌∷◌ x) (take-length xs ys)

-- The end of `readXOR` on fields that fit a word and data that reach.
xor_body-got :
    (body : Bytes) (p lead sig prev x : ℕ)
    → lead + sig ≤ 8
    → p + 8 < 2 ^ 63
    → sig ≤ length body
    → x < 2 ^ 64
    → join_bytes 0 (take sig body) * 256 ^ (8 - (lead + sig)) ≡ x
    → xor_body body p lead sig prev ≡ got (bit_xor x prev, pos (p + sig))
unfolding xor_body
xor_body-got body p lead sig prev x fit room long h e =
    let used : (lead + sig) % 2 ^ 64 ≡ lead + sig = omega arith in
    let word : join_bytes 0 (take sig body) * 256 ^ (8 - (lead + sig)) % 2 ^ 64 ≡ x =
      omega (arith, e) in
    rw used (rw word (ground arith))

-- Where the significant bytes stand in the data, they give the value back.
xor_body-significant :
    (v prev p : ℕ) (tail : Bytes)
    → v < 2 ^ 64
    → prev < 2 ^ 64
    → bit_xor v prev ≢ 0
    → p + 8 < 2 ^ 63
    → let x = bit_xor v prev in
      let lead = lead_zeros 8 x in
      let sig = 8 - lead - trail_zeros 8 0 x in
      xor_body (bytes_down sig (7 - lead) x ++ tail) p lead sig prev ≡ got (v, pos (p + sig))
xor_body-significant v prev p tail h k nz room =
    let x = bit_xor v prev in
    let lead = lead_zeros 8 x in
    let sig = 8 - lead - trail_zeros 8 0 x in
    let bs = bytes_down sig (7 - lead) x in
    let (fit, joined) = join_significant x (bit_xor-lt 64 v prev h k) nz in
    let count = length-bytes_down sig (7 - lead) x in
    let taken : take sig (bs ++ tail) ≡ bs =
      ap (λ (n : ℕ). take n (bs ++ tail)) (sym count) ∙ take-length bs tail in
    let reach : sig ≤ length (bs ++ tail) = omega (arith, count, length-append bs tail) in
    xor_body-got (bs ++ tail) p lead sig prev x fit room reach (bit_xor-lt 64 v prev h k)
      (ap (λ (z : Bytes). join_bytes 0 z * 256 ^ (8 - (lead + sig))) taken ∙ joined)
    ∙ ap (λ (w : ℕ). got (w, pos (p + sig))) (bit_xor_twice 64 v prev h k)

xor_fields-bytes :
    (lead sig p prev : ℕ) (body : Bytes)
    → lead ≤ 8
    → sig ≤ 8
    → xor_fields (uvarint_bytes lead ++ (uvarint_bytes sig ++ body)) p prev
      ≡ xor_body body (p + length (uvarint_bytes lead) + length (uvarint_bytes sig)) lead sig prev
unfolding xor_fields
xor_fields-bytes lead sig p prev body h k = ground (
  arith,
  read_uvarint-bytes lead (uvarint_bytes sig ++ body) (omega arith),
  drop-length (uvarint_bytes lead) (uvarint_bytes sig ++ body),
  read_uvarint-bytes sig body (omega arith),
  drop-length (uvarint_bytes sig) body,
)

small_uvarint : (n : ℕ) → n ≤ 8 → length (uvarint_bytes n) ≡ 1
unfolding uvarint_bytes uvarint_groups
small_uvarint n h = ground arith

-- `readXOR` at the start of what `appendXOR` wrote gives the value, and stops behind it.
pub xor_at-xor_bytes :
    (v prev p : ℕ) (tail : Bytes)
    → v < 2 ^ 64
    → prev < 2 ^ 64
    → p + 16 < 2 ^ 63
    → xor_at (xor_bytes v prev ++ tail) p prev ≡ got (v, pos (p + length (xor_bytes v prev)))
unfolding xor_at xor_bytes
xor_at-xor_bytes v prev p tail h k room = elim (Bool-cases (bit_xor v prev == 0)) [
  | inl same ↦
      rw same (ap (λ (w : ℕ). got (w, pos (p + 1))) (bit_xor-zero_eq v prev h k (ground arith)))
  | inr other ↦
      let nz : bit_xor v prev ≢ 0 = ground arith in
      let x = bit_xor v prev in
      let lead = lead_zeros 8 x in
      let sig = 8 - lead - trail_zeros 8 0 x in
      let (fit, _) = join_significant x (bit_xor-lt 64 v prev h k) nz in
      let bs = bytes_down sig (7 - lead) x in
      let one = small_uvarint lead (omega (arith, fit)) in
      let two = small_uvarint sig (omega (arith, fit)) in
      let split =
        append_assoc (uvarint_bytes lead) (uvarint_bytes sig ++ bs) tail
        ∙ ap (◌++◌ (uvarint_bytes lead)) (append_assoc (uvarint_bytes sig) bs tail) in
      let width = length-append (uvarint_bytes lead) (uvarint_bytes sig ++ bs) in
      let width' = length-append (uvarint_bytes sig) bs in
      let end : p + 1 + length (uvarint_bytes lead) + length (uvarint_bytes sig) + sig
          ≡ p + suc (length (uvarint_bytes lead ++ (uvarint_bytes sig ++ bs))) =
        omega (arith, width, width', length-bytes_down sig (7 - lead) x) in
      rw other (
        ap (λ (z : Bytes). xor_fields z (p + 1) prev) split
        ∙ xor_fields-bytes lead sig (p + 1) prev (bs ++ tail) (omega (arith, fit))
            (omega (arith, fit))
        ∙ xor_body-significant v prev _ tail h k nz (omega (arith, one, two))
        ∙ ap (λ (q : ℕ). got (v, pos q)) end)
]
