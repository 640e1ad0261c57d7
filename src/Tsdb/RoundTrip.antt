-- ===== src/Tsdb/RoundTrip.antt =====
-- What `encodeChunk` writes, `decodeChunk` reads back.
use mathlib.Core.List.{append_assoc, append-nil}
use metalwatch.Base.{
  ℕ, zero, suc, ◌+◌, ◌-◌, ◌%◌, ◌^◌, ◌≤◌, ◌<◌, min, ◌≡◌, refl, sym, ap, ◌∙◌, subst, Bool, true,
  false, some, List, [], ◌∷◌, ◌++◌, All, length, length-append, take, drop, drop-add, arith,
}
use metalwatch.Base.Bytes.{Bytes}
use metalwatch.Base.Int.{pos}
use metalwatch.Tsdb.{
  uvarint_bytes, varint_bytes, read_varint, little_endian, from_little, xor_bytes, got, xor_at,
  read_xor, delta_bytes, value_bytes, pair_bytes, encode_columns, encode_chunk, encode_version,
  read_deltas, read_values, read_pairs, read_columns, decode_points, decode_chunk,
}
use metalwatch.Tsdb.Varint.{read_uvarint-bytes, read_varint-bytes, read_word, length-little_endian}
use metalwatch.Tsdb.Xor.{xor_at-xor_bytes, drop-length}
use metalwatch.Tsdb.Size.{uvarint_bytes-le, delta_bytes-le, value_bytes-le, pair_bytes-le}

abbrev pub Words : List ℕ → Type 0
Words = All (λ (v : ℕ). v < 2 ^ 64)

-- Behind what stands at a position.
advance :
    (bytes xs tail : Bytes) (p : ℕ) → drop p bytes ≡ xs ++ tail → drop (p + length xs) bytes ≡ tail
advance bytes xs tail p h =
    sym (drop-add p (length xs) bytes) ∙ ap (drop (length xs)) h ∙ drop-length xs tail

read_xor-bytes :
    (bytes tail : Bytes) (v prev p : ℕ)
    → v < 2 ^ 64
    → prev < 2 ^ 64
    → p + 16 < 2 ^ 63
    → drop p bytes ≡ xor_bytes v prev ++ tail
    → read_xor bytes (pos p) prev ≡ got (v, pos (p + length (xor_bytes v prev)))
unfolding read_xor
read_xor-bytes bytes tail v prev p h k room e =
    ap (λ (z : Bytes). xor_at z p prev) e ∙ xor_at-xor_bytes v prev p tail h k room

read_values-bytes :
    (bytes tail : Bytes) (vs : List ℕ) (prev p : ℕ)
    → Words vs
    → prev < 2 ^ 64
    → p + length (value_bytes prev vs) + 16 < 2 ^ 63
    → drop p bytes ≡ value_bytes prev vs ++ tail
    → read_values (length vs) bytes (pos p) prev ≡ got vs
unfolding read_values value_bytes
read_values-bytes bytes tail [] prev p w k room e = refl
read_values-bytes bytes tail (v ∷ vs) prev p w k room e =
    let here = xor_bytes v prev in
    let rest = value_bytes v vs in
    let at = e ∙ append_assoc here rest tail in
    let width = length-append here rest in
    ground (
      arith,
      read_xor-bytes bytes (rest ++ tail) v prev p w.0 k (omega arith) at,
      read_values-bytes bytes tail vs v (p + length here) w.1 w.0 (omega (arith, width))
          (advance bytes here (rest ++ tail) p at),
    )

read_pairs-bytes :
    (bytes tail : Bytes) (avgs maxs : List ℕ) (prev_a prev_m p : ℕ)
    → Words avgs
    → Words maxs
    → length maxs ≡ length avgs
    → prev_a < 2 ^ 64
    → prev_m < 2 ^ 64
    → p + length (pair_bytes prev_a prev_m avgs maxs) + 16 < 2 ^ 63
    → drop p bytes ≡ pair_bytes prev_a prev_m avgs maxs ++ tail
    → read_pairs (length avgs) bytes (pos p) prev_a prev_m ≡ got (avgs, maxs)
unfolding read_pairs pair_bytes
read_pairs-bytes bytes tail [] [] prev_a prev_m p wa wm same ka km room e = refl
read_pairs-bytes bytes tail [] (m ∷ maxs) prev_a prev_m p wa wm same ka km room e =
    absurd (omega arith)
read_pairs-bytes bytes tail (a ∷ avgs) [] prev_a prev_m p wa wm same ka km room e =
    absurd (omega arith)
read_pairs-bytes bytes tail (a ∷ avgs) (m ∷ maxs) prev_a prev_m p wa wm same ka km room e =
    let first = xor_bytes a prev_a in
    let second = xor_bytes m prev_m in
    let rest = pair_bytes a m avgs maxs in
    let at = e ∙ append_assoc first (second ++ rest) tail in
    let at' = advance bytes first ((second ++ rest) ++ tail) p at ∙ append_assoc second rest tail in
    let width = length-append first (second ++ rest) in
    let width' = length-append second rest in
    ground (
      arith,
      read_xor-bytes bytes ((second ++ rest) ++ tail) a prev_a p wa.0 ka (omega arith) at,
      read_xor-bytes bytes (rest ++ tail) m prev_m (p + length first) wm.0 km (omega (arith, width))
          at',
      read_pairs-bytes bytes tail avgs maxs a m (p + length first + length second) wa.1 wm.1
          (omega arith) wa.0 wm.0 (omega (arith, width, width'))
          (advance bytes second (rest ++ tail) (p + length first) at'),
    )

read_deltas-bytes :
    (bytes tail : Bytes) (tss : List ℕ) (prev p : ℕ)
    → Words tss
    → prev < 2 ^ 64
    → drop p bytes ≡ delta_bytes prev tss ++ tail
    → read_deltas (length tss) bytes p prev ≡ got (tss, p + length (delta_bytes prev tss))
unfolding read_deltas delta_bytes
read_deltas-bytes bytes tail [] prev p w k e = ap (λ (q : ℕ). got ([], q)) (omega arith)
read_deltas-bytes bytes tail (t ∷ tss) prev p w k e =
    let delta = (t + 2 ^ 64 - prev) % 2 ^ 64 in
    let here = varint_bytes delta in
    let rest = delta_bytes t tss in
    let at = e ∙ append_assoc here rest tail in
    let back : (prev + delta) % 2 ^ 64 ≡ t = omega (arith, w.0) in
    ground (
      arith,
      back,
      ap read_varint at ∙ read_varint-bytes delta (rest ++ tail) (omega arith),
      read_deltas-bytes bytes tail tss t (p + length here) w.1 w.0
          (advance bytes here (rest ++ tail) p at),
      length-append here rest,
    )

-- The two ways to the values that follow the time stamps.
read_columns-value_bytes :
    (bytes : Bytes) (tss avgs : List ℕ) (a p : ℕ)
    → Words (a ∷ avgs)
    → p + 8 + length (value_bytes a avgs) + 16 < 2 ^ 63
    → drop p bytes ≡ little_endian 8 a ++ value_bytes a avgs
    → read_columns (length avgs) bytes p tss false
      ≡ got (record { tss = tss; avg = a ∷ avgs; max = [] })
unfolding read_columns
read_columns-value_bytes bytes tss avgs a p w room e =
    let width = length-little_endian 8 a in
    let behind =
      subst (λ (n : ℕ). drop (p + n) bytes ≡ value_bytes a avgs) width
        (advance bytes (little_endian 8 a) (value_bytes a avgs) p e)
      ∙ sym (append-nil (value_bytes a avgs)) in
    ground (
      arith,
      ap (from_little 8) e ∙ read_word a (value_bytes a avgs) w.0,
      read_values-bytes bytes [] avgs a (p + 8) w.1 w.0 room behind,
    )

read_columns-pair_bytes :
    (bytes : Bytes) (tss avgs maxs : List ℕ) (a m p : ℕ)
    → Words (a ∷ avgs)
    → Words (m ∷ maxs)
    → length maxs ≡ length avgs
    → p + 16 + length (pair_bytes a m avgs maxs) + 16 < 2 ^ 63
    → drop p bytes ≡ little_endian 8 a ++ (little_endian 8 m ++ pair_bytes a m avgs maxs)
    → read_columns (length avgs) bytes p tss true
      ≡ got (record { tss = tss; avg = a ∷ avgs; max = m ∷ maxs })
unfolding read_columns
read_columns-pair_bytes bytes tss avgs maxs a m p wa wm same room e =
    let rest = pair_bytes a m avgs maxs in
    let second =
      subst (λ (n : ℕ). drop (p + n) bytes ≡ little_endian 8 m ++ rest) (length-little_endian 8 a)
        (advance bytes (little_endian 8 a) (little_endian 8 m ++ rest) p e) in
    let behind =
      subst (λ (n : ℕ). drop (p + 8 + n) bytes ≡ rest) (length-little_endian 8 m)
        (advance bytes (little_endian 8 m) rest (p + 8) second) in
    let sum : p + 8 + 8 ≡ p + 16 = omega arith in
    ground (
      arith,
      ap (from_little 8) e ∙ read_word a (little_endian 8 m ++ rest) wa.0,
      ap (from_little 8) second ∙ read_word m rest wm.0,
      read_pairs-bytes bytes [] avgs maxs a m (p + 16) wa.1 wm.1 same wa.0 wm.0 room
          (ap (λ (n : ℕ). drop n bytes) (sym sum) ∙ behind ∙ sym (append-nil rest)),
    )

-- Up to the values, the two tiers are read alike.
decode_chunk-header :
    (t : ℕ) (ts : List ℕ) (columns : Bytes) (agg : Bool)
    → Words (t ∷ ts)
    → let bytes = encode_version ∷ (uvarint_bytes t ++ (delta_bytes t ts ++ columns)) in
      let p = 1 + length (uvarint_bytes t) + length (delta_bytes t ts) in
      (decode_chunk bytes (suc (length ts)) agg ≡ read_columns (length ts) bytes p (t ∷ ts) agg)
      × (drop p bytes ≡ columns)
unfolding decode_chunk decode_points
decode_chunk-header t ts columns agg w =
    let head = uvarint_bytes t in
    let deltas = delta_bytes t ts in
    let bytes = encode_version ∷ (head ++ (deltas ++ columns)) in
    let at = advance bytes head (deltas ++ columns) 1 refl in
    (
      ground (
        arith,
        read_uvarint-bytes t (deltas ++ columns) w.0,
        read_deltas-bytes bytes columns ts t (1 + length head) w.1 w.0 at,
      ),
      advance bytes deltas columns (1 + length head) at,
    )

-- The columns of a chunk in its tier: the second one is written for aggregates only.
abbrev pub second_column : Bool → List ℕ → List ℕ
second_column true max = max
second_column false max = []

encode-decode_columns :
    (tss avg max : List ℕ) (agg : Bool)
    → Words tss
    → Words avg
    → Words max
    → 0 < length tss
    → length tss ≤ 2 ^ 56
    → length avg ≡ length tss
    → length max ≡ length tss
    → (bytes : Bytes) × (encode_columns tss avg max agg ≡ some bytes)
      × (decode_chunk bytes (length tss) agg
          ≡ got (record { tss = tss; avg = avg; max = second_column agg max }))
unfolding encode_columns
encode-decode_columns [] avg max agg wt wa wm ne few ea em = absurd (omega arith)
encode-decode_columns (t ∷ ts) [] max agg wt wa wm ne few ea em = absurd (omega arith)
encode-decode_columns (t ∷ ts) (a ∷ avgs) [] agg wt wa wm ne few ea em = absurd (omega arith)
encode-decode_columns (t ∷ ts) (a ∷ avgs) (m ∷ maxs) false wt wa wm ne few ea em =
    let columns = little_endian 8 a ++ value_bytes a avgs in
    let (read, at) = decode_chunk-header t ts columns false wt in
    let same : length ts ≡ length avgs = omega arith in
    let p = 1 + length (uvarint_bytes t) + length (delta_bytes t ts) in
    let bytes = encode_version ∷ (uvarint_bytes t ++ (delta_bytes t ts ++ columns)) in
    (
      bytes,
      refl,
      read
          ∙ ap (λ (n : ℕ). read_columns n bytes p (t ∷ ts) false) same
          ∙ read_columns-value_bytes bytes (t ∷ ts) avgs a p wa
              (omega (arith, uvarint_bytes-le t, delta_bytes-le t ts, value_bytes-le a avgs)) at,
    )
encode-decode_columns (t ∷ ts) (a ∷ avgs) (m ∷ maxs) true wt wa wm ne few ea em =
    let columns = little_endian 8 a ++ (little_endian 8 m ++ pair_bytes a m avgs maxs) in
    let (read, at) = decode_chunk-header t ts columns true wt in
    let same : length ts ≡ length avgs = omega arith in
    let p = 1 + length (uvarint_bytes t) + length (delta_bytes t ts) in
    let bytes = encode_version ∷ (uvarint_bytes t ++ (delta_bytes t ts ++ columns)) in
    (
      bytes,
      refl,
      read
          ∙ ap (λ (n : ℕ). read_columns n bytes p (t ∷ ts) true) same
          ∙ read_columns-pair_bytes bytes (t ∷ ts) avgs maxs a m p wa wm (omega arith)
              (omega (arith, uvarint_bytes-le t, delta_bytes-le t ts, pair_bytes-le a m avgs maxs))
              at,
    )

take-all {ℓ} : {A : Type ℓ} (n : ℕ) (xs : List A) → length xs ≤ n → take n xs ≡ xs
take-all zero [] h = refl
take-all (suc n) [] h = refl
take-all zero (x ∷ xs) h = absurd (omega arith)
take-all (suc n) (x ∷ xs) h = ap (◌∷◌ x) (take-all n xs (omega arith))

-- Columns of 64-bit words and of one length, of 1 to 2^56 points, are encoded, and decoding that
-- many points from the result gives them back, in the tier of single values without the second
-- column.
pub decode_chunk-encode_chunk :
    (tss avg max : List ℕ) (agg : Bool)
    → Words tss
    → Words avg
    → Words max
    → 0 < length tss
    → length tss ≤ 2 ^ 56
    → length avg ≡ length tss
    → length max ≡ length tss
    → (bytes : Bytes) × (encode_chunk tss avg max agg ≡ some bytes)
      × (decode_chunk bytes (length tss) agg
          ≡ got (record { tss = tss; avg = avg; max = second_column agg max }))
unfolding encode_chunk
decode_chunk-encode_chunk tss avg max false wt wa wm ne few ea em =
    encode-decode_columns tss avg max false wt wa wm ne few ea em
decode_chunk-encode_chunk tss avg max true wt wa wm ne few ea em =
    let n = min (length tss) (min (length avg) (length max)) in
    let (bytes, e, d) = encode-decode_columns tss avg max true wt wa wm ne few ea em in
    (
      bytes,
      rw (take-all n tss (omega arith), take-all n avg (omega arith), take-all n max (omega arith))
          e,
      d,
    )
