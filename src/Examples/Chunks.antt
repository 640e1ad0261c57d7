-- ===== src/Examples/Chunks.antt =====
-- Chunks of three points in both tiers, and damaged ones.
use metalwatch.Base.{◌++◌, ◌-◌, ◌≡◌, refl, true, false, some, [], ◌∷◌, arith, ◌^◌}
use metalwatch.Base.Bytes.{Bytes}
use metalwatch.Tsdb.{
  xor_at, xor_fields, xor_body, join_bytes, read_xor, read_uvarint, uvarint_loop, read_varint,
  unzigzag, little_endian, from_little, uvarint_bytes, uvarint_groups, encode_chunk, decode_chunk,
  read_deltas, read_values, read_columns, decode_points, got, panics,
}
use metalwatch.Tsdb.RoundTrip.{decode_chunk-encode_chunk}

decode_chunk-encode_chunk_example :
    (bytes : Bytes) × (encode_chunk (5 ∷ 35 ∷ 4 ∷ []) (7 ∷ 7 ∷ 256 ∷ []) (1 ∷ 2 ∷ 3 ∷ []) true
      ≡ some bytes)
    × (decode_chunk bytes 3 true
        ≡ got (record { tss = 5 ∷ 35 ∷ 4 ∷ []; avg = 7 ∷ 7 ∷ 256 ∷ []; max = 1 ∷ 2 ∷ 3 ∷ [] }))
decode_chunk-encode_chunk_example =
    decode_chunk-encode_chunk (5 ∷ 35 ∷ 4 ∷ []) (7 ∷ 7 ∷ 256 ∷ []) (1 ∷ 2 ∷ 3 ∷ []) true
      (omega arith, (omega arith, (omega arith, tt)))
      (omega arith, (omega arith, (omega arith, tt)))
      (omega arith, (omega arith, (omega arith, tt))) (omega arith) (omega arith) refl refl

-- 100 zero bytes in front and 2 ^ 64 - 100 behind: the sum wraps to 0, and the next read stands
-- before the data.
abbrev damaged : Bytes
damaged =
    1 ∷ 0 ∷ 0 ∷ 0 ∷ (little_endian 8 0 ++ (1 ∷ (uvarint_bytes 100 ++ uvarint_bytes (2 ^ 64 - 100))))

damaged_panics : decode_chunk damaged 3 false ≡ panics
unfolding decode_chunk decode_points read_deltas read_values read_columns read_xor xor_at xor_fields
    xor_body join_bytes read_uvarint uvarint_loop read_varint unzigzag little_endian from_little
    uvarint_bytes uvarint_groups
damaged_panics = refl
