-- ===== src/Tsdb/Varint.antt =====
-- Numbers of up to 64 bits survive their variable-length encodings.
use metalwatch.Base.{
  ℕ, zero, suc, ◌+◌, ◌*◌, ◌/◌, ◌%◌, ◌^◌, ◌<◌, ◌≡◌, refl, ap, some, ◌++◌, length, arith,
}
use native.Mathlib.Nat.{pow-suc, div-add-mod}
use metalwatch.Base.Bytes.{Bytes}
use metalwatch.Tsdb.{
  uvarint_groups, uvarint_bytes, uvarint_loop, read_uvarint, zigzag, unzigzag, varint_bytes,
  read_varint, little_endian, from_little,
}

unzigzag-zigzag : (w : ℕ) → w < 2 ^ 64 → unzigzag (zigzag w) ≡ w
unfolding unzigzag zigzag
unzigzag-zigzag w h = ground arith

zigzag-lt : (w : ℕ) → w < 2 ^ 64 → zigzag w < 2 ^ 64
unfolding zigzag
zigzag-lt w h = ground arith

split_place : (v place : ℕ) → v * place ≡ v % 128 * place + v / 128 * (place * 128)
split_place v place = omega (arith, ap (λ (t : ℕ). t * place) (div-add-mod v 128))

uvarint_loop-groups :
    (left v sum place n : ℕ) (rest : Bytes)
    → v < 2 * 128 ^ left
    → uvarint_loop (suc left) (uvarint_groups left v ++ rest) sum place n
      ≡ some (sum + v * place, n + length (uvarint_groups left v))
unfolding uvarint_loop uvarint_groups
uvarint_loop-groups zero v sum place n rest h = ground arith
uvarint_loop-groups (suc left) v sum place n rest h = ground (
  arith,
  pow-suc 128 left,
  split_place v place,
  uvarint_loop-groups left (v / 128) (sum + v % 128 * place) (place * 128) (suc n) rest,
)

pub read_uvarint-bytes :
    (v : ℕ) (rest : Bytes)
    → v < 2 ^ 64
    → read_uvarint (uvarint_bytes v ++ rest) ≡ some (v, length (uvarint_bytes v))
unfolding read_uvarint uvarint_bytes
read_uvarint-bytes v rest h = ground (arith, uvarint_loop-groups 9 v 0 1 0 rest)

pub read_varint-bytes :
    (w : ℕ) (rest : Bytes)
    → w < 2 ^ 64
    → read_varint (varint_bytes w ++ rest) ≡ some (w, length (varint_bytes w))
unfolding read_varint varint_bytes
read_varint-bytes w rest h =
    ground (arith, read_uvarint-bytes (zigzag w) rest (zigzag-lt w h), unzigzag-zigzag w h)

from_little-endian :
    (k v : ℕ) (rest : Bytes) → v < 256 ^ k → from_little k (little_endian k v ++ rest) ≡ some v
unfolding from_little little_endian
from_little-endian zero v rest h = ground arith
from_little-endian (suc k) v rest h =
    ground (arith, pow-suc 256 k, from_little-endian k (v / 256) rest)

pub read_word :
    (v : ℕ) (rest : Bytes) → v < 2 ^ 64 → from_little 8 (little_endian 8 v ++ rest) ≡ some v
read_word v rest h = from_little-endian 8 v rest (omega arith)

pub length-little_endian : (k v : ℕ) → length (little_endian k v) ≡ k
unfolding little_endian
length-little_endian zero v = refl
length-little_endian (suc k) v = ap suc (length-little_endian k (v / 256))
