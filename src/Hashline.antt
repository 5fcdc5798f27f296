-- ===== src/Hashline.antt =====
-- internal/tool/hashline/hashline.go: three characters that stand for a line's content.
mod Tests
use Prim.Native.Nat.{bit_xor}
use kontekst.Prelude.{
  ℕ, zero, suc, ◌+◌, ◌-◌, ◌*◌, ◌/◌, ◌%◌, List, [], ◌∷◌, Bytes, ◌==◌, ltb, get_or, codes, some, none,
  Option, length, if◌then◌else◌,
}

-- crc32.ChecksumIEEE, bit by bit: `rounds` shifts of one byte's worth.
unfoldable pub crc_shift : (rounds : ℕ) → ℕ → ℕ
crc_shift zero crc = crc
crc_shift (suc n) crc = crc_shift n (if crc % 2 == 1 then bit_xor (crc / 2) 0xedb88320 else crc / 2)

unfoldable pub crc_update : ℕ → Bytes → ℕ
crc_update crc [] = crc
crc_update crc (b ∷ bs) = crc_update (crc_shift 8 (bit_xor crc b)) bs

unfoldable pub checksum_ieee : Bytes → ℕ
checksum_ieee bs = bit_xor (crc_update 0xffffffff bs) 0xffffffff

-- The alphabet of base64.RawURLEncoding.
unfoldable pub base64_char : ℕ → ℕ
base64_char n =
    get_or (codes "ABCDEFGHIJKLMNOPQRSTUVWXYZabcdefghijklmnopqrstuvwxyz0123456789-_") n 0

-- The first three characters of the encoding of the checksum's four bytes: its top 18 bits.
unfoldable pub compute_line_hash : Bytes → Bytes
compute_line_hash line =
    let crc = checksum_ieee line % 0x100000000 in
    base64_char (crc / 0x4000000)
    ∷ base64_char (crc / 0x100000 % 64)
    ∷ base64_char (crc / 0x4000 % 64)
    ∷ []

-- A map from the 1-based line numbers to the hashes.
unfoldable pub generate_hash_map : List Bytes → ℕ → Option Bytes
generate_hash_map [] n = none
generate_hash_map (l ∷ ls) zero = none
generate_hash_map (l ∷ ls) (suc n) =
    if n == 0 then some (compute_line_hash l) else generate_hash_map ls n
