-- ===== src/Hashline/Tests.antt =====
-- The hash on lines whose CRC is known.
use kontekst.Prelude.{◌≡◌, refl, codes}
use kontekst.Hashline.{crc_shift, crc_update, checksum_ieee, base64_char, compute_line_hash}

-- 0xcbf43926 is the check value of the CRC.
checksum_check_value : checksum_ieee (codes "123456789") ≡ 0xcbf43926
unfolding checksum_ieee crc_update crc_shift
checksum_check_value = refl

hash_check_value : compute_line_hash (codes "123456789") ≡ codes "y_Q"
unfolding compute_line_hash base64_char checksum_ieee crc_update crc_shift
hash_check_value = refl
