-- ===== src/Models/Tests.antt =====
-- The hash conversions at a hash with its high bit set.
use fmon.Base.{◌≡◌, refl, arith, length, bytes}
use fmon.Base.Int.{negsuc}
use fmon.Models.Hash.{hash_to_db, hash_from_db, IsInt64, hash_from_db-hash_to_db}
use fmon.Models.Hex.{format_hash, hex_value, hex_value-format_hash}

high : hash_to_db 18446744073709551615 ≡ negsuc 0
unfolding hash_to_db
high = refl

hash_from_db-hash_to_db_example :
    IsInt64 (hash_to_db 18446744073709551615)
    × (hash_from_db (hash_to_db 18446744073709551615) ≡ 18446744073709551615)
hash_from_db-hash_to_db_example = hash_from_db-hash_to_db 18446744073709551615 (omega arith)

zero_padded : format_hash 0x1f ≡ bytes "000000000000001f"
unfolding format_hash
zero_padded = refl

hex_value-format_hash_example :
    (length (format_hash 0xdeadbeef) ≡ 16) × (hex_value 0 (format_hash 0xdeadbeef) ≡ 0xdeadbeef)
hex_value-format_hash_example = hex_value-format_hash 0xdeadbeef (omega arith)
