-- ===== src/Listing/Tests.antt =====
-- The list command on a database and a settings file that differ.
use fmon.Base.{ℕ, suc, ◌*◌, ◌^◌, ◌≤◌, ◌<◌, ◌≡◌, refl, ◌⊎◌, List, [], ◌∷◌, arith, Text, bytes}
use fmon.Base.Int.{pos}
use fmon.Db.Totals.{FileTotals}
use fmon.Listing.Rows.{plain_size, scaled_size, scale_bytes, human_bytes}
use fmon.Listing.Scale.{human_bytes-IsScaled}

-- /f is indexed and listed, /g is listed twice, in two spellings, and not indexed.
abbrev listed : List Text
listed = bytes "/g/" ∷ bytes "/f" ∷ bytes "/g" ∷ []

abbrev no_totals : ℕ → FileTotals
no_totals id = record { files = 0; bytes = pos 0 }

-- 3000 bytes are printed as 3000 / 1024 KiB.
human_bytes-IsScaled_example :
    ((3000 < 1024) × (human_bytes (pos 3000) ≡ plain_size (pos 3000)))
    ⊎ ((k : ℕ) × (human_bytes (pos 3000) ≡ scaled_size 3000 (1024 ^ suc k) k)
        × (k ≤ 5)
        × (1024 ^ suc k ≤ 3000)
        × (3000 < 1024 ^ suc k * 1024))
human_bytes-IsScaled_example = human_bytes-IsScaled 3000 (omega arith)

three_kib : human_bytes (pos 3000) ≡ scaled_size 3000 1024 0
unfolding human_bytes scale_bytes
three_kib = refl
