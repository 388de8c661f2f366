-- ===== src/Kubectl/Storage.antt =====
-- The sizes of the package kubectl: megabytes in bytes, as an `int64`.
use Prim.Native.Nat.{◌%◌, ◌^◌}
use kubevoltracker.Base.{◌+◌, ◌-◌, ◌*◌, ℤ, pos, negsuc, ◌≡◌, arith, ltb, if◌then◌else◌}
use kubevoltracker.Kubectl.Utils.{get_storage_value}

-- a number of binary megabytes in bytes, of which 44 bits are kept
abbrev pub bytes_of : ℤ → ℤ
bytes_of (pos n) =
    let m = n % 2 ^ 44 in
    if ltb m (2 ^ 43) then pos (m * 2 ^ 20) else negsuc (2 ^ 64 - 1 - m * 2 ^ 20)
bytes_of (negsuc n) =
    let m = n % 2 ^ 44 in
    if ltb m (2 ^ 43) then negsuc (m * 2 ^ 20 + 2 ^ 20 - 1) else pos (2 ^ 64 - 2 ^ 20 - m * 2 ^ 20)

-- GetStorageValue multiplies by 2^20 the signed number that the low 44 bits of the number of megabytes
-- stand for. So it is exact from -2^43 to 2^43 - 1, and 2^43 megabytes become a negative size.
pub get_storage_value-bytes_of : (mb : ℤ) → get_storage_value mb ≡ bytes_of mb
unfolding get_storage_value
get_storage_value-bytes_of (pos n) = ground arith
get_storage_value-bytes_of (negsuc n) = ground arith
