-- ===== src/S3/Minio/Quota.antt =====
-- internal/s3/client/impl/minioS3Client.go: the conversions `uint64(quota)` of SetQuota and
-- `int64(bucketQuota.Size)` of GetQuota, which wrap around.
use s3_operator.Prelude.{ℕ, ◌-◌, ◌%◌, ◌<◌, ltb, ℤ, pos, negsuc, IsInt64, ◌≡◌, if◌then◌else◌, arith}

-- `uint64(q)`: the remainder by 2^64.
unfoldable pub uint64_of : ℤ → ℕ
uint64_of (pos n) = n % 18446744073709551616
uint64_of (negsuc n) = 18446744073709551615 - n % 18446744073709551616

-- `int64(n)` of a uint64: from 2^63 on the value is negative.
unfoldable pub int64_of : ℕ → ℤ
int64_of n = if ltb n 9223372036854775808 then pos n else negsuc (18446744073709551615 - n)

-- A quota that is an int64 is sent as a number below 2^64, and is read back as it was.
pub int64-uint64 :
    (q : ℤ) → IsInt64 q → (uint64_of q < 18446744073709551616) × (int64_of (uint64_of q) ≡ q)
unfolding uint64_of int64_of
int64-uint64 (pos n) h = (omega arith, ground arith)
int64-uint64 (negsuc n) h = (omega arith, ground arith)
