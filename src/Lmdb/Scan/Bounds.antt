-- ===== src/Lmdb/Scan/Bounds.antt =====
-- `reverse_upper_bound`: the bound of a reverse walk is the start key with its time raised by one.
use deepfry.Base.{
  ℕ, ◌+◌, ◌-◌, ◌≡◌, arith, true, false, ◌==◌, ◌++◌, length, length-append, take-append, drop-append,
  take_all, if◌then◌else◌,
}
use deepfry.Base.Words.{Bytes, IsU64, u64_max, le8, length-to_le_bytes, from_le_bytes-le8}
use deepfry.Lmdb.Scan.{reverse_upper_bound}

-- For a key of a prefix and the eight bytes of a time, the bound of a reverse walk has the same
-- prefix and the time raised by one, and is the key itself where the time is u64::MAX.
pub reverse_upper_bound_lem :
    (prefix : Bytes) (ts : ℕ)
    → IsU64 ts
    → reverse_upper_bound (prefix ++ le8 ts)
      ≡ (if ts == u64_max then (prefix ++ le8 ts, false) else (prefix ++ le8 (ts + 1), true))
unfolding reverse_upper_bound
reverse_upper_bound_lem prefix ts h =
    let n : length (prefix ++ le8 ts) ≡ length prefix + 8 =
      omega (arith, length-append prefix (le8 ts), length-to_le_bytes 8 ts) in
    let m : length prefix + 8 - 8 ≡ length prefix = omega arith in
    let t = take_all (le8 ts) 8 (omega (arith, length-to_le_bytes 8 ts)) in
    rw (n, m, drop-append prefix (le8 ts), t, from_le_bytes-le8 ts h, take-append prefix (le8 ts))
      (ground arith)
