-- ===== src/Format/Time.antt =====
-- internal/format/time.go: the times of Windows, in units of 100 nanoseconds since 1601. A time.Time
-- is its number of nanoseconds since 1970: time.Unix adds its seconds to its nanoseconds.
use hivekit.Common.{ℕ, ◌+◌, ◌-◌, ◌*◌, ◌/◌, ◌%◌, ◌^◌, ◌≤◌, ◌≡◌, arith, max, ltb, leb, if◌then◌else◌}
use hivekit.Common.Int.{ℤ, pos, negsuc, ◌+ℤ◌, ◌-ℤ◌, ◌*ℤ◌, quot_ℤ, wrap_int}

abbrev filetime_offset : ℕ
filetime_offset = 116444736000000000

abbrev filetime_unit : ℕ
filetime_unit = 100

abbrev second : ℤ
second = pos 1_000_000_000

abbrev unix : ℤ → ℤ → ℤ
unix sec nsec = sec *ℤ second +ℤ nsec

-- int64 of a uint64.
abbrev to_int64 : ℕ → ℤ
to_int64 w = if ltb w (2 ^ 63) then pos w else negsuc (2 ^ 64 - w - 1)

filetime_to_time : ℕ → ℤ
unfolding quot_ℤ ◌+ℤ◌ ◌-ℤ◌ ◌*ℤ◌
filetime_to_time v =
    let ns = to_int64 ((v - filetime_offset) * filetime_unit % 2 ^ 64) in
    let sec = quot_ℤ ns second in
    if leb v filetime_offset then unix (pos 0) (pos 0) else unix sec (ns -ℤ sec *ℤ second)

-- UnixNano is an int64.
abbrev not_negative : ℤ → ℕ
not_negative (pos n) = n
not_negative (negsuc n) = 0

time_to_filetime : ℤ → ℕ
unfolding wrap_int
time_to_filetime t = (not_negative (wrap_int t) / filetime_unit + filetime_offset) % 2 ^ 64

-- Up to the largest int64 of nanoseconds a time comes back, and one before 1970 becomes 1970.
time_to_filetime-filetime_to_time :
    (v : ℕ)
    → v ≤ 116444736000000000 + 92233720368547758
    → time_to_filetime (filetime_to_time v) ≡ max v 116444736000000000
unfolding filetime_to_time time_to_filetime quot_ℤ ◌+ℤ◌ ◌-ℤ◌ ◌*ℤ◌ wrap_int
time_to_filetime-filetime_to_time v h = ground arith
