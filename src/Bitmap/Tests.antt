-- ===== src/Bitmap/Tests.antt =====
-- Runs on a bitmap of ten bits in which the bits 1, 4 and 8 are set.
use workhorse_rt.Common.{arith, ◌==◌, if◌then◌else◌}
use workhorse_rt.Bitmap.{Bitmap}
use workhorse_rt.Bitmap.Bytes.{IsBytes}

abbrev bits : Bitmap
bits i = if i == 0 then 18 else (if i == 1 then 1 else 0)

abbrev none_set : Bitmap
none_set i = 0

bytes : IsBytes bits
bytes i = ground arith
