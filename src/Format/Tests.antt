-- ===== src/Format/Tests.antt =====
-- The helpers of web/src/format.ts at concrete inputs, those of web/src/format.test.ts among them.
use easy_webdav.Prelude.{◌+◌, ◌*◌, ◌^◌, ◌≤◌, ◌<◌, ◌≡◌, refl, arith, units, decimal}
use easy_webdav.Floats.FixedPoint.{thousandths}
use easy_webdav.Floats.{percent}
use easy_webdav.Format.Size.{scale, fixed_tenths, format_size, scale-fixed_tenths}
use easy_webdav.Format.Quota.{
  gb, split_quota, quota_to_bytes, tenths, resaved, quota_to_bytes-split_quota, quota_lost,
}
use easy_webdav.Format.Usage.{usage_percent}

sizes :
    (format_size 0 ≡ units "0 B")
    × (format_size 512 ≡ units "512 B")
    × (format_size 1536 ≡ units "1.5 KB")
    × (format_size (5 * 1024 * 1024) ≡ units "5.0 MB")
unfolding format_size decimal fixed_tenths
sizes = (refl, refl, refl, refl)

scale-fixed_tenths_example :
    (scale 1536 ≤ 4)
    × (1024 ^ scale 1536 ≤ 1536)
    × (scale 1536 < 4 → 1536 < 1024 ^ (scale 1536 + 1))
    × (2 * 1024 ^ scale 1536 * fixed_tenths 1536 (1024 ^ scale 1536)
        ≤ 20 * 1536 + 1024 ^ scale 1536)
    × (20 * 1536
        < 2 * 1024 ^ scale 1536 * fixed_tenths 1536 (1024 ^ scale 1536) + 1024 ^ scale 1536)
scale-fixed_tenths_example = scale-fixed_tenths 1536 (omega arith)

ten_gb :
    (split_quota (10 * gb) ≡ record { amount = 100; unit = gb })
    × (quota_to_bytes (tenths 100) gb ≡ 10737418240)
unfolding split_quota quota_to_bytes
ten_gb = (refl, refl)

quota_to_bytes-split_quota_example : resaved 3072 ≡ 3072
quota_to_bytes-split_quota_example = quota_to_bytes-split_quota 3072 (omega arith)

quota_lost_example : resaved 1000 ≡ 0
quota_lost_example = quota_lost 1000 (omega arith) (omega arith) (omega arith)

half_used : usage_percent thousandths 5 10 ≡ 50
unfolding usage_percent percent
half_used = refl
