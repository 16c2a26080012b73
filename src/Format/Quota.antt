-- ===== src/Format/Quota.antt =====
-- web/src/format.ts, lines 15-34: quotas as an amount of a unit. An amount is kept in tenths, which are
-- what `splitQuota` gives.
use easy_webdav.Prelude.{
  ℕ, ◌+◌, ◌*◌, ◌/◌, ◌%◌, ◌≤◌, ◌<◌, ◌≡◌, arith, ◌==◌, if◌then◌else◌, ◌≢◌, none, some, Text,
  number_tenths,
}

abbrev pub kb : ℕ
kb = 1024

abbrev pub mb : ℕ
mb = 1024 * 1024

abbrev pub gb : ℕ
gb = 1024 * 1024 * 1024

pub record Split : Type 0 where
  pub amount : ℕ
  pub unit : ℕ

-- `Math.round((bytes / MB) * 10)`, in tenths of a megabyte; exact below 2^49 bytes.
abbrev tenths_of_mb : ℕ → ℕ
tenths_of_mb bytes = (20 * bytes + mb) / (2 * mb)

unfoldable pub split_quota : ℕ → Split
split_quota bytes =
    if bytes == 0
    then record { amount = 0; unit = mb }
    else if bytes % gb == 0
    then record { amount = 10 * (bytes / gb); unit = gb }
    else if bytes % mb == 0
    then record { amount = 10 * (bytes / mb); unit = mb }
    else if bytes % kb == 0
    then record { amount = 10 * (bytes / kb); unit = kb }
    else record { amount = tenths_of_mb bytes; unit = mb }

-- A number, or what was typed into the field for it.
pub data Amount : Type 0 where
  tenths : ℕ → Amount
  typed : Text → Amount

-- `Math.round(value * unit)` for a value in tenths. The unit is a power of two, and a tenth of one is
-- never within a tenth of a tie, so that the rounding of the amount does not show below 2^49 bytes.
abbrev rounded : ℕ → ℕ → ℕ
rounded amount unit = (2 * amount * unit + 10) / 20

unfoldable pub quota_to_bytes : Amount → ℕ → ℕ
quota_to_bytes (tenths amount) unit = rounded amount unit
quota_to_bytes (typed s) unit = elim (number_tenths s) [
  | none ↦ 0
  | some amount ↦ rounded amount unit
]

abbrev pub resaved : ℕ → ℕ
resaved bytes = quota_to_bytes (tenths (split_quota bytes).amount) (split_quota bytes).unit

-- A quota of whole kilobytes survives being split for the form and read back.
pub quota_to_bytes-split_quota : (bytes : ℕ) → bytes % kb ≡ 0 → resaved bytes ≡ bytes
unfolding quota_to_bytes split_quota
quota_to_bytes-split_quota bytes h = ground arith

-- Any other quota comes back changed by a twentieth of a megabyte at most.
pub quota_drift :
    (bytes : ℕ) → (resaved bytes ≤ bytes + mb / 20 + 1) × (bytes ≤ resaved bytes + mb / 20 + 1)
unfolding quota_to_bytes split_quota
quota_drift bytes = ground arith

-- A quota below a twentieth of a megabyte that is no whole number of kilobytes comes back as zero,
-- which stands for no limit.
pub quota_lost : (bytes : ℕ) → 0 < bytes → bytes ≤ mb / 20 → bytes % kb ≢ 0 → resaved bytes ≡ 0
unfolding quota_to_bytes split_quota
quota_lost bytes p h k = ground arith
