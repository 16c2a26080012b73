-- ===== src/Format/Usage.antt =====
-- web/src/format.ts, lines 42-45: how much of a quota is used.
use easy_webdav.Prelude.{
  ℕ, ◌≤◌, ◌<◌, ◌≡◌, arith, min, ◌==◌, if◌then◌else◌, zero-cases, inl, inr, refl,
}
use easy_webdav.Floats.{Floats, max_safe, percent, percent_mono, percent_self, percent_zero}

module _ (floats : Floats) where
  unfoldable pub usage_percent : ℕ → ℕ → ℕ
  usage_percent used quota = if quota == 0 then 0 else min 100 (percent floats used quota)

  -- For a quota and a usage in the safe integers: no quota shows as zero, a quota that is used up or
  -- exceeded shows as a hundred, nothing used as zero, and more usage never as less.
  pub usage_percent_lem :
      (used more quota : ℕ)
      → used ≤ more
      → more < max_safe
      → quota < max_safe
      → (usage_percent used quota ≤ usage_percent more quota)
        × (usage_percent more quota ≤ 100)
        × (usage_percent used 0 ≡ 0)
        × (usage_percent 0 quota ≡ 0)
        × (0 < quota → quota ≤ more → usage_percent more quota ≡ 100)
  unfolding usage_percent
  usage_percent_lem used more quota h p q = elim (zero-cases quota) [
    | inl none_set ↦
        rw (none_set) (omega arith, omega arith, refl, refl, λ k l. absurd (omega arith))
    | inr set_pos ↦
        let grows = percent_mono floats used more quota h p set_pos q in
        let full = percent_self floats quota set_pos q in
        let empty = percent_zero floats quota set_pos q in
        (
          ground arith,
          ground arith,
          refl,
          ground (arith, empty),
          λ k l. ground (arith, full, percent_mono floats quota more quota l p k q),
        )
  ]
