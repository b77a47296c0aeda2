-- ===== src/Gralloc0/Text.antt =====
-- Gralloc0Hal.h: what `dumpDebugInfo` returns.
use mathlib.Core.Path.{subst}
use android_device_xenvm.Base.{
  Option, ℕ, ◌-◌, ◌≤◌, ◌≡◌, ◌≢◌, none, Returns, Option-cases, ap, ◌∙◌, some, List, ◌++◌, ask, pure,
  ◌>>=◌, ltb, length, take, replicate, arith, Bool-cases, inl, inr,
}
use android_device_xenvm.Graphics.CString.{c_string, c_string-put, c_string-padded}
use android_device_xenvm.Gralloc0.{Gralloc0Device, dump_debug_info}

-- A `dump` that is not null writes no more bytes than its array holds.
abbrev pub Within : {D : Type 0} → Option (ℕ → D → List ℕ × D) → Type 0
Within none = Unit {0}
Within {D} (some dump) = (n : ℕ) (d : D) → length (dump n d).0 ≤ n

pub record DumpFits {D : Type 0} (dev : Gralloc0Device D) : Type 0 where
  pub writes : Within dev.dump

module _ {D : Type 0} (dev : Gralloc0Device D) where
  -- Where the driver has `dump` and writes no more bytes than the 4096 of the array, nothing is
  -- written behind the array, and the result is the C string in the first 4095 of those bytes.
  pub dump_debug_info-c_string :
      (dump : ℕ → D → List ℕ × D)
      → dev.dump ≡ some dump
      → (d : D) → length (dump 4096 d).0 ≤ 4096
      → (dump_debug_info dev d).value ≡ some (c_string (take 4095 (dump 4096 d).0))
  unfolding dump_debug_info ◌>>=◌ ask pure
  dump_debug_info-c_string dump e d h =
      let bytes = (dump 4096 d).0 in
      elim (Bool-cases (ltb 4096 (length bytes))) [
        | inl long ↦ absurd (ground arith)
        | inr short ↦
            rw (e, short, dump_debug_info)
              (ap some (
                c_string-put 4095 (bytes ++ replicate (4096 - length bytes) 0)
                ∙ c_string-padded 4095 (4096 - length bytes) bytes))
      ]

  pub dump_debug_info-DumpFits : DumpFits dev → Returns (λ text. text ≢ none) (dump_debug_info dev)
  unfolding dump_debug_info pure
  dump_debug_info-DumpFits fits = record {
    at = λ d. elim (Option-cases dev.dump) [
      | inl e ↦ rw (e, dump_debug_info) (λ nothing. cc)
      | inr (dump, e) ↦
          let w = dump_debug_info-c_string dump e d (subst Within e fits.writes 4096 d) in
          λ nothing. ground (arith, w, nothing)
    ];
  }
