-- ===== src/Gralloc1/Text.antt =====
-- Gralloc1Hal.h: what `dumpDebugInfo` returns.
use android_device_xenvm.Base.{
  ℕ, zero, suc, ◌+◌, ◌-◌, ◌%◌, ◌^◌, ◌≤◌, ◌<◌, ◌≡◌, ◌≢◌, none, Returns, refl, ap, ◌∙◌, some, List,
  [], ◌∷◌, ask, pure, ◌>>=◌, ltb, length, take, arith, append-nil, true, false,
}
use android_device_xenvm.Graphics.CString.{c_string, c_string-put, c_string-padded}
use android_device_xenvm.Gralloc1.Device.{Gralloc1Device}
use android_device_xenvm.Gralloc1.Init.{Gralloc1Hal}
use android_device_xenvm.Gralloc1.Dump.{dump_debug_info}

take-take-suc : {A : Type 0} (n : ℕ) (xs : List A) → take n (take (suc n) xs) ≡ take n xs
take-take-suc zero xs = refl
take-take-suc (suc n) [] = refl
take-take-suc (suc n) (x ∷ xs) = ap (◌∷◌ x) (take-take-suc n xs)

take-take_next : {A : Type 0} (n : ℕ) (xs : List A) → take n (take (n + 1) xs) ≡ take n xs
take-take_next n xs =
    ap (λ k. take n (take k xs)) {x = n + 1} {y = suc n} (omega arith) ∙ take-take-suc n xs

-- The driver's text is no longer than its array, and its length plus one is a `uint32_t`.
pub record DumpFits {D : Type 0} (dev : Gralloc1Device D) : Type 0 where
  pub small : (d : D) → (dev.dump_length d).0 + 1 < 2 ^ 32
  pub writes : (n : ℕ) (d : D) → length (dev.dump_text n d).0.1 ≤ n
  pub tells : (n : ℕ) (d : D) → (dev.dump_text n d).0.0 ≤ n

module _ {D : Type 0} (dev : Gralloc1Device D) (hal : Gralloc1Hal) where
  -- Where the driver's first `dump` gives a length less than 2 ^ 32 - 1, and the second writes no
  -- more bytes than that and gives no larger length, nothing is written or read behind the
  -- vector, and the result is the C string in the bytes of the second length.
  pub dump_debug_info-text :
      (d : D)
      → (dev.dump_length d).0 + 1 < 2 ^ 32
      → length (dev.dump_text (dev.dump_length d).0 (dev.dump_length d).1).0.1
        ≤ (dev.dump_length d).0
      → (dev.dump_text (dev.dump_length d).0 (dev.dump_length d).1).0.0 ≤ (dev.dump_length d).0
      → let r = dev.dump_text (dev.dump_length d).0 (dev.dump_length d).1 in
        (dump_debug_info dev hal d).value ≡ some (c_string (take r.0.0 r.0.1))
  unfolding dump_debug_info ◌>>=◌ ask pure
  dump_debug_info-text d small fits shorter =
      let len = (dev.dump_length d).0 in
      let r = (dev.dump_text len (dev.dump_length d).1).0 in
      let size : (len + 1) % 2 ^ 32 ≡ len + 1 = omega arith in
      let resized : (r.0 + 1) % 2 ^ 32 ≡ r.0 + 1 = omega arith in
      let none_more : (r.0 + 1) - (len + 1) ≡ 0 = omega arith in
      let room : ltb (len + 1) (length r.1) ≡ false = ground arith in
      let last : ltb r.0 (r.0 + 1) ≡ true = ground arith in
      rw (size, resized, none_more, room, last, append-nil, dump_debug_info)
        (ap some (
          c_string-put r.0 _
          ∙ ap c_string (take-take_next r.0 _)
          ∙ c_string-padded r.0 (len + 1 - length r.1) r.1))

  pub dump_debug_info-DumpFits :
      DumpFits dev → Returns (λ text. text ≢ none) (dump_debug_info dev hal)
  dump_debug_info-DumpFits fits = record {
    at = λ d.
        let e =
          dump_debug_info-text d (fits.small d) (fits.writes _ (dev.dump_length d).1)
            (fits.tells _ (dev.dump_length d).1) in
        λ nothing. ground (arith, e, nothing);
  }
