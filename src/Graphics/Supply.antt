-- ===== src/Graphics/Supply.antt =====
-- What the loop of `allocateBuffers` returns where the driver never runs out of buffers.
use android_device_xenvm.Base.{
  ℕ, zero, suc, ◌+◌, ◌≡◌, refl, ap, ◌∙◌, ◌⊎◌, inl, inr, Option, none, some, List, [], ◌∷◌, ◌++◌,
  arith, Proc, ◌==◌, length, length-append, Bool-cases, Returns, pure-Returns, bind-Returns,
  weaken-Returns,
}
use android_device_xenvm.Graphics.{
  Error, is_none, Handle, Batch, empty_batch, accept, take_reply, allocate_loop,
}

-- What a caller sees of an answer, but for the buffers themselves: the error, the stride, and the
-- number of buffers.
abbrev pub shape : Error × Option (ℕ × List Handle) → Error × ℕ × ℕ
shape (error, none) = (error, 0, 0)
shape (error, some (stride, buffers)) = (error, stride, length buffers)

-- The stride behind so many rounds that each bring the stride t, from the stride s.
abbrev pub stride_after : ℕ → ℕ → ℕ → ℕ
stride_after zero s t = s
stride_after (suc rounds) s t = t

-- A buffer of this stride.
abbrev pub Supplied : ℕ → Error × Option (Handle × ℕ) → Type 0
Supplied t reply = (h : Handle) × (reply ≡ (Error.no_error, some (h, t)))

-- A batch without an error, of this stride and so many buffers.
abbrev pub Filled : ℕ → ℕ → Batch → Type 0
Filled stride count b =
    (b.error ≡ Error.no_error) × (b.stride ≡ stride) × (length b.buffers ≡ count)

accept-Filled :
    (b : Batch) (h : Handle) (t s n : ℕ)
    → Filled s n b
    → (s ≡ 0) ⊎ (s ≡ t)
    → Filled t (n + 1) (accept b (h, t))
unfolding accept
accept-Filled b h t s n (e, k, m) same =
    let more : length (b.buffers ++ (h ∷ [])) ≡ n + 1 =
      omega (arith, length-append b.buffers (h ∷ []), m) in
    elim (Bool-cases (b.stride == 0)) [
      | inl first ↦ rw first (e, refl, more)
      | inr set ↦ elim (Bool-cases (b.stride == t)) [
        | inl again ↦ rw (set, again) (e, ground (arith, again), more)
        | inr other ↦ absurd (ground (arith, set, other, same, k))
      ]
    ]

take_reply-Filled :
    (unset : Handle × ℕ) (b : Batch) (t s n : ℕ) (reply : Error × Option (Handle × ℕ))
    → Supplied t reply
    → Filled s n b
    → (s ≡ 0) ⊎ (s ≡ t)
    → Filled t (n + 1) (take_reply unset b reply)
unfolding take_reply
take_reply-Filled unset b t s n reply (h, e) f same = rw e (accept-Filled b h t s n f same)

module _ {C S : Type 0} (t : ℕ) (one : Proc C S (Error × Option (Handle × ℕ))) (unset : Handle × ℕ)
    (supply : Returns (Supplied t) one) where
  same_after : (left : ℕ) → stride_after left t t ≡ t
  same_after zero = refl
  same_after (suc left) = refl

  -- From a batch that is empty or of this stride the loop takes a buffer in each round.
  rounds-Filled :
      (left : ℕ) (b : Batch) (s n : ℕ)
      → Filled s n b
      → (s ≡ 0) ⊎ (s ≡ t)
      → Returns (Filled (stride_after left s t) (n + left)) (allocate_loop one unset left b)
  unfolding allocate_loop
  rounds-Filled zero b s n f same =
      pure-Returns (Filled s (n + 0)) {a = b} (f.0, f.1, omega (arith, f.2))
  rounds-Filled (suc left) b s n f same =
      bind-Returns (Supplied t) (Filled t (n + suc left)) supply λ reply got.
        let b' = take_reply unset b reply in
        let filled = take_reply-Filled unset b t s n reply got f same in
        let more = rounds-Filled left b' t (n + 1) filled (inr refl) in
        rw (ap is_none filled.0)
          (weaken-Returns (λ c f. (f.0, f.1 ∙ same_after left, omega (arith, f.2))) more)

  pub loop-Filled :
      (count : ℕ)
      → Returns (Filled (stride_after count 0 t) count) (allocate_loop one unset count empty_batch)
  loop-Filled count =
      weaken-Returns (λ b f. (f.0, f.1, omega (arith, f.2)))
        (rounds-Filled count empty_batch 0 0 (refl, refl, refl) (inl refl))
