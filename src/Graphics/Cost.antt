-- ===== src/Graphics/Cost.antt =====
-- The allocation loop and the number of calls to the driver.
use android_device_xenvm.Base.{
  ℕ, zero, suc, ◌+◌, ◌*◌, ◌≤◌, Option, [], ◌∷◌, arith, Proc, length, length-append, Bool-cases, inl,
  inr, frame-Spends, Spends, pure-Spends, bind-Spends, if◌then◌else◌,
}
use android_device_xenvm.Graphics.{
  Error, is_none, Handle, Batch, written, accept, take_reply, allocate_loop,
}

-- One call is kept back for each buffer that is returned, to free it.
abbrev pub to_free : Error × Option (Handle × ℕ) → ℕ
to_free r = if is_none r.0 then 1 else 0

abbrev pub to_free_all : Batch → ℕ
to_free_all b = length b.buffers

accept-to_free : (b : Batch) (r : Handle × ℕ) → to_free_all (accept b r) ≤ to_free_all b + 1
unfolding accept
accept-to_free b (h, t) = ground (arith, length-append b.buffers (h ∷ []))

take_reply-to_free :
    (unset : Handle × ℕ) (b : Batch) (r : Error × Option (Handle × ℕ))
    → to_free_all (take_reply unset b r) ≤ to_free_all b + to_free r
unfolding take_reply
take_reply-to_free unset b (e, out) = elim (Bool-cases (is_none e)) [
  | inl ok ↦ rw ok (accept-to_free b (written out unset))
  | inr bad ↦ rw bad (omega arith)
]

module _ {C S : Type 0} where
  pub allocate_loop-Spends :
      (each : ℕ) (one : Proc C S (Error × Option (Handle × ℕ))) (unset : Handle × ℕ)
      → Spends to_free each one
      → (count : ℕ) (b : Batch)
      → Spends to_free_all (count * each + to_free_all b) (allocate_loop one unset count b)
  unfolding allocate_loop
  allocate_loop-Spends each one unset h zero b = pure-Spends _ _ b (omega arith)
  allocate_loop-Spends each one unset h (suc left) b =
      bind-Spends (λ r. left * each + (to_free_all b + to_free r)) to_free_all _
        (frame-Spends to_free _ each _ h (λ r. omega arith))
        λ r.
          let b' = take_reply unset b r in
          frame-Spends to_free_all to_free_all (left * each + to_free_all b') _
            (elim (Bool-cases (is_none b'.error)) [
              | inl ok ↦ rw ok (allocate_loop-Spends each one unset h left b')
              | inr bad ↦ rw bad (pure-Spends _ _ b' (omega arith))
            ])
            (λ a. omega (arith, take_reply-to_free unset b r))
