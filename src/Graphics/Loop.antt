-- ===== src/Graphics/Loop.antt =====
-- The calls of the allocation loop are those of its rounds.
use android_device_xenvm.Base.{
  ℕ, zero, suc, Option, Proc, Always, bind-Always, pure-Always, Bool-cases, inl, inr,
}
use android_device_xenvm.Graphics.{Error, is_none, Handle, Batch, take_reply, allocate_loop}

module _ {C S : Type 0} (P : C → Type 0) where
  pub allocate_loop-Always :
      (one : Proc C S (Error × Option (Handle × ℕ))) (unset : Handle × ℕ)
      → Always P one
      → (left : ℕ) (b : Batch) → Always P (allocate_loop one unset left b)
  unfolding allocate_loop
  allocate_loop-Always one unset h zero b = pure-Always P b
  allocate_loop-Always one unset h (suc left) b = bind-Always P h λ reply.
      elim (Bool-cases (is_none (take_reply unset b reply).error)) [
        | inl ok ↦ rw (ok) (allocate_loop-Always one unset h left (take_reply unset b reply))
        | inr bad ↦ rw (bad) (pure-Always P _)
      ]
