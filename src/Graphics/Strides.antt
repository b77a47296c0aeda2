-- ===== src/Graphics/Strides.antt =====
-- The loop of `allocateBuffers` on the strides that it is given.
use android_device_xenvm.Base.{
  ℕ, suc, ◌≡◌, refl, ap, ◌∙◌, Bool, true, false, Option, none, some, List, [], ◌∷◌, ◌++◌, Proc,
  pure, ◌>>=◌, ◌==◌, if◌then◌else◌, length, arith, Bool-cases, inl, inr,
}
use android_device_xenvm.Graphics.{
  Error, is_none, Handle, Batch, empty_batch, accept, take_reply, allocate_loop,
}

-- An `allocateOneBuffer` that succeeds, in turn with these buffers and strides.
unfoldable pub next_of : {C : Type 0} → Proc C (List (Handle × ℕ)) (Error × Option (Handle × ℕ))
next_of [] = record { value = (Error.no_resources, none); state = []; trace = [] }
next_of (r ∷ rs) = record { value = (Error.no_error, some r); state = rs; trace = [] }

-- Each stride is this one.
abbrev pub all_are : ℕ → List (Handle × ℕ) → Bool
all_are stride [] = true
all_are stride ((b, s) ∷ rs) = if stride == s then all_are stride rs else false

-- Behind some zeros every stride is the same.
abbrev pub uniform : List (Handle × ℕ) → Bool
uniform [] = true
uniform ((b, s) ∷ rs) = if s == 0 then uniform rs else all_are s rs

abbrev verdict : Bool → Error
verdict true = Error.no_error
verdict false = Error.unsupported

abbrev batch : ℕ → List Handle → Batch
batch stride buffers = record { error = Error.no_error; stride = stride; buffers = buffers }

module _ (C : Type 0) (unset : Handle × ℕ) where
  -- How the loop ends with so many rounds left.
  abbrev ends : ℕ → List (Handle × ℕ) → Batch → Error
  ends left rs b = (allocate_loop (next_of {C = C}) unset left b rs).value.error

  -- How it ends where a round leaves this batch.
  carry : ℕ → List (Handle × ℕ) → Batch → Error
  carry left rs b =
      ((elim (is_none b.error) as (λ x. Proc C (List (Handle × ℕ)) Batch) [
        | true ↦ allocate_loop (next_of {C = C}) unset left b
        | false ↦ pure b
      ])
        rs).value.error

  accepted :
      (b b' : Batch) (r : Handle × ℕ) (rs : List (Handle × ℕ))
      → accept b r ≡ b'
      → b'.error ≡ Error.no_error
      → ends (suc (length rs)) (r ∷ rs) b ≡ ends (length rs) rs b'
  unfolding carry allocate_loop take_reply next_of ◌>>=◌ pure
  accepted b b' r rs e ok =
      ap (carry (length rs) rs) e
      ∙ ap
          (λ x.
            ((elim (is_none x) as (λ y. Proc C (List (Handle × ℕ)) Batch) [
              | true ↦ allocate_loop (next_of {C = C}) unset (length rs) b'
              | false ↦ pure b'
            ])
              rs).value.error)
          ok

  refused :
      (b b' : Batch) (r : Handle × ℕ) (rs : List (Handle × ℕ))
      → accept b r ≡ b'
      → b'.error ≡ Error.unsupported
      → ends (suc (length rs)) (r ∷ rs) b ≡ Error.unsupported
  unfolding carry allocate_loop take_reply next_of ◌>>=◌ pure
  refused b b' r rs e bad =
      ap (carry (length rs) rs) e
      ∙ ap
          (λ x.
            ((elim (is_none x) as (λ y. Proc C (List (Handle × ℕ)) Batch) [
              | true ↦ allocate_loop (next_of {C = C}) unset (length rs) b'
              | false ↦ pure b'
            ])
              rs).value.error)
          bad
      ∙ bad

  -- A round with a stride in hand.
  same_strides :
      (stride : ℕ) (buffers : List Handle) (rs : List (Handle × ℕ))
      → (stride == 0) ≡ false
      → ends (length rs) rs (batch stride buffers) ≡ verdict (all_are stride rs)
  unfolding accept allocate_loop pure
  same_strides stride buffers [] h = refl
  same_strides stride buffers ((b, s) ∷ rs) h = elim (Bool-cases (stride == s)) [
    | inl same ↦
        accepted (batch stride buffers) (batch stride (buffers ++ (b ∷ []))) (b, s) rs
          (rw (h, same, accept) refl) refl
        ∙ same_strides stride (buffers ++ (b ∷ [])) rs h
        ∙ rw same refl
    | inr other ↦
        refused (batch stride buffers)
          (record { error = Error.unsupported; stride = stride; buffers = buffers ++ (b ∷ []) })
          (b, s) rs (rw (h, other, accept) refl) refl
        ∙ rw other refl
  ]

  first_strides :
      (buffers : List Handle) (rs : List (Handle × ℕ))
      → ends (length rs) rs (batch 0 buffers) ≡ verdict (uniform rs)
  unfolding accept allocate_loop pure
  first_strides buffers [] = refl
  first_strides buffers ((b, s) ∷ rs) =
      accepted (batch 0 buffers) (batch s (buffers ++ (b ∷ []))) (b, s) rs refl refl
      ∙ elim (Bool-cases (s == 0)) [
        | inl nil ↦
            ap (λ k. ends (length rs) rs (batch k (buffers ++ (b ∷ [])))) {x = s} {y = 0}
              (ground arith)
            ∙ first_strides (buffers ++ (b ∷ [])) rs
            ∙ rw nil refl
        | inr some_stride ↦
            same_strides s (buffers ++ (b ∷ [])) rs some_stride ∙ rw some_stride refl
      ]

  -- When each `allocateOneBuffer` succeeds the loop ends without an error exactly where, behind
  -- any strides 0 that come first, all strides are the same, and else with UNSUPPORTED: a stride 0
  -- is accepted in front of another one, and refused behind it.
  pub allocate_loop-uniform :
      (rs : List (Handle × ℕ))
      → (allocate_loop (next_of {C = C}) unset (length rs) empty_batch rs).value.error
        ≡ (if uniform rs then Error.no_error else Error.unsupported)
  allocate_loop-uniform rs = first_strides [] rs ∙ ground arith
