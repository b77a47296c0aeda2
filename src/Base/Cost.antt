-- ===== src/Base/Cost.antt =====
-- How many calls a run makes, with what its result is still allowed to spend.
use Prim.Native.Nat.{ℕ, suc, ◌+◌, ◌≤◌}
use native.Mathlib.Omega.{arith}
use mathlib.Core.Path.{◌≡◌, refl}
use mathlib.Core.Bool.{Bool, true, false}
use android_device_xenvm.Base.Tests.{if◌then◌else◌}
use android_device_xenvm.Base.Lists.{length, length-append}
use android_device_xenvm.Base.Traces.{Returns}
use android_device_xenvm.Base.Effects.{Proc, pure, ask, ◌>>=◌, ◌>>◌}

module _ {C S : Type 0} where
  -- Every run makes at most n calls, less what its result leaves over.
  pub record Spends {A : Type 0} (left : A → ℕ) (n : ℕ) (m : Proc C S A) : Type 0 where
    pub at : (s : S) → length (m s).trace + left (m s).value ≤ n

  pub pure-Spends :
      {A : Type 0} (left : A → ℕ) (n : ℕ) (a : A) → left a ≤ n → Spends left n (pure a)
  unfolding pure
  pure-Spends left n a h = record { at = λ s. omega (arith, h) }

  pub ask-Spends :
      {A : Type 0} (left : A → ℕ) (n : ℕ) (reply : S → A × S) (record_of : A → C)
      → ((s : S) → suc (left (reply s).0) ≤ n)
      → Spends left n (ask reply record_of)
  unfolding ask
  ask-Spends left n reply record_of h = record { at = λ s. omega (arith, h s) }

  pub bind-Spends :
      {A B : Type 0} (left : A → ℕ) (left' : B → ℕ) (n : ℕ) {m : Proc C S A} {f : A → Proc C S B}
      → Spends left n m
      → ((a : A) → Spends left' (left a) (f a))
      → Spends left' n (m >>= f)
  unfolding ◌>>=◌
  bind-Spends left left' n {m} {f} hm hf = record {
    at = λ s.
        let r = m s in
        omega (
          arith,
          length-append r.trace (f r.value r.state).trace,
          hm.at s,
          (hf r.value).at r.state,
        );
  }

  pub then-Spends :
      {A B : Type 0} (between : ℕ) (left : B → ℕ) (n : ℕ) {m : Proc C S A} {k : Proc C S B}
      → Spends (λ _. between) n m
      → Spends left between k
      → Spends left n (m >> k)
  unfolding ◌>>◌
  then-Spends between left n hm hk = bind-Spends (λ _. between) left n hm (λ _. hk)

  pub if-Spends :
      {A : Type 0} (left : A → ℕ) (n : ℕ) (b : Bool) {m k : Proc C S A}
      → (b ≡ true → Spends left n m)
      → (b ≡ false → Spends left n k)
      → Spends left n (if b then m else k)
  if-Spends left n true hm hk = hm refl
  if-Spends left n false hm hk = hk refl

  -- Calls that are left over from before are left over after.
  pub frame-Spends :
      {A : Type 0} (left left' : A → ℕ) (n n' : ℕ) {m : Proc C S A}
      → Spends left n m
      → ((a : A) → left' a + n ≤ n' + left a)
      → Spends left' n' m
  frame-Spends left left' n n' {m} h k = record { at = λ s. omega (arith, h.at s, k (m s).value) }

  -- What is left over may depend on what is known of the result.
  pub given-Spends :
      {A : Type 0} (left left' : A → ℕ) (Q : A → Type 0) (n : ℕ) {m : Proc C S A}
      → Returns Q m
      → Spends left n m
      → ((a : A) → Q a → left' a ≤ left a)
      → Spends left' n m
  given-Spends left left' Q n {m} known h k = record {
    at = λ s. omega (arith, h.at s, k (m s).value (known.at s));
  }
