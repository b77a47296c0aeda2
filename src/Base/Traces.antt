-- ===== src/Base/Traces.antt =====
-- Statements about every outside call of a run, composed as the code is.
use mathlib.Core.Path.{◌≡◌, refl}
use mathlib.Core.Bool.{Bool, true, false}
use android_device_xenvm.Base.Tests.{if◌then◌else◌}
use android_device_xenvm.Base.Lists.{All, All-append}
use android_device_xenvm.Base.Effects.{Proc, pure, ask, ◌>>=◌, ◌>>◌}

module _ {C S : Type 0} (P : C → Type 0) where
  -- Every call of every run of the code satisfies P.
  pub record Always {A : Type 0} (m : Proc C S A) : Type 0 where
    pub at : (s : S) → All P (m s).trace

  pub pure-Always : {A : Type 0} (a : A) → Always (pure a)
  unfolding pure
  pure-Always a = record { at = λ s. tt }

  pub ask-Always :
      {A : Type 0} (reply : S → A × S) (record_of : A → C)
      → ((a : A) → P (record_of a))
      → Always (ask reply record_of)
  unfolding ask
  ask-Always reply record_of h = record { at = λ s. (h (reply s).0, tt) }

  pub bind-Always :
      {A B : Type 0} {m : Proc C S A} {f : A → Proc C S B}
      → Always m
      → ((a : A) → Always (f a))
      → Always (m >>= f)
  unfolding ◌>>=◌
  bind-Always {m} {f} hm hf = record {
    at = λ s.
        let r = m s in
        All-append P r.trace (f r.value r.state).trace (hm.at s) ((hf r.value).at r.state);
  }

  pub then-Always :
      {A B : Type 0} {m : Proc C S A} {k : Proc C S B} → Always m → Always k → Always (m >> k)
  unfolding ◌>>◌
  then-Always hm hk = bind-Always hm (λ _. hk)

  pub if-Always :
      {A : Type 0} (b : Bool) {m k : Proc C S A}
      → (b ≡ true → Always m)
      → (b ≡ false → Always k)
      → Always (if b then m else k)
  if-Always true hm hk = hm refl
  if-Always false hm hk = hk refl

module _ {C S : Type 0} where
  -- Every run of the code returns a value that satisfies Q.
  pub record Returns {A : Type 0} (Q : A → Type 0) (m : Proc C S A) : Type 0 where
    pub at : (s : S) → Q (m s).value

  pub pure-Returns : {A : Type 0} (Q : A → Type 0) {a : A} → Q a → Returns Q (pure a)
  unfolding pure
  pure-Returns Q h = record { at = λ s. h }

  pub ask-Returns :
      {A : Type 0} (Q : A → Type 0) (reply : S → A × S) (record_of : A → C)
      → ((s : S) → Q (reply s).0)
      → Returns Q (ask reply record_of)
  unfolding ask
  ask-Returns Q reply record_of h = record { at = h }

  pub bind-Returns :
      {A B : Type 0} (P : A → Type 0) (Q : B → Type 0) {m : Proc C S A} {f : A → Proc C S B}
      → Returns P m
      → ((a : A) → P a → Returns Q (f a))
      → Returns Q (m >>= f)
  unfolding ◌>>=◌
  bind-Returns P Q {m} {f} hm hf = record { at = λ s. (hf (m s).value (hm.at s)).at (m s).state }

  pub weaken-Returns :
      {A : Type 0} {P Q : A → Type 0} {m : Proc C S A}
      → ((a : A) → P a → Q a)
      → Returns P m
      → Returns Q m
  weaken-Returns f r = record { at = λ s. f _ (r.at s) }

  pub then-Returns :
      {A B : Type 0} (Q : B → Type 0) (m : Proc C S A) {k : Proc C S B}
      → Returns Q k
      → Returns Q (m >> k)
  unfolding ◌>>◌ ◌>>=◌
  then-Returns Q m hk = record { at = λ s. hk.at (m s).state }

  pub if-Returns :
      {A : Type 0} (Q : A → Type 0) (b : Bool) {m k : Proc C S A}
      → (b ≡ true → Returns Q m)
      → (b ≡ false → Returns Q k)
      → Returns Q (if b then m else k)
  if-Returns Q true hm hk = hm refl
  if-Returns Q false hm hk = hk refl
