-- ===== src/Base/History.antt =====
-- Statements about the state and the whole history of calls, before and after a run.
use mathlib.Core.Path.{◌≡◌, refl, subst, sym}
use mathlib.Core.Bool.{Bool, true, false}
use mathlib.Core.List.{List, [], ◌∷◌, ◌++◌, append-nil, append_assoc}
use android_device_xenvm.Base.Tests.{if◌then◌else◌}
use android_device_xenvm.Base.Effects.{Proc, pure, ask, reading, change, ◌>>=◌, ◌>>◌}

module _ {C S : Type 0} where
  -- Started with a history and a state that satisfy Pre, the run ends with a result, a longer
  -- history and a state that satisfy Post.
  pub record Runs {A : Type 0} (Pre : List C → S → Type 0) (Post : A → List C → S → Type 0)
      (m : Proc C S A) : Type 0 where
    pub at : (h : List C) (s : S) → Pre h s → Post (m s).value (h ++ (m s).trace) (m s).state

  pub pure-Runs :
      {A : Type 0} (Pre : List C → S → Type 0) (Post : A → List C → S → Type 0) {a : A}
      → ((h : List C) (s : S) → Pre h s → Post a h s)
      → Runs Pre Post (pure a)
  unfolding pure
  pure-Runs Pre Post {a} k = record {
    at = λ h s p. subst (λ x. Post a x s) (sym (append-nil h)) (k h s p);
  }

  pub ask-Runs :
      {A : Type 0} (Pre : List C → S → Type 0) (Post : A → List C → S → Type 0) (reply : S → A × S)
      (record_of : A → C)
      → ((h : List C) (s : S)
          → Pre h s
          → Post (reply s).0 (h ++ (record_of (reply s).0 ∷ [])) (reply s).1)
      → Runs Pre Post (ask reply record_of)
  unfolding ask
  ask-Runs Pre Post reply record_of k = record { at = k }

  pub reading-Runs :
      {A : Type 0} (Pre : List C → S → Type 0) (Post : A → List C → S → Type 0) (f : S → A)
      → ((h : List C) (s : S) → Pre h s → Post (f s) h s)
      → Runs Pre Post (reading f)
  unfolding reading
  reading-Runs Pre Post f k = record {
    at = λ h s p. subst (λ x. Post (f s) x s) (sym (append-nil h)) (k h s p);
  }

  pub change-Runs :
      (Pre : List C → S → Type 0) (Post : Unit {0} → List C → S → Type 0) (f : S → S)
      → ((h : List C) (s : S) → Pre h s → Post tt h (f s))
      → Runs Pre Post (change f)
  unfolding change
  change-Runs Pre Post f k = record {
    at = λ h s p. subst (λ x. Post tt x (f s)) (sym (append-nil h)) (k h s p);
  }

  pub bind-Runs :
      {A B : Type 0} (Pre : List C → S → Type 0) (Mid : A → List C → S → Type 0)
      (Post : B → List C → S → Type 0) {m : Proc C S A} {f : A → Proc C S B}
      → Runs Pre Mid m
      → ((a : A) → Runs (Mid a) Post (f a))
      → Runs Pre Post (m >>= f)
  unfolding ◌>>=◌
  bind-Runs Pre Mid Post {m} {f} hm hf = record {
    at = λ h s p.
        let r = m s in
        let q = f r.value r.state in
        subst (λ x. Post q.value x q.state) (append_assoc h r.trace q.trace)
          ((hf r.value).at (h ++ r.trace) r.state (hm.at h s p));
  }

  pub then-Runs :
      {A B : Type 0} (Pre : List C → S → Type 0) (Mid : List C → S → Type 0)
      (Post : B → List C → S → Type 0) {m : Proc C S A} {k : Proc C S B}
      → Runs Pre (λ _. Mid) m
      → Runs Mid Post k
      → Runs Pre Post (m >> k)
  unfolding ◌>>◌
  then-Runs Pre Mid Post hm hk = bind-Runs Pre (λ _. Mid) Post hm (λ _. hk)

  pub if-Runs :
      {A : Type 0} (Pre : List C → S → Type 0) (Post : A → List C → S → Type 0) (b : Bool)
      {m k : Proc C S A}
      → (b ≡ true → Runs Pre Post m)
      → (b ≡ false → Runs Pre Post k)
      → Runs Pre Post (if b then m else k)
  if-Runs Pre Post true hm hk = hm refl
  if-Runs Pre Post false hm hk = hk refl

  -- A stronger condition before, and a weaker one after.
  pub weaken-Runs :
      {A : Type 0} {Pre Pre' : List C → S → Type 0} {Post Post' : A → List C → S → Type 0}
      {m : Proc C S A}
      → ((h : List C) (s : S) → Pre' h s → Pre h s)
      → ((a : A) (h : List C) (s : S) → Post a h s → Post' a h s)
      → Runs Pre Post m
      → Runs Pre' Post' m
  weaken-Runs {m} f g r = record { at = λ h s p. g _ _ _ (r.at h s (f h s p)) }

  -- What the condition before says can be used to choose the rest.
  pub given-Runs :
      {A : Type 0} {Pre : List C → S → Type 0} (Post : A → List C → S → Type 0) (Q : Type 0)
      {m : Proc C S A}
      → ((h : List C) (s : S) → Pre h s → Q)
      → (Q → Runs Pre Post m)
      → Runs Pre Post m
  given-Runs Post Q f g = record { at = λ h s p. (g (f h s p)).at h s p }
