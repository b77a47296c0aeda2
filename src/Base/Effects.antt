-- ===== src/Base/Effects.antt =====
-- Code with effects: a step over a state of type S that also says, in order, which outside calls
-- of type C it made. The outside world's replies come from the state.
use mathlib.Core.List.{List, [], ◌∷◌, ◌++◌}

pub record Done (C S A : Type 0) : Type 0 where
  pub value : A
  pub state : S
  pub trace : List C

abbrev pub Proc : (C S A : Type 0) → Type 0
Proc C S A = S → Done C S A

module _ {C S : Type 0} where
  unfoldable pub pure : {A : Type 0} → A → Proc C S A
  pure a s = record { value = a; state = s; trace = [] }

  infixl 5 ◌>>=◌ ◌>>◌
  unfoldable pub ◌>>=◌ : {A B : Type 0} → Proc C S A → (A → Proc C S B) → Proc C S B
  ◌>>=◌ m f s =
      let r = m s in
      let q = f r.value r.state in
      record { value = q.value; state = q.state; trace = r.trace ++ q.trace }

  unfoldable pub ◌>>◌ : {A B : Type 0} → Proc C S A → Proc C S B → Proc C S B
  unfolding ◌>>=◌
  m >> k = m >>= λ _. k

  -- An outside call: the world answers and moves on, and the call is recorded with its answer.
  unfoldable pub ask : {A : Type 0} → (S → A × S) → (A → C) → Proc C S A
  ask reply record_of s =
      let r = reply s in record { value = r.0; state = r.1; trace = record_of r.0 ∷ [] }

  -- Reading the state, and changing it, without an outside call.
  unfoldable pub reading : {A : Type 0} → (S → A) → Proc C S A
  reading f s = record { value = f s; state = s; trace = [] }

  unfoldable pub change : (S → S) → Proc C S (Unit {0})
  change f s = record { value = tt; state = f s; trace = [] }
