-- ===== src/Graphics/Ledger.antt =====
-- Who holds a buffer: the buffers that the driver hands out in a trace, and those given back.
use mathlib.Core.List.{perm_middle}
use mathlib.Core.List.Perm
use android_device_xenvm.Base.{
  ℕ, zero, suc, ◌≡◌, refl, sym, ap, ◌∙◌, false, Option, some, List, [], ◌∷◌, ◌++◌, append-nil,
  append_assoc, Perm, arith, Done, Proc, pure, ◌>>=◌, length, Bool-cases, ◌==◌, inl, inr,
}
use android_device_xenvm.Graphics.{Error, is_none, Handle, Batch, accept, take_reply, allocate_loop}

-- The handles that the calls of a trace stand for, in order, where `of` says what one call does.
abbrev pub gather : {C : Type 0} → (C → List Handle) → List C → List Handle
gather of [] = []
gather of (c ∷ cs) = of c ++ gather of cs

pub gather-append :
    {C : Type 0} (of : C → List Handle) (xs ys : List C)
    → gather of (xs ++ ys) ≡ gather of xs ++ gather of ys
gather-append of [] ys = refl
gather-append of (x ∷ xs) ys = rw (gather-append of xs ys) (sym (append_assoc (of x) _ _))

module _ {C : Type 0} (gain loss : C → List Handle) where
  -- What one round does to the batch: it goes on with one buffer more, or stops.
  data Round (b b' : Batch) (trace : List C) : Type 0 where
    more :
        (h : Handle)
        → b'.error ≡ Error.no_error
        → b'.buffers ≡ b.buffers ++ (h ∷ [])
        → gather gain trace ≡ h ∷ []
        → gather loss trace ≡ []
        → Round b b' trace
    stop :
        (new : List Handle)
        → is_none b'.error ≡ false
        → b'.buffers ≡ b.buffers ++ new
        → Perm (gather gain trace) (gather loss trace ++ new)
        → Round b b' trace

  accept-Round :
      (b : Batch) (h : Handle) (t : ℕ) (trace : List C)
      → b.error ≡ Error.no_error
      → gather gain trace ≡ h ∷ []
      → gather loss trace ≡ []
      → Round b (accept b (h, t)) trace
  unfolding accept
  accept-Round b h t trace ok g l = elim (Bool-cases (b.stride == 0)) [
    | inl first ↦ rw first (more h ok refl g l)
    | inr set ↦ elim (Bool-cases (b.stride == t)) [
      | inl same ↦ rw (set, same) (more h ok refl g l)
      | inr other ↦ rw (set, other) (stop (h ∷ []) refl refl (rw (g, l) (Perm.refl _)))
    ]
  ]

module _ {C S : Type 0} (gain loss : C → List Handle) where
  -- A run that returns one buffer, or an error and no buffer.
  pub record OneBuffer (r : Done C S (Error × Option (Handle × ℕ))) : Type 0 where
    pub got :
        r.value.0 ≡ Error.no_error
        → (h : Handle) × (t : ℕ) × (r.value.1 ≡ some (h, t))
          × (gather gain r.trace ≡ h ∷ [])
          × (gather loss r.trace ≡ [])
    pub failed : is_none r.value.0 ≡ false → Perm (gather gain r.trace) (gather loss r.trace)

  -- A loop that ran for `left` rounds from the batch b.
  pub record Grows (left : ℕ) (b : Batch) (r : Done C S Batch) : Type 0 where
    pub new : List Handle
    pub pushed : r.value.buffers ≡ b.buffers ++ new
    pub owned : Perm (gather gain r.trace) (gather loss r.trace ++ new)
    pub complete : r.value.error ≡ Error.no_error → length new ≡ left
    pub kept : r.value.error ≡ Error.no_error → gather loss r.trace ≡ []

  take_reply-Round :
      (unset : Handle × ℕ) (b : Batch) (r : Done C S (Error × Option (Handle × ℕ)))
      → b.error ≡ Error.no_error
      → OneBuffer r
      → Round gain loss b (take_reply unset b r.value) r.trace
  unfolding take_reply
  take_reply-Round unset b r ok law = elim (Bool-cases (is_none r.value.0)) [
    | inl good ↦
        let (h, t, out, g, l) = law.got (ground arith) in
        rw (good, out) (accept-Round gain loss b h t r.trace ok g l)
    | inr bad ↦ rw bad (stop [] bad (simp append-nil) (simp append-nil (law.failed bad)))
  ]

  module _ (one : Proc C S (Error × Option (Handle × ℕ))) (unset : Handle × ℕ) where
    Round-Grows :
        (left : ℕ) (b : Batch) (s : S)
        → let b' = take_reply unset b (one s).value in
          Round gain loss b b' (one s).trace
          → (b'.error ≡ Error.no_error
              → Grows left b' (allocate_loop one unset left b' (one s).state))
          → Grows (suc left) b (allocate_loop one unset (suc left) b s)
    unfolding allocate_loop ◌>>=◌ pure
    Round-Grows left b s (more x ok p g l) go_on =
        let rest = go_on ok in
        rw (ap is_none ok, allocate_loop)
          (record {
            new = x ∷ rest.new;
            pushed = rest.pushed ∙ ap (λ bs. bs ++ rest.new) p ∙ append_assoc b.buffers _ _;
            owned =
                rw (gather-append gain, gather-append loss, g, l)
                  (Perm.trans (Perm.cons x rest.owned) (Perm.symm (perm_middle _ rest.new)));
            complete = λ e. ap suc (rest.complete e);
            kept = λ e. rw (gather-append loss, l) (rest.kept e);
          })
    Round-Grows left b s (stop new bad p own) go_on =
        rw (bad, allocate_loop)
          (record {
            new = new;
            pushed = p;
            owned = rw append-nil own;
            complete = λ e. absurd (ground arith);
            kept = λ e. absurd (ground arith);
          })

    -- The loop returns in its batch every buffer that it took and did not give back, and after a
    -- whole run without error exactly `left` new ones.
    pub allocate_loop-Grows :
        ((s : S) → OneBuffer (one s))
        → (left : ℕ) (b : Batch) (s : S) → b.error ≡ Error.no_error
        → Grows left b (allocate_loop one unset left b s)
    unfolding allocate_loop pure
    allocate_loop-Grows law zero b s h = record {
      new = [];
      pushed = simp append-nil;
      owned = Perm.refl [];
      complete = λ e. refl;
      kept = λ e. refl;
    }
    allocate_loop-Grows law (suc left) b s h =
        Round-Grows left b s (take_reply-Round unset b (one s) h (law s))
          (allocate_loop-Grows law left _ _)
