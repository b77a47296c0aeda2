-- ===== src/Graphics/Holding.antt =====
-- Which buffers are held while a trace runs, and that no call uses or gives back another one.
use mathlib.Core.List.{Mem, perm_middle}
use mathlib.Core.List.Perm
use android_device_xenvm.Base.{
  ℕ, zero, suc, ◌≡◌, ap, Option, none, some, List, [], ◌∷◌, ◌++◌, append-nil, append_assoc, Perm,
  arith, Done, Proc, true, false, pure, ◌>>=◌, All, Bool-cases, inl, inr,
}
use android_device_xenvm.Graphics.{
  Error, is_none, Handle, Batch, AllocatorHal, BufferDescriptor, accept, take_reply, allocate_loop,
}

-- What a call does: it hands out a buffer, is made on buffers, gives one back, or none of these.
pub data Act : Type 0 where
  nothing : Act
  gets gives : Handle → Act
  uses : List Handle → Act

-- From the buffers L that are held before to the buffers M that are held after, in any order. A
-- call is made on buffers that are held, and gives back one that is held.
abbrev pub Step : Act → List Handle → List Handle → Type 0
Step nothing L M = Perm L M
Step (gets h) L M = Perm (h ∷ L) M
Step (gives h) L M = Perm L (h ∷ M)
Step (uses hs) L M = All (λ h. Mem h L) hs × Perm L M

pub data Holds {C : Type 0} (act : C → Act) : List C → List Handle → List Handle → Type 0 where
  rest : {L M : List Handle} → Perm L M → Holds act [] L M
  call :
      {c : C} {cs : List C} {L : List Handle} (M : List Handle) {N : List Handle}
      → Step (act c) L M
      → Holds act cs M N
      → Holds act (c ∷ cs) L N

Mem-All :
    (hs : List Handle) {L L' : List Handle}
    → Perm L L'
    → All (λ h. Mem h L) hs
    → All (λ h. Mem h L') hs
Mem-All [] p a = tt
Mem-All (h ∷ hs) p a = ((Perm.mem_iff p).0 a.0, Mem-All hs p a.1)

Step-before : (a : Act) {K L : List Handle} (M : List Handle) → Perm K L → Step a L M → Step a K M
Step-before nothing M p s = Perm.trans p s
Step-before (gets h) M p s = Perm.trans (Perm.cons h p) s
Step-before (gives h) M p s = Perm.trans p s
Step-before (uses hs) M p s = (Mem-All hs (Perm.symm p) s.0, Perm.trans p s.1)

module _ {C : Type 0} {act : C → Act} where
  -- The order of what is held before, or after, does not matter.
  pub Holds-before :
      {cs : List C} {K L M : List Handle} → Perm K L → Holds act cs L M → Holds act cs K M
  Holds-before p (rest q) = rest (Perm.trans p q)
  Holds-before p (call {c} M s h) = call M (Step-before (act c) M p s) h

  pub Holds-after :
      {cs : List C} {L M N : List Handle} → Holds act cs L M → Perm M N → Holds act cs L N
  Holds-after (rest q) p = rest (Perm.trans q p)
  Holds-after (call M s h) p = call M s (Holds-after h p)

  pub Holds-append :
      {cs ds : List C} {L M N : List Handle}
      → Holds act cs L M
      → Holds act ds M N
      → Holds act (cs ++ ds) L N
  Holds-append (rest q) k = Holds-before q k
  Holds-append (call M s h) k = call M s (Holds-append h k)

module _ {C : Type 0} (act : C → Act) where
  -- Calls that do nothing with buffers.
  abbrev pub Idle : C → Type 0
  Idle c = act c ≡ nothing

  pub Idle-Holds : (cs : List C) (L : List Handle) → All Idle cs → Holds act cs L L
  Idle-Holds [] L h = rest (Perm.refl L)
  Idle-Holds (c ∷ cs) L h = call L (rw h.0 (Perm.refl L)) (Idle-Holds cs L h.1)

accept-buffers :
    (b : Batch) (h : Handle) (t : ℕ) → (accept b (h, t)).buffers ≡ b.buffers ++ (h ∷ [])
unfolding accept
accept-buffers b h t = ground arith

module _ {C S : Type 0} (act : C → Act) where
  -- A run that returns one buffer more, or an error and no buffer, whatever else is held.
  pub record Obtains (r : Done C S (Error × Option (Handle × ℕ))) : Type 0 where
    pub got :
        is_none r.value.0 ≡ true
        → (h : Handle) × (t : ℕ) × (r.value.1 ≡ some (h, t))
          × ((L : List Handle) → Holds act r.trace L (h ∷ L))
    pub failed : is_none r.value.0 ≡ false → (L : List Handle) → Holds act r.trace L L

  -- A run of `allocateBuffers`: the buffers that it returns are held after it, or what was held
  -- before it, whatever that is.
  pub record Returns (r : Done C S (Error × Option (ℕ × List Handle))) : Type 0 where
    pub success :
        is_none r.value.0 ≡ true
        → (stride : ℕ) × (buffers : List Handle) × (r.value.1 ≡ some (stride, buffers))
          × ((L : List Handle) → Holds act r.trace L (buffers ++ L))
    pub failure : is_none r.value.0 ≡ false → (L : List Handle) → Holds act r.trace L L

  -- What a client of `AllocatorHal` relies on, call for call.
  pub record IsCareful (hal : AllocatorHal C S) : Type 0 where
    pub allocates :
        (descriptor : BufferDescriptor) (count : ℕ) (s : S)
        → Returns (hal.allocate_buffers descriptor count s)
    pub frees :
        (bs : List Handle) (s : S) (L : List Handle)
        → Holds act (hal.free_buffers bs s).trace (bs ++ L) L
    pub dumps : (s : S) (L : List Handle) → Holds act (hal.dump_debug_info s).trace L L

  take_reply-Holds :
      (unset : Handle × ℕ) (b : Batch) (r : Done C S (Error × Option (Handle × ℕ)))
      (L : List Handle)
      → Obtains r
      → Holds act r.trace (b.buffers ++ L) ((take_reply unset b r.value).buffers ++ L)
  unfolding take_reply
  take_reply-Holds unset b r L law = elim (Bool-cases (is_none r.value.0)) [
    | inl good ↦
        let (h, t, out, held) = law.got good in
        rw (good, out, accept-buffers b h t, append_assoc)
          (Holds-after (held (b.buffers ++ L)) (Perm.symm (perm_middle b.buffers L)))
    | inr bad ↦ rw bad (law.failed bad (b.buffers ++ L))
  ]

  -- A run that begins with the batch b, whose buffers are held beside L, and ends with its own.
  pub record Collects (b : Batch) (L : List Handle) (r : Done C S Batch) : Type 0 where
    pub held : Holds act r.trace (b.buffers ++ L) (r.value.buffers ++ L)

  -- Every buffer that the loop takes is in its batch, and held.
  pub allocate_loop-Holds :
      (one : Proc C S (Error × Option (Handle × ℕ))) (unset : Handle × ℕ)
      → ((s : S) → Obtains (one s))
      → (left : ℕ) (b : Batch) (s : S) (L : List Handle)
      → Collects b L (allocate_loop one unset left b s)
  unfolding allocate_loop ◌>>=◌ pure
  allocate_loop-Holds one unset law zero b s L = record { held = rest (Perm.refl _) }
  allocate_loop-Holds one unset law (suc left) b s L =
      let r = one s in
      let b' = take_reply unset b r.value in
      let first = take_reply-Holds unset b r L (law s) in
      elim (Bool-cases (is_none b'.error)) [
        | inl ok ↦
            let more = allocate_loop-Holds one unset law left b' r.state L in
            rw (ok, allocate_loop) (record { held = Holds-append first more.held })
        | inr bad ↦ rw (bad, allocate_loop) (record { held = rw append-nil first })
      ]

  -- The end of `allocateBuffers` behind its loop: the buffers are kept, or given back.
  pub Returns-finish :
      (loop : Done C S Batch) (r : Done C S (Error × Option (ℕ × List Handle)))
      → ((L : List Handle) → Holds act loop.trace L (loop.value.buffers ++ L))
      → (is_none loop.value.error ≡ true
          → (r.value ≡ (Error.no_error, some (loop.value.stride, loop.value.buffers)))
            × ((L : List Handle) → Holds act r.trace L L))
      → (is_none loop.value.error ≡ false
          → (r.value ≡ (loop.value.error, none))
            × ((L : List Handle) → Holds act r.trace (loop.value.buffers ++ L) L))
      → Returns (record r { trace = loop.trace ++ r.trace })
  Returns-finish loop r taken good bad = elim (Bool-cases (is_none loop.value.error)) [
    | inl ok ↦
        let (v, kept) = good ok in
        record {
          success = λ h. (
            loop.value.stride,
            loop.value.buffers,
            ap (λ w. w.1) v,
            λ L. Holds-append (taken L) (kept (loop.value.buffers ++ L)),
          );
          failure = λ h. absurd (ground (arith, ap (λ w. w.0) v));
        }
    | inr failed ↦
        let (v, freed) = bad failed in
        record {
          success = λ h. absurd (ground (arith, ap (λ w. w.0) v));
          failure = λ h L. Holds-append (taken L) (freed L);
        }
  ]

  -- Calls that leave what is held as it is may come first.
  pub Returns-prefix :
      (pre : List C) (r : Done C S (Error × Option (ℕ × List Handle)))
      → ((L : List Handle) → Holds act pre L L)
      → Returns r
      → Returns (record r { trace = pre ++ r.trace })
  Returns-prefix pre r idle a = record {
    success = λ h.
        let (stride, buffers, out, held) = a.success h in
        (stride, buffers, out, λ L. Holds-append (idle L) (held L));
    failure = λ h L. Holds-append (idle L) (a.failure h L);
  }

  -- An error before anything was called.
  pub Returns-refused :
      (error : Error) (s : S)
      → is_none error ≡ false
      → Returns (record { value = (error, none); state = s; trace = [] })
  Returns-refused error s bad = record {
    success = λ h. absurd (ground arith);
    failure = λ h L. rest (Perm.refl L);
  }
