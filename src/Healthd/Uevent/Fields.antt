-- ===== src/Healthd/Uevent/Fields.antt =====
-- What `uevent_event` looks for, said of the message's NUL-separated fields.
use android_device_xenvm.Base.{
  ℕ, zero, suc, ◌+◌, ◌<◌, ◌≡◌, ◌≢◌, refl, ap, sym, ◌∙◌, pos, negsuc, Bool, true, false, ◌&&◌, ◌||◌,
  Option, some, List, [], ◌∷◌, arith, Bool-cases, inl, inr, ◌==◌, if◌then◌else◌, length, take,
  length-take, any, All, ltb,
}
use android_device_xenvm.Healthd.Uevent.{
  uevent_msg_len, subsystem, equals, skip, scan_field, scan, terminated, wants_update,
}

abbrev pub before_first : ℕ → List (List ℕ) → List (List ℕ)
before_first c [] = []
before_first c (f ∷ fs) = (c ∷ f) ∷ fs

-- The fields between the NULs of a message.
abbrev pub fields : List ℕ → List (List ℕ)
fields [] = [] ∷ []
fields (c ∷ cs) = if c == 0 then ([] ∷ fields cs) else before_first c (fields cs)

-- The fields in front of the first empty one.
abbrev pub until_empty : List (List ℕ) → List (List ℕ)
until_empty [] = []
until_empty ([] ∷ fs) = []
until_empty ((c ∷ f) ∷ fs) = (c ∷ f) ∷ until_empty fs

abbrev pub same_bytes : List ℕ → List ℕ → Bool
same_bytes [] [] = true
same_bytes [] (d ∷ ds) = false
same_bytes (c ∷ cs) [] = false
same_bytes (c ∷ cs) (d ∷ ds) = if c == d then same_bytes cs ds else false

-- What a first field and the rest are, without an empty list of fields.
abbrev first : List (List ℕ) → List ℕ
first [] = []
first (f ∷ fs) = f

fields-cons : (cs : List ℕ) → (f : List ℕ) × (fs : List (List ℕ)) × (fields cs ≡ f ∷ fs)
fields-cons [] = ([], [], refl)
fields-cons (c ∷ cs) = elim (Bool-cases (c == 0)) [
  | inl nul ↦ ([], fields cs, rw nul refl)
  | inr other ↦ let (f, fs, e) = fields-cons cs in (c ∷ f, fs, rw (other, e) refl)
]

equals-fields :
    (cs lit : List ℕ)
    → All (λ l. l ≢ 0) lit
    → equals (terminated cs) lit ≡ some (same_bytes (first (fields cs)) lit)
unfolding equals
equals-fields [] [] h = refl
equals-fields [] (l ∷ ls) h = ground arith
equals-fields (c ∷ cs) [] h = let (f, fs, e) = fields-cons cs in ground (arith, e)
equals-fields (c ∷ cs) (l ∷ ls) h =
    let (f, fs, e) = fields-cons cs in ground (arith, e, h.0, equals-fields cs ls h.1)

-- Where the search goes on behind the first field.
data After (cs : List ℕ) : Type 0 where
  last : skip (terminated cs) ≡ some (0 ∷ []) → fields cs ≡ first (fields cs) ∷ [] → After cs
  more :
      (r : List ℕ)
      → skip (terminated cs) ≡ some (terminated r)
      → fields cs ≡ first (fields cs) ∷ fields r
      → length r < length cs
      → After cs

skip-After : (cs : List ℕ) → After cs
unfolding skip
skip-After [] = last refl refl
skip-After (c ∷ cs) = elim (Bool-cases (c == 0)) [
  | inl nul ↦ more cs (rw nul refl) (rw nul refl) (omega arith)
  | inr other ↦
      let (f, fs, e) = fields-cons cs in
      elim (skip-After cs) [
        | last s h ↦ last (rw other s) (rw (other, h) refl)
        | more r s h n ↦ more r (rw other s) (rw (other, h) refl) (omega arith)
      ]
]

-- A field in front of the first empty one names the subsystem.
unfoldable pub announces : List (List ℕ) → Bool
announces fs = any (λ f. same_bytes f subsystem) (until_empty fs)

announces-cons :
    (c : ℕ) (f : List ℕ) (fs : List (List ℕ))
    → announces ((c ∷ f) ∷ fs) ≡ (same_bytes (c ∷ f) subsystem || announces fs)
unfolding announces
announces-cons c f fs = refl

scan_field_hit :
    (again : List ℕ → Option Bool) (cp : List ℕ)
    → equals cp subsystem ≡ some true
    → scan_field again cp ≡ some true
unfolding scan_field
scan_field_hit again cp h = rw (h, scan_field) refl

scan_field_miss :
    (again : List ℕ → Option Bool) (cp : List ℕ) {rest : List ℕ}
    → equals cp subsystem ≡ some false
    → skip cp ≡ some rest
    → scan_field again cp ≡ again rest
unfolding scan_field
scan_field_miss again cp h s = rw (h, s, scan_field) refl

first-cons :
    (c : ℕ) (cs : List ℕ) → (c == 0) ≡ false → (f : List ℕ) × (first (fields (c ∷ cs)) ≡ c ∷ f)
first-cons c cs other = let (f, fs, e) = fields-cons cs in (f, rw (other, e) refl)

-- A round on a field that is not empty; `again` is what the next round gives.
scan_field-fields :
    (again : List ℕ → Option Bool) (c : ℕ) (cs : List ℕ)
    → (c == 0) ≡ false
    → again (0 ∷ []) ≡ some false
    → ((r : List ℕ)
        → length r < length (c ∷ cs)
        → again (terminated r) ≡ some (announces (fields r)))
    → scan_field again (terminated (c ∷ cs)) ≡ some (announces (fields (c ∷ cs)))
unfolding announces
scan_field-fields again c cs other stop go_on = elim (skip-After (c ∷ cs)) [
  | last s h ↦
      let all = h ∙ ap (λ g. g ∷ []) e in
      elim (Bool-cases (same_bytes (c ∷ f) subsystem)) [
        | inl found ↦ hit found [] all
        | inr missed ↦
            scan_field_miss again _ (reads missed) s
            ∙ stop
            ∙ sym (
                ap some
                  (ap announces all ∙ announces-cons c f [] ∙ ap (λ b. b || announces []) missed))
      ]
  | more r s h n ↦
      let all = h ∙ ap (λ g. g ∷ fields r) e in
      elim (Bool-cases (same_bytes (c ∷ f) subsystem)) [
        | inl found ↦ hit found (fields r) all
        | inr missed ↦
            scan_field_miss again _ (reads missed) s
            ∙ go_on r n
            ∙ sym (
                ap some (
                  ap announces all
                  ∙ announces-cons c f (fields r)
                  ∙ ap (λ b. b || announces (fields r)) missed))
      ]
]
  where
    f : List ℕ
    f = (first-cons c cs other).0

    e : first (fields (c ∷ cs)) ≡ c ∷ f
    e = (first-cons c cs other).1

    reads :
        {b : Bool}
        → same_bytes (c ∷ f) subsystem ≡ b
        → equals (terminated (c ∷ cs)) subsystem ≡ some b
    reads h =
        equals-fields (c ∷ cs) subsystem (omega arith)
        ∙ ap (λ g. some (same_bytes g subsystem)) e
        ∙ ap some h

    hit :
        same_bytes (c ∷ f) subsystem ≡ true
        → (fs : List (List ℕ)) → fields (c ∷ cs) ≡ (c ∷ f) ∷ fs
        → scan_field again (terminated (c ∷ cs)) ≡ some (announces (fields (c ∷ cs)))
    hit found fs all =
        scan_field_hit again _ (reads found)
        ∙ sym
            (ap some (ap announces all ∙ announces-cons c f fs ∙ ap (λ b. b || announces fs) found))

scan-cons :
    (fuel c : ℕ) (cs : List ℕ)
    → (c == 0) ≡ false
    → scan (suc fuel) (c ∷ cs) ≡ scan_field (scan fuel) (c ∷ cs)
unfolding scan
scan-cons fuel c cs other = rw (other, scan) refl

-- With fuel for the bytes the loop ends within the terminated array, and finds the subsystem where
-- a field in front of the first empty one names it.
scan-fields :
    (fuel : ℕ) (cs : List ℕ)
    → length cs + 1 < fuel
    → scan fuel (terminated cs) ≡ some (announces (fields cs))
unfolding scan announces
scan-fields zero cs h = absurd (omega arith)
scan-fields (suc zero) cs h = absurd (omega arith)
scan-fields (suc (suc fuel)) [] h = refl
scan-fields (suc (suc fuel)) (c ∷ cs) h = elim (Bool-cases (c == 0)) [
  | inl nul ↦ rw (nul, scan) refl
  | inr other ↦
      scan-cons (suc fuel) c _ other
      ∙ scan_field-fields (scan (suc fuel)) c cs other refl
          (λ r n. scan-fields (suc fuel) r (omega arith))
]

-- For a message of n ≥ 0 bytes the loop of `uevent_event` ends without a read behind the two NULs
-- that it stores, and asks for a battery update exactly when 0 < n < 2048 and one of the
-- NUL-separated fields of the first n bytes, in front of the first empty one, is
-- SUBSYSTEM=power_supply. A negative n asks for none.
pub wants_update_lem :
    (n : ℕ) (msg : List ℕ)
    → (wants_update (pos n) msg
        ≡ some (ltb 0 n && (ltb n uevent_msg_len && announces (fields (take n msg)))))
      × (wants_update (negsuc n) msg ≡ some false)
unfolding wants_update
wants_update_lem n msg =
    (ground (arith, scan-fields (n + 2) (take n msg) (omega (arith, length-take n msg))), refl)
