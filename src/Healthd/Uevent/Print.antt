-- ===== src/Healthd/Uevent/Print.antt =====
-- What `uevent_event` makes of a message as the kernel writes it.
use android_device_xenvm.Base.{
  ℕ, ◌<◌, ◌≡◌, refl, ap, ◌∙◌, pos, Bool, true, false, not, ◌&&◌, some, List, [], ◌∷◌, ◌++◌, arith,
  ◌==◌, length, take-length, length-append, any, All, ltb,
}
use android_device_xenvm.Healthd.Uevent.{uevent_msg_len, subsystem, wants_update}
use android_device_xenvm.Healthd.Uevent.Fields.{
  fields, until_empty, same_bytes, announces, wants_update_lem,
}

-- Every field with a NUL behind it.
abbrev pub print : List (List ℕ) → List ℕ
print [] = []
print (f ∷ fs) = f ++ (0 ∷ print fs)

-- A field has a byte, and none that is NUL.
abbrev pub is_field : List ℕ → Bool
is_field [] = false
is_field (c ∷ cs) = not (any (λ b. b == 0) (c ∷ cs))

fields-field :
    (f ms : List ℕ) → any (λ b. b == 0) f ≡ false → fields (f ++ (0 ∷ ms)) ≡ f ∷ fields ms
fields-field [] ms h = refl
fields-field (c ∷ f) ms h = ground (arith, fields-field f ms)

until_empty-print :
    (fs : List (List ℕ)) → All (λ f. is_field f ≡ true) fs → until_empty (fields (print fs)) ≡ fs
until_empty-print [] h = refl
until_empty-print ([] ∷ fs) h = absurd (ground (arith, h.0))
until_empty-print ((c ∷ f) ∷ fs) h =
    ap until_empty (fields-field (c ∷ f) (print fs) (ground (arith, h.0)))
    ∙ ap (λ gs. (c ∷ f) ∷ gs) (until_empty-print fs h.1)

announces-print :
    (fs : List (List ℕ))
    → All (λ f. is_field f ≡ true) fs
    → announces (fields (print fs)) ≡ any (λ f. same_bytes f subsystem) fs
unfolding announces
announces-print fs h = ap (any (λ f. same_bytes f subsystem)) (until_empty-print fs h)

-- For a message of fewer than 2048 bytes that is written as fields, each with a NUL behind it,
-- none of them empty or with a NUL inside: `uevent_event` asks for a battery update exactly when
-- one of the fields is SUBSYSTEM=power_supply, whatever the array held behind the message.
pub wants_update-print :
    (fs : List (List ℕ)) (stale : List ℕ)
    → All (λ f. is_field f ≡ true) fs
    → length (print fs) < uevent_msg_len
    → wants_update (pos (length (print fs))) (print fs ++ stale)
      ≡ some (any (λ f. same_bytes f subsystem) fs)
wants_update-print [] stale h n = (wants_update_lem 0 stale).0
wants_update-print (f ∷ fs) stale h n =
    (wants_update_lem (length (print (f ∷ fs))) (print (f ∷ fs) ++ stale)).0
    ∙ ap
        (λ ms. some (
          ltb 0 (length (print (f ∷ fs)))
          && (ltb (length (print (f ∷ fs))) uevent_msg_len && announces (fields ms))))
        (take-length (print (f ∷ fs)) stale)
    ∙ ground (arith, announces-print (f ∷ fs) h, length-append f (0 ∷ print fs))
