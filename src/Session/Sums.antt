-- ===== src/Session/Sums.antt =====
-- Devices, answers and buffers in what the service does, counted piece by piece.
use mathlib.Core.List.{map}
use mathlib.Core.List.Perm
use android_device_xenvm.Base.{ℕ, ◌+◌, ◌≡◌, refl, ap, ◌∙◌, List, [], ◌∷◌, ◌++◌, arith, All, Perm}
use android_device_xenvm.Base.Count.{total, total-append}
use android_device_xenvm.Graphics.{Handle}
use android_device_xenvm.Graphics.Ledger.{gather, gather-append}
use android_device_xenvm.Allocator.{Event, via_hal, replied, replied_dump}
use android_device_xenvm.Allocator.Serves.{Served}
use android_device_xenvm.Loader.{HwModule, Hal, gralloc1, gralloc0, on_one, on_zero, load}
use android_device_xenvm.Loader
use android_device_xenvm.Loader.Opened.{opens, closes}
use android_device_xenvm.Session.Loading.{Bufferless}
use android_device_xenvm.Session.Sound.{gain, loss, gather-map}
use android_device_xenvm.Session.Idle.{StillEvent}

-- The same of an event of the service: only calls of the HAL touch devices and buffers.
abbrev pub opening : Event Loader.Event → ℕ
opening (via_hal e) = opens e
opening e = 0

abbrev pub closing : Event Loader.Event → ℕ
closing (via_hal e) = closes e
closing e = 0

abbrev pub answering : Event Loader.Event → ℕ
answering (replied error stride buffers) = 1
answering (replied_dump text) = 1
answering (via_hal e) = 0

abbrev pub gaining : Event Loader.Event → List Handle
gaining (via_hal e) = gain e
gaining e = []

abbrev pub losing : Event Loader.Event → List Handle
losing (via_hal e) = loss e
losing e = []

-- Devices opened and closed, answers given, and no buffer held at the end.
pub record Sums (opened closed answered : ℕ) (t : List (Event Loader.Event)) : Type 0 where
  pub opened_all : total opening t ≡ opened
  pub closed_all : total closing t ≡ closed
  pub answered_all : total answering t ≡ answered
  pub none_held : Perm (gather gaining t) (gather losing t)

pub Sums-append :
    {o c a o' c' a' : ℕ} (t t' : List (Event Loader.Event))
    → Sums o c a t
    → Sums o' c' a' t'
    → Sums (o + o') (c + c') (a + a') (t ++ t')
Sums-append t t' s s' = record {
  opened_all = omega (arith, total-append opening t t', s.opened_all, s'.opened_all);
  closed_all = omega (arith, total-append closing t t', s.closed_all, s'.closed_all);
  answered_all = omega (arith, total-append answering t t', s.answered_all, s'.answered_all);
  none_held =
      rw (gather-append gaining t t', gather-append losing t t')
        (Perm.append s.none_held s'.none_held);
}

pub Sums-as :
    {o c a o' c' a' : ℕ} (t : List (Event Loader.Event))
    → Sums o c a t
    → o ≡ o'
    → c ≡ c'
    → a ≡ a'
    → Sums o' c' a' t
Sums-as t s o c a = record {
  opened_all = s.opened_all ∙ o;
  closed_all = s.closed_all ∙ c;
  answered_all = s.answered_all ∙ a;
  none_held = s.none_held;
}

Still-total :
    (t : List (Event Loader.Event))
    → All StillEvent t
    → (total opening t ≡ 0) × (total closing t ≡ 0)
Still-total [] h = (refl, refl)
Still-total (via_hal e ∷ t) h = let (o, c) = Still-total t h.1 in (omega arith, omega arith)
Still-total (replied x y z ∷ t) h = let (o, c) = Still-total t h.1 in (omega arith, omega arith)
Still-total (replied_dump x ∷ t) h = let (o, c) = Still-total t h.1 in (omega arith, omega arith)

answering-map : (es : List Loader.Event) → total answering (map via_hal es) ≡ 0
answering-map [] = refl
answering-map (e ∷ es) = omega (arith, answering-map es)

-- The calls of the HAL around the answer are all that counts for the buffers.
gather-once :
    (of : Loader.Event → List Handle) (of' : Event Loader.Event → List Handle)
    (same : (e : Loader.Event) → of' (via_hal e) ≡ of e) (before : List Loader.Event)
    (answer : Event Loader.Event)
    → of' answer ≡ []
    → (after : List Loader.Event)
    → gather of' (map via_hal before ++ (answer ∷ map via_hal after)) ≡ gather of (before ++ after)
gather-once of of' same before answer quiet after =
    rw
      (
        gather-append of' (map via_hal before) (answer ∷ map via_hal after),
        gather-append of before after,
        quiet,
        gather-map via_hal of of' same before,
        gather-map via_hal of of' same after,
      )
      refl

opening-map : (es : List Loader.Event) → total opening (map via_hal es) ≡ total opens es
opening-map [] = refl
opening-map (e ∷ es) = omega (arith, opening-map es)

closing-map : (es : List Loader.Event) → total closing (map via_hal es) ≡ total closes es
closing-map [] = refl
closing-map (e ∷ es) = omega (arith, closing-map es)

Bufferless-gather :
    (es : List Loader.Event) → All Bufferless es → (gather gain es ≡ []) × (gather loss es ≡ [])
Bufferless-gather [] h = (refl, refl)
Bufferless-gather (e ∷ es) h =
    let (g, l) = Bufferless-gather es h.1 in (rw (h.0.0, g) refl, rw (h.0.1, l) refl)

-- What is held after a request that has been served.
pub Served-Sums :
    (count : ℕ) (t : List (Event Loader.Event))
    → Served gain loss count t
    → All StillEvent t
    → Sums 0 0 1 t
Served-Sums count t s still = record {
  opened_all = (Still-total t still).0;
  closed_all = (Still-total t still).1;
  answered_all =
      ap (total answering) s.once
      ∙ omega (
        arith,
        total-append answering (map via_hal s.before)
            (replied s.error s.stride s.buffers ∷ map via_hal s.after),
        answering-map s.before,
        answering-map s.after,
      );
  none_held =
      rw
        (
          s.once,
          gather-once gain gaining (λ e. refl) s.before (replied s.error s.stride s.buffers) refl
              s.after,
          gather-once loss losing (λ e. refl) s.before (replied s.error s.stride s.buffers) refl
              s.after,
        )
        s.balanced;
}

-- Calls of the HAL that touch no buffer.
pub Bufferless-Sums :
    (es : List Loader.Event)
    → All Bufferless es
    → Sums (total opens es) (total closes es) 0 (map via_hal es)
Bufferless-Sums es h = record {
  opened_all = opening-map es;
  closed_all = closing-map es;
  answered_all = answering-map es;
  none_held =
      let (g, l) = Bufferless-gather es h in
      rw
        (
          gather-map via_hal gain gaining (λ e. refl) es,
          gather-map via_hal loss losing (λ e. refl) es,
          g,
          l,
        )
        (Perm.refl _);
}
