-- ===== src/Healthd/Uevent.antt =====
-- health/healthd_common.cpp: `uevent_event`, which looks for a message of the power supply.
pub mod Fields
pub mod Print
use android_device_xenvm.Base.{
  ℕ, zero, suc, ◌+◌, ℤ, pos, negsuc, ltb_ℤ, Bool, true, false, ◌||◌, not, Option, none, some, List,
  [], ◌∷◌, ◌++◌, Proc, pure, reading, ◌>>=◌, ◌>>◌, ◌==◌, if◌then◌else◌, length, take,
}
use android_device_xenvm.Health.Types.{System, Call, Process, Code, ask_world}

-- UEVENT_MSG_LEN
abbrev pub uevent_msg_len : ℕ
uevent_msg_len = 2048

-- "SUBSYSTEM=" POWER_SUPPLY_SUBSYSTEM
abbrev pub subsystem : List ℕ
subsystem =
    b'S' ∷ b'U' ∷ b'B' ∷ b'S' ∷ b'Y' ∷ b'S' ∷ b'T' ∷ b'E' ∷ b'M' ∷ b'=' ∷ b'p' ∷ b'o' ∷ b'w' ∷ b'e'
    ∷ b'r' ∷ b'_' ∷ b's' ∷ b'u' ∷ b'p' ∷ b'p' ∷ b'l' ∷ b'y' ∷ []

-- `!strcmp(cp, literal)`, for the part of the array from `cp` on that has been written; `none` is
-- a read behind it.
unfoldable pub equals : List ℕ → List ℕ → Option Bool
equals [] literal = none
equals (c ∷ cs) [] = some (c == 0)
equals (c ∷ cs) (l ∷ ls) = if c == l then equals cs ls else some false

-- `while (*cp++) ;`
unfoldable pub skip : List ℕ → Option (List ℕ)
skip [] = none
skip (c ∷ cs) = if c == 0 then some cs else skip cs

-- The rest of the loop's body where `*cp` is not 0: `again` is the next round.
unfoldable pub scan_field : (List ℕ → Option Bool) → List ℕ → Option Bool
scan_field again cp = elim (equals cp subsystem) [
  | none ↦ none
  | some true ↦ some true
  | some false ↦ elim (skip cp) [ none ↦ none | some rest ↦ again rest ]
]

-- `while (*cp)`, with fuel: whether the message is found. `none` is a read behind the part of the
-- array that has been written, or the end of the fuel.
unfoldable pub scan : ℕ → List ℕ → Option Bool
scan zero cp = none
scan (suc fuel) [] = none
scan (suc fuel) (c ∷ cs) =
    let next = scan_field (scan fuel) (c ∷ cs) in if c == 0 then some false else next

-- `msg`, with the two NULs that are stored behind the n bytes.
abbrev pub terminated : List ℕ → List ℕ
terminated bytes = bytes ++ (0 ∷ 0 ∷ [])

-- What the code does with a message of n bytes: whether it updates the battery.
unfoldable pub wants_update : ℤ → List ℕ → Option Bool
wants_update (negsuc n) msg = some false
wants_update (pos n) msg =
    if n == 0
    then some false
    else if ltb_ℤ (pos n) (pos uevent_msg_len)
    then scan (n + 2) (terminated (take n msg))
    else some false
