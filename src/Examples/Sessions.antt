-- ===== src/Examples/Sessions.antt =====
-- The theorems about a session and about the threads of the process, at the concrete drivers.
use mathlib.Core.List.{map}
use android_device_xenvm.Base.{
  some, ℕ, ◌+◌, refl, List, [], ◌∷◌, ◌++◌, arith, pos, true, false, Returns, ◌≡◌,
}
use android_device_xenvm.Base.Merges.{Merge, end, left, right, Merges, none_left, with}
use android_device_xenvm.Graphics.Holding.{Holds}
use android_device_xenvm.Allocator.{Event, via_hal}
use android_device_xenvm.Loader
use android_device_xenvm.Loader.{Hal}
use android_device_xenvm.Loader.Opened.{held}
use android_device_xenvm.Session.{Request, session, hidl_fetch_i_allocator, fetched_hal}
use android_device_xenvm.Session
use android_device_xenvm.Session.Held.{doing}
use android_device_xenvm.Session.Answers.{answers}
use android_device_xenvm.Session.Works.{AreWorking, kind_for, serves, answered, session-answers}
use android_device_xenvm.Gralloc1.Starting.{IsComplete, Ready, init_with_module-Ready}
use android_device_xenvm.Gralloc1.Working as Working1
use android_device_xenvm.Gralloc1.Init.{fresh, init_with_module}
use android_device_xenvm.Gralloc1.Buffers
use android_device_xenvm.Graphics.Supply.{shape}
use android_device_xenvm.Session.Owned.{session-Holds}
use android_device_xenvm.Process.{Main, threads, Passthrough, IsPassthrough, Pooled}
use android_device_xenvm.Process.Threads.{Concurrent, Main-Concurrent}
use android_device_xenvm.Examples.{
  driver, driver-IsDocumented, driver-DumpFits, driver0-DumpFits, driver0, flags, decode, unset1,
  unset0, hw_get_module, three_requests,
}

session-Holds_example :
    Holds doing
      (session driver driver0 flags decode unset1 unset0 hw_get_module three_requests 10).trace
      []
      []
session-Holds_example =
    session-Holds driver driver0 flags hw_get_module decode unset1 unset0 driver-IsDocumented
      three_requests 10

-- Two lists in turns.
abbrev turns : {A : Type 0} → List A → List A → List A
turns [] ys = ys
turns (x ∷ xs) [] = x ∷ xs
turns (x ∷ xs) (y ∷ ys) = x ∷ y ∷ turns xs ys

turns-Merge : {A : Type 0} (xs ys : List A) → Merge xs ys (turns xs ys)
turns-Merge [] [] = end
turns-Merge [] (y ∷ ys) = right (turns-Merge [] ys)
turns-Merge (x ∷ xs) [] = left (go xs)
  where
    go : {A : Type 0} (xs : List A) → Merge xs [] xs
    go [] = end
    go (x ∷ xs) = left (go xs)
turns-Merge (x ∷ xs) (y ∷ ys) = left (right (turns-Merge xs ys))

abbrev turns_of : {A : Type 0} → List (List A) → List A
turns_of [] = []
turns_of (xs ∷ xss) = turns xs (turns_of xss)

turns_of-Merges : {A : Type 0} (xss : List (List A)) → Merges xss (turns_of xss)
turns_of-Merges [] = none_left
turns_of-Merges (xs ∷ xss) =
    with (turns_of xss) (turns_of-Merges xss) (turns-Merge xs (turns_of xss))

-- A pool whose threads take turns, call by call, and which may be run with up to `count` threads.
abbrev pool : Passthrough ℕ
pool fetch count d requests t =
    Pooled driver driver0 flags decode unset1 unset0 fetch count d requests t

pool-IsPassthrough : IsPassthrough driver driver0 flags decode unset1 unset0 pool
pool-IsPassthrough = record { pools = λ fetch count d requests t run. run }

abbrev others : ℕ → ℕ → ℕ → ℕ
others thread k d = d + thread + k

abbrev two_clients : List (List Request)
two_clients = three_requests ∷ (Session.allocating 97 (5 ∷ []) 2 ∷ []) ∷ []

abbrev taking_turns : List (Event Loader.Event)
taking_turns =
    let f = hidl_fetch_i_allocator driver driver0 hw_get_module 10 in
    map via_hal f.trace
    ++ turns_of (
        threads driver driver0 flags decode unset1 unset0 others (fetched_hal f.value) f.state
          two_clients)

taking_turns-Main : Main driver driver0 pool hw_get_module 10 two_clients taking_turns
unfolding Main
taking_turns-Main = record {
  others = others;
  serving = _;
  at_most = omega arith;
  fetched_first = refl;
  merged = turns_of-Merges _;
}

Main-Concurrent_example :
    Concurrent
      (held (fetched_hal (hidl_fetch_i_allocator driver driver0 hw_get_module 10).value))
      two_clients
      taking_turns
Main-Concurrent_example =
    Main-Concurrent driver driver0 flags hw_get_module decode unset1 unset0 driver-IsDocumented
      driver-DumpFits driver0-DumpFits pool pool-IsPassthrough 10 two_clients taking_turns
      taking_turns-Main

driver-IsComplete : IsComplete driver true
driver-IsComplete = record {
  opens = λ d. refl;
  has = λ f d. ground arith;
  counts = λ d. refl;
  lists = λ d. refl;
}

driver-IsWorking : Working1.IsWorking driver 64
driver-IsWorking = record {
  creates = λ d. refl;
  dimensions = λ i w h d. refl;
  formats = λ i f d. refl;
  layers = λ i n d. refl;
  produces = λ i u d. refl;
  consumes = λ i u d. refl;
  hands_out = λ i d. refl;
  measures = λ h d. refl;
}

drivers-AreWorking : AreWorking driver driver0 true 64 (pos 64)
drivers-AreWorking = record {
  documented = driver-IsDocumented;
  complete = driver-IsComplete;
  works1 = driver-IsWorking;
  opens0 = λ d. refl;
  fits1 = driver-DumpFits;
  fits0 = driver0-DumpFits;
  works0 = record { hands_out = λ w h f u d. refl; strides = λ w h f u d. refl };
}

session-answers_example :
    let r = session driver driver0 flags decode unset1 unset0 hw_get_module three_requests 10 in
    let kind = kind_for true (hw_get_module 10).0 in
    (r.value ≡ some (serves kind))
    × (answers r.trace ≡ answered decode 64 (pos 64) kind three_requests)
session-answers_example =
    session-answers driver driver0 true 64 (pos 64) drivers-AreWorking hw_get_module flags decode
      unset1 unset0 three_requests 10

init_with_module-Ready_example :
    Returns (Ready driver true driver-IsComplete) (init_with_module driver fresh)
init_with_module-Ready_example = init_with_module-Ready driver true driver-IsComplete

allocate_buffers-expected_example :
    Returns
      (λ v. shape v ≡ Working1.expected_for false 64 3 (decode (5 ∷ [])))
      (Buffers.allocate_buffers driver flags fresh decode unset1 (5 ∷ []) 3)
allocate_buffers-expected_example =
    Working1.allocate_buffers-expected driver 64 driver-IsWorking flags fresh decode unset1 (5 ∷ [])
      3
