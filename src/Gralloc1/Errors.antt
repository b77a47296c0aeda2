-- ===== src/Gralloc1/Errors.antt =====
-- Which errors of the driver `toError` turns into an error of the HAL.
use android_device_xenvm.Base.{◌≡◌, refl, true, false, not, ◌&&◌, ◌≢◌}
use android_device_xenvm.Graphics.{Error}
use android_device_xenvm.Graphics
use android_device_xenvm.Gralloc1.Device.{Gralloc1Error, is_none, is_not_shared}
use android_device_xenvm.Gralloc1.Convert.{to_error}

-- NONE and NOT_SHARED are the two values that `toError` takes for success.
pub to_error_none :
    (e : Gralloc1Error)
    → Graphics.is_none (to_error e) ≡ not (not (is_none e) && not (is_not_shared e))
unfolding to_error
to_error_none Gralloc1Error.no_error = refl
to_error_none Gralloc1Error.bad_descriptor = refl
to_error_none Gralloc1Error.bad_handle = refl
to_error_none Gralloc1Error.bad_value = refl
to_error_none Gralloc1Error.not_shared = refl
to_error_none Gralloc1Error.no_resources = refl
to_error_none Gralloc1Error.undefined = refl
to_error_none Gralloc1Error.unsupported = refl
to_error_none (Gralloc1Error.other n) = refl

-- An error other than NOT_SHARED stays an error.
pub to_error_failed :
    (e : Gralloc1Error)
    → e ≢ Gralloc1Error.not_shared
    → is_none e ≡ false
    → Graphics.is_none (to_error e) ≡ false
unfolding to_error
to_error_failed Gralloc1Error.no_error n h = cc
to_error_failed Gralloc1Error.not_shared n h = absurd (n refl)
to_error_failed _ n h = refl

pub to_error_ok : (e : Gralloc1Error) → is_none e ≡ true → to_error e ≡ Error.no_error
unfolding to_error
to_error_ok Gralloc1Error.no_error h = refl
to_error_ok _ h = cc
