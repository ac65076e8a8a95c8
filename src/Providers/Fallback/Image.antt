-- ===== src/Providers/Fallback/Image.antt =====
-- What ExecuteImage of pkg/providers/fallback.go reports.
use nook_claw.Prelude.{◌≡◌, Bool, false, ◌||◌, List}
use nook_claw.Prelude.Text.{to_lower}
use nook_claw.Providers.Types.{Error, unset}
use nook_claw.Providers.ModelRef.{FallbackCandidate}
use nook_claw.Providers.Classify.{error_text, is_image_dimension_error, is_image_size_error}
use nook_claw.Providers.Fallback.Loop.{FallbackAttempt, raw, FallbackResult, Step}
use nook_claw.Providers.Fallback.Loop.Laws.{IsGoodStep}
use nook_claw.Providers.Fallback.{Env}

abbrev pub is_image_error : Error → Bool
is_image_error error =
    let msg = to_lower (error_text error) in is_image_dimension_error msg || is_image_size_error msg

-- The attempt is of this candidate, whose provider was called and returned an error that is not
-- about the image.
abbrev pub FailedOver : FallbackCandidate → FallbackAttempt → Type 0
FailedOver c a =
    (a.provider ≡ c.provider)
    × (a.model ≡ c.model)
    × (a.skipped ≡ false)
    × (a.reason ≡ unset)
    × ((e : Error) × (a.error ≡ raw e) × (is_image_error e ≡ false))

module _ {W R : Type 0} (env : Env W R) where
  abbrev pub Anything : FallbackResult R → W → Type 0
  Anything r w = Unit

  abbrev IsGood : FallbackCandidate → List FallbackAttempt → Step R × W → Type 0
  IsGood c before p = IsGoodStep FailedOver Anything c before p.0 p.1
