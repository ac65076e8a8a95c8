-- ===== src/Providers/Classify/Laws.antt =====
-- What ClassifyError of pkg/providers/error_classifier.go returns.
use nook_claw.Prelude.{ℕ, ◌≡◌, refl, Bool, true, false, ◌⊎◌, none, some, arith}
use nook_claw.Prelude.Text.{Text, to_lower}
use nook_claw.Providers.Types.{
  Error, canceled, deadline_exceeded, other, FailoverError, FailoverReason, auth, rate_limit,
  billing, timeout, format, unset,
}
use nook_claw.Providers.Classify.{
  classify_error, classify_lower, classify_text, classify_by_status, classify_by_message,
  extract_http_status,
}

-- The reasons that the classifier gives.
abbrev pub is_produced : FailoverReason → Bool
is_produced auth = true
is_produced rate_limit = true
is_produced billing = true
is_produced timeout = true
is_produced format = true
is_produced _ = false

-- A status code stands in the error only if it gave the reason.
abbrev pub StatusGaveReason : FailoverError → Type 0
StatusGaveReason f = (f.status ≡ 0) ⊎ (classify_by_status f.status ≡ f.reason)

status_produced :
    (s : ℕ) → (is_produced (classify_by_status s) ≡ true) ⊎ (classify_by_status s ≡ unset)
unfolding classify_by_status
status_produced s = ground arith

message_produced :
    (msg : Text)
    → (is_produced (classify_by_message msg) ≡ true) ⊎ (classify_by_message msg ≡ unset)
unfolding classify_by_message
message_produced msg = ground arith

module _ (err : Error) (p m : Text) where
  abbrev pub Describes : FailoverError → Type 0
  Describes f =
      (f.wrapped ≡ err)
      × (f.provider ≡ p)
      × (f.model ≡ m)
      × (is_produced f.reason ≡ true)
      × StatusGaveReason f

  classify_text-Describes :
      (msg : Text) (f : FailoverError) → classify_text err p m msg ≡ some f → Describes f
  unfolding classify_text
  classify_text-Describes msg f h = ground (arith, message_produced msg)

  classify_lower-Describes :
      (msg : Text) (f : FailoverError) → classify_lower err p m msg ≡ some f → Describes f
  unfolding classify_lower
  classify_lower-Describes msg f h =
      ground (arith, status_produced (extract_http_status msg), classify_text-Describes msg f)

-- A classified error carries the error, the provider and the model it was classified for, its
-- reason is one of the five that callers handle, and a status code stands in it only if that code
-- gave the reason. A cancelled request is never classified, a passed deadline is a timeout.
pub classify_error-Describes :
    (err : Error) (p m : Text)
    → ((f : FailoverError) → classify_error err p m ≡ some f → Describes err p m f)
      × (classify_error canceled p m ≡ none)
      × ((f : FailoverError) → classify_error deadline_exceeded p m ≡ some f → f.reason ≡ timeout)
unfolding classify_error
classify_error-Describes err p m = (described err, refl, λ f h. ground arith)
  where
    described : (e : Error) (f : FailoverError) → classify_error e p m ≡ some f → Describes e p m f
    described canceled f h = ground arith
    described deadline_exceeded f h = ground arith
    described (other msg) f h = classify_lower-Describes (other msg) p m (to_lower msg) f h
