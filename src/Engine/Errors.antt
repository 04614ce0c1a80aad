-- ===== src/Engine/Errors.antt =====
-- internal/engine/errors.go: the errors that reach Run, with the chain that errors.Is and errors.As
-- walk, and their four classes.
use agent_util.Common.{
  ℕ, ◌≡◌, refl, Bool, true, false, ◌||◌, ◌⊎◌, Option, none, some, ◌++◌, arith, Text, txt, ◌==◌,
  if◌then◌else◌, decimal,
}

pub data ErrorClass : Type 0 where
  transient llm_recoverable user_fixable fatal : ErrorClass

pub data Error : Type 0 where
  -- context.Canceled, context.DeadlineExceeded, llm.ErrEmptyResponse, ErrMaxStepRetries
  canceled deadline_exceeded empty_response max_step_retries : Error
  -- *TripwireError: its source and its reason
  tripwire : Text → Text → Error
  -- *RouterParseError, which unwraps to its cause
  router_parse : Error → Error
  -- *llm.APIError: its status code and its body
  api_error : ℕ → Text → Error
  -- fmt.Errorf with one %w, and with two
  wrap : Text → Error → Error
  wrap_two : Text → Error → Error → Error
  -- any other error
  other : Text → Error

-- errors.Is(err, context.Canceled) || errors.Is(err, context.DeadlineExceeded)
unfoldable pub is_canceled : Error → Bool
is_canceled canceled = true
is_canceled deadline_exceeded = true
is_canceled (router_parse e) = is_canceled e
is_canceled (wrap text e) = is_canceled e
is_canceled (wrap_two text d e) = is_canceled d || is_canceled e
is_canceled _ = false

-- errors.As(err, &tw)
unfoldable pub is_tripwire : Error → Bool
is_tripwire (tripwire source reason) = true
is_tripwire (router_parse e) = is_tripwire e
is_tripwire (wrap text e) = is_tripwire e
is_tripwire (wrap_two text d e) = is_tripwire d || is_tripwire e
is_tripwire _ = false

-- errors.As(err, &rpe)
unfoldable pub is_router_parse : Error → Bool
is_router_parse (router_parse e) = true
is_router_parse (wrap text e) = is_router_parse e
is_router_parse (wrap_two text d e) = is_router_parse d || is_router_parse e
is_router_parse _ = false

-- errors.Is(err, llm.ErrEmptyResponse)
unfoldable pub is_empty_response : Error → Bool
is_empty_response empty_response = true
is_empty_response (router_parse e) = is_empty_response e
is_empty_response (wrap text e) = is_empty_response e
is_empty_response (wrap_two text d e) = is_empty_response d || is_empty_response e
is_empty_response _ = false

abbrev or_else : Option ℕ → Option ℕ → Option ℕ
or_else none b = b
or_else (some n) b = some n

-- errors.As(err, &apiErr): the status of the first API error in the chain
unfoldable pub api_status : Error → Option ℕ
api_status (api_error status body) = some status
api_status (router_parse e) = api_status e
api_status (wrap text e) = api_status e
api_status (wrap_two text d e) = or_else (api_status d) (api_status e)
api_status _ = none

-- err.Error()
unfoldable pub error_text : Error → Text
error_text canceled = txt "context canceled"
error_text deadline_exceeded = txt "context deadline exceeded"
error_text empty_response = txt "empty response"
error_text max_step_retries = txt "max step retries exceeded"
error_text (tripwire source reason) = txt "tripwire [" ++ (source ++ (txt "]: " ++ reason))
error_text (router_parse e) = txt "router parse: " ++ error_text e
error_text (api_error status body) =
    txt "api error: status " ++ (decimal status ++ (txt ": " ++ body))
error_text (wrap text e) = text ++ (txt ": " ++ error_text e)
error_text (wrap_two text d e) = text ++ (txt ": " ++ (error_text d ++ (txt ": " ++ error_text e)))
error_text (other text) = text

abbrev class_of_status : Option ℕ → ErrorClass
class_of_status none = fatal
class_of_status (some status) =
    if status == 401 || status == 403 || status == 400 || status == 404 then user_fixable else fatal

-- classifyError of an error that is not nil
unfoldable pub classify_error : Error → ErrorClass
classify_error e =
    if is_canceled e
    then fatal
    else if is_tripwire e
    then fatal
    else if is_router_parse e
    then transient
    else if is_empty_response e
    then transient
    else class_of_status (api_status e)

-- Wrapping an error with fmt.Errorf keeps its class. An error is transient exactly if it is neither
-- a cancellation nor a tripwire, and holds a router parse error or an empty response; it is never
-- of the class LLMRecoverable.
pub classify_error_lem :
    (text : Text) (e : Error)
    → (classify_error (wrap text e) ≡ classify_error e)
      × (classify_error e ≡ transient
          → (is_canceled e ≡ false)
            × (is_tripwire e ≡ false)
            × ((is_router_parse e ≡ true) ⊎ (is_empty_response e ≡ true)))
      × (is_canceled e ≡ false
          → is_tripwire e ≡ false
          → (is_router_parse e ≡ true) ⊎ (is_empty_response e ≡ true)
          → classify_error e ≡ transient)
      × (classify_error e ≡ llm_recoverable → false ≡ true)
unfolding classify_error is_canceled is_tripwire is_router_parse is_empty_response api_status
classify_error_lem text e = (refl, ground arith, ground arith, ground arith)
