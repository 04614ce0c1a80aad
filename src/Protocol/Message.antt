-- ===== src/Protocol/Message.antt =====
-- pkg/protocol/message.go, errors.go and version.go. A raw message is the text of its JSON, and
-- `none` if it is absent.
use agent_util.Common.{Bool, true, false, Option, none, some, Text, txt, ℤ, negsuc}

-- Version, and LibraryVersion of version.go
abbrev pub version : Text
version = txt "2.0"

abbrev pub library_version : Text
library_version = txt "0.3.0"

pub record Request : Type 0 where
  pub jsonrpc : Text
  pub method : Text
  pub params : Option Text
  pub id : Option ℤ

pub record RpcError : Type 0 where
  pub code : ℤ
  pub message : Text
  pub details : Option Text

pub record Response : Type 0 where
  pub jsonrpc : Text
  pub result : Option Text
  pub error : Option RpcError
  pub id : Option ℤ

-- ErrCodeParse and the codes after it
abbrev pub err_code_parse : ℤ
err_code_parse = negsuc 32699

abbrev pub err_code_invalid_request : ℤ
err_code_invalid_request = negsuc 32599

abbrev pub err_code_method_not_found : ℤ
err_code_method_not_found = negsuc 32600

abbrev pub err_code_invalid_params : ℤ
err_code_invalid_params = negsuc 32601

abbrev pub err_code_internal : ℤ
err_code_internal = negsuc 32602

abbrev pub err_code_agent_busy : ℤ
err_code_agent_busy = negsuc 32001

abbrev pub err_code_guard_denied : ℤ
err_code_guard_denied = negsuc 32004

abbrev pub err_code_tripwire : ℤ
err_code_tripwire = negsuc 32005

unfoldable pub is_none : Option ℤ → Bool
is_none none = true
is_none (some n) = false

unfoldable pub is_notification : Request → Bool
unfolding is_none
is_notification r = is_none r.id

-- NewResponse of a result that json.Marshal has encoded
abbrev pub new_response : Option ℤ → Text → Response
new_response id encoded = record { jsonrpc = version; result = some encoded; error = none; id = id }

abbrev pub new_error_response : Option ℤ → ℤ → Text → Response
new_error_response id code message = record {
  jsonrpc = version;
  result = none;
  error = some (record { code = code; message = message; details = none });
  id = id;
}

-- NewNotification of parameters that json.Marshal has encoded
abbrev pub new_notification : Text → Text → Request
new_notification method encoded = record {
  jsonrpc = version;
  method = method;
  params = some encoded;
  id = none;
}
