-- ===== src/Engine/Builtin.antt =====
-- internal/engine/builtin: the guards, the verifiers and the summariser that the program brings, and
-- the lookup of their names.
pub mod Laws
use agent_util.Common.{
  ℕ, Bool, true, false, ◌&&◌, ◌||◌, Option, none, some, List, [], ◌∷◌, ◌++◌, Text, txt, text_eq,
  contains, ltb, ◌==◌, if◌then◌else◌, length, decimal, keep_if,
}
use agent_util.Llm.Message.{
  Message, ChatRequest, ChatResponse, Choice, content_string, plain_message,
}
use agent_util.Llm.FixJson.Trim.{trim_space}
use agent_util.Context.Compaction.{Summary, summary, failed}
use agent_util.Engine.Errors.{Error, wrap, empty_response}
use agent_util.Engine.Exec.{Result, ok, err}
use agent_util.Engine.Guard.{GuardDecision, allow, deny, GuardResult, Guard, Checked, checked, bare}
use agent_util.Engine.Verify.{Verifier, VerifyResult, Verified, verified}

-- what the guards use of the standard library: the match of a regular expression, which is the
-- source's text, strings.ToLower, and json.Unmarshal of an object into a map, read at a key that
-- holds a string; and json.Unmarshal of a text into any value, with its error
pub record Std : Type 0 where
  pub matches : Text → Text → Bool
  pub to_lower : Text → Text
  pub unmarshal_map : Text → Option (Text → Option Text)
  pub unmarshal_error : Text → Option Text

abbrev pub injection_patterns : List Text
injection_patterns =
    txt "(?i)ignore\\s+(all\\s+)?(previous|prior|above)\\s+(instructions?|prompts?|context)"
    ∷ txt "(?i)disregard\\s+(\\w+\\s+)?(previous|prior|above)"
    ∷ txt "(?i)you\\s+are\\s+now\\s+a\\s+"
    ∷ (txt "(?i)^\\s*system\\s*[:" ++ ((0xef ∷ 0xbc ∷ 0x9a ∷ []) ++ txt "]\\s*"))
    ∷ txt "(?i)reveal\\s+(your\\s+)?system\\s+prompt"
    ∷ []

abbrev pub dangerous_shell_patterns : List Text
dangerous_shell_patterns =
    txt "rm\\s+-rf?\\s+(/|~|\\$HOME|\\*)"
    ∷ txt ":\\(\\)\\s*\\{\\s*:\\s*\\|\\s*:\\s*&\\s*\\}"
    ∷ txt "\\bmkfs\\."
    ∷ txt "\\bdd\\s+if=.*of=/dev/"
    ∷ txt "chmod\\s+-R\\s+777\\s+/"
    ∷ txt ">\\s*/dev/sd[a-z]"
    ∷ txt "\\bshutdown\\b"
    ∷ txt "\\breboot\\b"
    ∷ []

abbrev pub secret_patterns : List Text
secret_patterns =
    txt "sk-[A-Za-z0-9]{20,}"
    ∷ txt "sk-ant-[A-Za-z0-9_\\-]{20,}"
    ∷ txt "AKIA[0-9A-Z]{16}"
    ∷ txt "ghp_[A-Za-z0-9]{30,}"
    ∷ txt "xox[baprs]-[A-Za-z0-9-]{10,}"
    ∷ txt "-----BEGIN (RSA|OPENSSH|EC|PGP|DSA) PRIVATE KEY-----"
    ∷ []

-- DefaultMaxInputLength
abbrev pub default_max_input_length : ℕ
default_max_input_length = 50000

module _ (std : Std) where
  -- the loop over the patterns that the first match ends
  unfoldable pub first_match : Text → Text → List Text → GuardResult
  first_match reason text [] = bare allow []
  first_match reason text (p ∷ ps) =
      let rest = first_match reason text ps in
      if std.matches p text
      then record { decision = deny; reason = reason; details = p ∷ [] }
      else rest

  unfoldable pub check_injection : Text → GuardResult
  check_injection input =
      first_match (txt "potential prompt injection pattern detected") input injection_patterns

  unfoldable pub check_max_length : ℕ → Text → GuardResult
  check_max_length limit input =
      if ltb 0 limit && ltb limit (length input)
      then bare deny (
          txt "input exceeds max length ("
          ++ (decimal (length input) ++ (txt " > " ++ (decimal limit ++ txt ")"))))
      else bare allow []

  unfoldable pub looks_like_shell_tool : Text → Bool
  looks_like_shell_tool name =
      let n = std.to_lower name in
      text_eq n (txt "bash")
      || text_eq n (txt "sh")
      || contains (txt "shell") n
      || contains (txt "exec") n

  abbrev string_or : Option Text → Text → Text
  string_or none rest = rest
  string_or (some text) rest = text

  unfoldable pub pick_string_field : (Text → Option Text) → List Text → Text
  pick_string_field m [] = []
  pick_string_field m (k ∷ ks) = string_or (m k) (pick_string_field m ks)

  abbrev checked_args : Option (Text → Option Text) → GuardResult
  checked_args none = bare allow []
  checked_args (some m) =
      first_match (txt "dangerous shell pattern detected")
        (pick_string_field m (txt "command" ∷ txt "cmd" ∷ txt "script" ∷ []))
        dangerous_shell_patterns

  unfoldable pub check_dangerous_shell : Text → Text → GuardResult
  check_dangerous_shell tool_name args =
      if looks_like_shell_tool tool_name
      then checked_args (std.unmarshal_map args)
      else bare allow []

  abbrev leaked : List Text → GuardResult
  leaked [] = bare allow []
  leaked (p ∷ ps) = record {
    decision = deny;
    reason = txt "potential secret leak detected";
    details = p ∷ ps;
  }

  unfoldable pub check_secret_leak : Text → GuardResult
  check_secret_leak output = leaked (keep_if (λ (p : Text). std.matches p output) secret_patterns)

  unfoldable pub verify_non_empty : Text → VerifyResult
  verify_non_empty result = elim (trim_space result) [
    | [] ↦ record { passed = false; summary = txt "tool result is empty"; details = [] }
    | c ∷ cs ↦ record { passed = true; summary = txt "result is non-empty"; details = [] }
  ]

  abbrev verify_syntax : Option Text → VerifyResult
  verify_syntax none = record { passed = true; summary = txt "valid JSON"; details = [] }
  verify_syntax (some e) = record {
    passed = false;
    summary = txt "result is not valid JSON: " ++ e;
    details = [];
  }

  abbrev verify_trimmed : Text → VerifyResult
  verify_trimmed [] = record { passed = true; summary = txt "empty, skipped"; details = [] }
  verify_trimmed (c ∷ cs) =
      if c == b'{' || c == b'['
      then verify_syntax (std.unmarshal_error (c ∷ cs))
      else record { passed = true; summary = txt "not JSON-shaped, skipped"; details = [] }

  unfoldable pub verify_json : Text → VerifyResult
  verify_json result = verify_trimmed (trim_space result)

  module _ {W : Type 0} where
    abbrev pub prompt_injection_guard : Guard W Text
    prompt_injection_guard = record {
      name = txt "prompt_injection";
      check = λ input w. (checked (check_injection input), w);
    }

    abbrev pub max_length_guard : ℕ → Guard W Text
    max_length_guard limit = record {
      name = txt "max_length";
      check = λ input w. (checked (check_max_length limit input), w);
    }

    abbrev pub dangerous_shell_guard : Guard W (Text × Text)
    dangerous_shell_guard = record {
      name = txt "dangerous_shell";
      check = λ call w. (checked (check_dangerous_shell call.0 call.1), w);
    }

    abbrev pub secret_leak_guard : Guard W Text
    secret_leak_guard = record {
      name = txt "secret_leak";
      check = λ output w. (checked (check_secret_leak output), w);
    }

    abbrev pub non_empty_verifier : Verifier W
    non_empty_verifier = record {
      name = txt "non_empty";
      verify = λ tool_name args result w. (verified (verify_non_empty result), w);
    }

    abbrev pub json_valid_verifier : Verifier W
    json_valid_verifier = record {
      name = txt "json_valid";
      verify = λ tool_name args result w. (verified (verify_json result), w);
    }

    -- the lookup of a name: `none` is the error of an unknown one
    unfoldable pub input_guard : Text → Option (Guard W Text)
    input_guard name =
        if text_eq name (txt "prompt_injection")
        then some prompt_injection_guard
        else if text_eq name (txt "max_length")
        then some (max_length_guard default_max_input_length)
        else none

    unfoldable pub tool_call_guard : Text → Option (Guard W (Text × Text))
    tool_call_guard name =
        if text_eq name (txt "dangerous_shell") then some dangerous_shell_guard else none

    unfoldable pub output_guard : Text → Option (Guard W Text)
    output_guard name = if text_eq name (txt "secret_leak") then some secret_leak_guard else none

    unfoldable pub verifier : Text → Option (Verifier W)
    verifier name =
        if text_eq name (txt "non_empty")
        then some non_empty_verifier
        else if text_eq name (txt "json_valid")
        then some json_valid_verifier
        else none

-- the lines of the prompt of NewLLMSummarizer
unfoldable pub history_lines : List Message → Text
history_lines [] = []
history_lines (m ∷ ms) =
    txt "[" ++ (m.role ++ (txt "] " ++ (content_string m ++ (txt "\n" ++ history_lines ms))))

unfoldable pub summary_prompt : List Message → Text
summary_prompt msgs =
    txt "Summarize the following conversation history concisely (under 500 chars), preserving:\n"
    ++ (txt "- key decisions and their reasoning\n"
        ++ (txt "- important file paths, identifiers, and tool results\n"
            ++ (txt "- unresolved tasks or blockers\n\n"
                ++ (txt "--- history ---\n" ++ history_lines msgs))))

abbrev first_choice : List Choice → Summary
first_choice [] = failed (wrap (txt "llm summarizer") empty_response)
first_choice (c ∷ cs) = summary (trim_space (content_string c.message))

abbrev summary_of : Result ChatResponse → Summary
summary_of (err e) = failed (wrap (txt "llm summarizer") e)
summary_of (ok resp) = first_choice resp.choices

-- the Summarizer of NewLLMSummarizer
unfoldable pub llm_summarizer :
    {W : Type 0} → (ChatRequest → W → Result ChatResponse × W) → List Message → W → Summary × W
llm_summarizer completer msgs w =
    let req : ChatRequest = record {
      messages = plain_message (txt "user") (summary_prompt msgs) ∷ [];
      json_mode = none;
    } in
    let (r, w') = completer req w in (summary_of r, w')
