-- ===== src/Llm/FixJson/WellFormed.antt =====
-- FixJSON of internal/llm/fixjson.go on the text of a JSON value.
use agent_util.Common.{◌≡◌, refl, true, false, [], ◌∷◌, arith, Text, txt, contains}
use agent_util.Llm.FixJson.{fix_json}
use agent_util.Llm.FixJson.Passes.{replace_from, fix_null_braces}
use agent_util.Llm.FixJson.Merge.{Json, merge_json_objects}
use agent_util.Llm.FixJson.Value.{Value, encode}
use agent_util.Llm.FixJson.Edges.{trim_space-encode, strip_code_block-encode}
use agent_util.Llm.FixJson.Copies.{fix_control_chars-encode, fix_trailing_commas-encode}
use agent_util.Llm.FixJson.Balance.{fix_unmatched_brackets-encode}
use agent_util.Llm.FixJson.Quotes.{fix_single_quotes-encode}

replace_from_absent : (old new s : Text) → contains old s ≡ false → replace_from old new 0 s ≡ s
unfolding replace_from contains
replace_from_absent old new [] h = refl
replace_from_absent old new (b ∷ bs) h = ground (arith, replace_from_absent old new bs)

fix_null_braces_absent : (s : Text) → contains (txt "{null}") s ≡ false → fix_null_braces s ≡ s
unfolding fix_null_braces
fix_null_braces_absent s h = replace_from_absent (txt "{null}") (txt "null") s h

merge_json_objects_valid :
    (json : Json) (v : Value)
    → json.valid (encode v []) ≡ true
    → merge_json_objects json (encode v []) ≡ encode v []
unfolding merge_json_objects
merge_json_objects_valid json v h = rw (trim_space-encode v) (rw h)

-- Let `json.valid` accept the compact text of a JSON value `v`, without white space between its
-- parts and with its numbers and strings in any spelling that JSON has for them, and let that text
-- not contain `{null}`. Then FixJSON returns the text unchanged.
pub fix_json-encode :
    (json : Json) (v : Value)
    → json.valid (encode v []) ≡ true
    → contains (txt "{null}") (encode v []) ≡ false
    → fix_json json (encode v []) ≡ encode v []
unfolding fix_json
fix_json-encode json v h k =
    rw
      (
        strip_code_block-encode v,
        fix_null_braces_absent (encode v []) k,
        fix_control_chars-encode v,
        fix_single_quotes-encode v,
        fix_trailing_commas-encode v,
        fix_unmatched_brackets-encode v,
      )
      (merge_json_objects_valid json v h)
