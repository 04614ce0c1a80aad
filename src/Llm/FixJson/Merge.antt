-- ===== src/Llm/FixJson/Merge.antt =====
-- mergeJSONObjects of internal/llm/fixjson.go, over the functions of encoding/json that it calls.
use agent_util.Common.{
  Bool, true, false, not, ◌||◌, Option, none, some, List, [], ◌∷◌, Text, Map, insert, text_key,
  length, ltb, ◌==◌, if◌then◌else◌,
}
use agent_util.Llm.FixJson.Trim.{trim_space, split_lines}

-- json.Valid, json.Unmarshal into a map[string]json.RawMessage (`none` is its error), and
-- json.Marshal of such a map
pub record Json : Type 0 where
  pub valid : Text → Bool
  pub unmarshal_object : Text → Option (Map Text Text)
  pub marshal_object : Map Text Text → Option Text

pub record Merged : Type 0 where
  pub object : Map Text Text
  pub any_parsed : Bool

-- for k, v := range obj { merged[k] = v }
unfoldable pub insert_all : Map Text Text → Map Text Text → Map Text Text
insert_all [] m = m
insert_all ((k, v) ∷ obj) m = insert_all obj (insert k v m)

module _ (json : Json) where
  unfoldable pub merge_line : Text → Merged → Merged
  merge_line line m =
      let trimmed = trim_space line in
      if length trimmed == 0 then m else elim (json.unmarshal_object trimmed) [
        | none ↦ m
        | some obj ↦ record { object = insert_all obj m.object; any_parsed = true }
      ]

  unfoldable pub merge_lines : List Text → Merged → Merged
  merge_lines [] m = m
  merge_lines (line ∷ lines) m = merge_lines lines (merge_line line m)

  unfoldable pub merge_json_objects : Text → Text
  merge_json_objects s =
      let trimmed = trim_space s in
      let lines = split_lines trimmed in
      let merged = merge_lines lines (record { object = []; any_parsed = false }) in
      if json.valid trimmed
      then s
      else if ltb (length lines) 2
      then s
      else if not merged.any_parsed || length merged.object == 0
      then s
      else elim (json.marshal_object merged.object) [ none ↦ s | some result ↦ result ]
