-- ===== src/Engine/RouterTexts.antt =====
-- The fixed texts of internal/engine/router.go.
use agent_util.Common.{[], ◌∷◌, Text, txt, join}

-- delegateToolDef
unfoldable pub delegate_tool_def : Text
delegate_tool_def = join [] (
    txt "### delegate_task\n"
    ∷ txt "Delegates a subtask to a separate agent with its own context window. Use when "
    ∷ txt "the current task is too complex or requires extensive information gathering "
    ∷ txt "that would consume too much context.\nParameters:\n```json\n{\n"
    ∷ txt "  \"type\": \"object\",\n  \"properties\": {\n    \"task\": {\n"
    ∷ txt "      \"type\": \"string\",\n"
    ∷ txt "      \"description\": \"Clear, specific description of the subtask to perform\"\n"
    ∷ txt "    },\n    \"context\": {\n      \"type\": \"string\",\n"
    ∷ txt "      \"description\": \"Relevant context the subtask needs to know\"\n"
    ∷ txt "    },\n    \"mode\": {\n      \"type\": \"string\",\n"
    ∷ txt "      \"description\": \"Execution mode: fork (default, shared filesystem) or "
    ∷ txt "worktree (isolated filesystem via git worktree)\"\n    }\n  },\n"
    ∷ txt "  \"required\": [\"task\"]\n}\n```\n\n"
    ∷ [])

-- coordinatorToolDef
unfoldable pub coordinator_tool_def : Text
coordinator_tool_def = join [] (
    txt "### coordinate_tasks\n"
    ∷ txt "Run multiple subtasks in parallel, each in its own context window. Use when "
    ∷ txt "several independent subtasks can be executed concurrently.\n"
    ∷ txt "Parameters:\n```json\n{\n  \"type\": \"object\",\n  \"properties\": {\n"
    ∷ txt "    \"tasks\": {\n      \"type\": \"array\",\n      \"items\": {\n"
    ∷ txt "        \"type\": \"object\",\n        \"properties\": {\n"
    ∷ txt "          \"id\": {\"type\": \"string\", \"description\": \"Unique task identifier\"},\n"
    ∷ txt "          \"task\": {\"type\": \"string\", \"description\": \"Task description\"}\n"
    ∷ txt "        },\n        \"required\": [\"id\", \"task\"]\n      }\n    }\n  },\n"
    ∷ txt "  \"required\": [\"tasks\"]\n}\n```\n\n"
    ∷ [])

-- routerInstructions
unfoldable pub router_instructions : Text
router_instructions = join [] (
    txt "## Instructions\n\n"
    ∷ txt "Based on the user's request and conversation history, select the most "
    ∷ txt "appropriate tool to use.\n\nWhen to use a tool:\n"
    ∷ txt "- Choose the tool listed in ## Available Tools that best matches what the "
    ∷ txt "request needs\n"
    ∷ txt "- Sub-agent / delegation tools: use when the task is complex, lengthy, or "
    ∷ txt "requires an isolated context window\n"
    ∷ txt "- Parallel execution tools: use when the user wants MULTIPLE INDEPENDENT "
    ∷ txt "subtasks handled concurrently\n"
    ∷ txt "- Information / action tools: use when the request requires that specific "
    ∷ txt "capability to answer correctly\n\nWhen to select \"none\":\n"
    ∷ txt "- Tool results are already in the conversation and you can now compose the "
    ∷ txt "answer\n"
    ∷ txt "- The question is simple enough to answer directly without any tool\n"
    ∷ txt "- You need to summarize or respond based on existing context\n\n"
    ∷ txt "IMPORTANT: Never use a tool to deliver your final answer. Tools gather "
    ∷ txt "information only. Once you have what you need, select \"none\" and the system "
    ∷ txt "will generate the response.\n\n"
    ∷ txt "You MUST respond with a JSON object in this exact format:\n"
    ∷ txt "{\"tool\": \"<tool_name or none>\", \"arguments\": {<tool arguments>}, \"reasoning\": "
    ∷ txt "\"<brief explanation>\"}\n\nRespond with valid JSON only.\n"
    ∷ [])
