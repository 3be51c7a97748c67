-- ===== src/Reverse/Upstream.antt =====
-- How crates/dbgflow-reverse/src/ida/worker.rs reads what the supervisor answers, and the arguments
-- that it sends. The text of a JSON document is read by the parameter `from_str`.
use dbgflow.Prelude.{
  ℕ, String, ◌%◌, ◌^◌, Bool, true, false, not, ◌&&◌, Option, none, some, List, [], ◌∷◌, text_eq,
  if◌then◌else◌,
}
use dbgflow.Common.Error.{Result, ok, err, backend, ◌>>=◌}
use dbgflow.Common.Json.{
  Json, null, bool, string, array, object, Items, nil, cons, Fields, end, field, get, get_field,
  insert_field, as_bool, as_u64, as_str, as_array, first,
}
use dbgflow.Reverse.Model.{IdaUpstreamSession, SupervisorToolCallResult, OpenIdaDatabaseResult}

-- `option.and_then(f)`, and the operator `?` on options.
abbrev pub and_then {ℓ κ} : {A : Type ℓ} {B : Type κ} → Option A → (A → Option B) → Option B
and_then none f = none
and_then (some a) f = f a

abbrev pub unwrap_or {ℓ} : {A : Type ℓ} → Option A → A → A
unwrap_or none a = a
unwrap_or (some b) a = b

abbrev pub is_true : Option Bool → Bool
is_true (some b) = b
is_true none = false

abbrev pub is_false : Option Bool → Bool
is_false (some b) = not b
is_false none = false

pub record UpstreamToolDescriptor : Type 0 where
  pub name : String
  pub description : String
  pub input_schema : Json
  pub output_schema : Option Json

unfoldable pub default_upstream_input_schema : Json
default_upstream_input_schema = object (
    field "type" (string "object") (
      field "properties"
        (object (
          field "session_id"
            (object (
              field "type" (string "string") (
                field "description"
                  (string "dbgflow IDA session id returned by ida.create_session.") end)))
            end))
        (field "required" (array (cons (string "session_id") nil))
          (field "additionalProperties" (bool true) end))))

unfoldable pub upstream_tool_descriptor_from_value : Json → Option UpstreamToolDescriptor
unfolding default_upstream_input_schema
upstream_tool_descriptor_from_value value = and_then (and_then (get "name" value) as_str) λ name.
    some (record {
      name = name;
      description =
          unwrap_or (and_then (get "description" value) as_str) "IDA Pro MCP upstream tool";
      input_schema = unwrap_or (get "inputSchema" value) default_upstream_input_schema;
      output_schema = get "outputSchema" value;
    })

-- The text of the first content.
unfoldable pub content_text : Json → Option String
content_text result =
    and_then (and_then (and_then (and_then (get "content" result) as_array) first) (get "text"))
      as_str

unfoldable pub content_text_json : (String → Option Json) → Json → Option Json
unfolding content_text
content_text_json from_str result = and_then (content_text result) from_str

unfoldable pub tool_error_text : Json → String
unfolding content_text
tool_error_text result = unwrap_or (content_text result) "ida-pro-mcp tool call failed"

unfoldable pub decode_tool_result : (String → Option Json) → Json → SupervisorToolCallResult
unfolding content_text_json tool_error_text
decode_tool_result from_str result =
    let is_error = is_true (and_then (get "isError" result) as_bool) in
    record {
      structured_content = elim (get "structuredContent" result) [
        | some content ↦ content
        | none ↦ unwrap_or (content_text_json from_str result) null
      ];
      mcp_result = result;
      is_error = is_error;
      error_message = if is_error then some (tool_error_text result) else none;
    }

-- `pid as u32`.
abbrev as_u32 : Json → Option ℕ
as_u32 value = elim (as_u64 value) [ none ↦ none | some pid ↦ some (pid % 2 ^ 32) ]

abbrev session_of : Fields → String → IdaUpstreamSession
session_of fields database_id = record {
  database_id = database_id;
  input_path = unwrap_or (and_then (get_field "input_path" fields) as_str) "";
  filename = unwrap_or (and_then (get_field "filename" fields) as_str) "";
  backend = and_then (get_field "backend" fields) as_str;
  adopted = and_then (get_field "adopted" fields) as_bool;
  owned = and_then (get_field "owned" fields) as_bool;
  pid = and_then (get_field "pid" fields) as_u32;
  worker_pid = and_then (get_field "worker_pid" fields) as_u32;
  is_active = and_then (get_field "is_active" fields) as_bool;
  is_analyzing = and_then (get_field "is_analyzing" fields) as_bool;
  metadata = unwrap_or (get_field "metadata" fields) null;
}

unfoldable pub ida_session_from_value : Json → Result IdaUpstreamSession
ida_session_from_value (object fields) =
    let database_id = unwrap_or (and_then (get_field "session_id" fields) as_str) "" in
    if text_eq database_id "" && not (is_false (and_then (get_field "adopted" fields) as_bool))
    then err (backend "IDA session entry missing session_id")
    else ok (session_of fields database_id)
ida_session_from_value _ = err (backend "IDA session entry is not an object")

-- `sessions.iter().cloned().map(ida_session_from_value).collect()`: the first failure ends it.
unfoldable pub sessions_from : Items → Result (List IdaUpstreamSession)
unfolding ida_session_from_value
sessions_from nil = ok []
sessions_from (cons value values) =
    let rest = sessions_from values in
    ida_session_from_value value >>= λ session. rest >>= λ sessions. ok (session ∷ sessions)

-- `list_sessions` and `open_session`, from the structured content on.
unfoldable pub list_sessions_answer : Json → Result (List IdaUpstreamSession)
unfolding sessions_from
list_sessions_answer content = elim (and_then (get "error" content) as_str) [
  | some error ↦ err (backend error)
  | none ↦ elim (and_then (get "sessions" content) as_array) [
    | none ↦ err (backend "idb_list response missing sessions")
    | some sessions ↦ sessions_from sessions
  ]
]

unfoldable pub open_session_answer : Json → Result OpenIdaDatabaseResult
unfolding ida_session_from_value
open_session_answer content = elim (and_then (get "error" content) as_str) [
  | some error ↦ err (backend error)
  | none ↦ elim (get "session" content) [
    | none ↦ err (backend "idb_open response missing session")
    | some value ↦ ida_session_from_value value >>= λ session. ok (record {
      session = session;
      warmup = get "warmup" content;
      text = and_then (get "message" content) as_str;
    })
  ]
]

-- The arguments of `call_tool`: the database of the session is put in, whatever was there.
unfoldable pub call_tool_arguments : String → Fields → Fields
call_tool_arguments database_id arguments = insert_field "database" (string database_id) arguments
