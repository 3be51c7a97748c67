-- ===== src/Reverse/Tools.antt =====
-- The tools of crates/dbgflow-reverse/src/ida/worker.rs that may be called.
pub mod Offered
use Prim.Native.String.{◌++◌}
use dbgflow.Prelude.{
  ℕ, String, Bool, true, false, not, ◌&&◌, Option, none, some, List, [], ◌∷◌, any, codes, text_eq,
  ◌==◌, if◌then◌else◌,
}
use dbgflow.Common.Json.{Json, Items, nil, cons, get, as_array}
use dbgflow.Reverse.Upstream.{
  UpstreamToolDescriptor, default_upstream_input_schema, upstream_tool_descriptor_from_value,
  and_then,
}

abbrev pub default_upstream_tools : List String
default_upstream_tools =
    "add_bookmark" ∷ "analyze_batch" ∷ "analyze_component" ∷ "analyze_function" ∷ "append_comments"
    ∷ "basic_blocks" ∷ "callees" ∷ "callgraph" ∷ "declare_stack" ∷ "declare_type" ∷ "decompile"
    ∷ "define_code" ∷ "define_func" ∷ "delete_stack" ∷ "diff_before_after" ∷ "disasm"
    ∷ "entity_query" ∷ "enum_upsert" ∷ "export_funcs" ∷ "find" ∷ "find_bytes" ∷ "find_regex"
    ∷ "find_xref_signatures" ∷ "force_recompile" ∷ "func_profile" ∷ "func_query" ∷ "get_bytes"
    ∷ "get_global_value" ∷ "get_int" ∷ "get_string" ∷ "idb_save" ∷ "imports" ∷ "imports_query"
    ∷ "infer_types" ∷ "insn_query" ∷ "int_convert" ∷ "list_funcs" ∷ "list_globals" ∷ "lookup_funcs"
    ∷ "make_data" ∷ "make_signature" ∷ "make_signature_for_function" ∷ "make_signature_for_range"
    ∷ "patch" ∷ "patch_asm" ∷ "put_int" ∷ "py_eval" ∷ "read_struct" ∷ "rename" ∷ "search_structs"
    ∷ "search_text" ∷ "server_health" ∷ "set_comments" ∷ "set_op_type" ∷ "set_type" ∷ "stack_frame"
    ∷ "survey_binary" ∷ "trace_data_flow" ∷ "type_apply_batch" ∷ "type_inspect" ∷ "type_query"
    ∷ "undefine" ∷ "xref_query" ∷ "xrefs_to" ∷ "xrefs_to_field" ∷ []

unfoldable pub contains_text : String → List String → Bool
contains_text key texts = any (λ text. text_eq text key) texts

-- `text.starts_with(prefix)`.
unfoldable pub starts_with : List ℕ → List ℕ → Bool
starts_with [] text = true
starts_with (c ∷ cs) [] = false
starts_with (c ∷ cs) (d ∷ ds) = c == d && starts_with cs ds

unfoldable pub is_allowed_upstream_tool : String → Bool
unfolding contains_text starts_with
is_allowed_upstream_tool tool_name =
    contains_text tool_name default_upstream_tools
    && not (text_eq tool_name "py_exec_file")
    && not (text_eq tool_name "idb_open")
    && not (text_eq tool_name "idb_list")
    && not (starts_with (codes "dbg_") (codes tool_name))

abbrev push_tools : List String → String
push_tools [] = ""
push_tools (tool ∷ tools) = tool ++ "\n" ++ push_tools tools

unfoldable pub default_profile_text : String
default_profile_text =
    "# dbgflow default ida-pro-mcp profile\n# Generated by dbgflow; debugger tools and py_exec_file are intentionally excluded.\n\n"
    ++ push_tools default_upstream_tools

abbrev pub fallback_descriptor : String → UpstreamToolDescriptor
fallback_descriptor tool = record {
  name = tool;
  description = "IDA Pro MCP upstream tool `" ++ tool ++ "`.";
  input_schema = default_upstream_input_schema;
  output_schema = none;
}

unfoldable pub fallback_from : List String → List UpstreamToolDescriptor
fallback_from [] = []
fallback_from (tool ∷ tools) = fallback_descriptor tool ∷ fallback_from tools

unfoldable pub fallback_tool_descriptors : List UpstreamToolDescriptor
unfolding fallback_from
fallback_tool_descriptors = fallback_from default_upstream_tools

-- `.filter(|tool| is_allowed_upstream_tool(&tool.name))`.
unfoldable pub keep_allowed : List UpstreamToolDescriptor → List UpstreamToolDescriptor
keep_allowed [] = []
keep_allowed (tool ∷ tools) =
    let rest = keep_allowed tools in
    if is_allowed_upstream_tool tool.name then tool ∷ rest else rest

-- `tools.iter().filter_map(upstream_tool_descriptor_from_value)`.
unfoldable pub descriptors_from : Items → List UpstreamToolDescriptor
descriptors_from nil = []
descriptors_from (cons value values) =
    let rest = descriptors_from values in
    elim (upstream_tool_descriptor_from_value value) [ none ↦ rest | some tool ↦ tool ∷ rest ]

-- What `tools/list` answers, as the tools that are offered; `none` is a request that failed.
unfoldable pub tool_descriptors : Option Json → List UpstreamToolDescriptor
unfolding keep_allowed descriptors_from fallback_tool_descriptors
tool_descriptors none = fallback_tool_descriptors
tool_descriptors (some result) = elim (and_then (get "tools" result) as_array) [
  | none ↦ fallback_tool_descriptors
  | some tools ↦ keep_allowed (descriptors_from tools)
]
