-- ===== src/Reverse/Manager/Output.antt =====
-- The output files of crates/dbgflow-reverse/src/ida/manager.rs, and write_reverse_session_output of
-- crates/dbgflow-common/src/artifacts/manager.rs.
pub mod Names
use Prim.Native.String.{◌++◌ as append}
use dbgflow.Prelude.{
  ℕ, zero, suc, String, ◌+◌, ◌-◌, ◌/◌, ◌%◌, ◌^◌, Bool, true, ◌&&◌, ◌||◌, Option, none, some, List,
  [], ◌∷◌, ◌++◌, codes, leb, ltb, ◌==◌, is_control, any, if◌then◌else◌,
}
use dbgflow.Common.Error.{SessionId, Message, text, ok, err, artifact}
use dbgflow.Common.Json.{Json, Fields, get, as_str}
use dbgflow.Session.Artifact.{FilePath, name, letters, uuid, ArtifactKind, ArtifactRef}
use dbgflow.Reverse.Model.{SupervisorToolCallResult}
use dbgflow.Reverse.Upstream.{and_then}
use dbgflow.Reverse.Manager.{
  Outside, IdaSessionManager, Op, ◌>>=◌, pure, Download, downloaded, not_downloaded, ToolOutput,
  tool_output, tool_error, write_output,
}

unfoldable pub hex_digit : ℕ → ℕ
hex_digit d = if ltb d 10 then b'0' + d else b'a' + (d - 10)

-- `{:0k x}` of a number below 16 ^ k.
unfoldable pub hex : ℕ → ℕ → List ℕ
unfolding hex_digit
hex zero n = []
hex (suc k) n = hex k (n / 16) ++ hex_digit (n % 16) ∷ []

abbrev is_ascii_alphanumeric : ℕ → Bool
is_ascii_alphanumeric c =
    (leb b'0' c && leb c b'9') || (leb b'A' c && leb c b'Z') || (leb b'a' c && leb c b'z')

unfoldable pub sanitize_letter : ℕ → ℕ
sanitize_letter c =
    if is_ascii_alphanumeric c || c == b'.' || c == b'-' || c == b'_' then c else b'_'

unfoldable pub sanitize : List ℕ → List ℕ
unfolding sanitize_letter
sanitize [] = []
sanitize (c ∷ cs) = sanitize_letter c ∷ sanitize cs

-- `{sequence:016x}-{sanitized}`.
unfoldable pub output_name : ℕ → List ℕ → List ℕ
unfolding hex sanitize
output_name sequence base = hex 16 sequence ++ b'-' ∷ sanitize base

-- `fetch_add` on a `u64` wraps around.
unfoldable pub unique_output_name : List ℕ → IdaSessionManager → List ℕ × IdaSessionManager
unfolding output_name
unique_output_name base m = (
  output_name m.output_sequence base,
  record m { output_sequence = (m.output_sequence + 1) % 2 ^ 64 },
)

abbrev pub is_bad_name : List ℕ → Bool
is_bad_name [] = true
is_bad_name (c ∷ cs) = any (λ d. d == b'/' || d == b'\\' || is_control d) (c ∷ cs)

unfoldable pub reverse_session_output_path : FilePath → SessionId → List ℕ → FilePath
reverse_session_output_path root session_id file_name =
    root ++ name "reverse_sessions" ∷ uuid session_id ∷ name "outputs" ∷ letters file_name ∷ []

unfoldable pub write_reverse_session_output :
    Outside → SessionId → (file_name : List ℕ) → ToolOutput → Op ArtifactRef
unfolding reverse_session_output_path
write_reverse_session_output o session_id file_name output m =
    let path = reverse_session_output_path m.artifact_root session_id file_name in
    if is_bad_name file_name
    then (err (artifact "reverse output artifact name is invalid"), m)
    else elim (o.writes m.ticks path) [
      | some error ↦ (err (artifact error), m)
      | none ↦ (
        ok (record { kind = ArtifactKind.reverse_session_output; path = path }),
        record m { journal = write_output path output ∷ m.journal },
      )
    ]

unfoldable pub ida_mcp_download_url : Json → Option String
ida_mcp_download_url result =
    and_then (and_then (and_then (get "_meta" result) (get "ida_mcp")) (get "download_url")) as_str

abbrev download : Outside → ℕ → SupervisorToolCallResult → Option Download
download o n response = elim (ida_mcp_download_url response.mcp_result) [
  | none ↦ none
  | some url ↦ some (o.downloads n url)
]

-- The warning of a download that failed.
unfoldable pub download_warning : Option Download → List Message
download_warning (some (not_downloaded error)) =
    text (append "download full ida-pro-mcp output failed: " error) ∷ []
download_warning (some (downloaded _)) = []
download_warning none = []

unfoldable pub write_tool_output :
    Outside
    → SessionId
    → (tool_name : String) → Fields
    → SupervisorToolCallResult
    → Op (ArtifactRef × List Message)
unfolding unique_output_name write_reverse_session_output ida_mcp_download_url download_warning
write_tool_output o session_id tool_name request response m =
    let full = download o m.ticks response in
    let (file_name, m') = unique_output_name (codes (append tool_name ".json")) m in
    let output = tool_output (append "ida." tool_name) request response full in
    (write_reverse_session_output o session_id file_name output >>= λ a.
    pure (a, download_warning full))
      m'

unfoldable pub write_tool_error_output :
    Outside → SessionId → (tool_name : String) → Fields → Message → Op ArtifactRef
unfolding unique_output_name write_reverse_session_output
write_tool_error_output o session_id tool_name request error m =
    let (file_name, m') = unique_output_name (codes (append tool_name ".error.json")) m in
    write_reverse_session_output o session_id file_name
      (tool_error (append "ida." tool_name) request error) m'
