-- ===== src/Tasks/Rows.antt =====
-- repositories/taskRepository.ts, types.ts, agents/contracts.ts and db/schema.ts: the rows of the
-- task tables, the records read from them and the errors. Every table is keyed by its task's id,
-- which is its primary key or UNIQUE, so a row holds the other columns.
use discordagent.Base.{ℕ, String, Bool, Option, List}
use discordagent.Dict.{Dict}

pub data AgentProviderId : Type 0 where
  claude codex opencode : AgentProviderId

pub data TaskStatus : Type 0 where
  created starting running waiting_for_user completed failed cancelled interrupted : TaskStatus

pub data TaskControlCardPinState : Type 0 where
  unknown pinned not_pinned pin_failed : TaskControlCardPinState

pub data ReasoningEffort : Type 0 where
  no_effort low medium high xhigh max_effort : ReasoningEffort

pub record AgentTaskSettings : Type 0 where
  pub model : Option String
  pub reasoning_effort : Option ReasoningEffort
  pub timeout_ms : Option ℕ
  pub mcp_profile : Option String
  pub approval_profile : Option String

pub record ProjectRow : Type 0 where
  pub name : String
  pub archived_at : Option ℕ

pub record TaskRow : Type 0 where
  pub project_id : String
  pub provider : AgentProviderId
  pub status : TaskStatus
  pub channel_id : String
  pub thread_id : String
  pub objective : String
  pub created_at : ℕ
  pub updated_at : ℕ
  pub started_at : Option ℕ
  pub completed_at : Option ℕ
  pub settings_json : String

pub record WorktreeRow : Type 0 where
  pub id : String
  pub repository_path : String
  pub worktree_path : String
  pub branch_name : String
  pub base_ref : String
  pub created_at : ℕ
  pub removed_at : Option ℕ

pub record SessionRow : Type 0 where
  pub id : String
  pub provider : AgentProviderId
  pub session_id : String
  pub created_at : ℕ
  pub updated_at : ℕ

-- The counts of a provider's `usage`; its utilization, a fraction, as numerator and denominator.
pub record ProviderUsage : Type 0 where
  pub input_tokens : Option ℕ
  pub output_tokens : Option ℕ
  pub cached_input_tokens : Option ℕ
  pub total_tokens : Option ℕ
  pub utilization : Option (ℕ × ℕ)
  pub resets_at : Option ℕ

pub record ResultRow : Type 0 where
  pub outcome : TaskStatus
  pub summary : String
  pub verification_json : String
  pub unresolved_json : String
  pub usage_json : Option String
  pub completed_at : ℕ

pub record CardRow : Type 0 where
  pub message_id : String
  pub pin_state : TaskControlCardPinState
  pub updated_at : ℕ

pub record TaskStore : Type 0 where
  pub projects : Dict ProjectRow
  pub tasks : Dict TaskRow
  pub worktrees : Dict WorktreeRow
  pub sessions : Dict SessionRow
  pub results : Dict ResultRow
  pub cards : Dict CardRow

pub record TaskRecord : Type 0 where
  pub id : String
  pub project_name : String
  pub provider : AgentProviderId
  pub status : TaskStatus
  pub channel_id : String
  pub thread_id : String
  pub objective : String
  pub created_at : ℕ
  pub updated_at : ℕ
  pub started_at : Option ℕ
  pub completed_at : Option ℕ
  pub provider_session_id : Option String
  pub settings : Option AgentTaskSettings
  pub settings_malformed : Bool

-- The outcome, which the source draws from the last four statuses, is a status here: `saveResult`
-- compares the two.
pub record TaskResult : Type 0 where
  pub provider : AgentProviderId
  pub outcome : TaskStatus
  pub exit_type : String
  pub started_at : ℕ
  pub completed_at : ℕ
  pub summary : Option String
  pub usage : Option ProviderUsage
  pub verification : Option (List String)
  pub unresolved : Option (List String)
  pub error_message : Option String

-- What `getResult` returns.
pub record SavedResult : Type 0 where
  pub provider : AgentProviderId
  pub outcome : TaskStatus
  pub exit_type : TaskStatus
  pub started_at : ℕ
  pub completed_at : ℕ
  pub session_id : Option String
  pub summary : String
  pub verification : List String
  pub unresolved : List String
  pub usage : Option ProviderUsage

pub record CreateTaskWorktreeInput : Type 0 where
  pub id : String
  pub repository_path : String
  pub worktree_path : String
  pub branch_name : String
  pub base_ref : String

pub record CreateTaskTransaction : Type 0 where
  pub task_id : String
  pub project_name : String
  pub provider : AgentProviderId
  pub channel_id : String
  pub thread_id : String
  pub objective : String
  pub worktree : CreateTaskWorktreeInput
  pub settings : Option AgentTaskSettings
  pub created_at : Option ℕ

pub record ProviderSession : Type 0 where
  pub provider : AgentProviderId
  pub session_id : String
  pub created_at : ℕ

-- One constructor for each `throw`, one for a constraint that a statement violates and one for the
-- SyntaxError of `JSON.parse`.
pub data TaskError : Type 0 where
  project_not_found : String → TaskError
  task_not_found : String → TaskError
  provider_mismatch : AgentProviderId → AgentProviderId → TaskError
  already_has_session : String → TaskError
  no_expected_state : TaskError
  stale_transition : String → List TaskStatus → TaskStatus → TaskError
  illegal_transition : TaskStatus → TaskStatus → TaskError
  stale_update : String → TaskError
  no_active_worktree : String → TaskError
  not_terminal : String → TaskError
  no_session_to_continue : String → TaskError
  no_worktree_to_continue : String → TaskError
  outcome_mismatch : TaskStatus → TaskStatus → TaskError
  already_has_result : String → TaskError
  constraint_failed : String → TaskError
  malformed_json : String → TaskError

-- What the store takes from elsewhere: the comparison of `COLLATE NOCASE`, the redaction of
-- secrets, the settings column written as JSON and read back, and `JSON.stringify` and `JSON.parse`
-- of the columns of a result, where `none` stands for the error of a text that is not JSON.
pub record TaskHost : Type 0 where
  pub same_name : String → String → Bool
  pub redact_sensitive_text : String → String
  pub encode_settings : Option AgentTaskSettings → String
  pub parse_stored_agent_task_settings : String → Option AgentTaskSettings
  pub stringify_texts : List String → String
  pub parse_texts : String → Option (List String)
  pub stringify_usage : ProviderUsage → String
  pub parse_usage : String → Option ProviderUsage
