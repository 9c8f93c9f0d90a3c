-- ===== src/Tasks/Status.antt =====
-- repositories/taskRepository.ts: the statuses of a task and the transitions between them.
use discordagent.Base.{Bool, true, false, not, ◌||◌, List, [], ◌∷◌, any}
use discordagent.Dict.{is_some}
use discordagent.Tasks.Rows.{
  AgentProviderId, TaskStatus, created, starting, running, waiting_for_user, completed, failed,
  cancelled, interrupted, AgentTaskSettings,
}

unfoldable pub status_dec : Discrete TaskStatus
status_dec = hlevel

unfoldable pub provider_dec : Discrete AgentProviderId
provider_dec = hlevel

abbrev pub status_beq : TaskStatus → TaskStatus → Bool
status_beq a b = elim (status_dec a b) [ yes _ ↦ true | no _ ↦ false ]

abbrev pub provider_beq : AgentProviderId → AgentProviderId → Bool
provider_beq a b = elim (provider_dec a b) [ yes _ ↦ true | no _ ↦ false ]

-- `list.includes(status)`.
unfoldable pub includes : List TaskStatus → TaskStatus → Bool
unfolding status_dec
includes l s = any (λ t. status_beq t s) l

-- `TERMINAL_STATUSES.has(status)`.
unfoldable pub is_terminal : TaskStatus → Bool
is_terminal completed = true
is_terminal failed = true
is_terminal cancelled = true
is_terminal interrupted = true
is_terminal _ = false

unfoldable pub legal_transitions : TaskStatus → List TaskStatus
legal_transitions created = starting ∷ cancelled ∷ []
legal_transitions starting = running ∷ failed ∷ cancelled ∷ interrupted ∷ []
legal_transitions running = waiting_for_user ∷ completed ∷ failed ∷ cancelled ∷ interrupted ∷ []
legal_transitions waiting_for_user = running ∷ completed ∷ failed ∷ cancelled ∷ interrupted ∷ []
legal_transitions completed = []
legal_transitions failed = []
legal_transitions cancelled = []
legal_transitions interrupted = starting ∷ cancelled ∷ []

-- `Object.keys(settings).length === 0`.
unfoldable pub has_no_keys : AgentTaskSettings → Bool
has_no_keys s = not (
    is_some s.model
    || is_some s.reasoning_effort
    || is_some s.timeout_ms
    || is_some s.mcp_profile
    || is_some s.approval_profile)
