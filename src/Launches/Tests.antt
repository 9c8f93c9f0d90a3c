-- ===== src/Launches/Tests.antt =====
-- Examples for the launch states, and the theorems applied to them.
use discordagent.Base.{String, ◌≡◌, ◌<◌, ◌↔◌, refl, none, some, [], ◌∷◌, ◌==◌, str_dec, ok}
use discordagent.Dict.{get, set}
use discordagent.Dict.Distinct.{IsDistinct}
use discordagent.Text.{trim, trim_start, trim_end, is_space}
use discordagent.Tasks.Rows.{TaskHost}
use discordagent.Tasks.Repository.{find_project}
use discordagent.Launches.Rows.{
  project_kind, FactoryFloorLaunchContext, LaunchRow, LaunchStore, CreateFactoryFloorLaunchInput,
  ConsumeFactoryFloorLaunchInput,
}
use discordagent.Launches.Validation.{
  required, optional, timestamp, normalize_context, bound_project, check_run, check_bindings,
  validate_input,
}
use discordagent.Launches.Repository.{
  joined_launch, find_launch, same_context, same_trusted_context, with_interaction,
  find_by_interaction, create_valid, create_launch, consumable, consumed, update_launch,
  consume_write, consume, invalidate, cleanup,
}
use discordagent.Launches.Rules.{consume_once, cleanup_exact}

abbrev plain : TaskHost
plain = record {
  same_name = λ a b. a == b;
  redact_sensitive_text = λ t. t;
  encode_settings = λ _. "{}";
  parse_stored_agent_task_settings = λ _. none;
  stringify_texts = λ _. "[]";
  parse_texts = λ _. some [];
  stringify_usage = λ _. "{}";
  parse_usage = λ _. none;
}

abbrev context : FactoryFloorLaunchContext
context = record {
  application_id = "app";
  installation_type = "guild";
  installation_owner_id = "guild-1";
  guild_id = "guild-1";
  channel_id = "channel";
  thread_id = none;
  principal_id = "user";
  factory_floor_project_id = "floor";
  surface_id = none;
  run_id = none;
  context_kind = project_kind;
}

abbrev bare : LaunchStore
bare = record {
  projects = ("p", record { name = "demo"; archived_at = none }) ∷ [];
  project_bindings =
      ("p", record { factory_floor_project_id = "floor"; guild_id = "guild-1"; retired_at = none })
      ∷ [];
  surfaces = [];
  runs = [];
  launches = [];
}

abbrev request : CreateFactoryFloorLaunchInput
request = record {
  state_id = "state";
  interaction_id = " interaction ";
  project_name = "demo";
  context = context;
  created_at = some 10;
  expires_at = 20;
}

abbrev launch : LaunchRow
launch = record {
  interaction_id = "interaction";
  context = context;
  local_project_id = "p";
  created_at = 10;
  expires_at = 20;
  consumed_at = none;
  invalidated_at = none;
  invalidation_reason = none;
}

abbrev launched : LaunchStore
launched = record bare { launches = ("state", launch) ∷ [] }

-- A creation, and its replay.
created : (create_launch (λ t. t) plain bare request 0).0 ≡ launched
unfolding create_launch create_valid validate_input check_bindings normalize_context required
    optional timestamp bound_project check_run find_project find_by_interaction with_interaction
    joined_launch find_launch get set str_dec trim trim_start trim_end is_space
created = refl

replayed :
    create_launch (λ t. t) plain launched request 0
    ≡ (launched, ok (some (record { state_id = "state"; project_name = "demo"; row = launch })))
unfolding create_launch create_valid validate_input check_bindings normalize_context required
    optional timestamp bound_project check_run find_project find_by_interaction with_interaction
    joined_launch same_trusted_context same_context find_launch get set str_dec trim trim_start
    trim_end is_space
replayed = refl

abbrev use_it : ConsumeFactoryFloorLaunchInput
use_it = record { state_id = "state"; now = 15; project_name = "demo"; expected = context }

consume_returned :
    (consume plain launched use_it).1
    ≡ ok (some (record { state_id = "state"; project_name = "demo"; row = consumed 15 launch }))
unfolding consume consume_write update_launch consumable normalize_context required optional
    timestamp find_project joined_launch same_context find_launch get set str_dec trim trim_start
    trim_end is_space
consume_returned = refl

consume_once_example :
    (id : String) × (row : LaunchRow) × (c : FactoryFloorLaunchContext) × (name : String)
    × (required "state" "state_id" ≡ ok id)
    × (get id launched.launches ≡ some row)
    × (normalize_context context "demo" ≡ ok (c, name))
    × (row.consumed_at ≡ none)
    × (row.invalidated_at ≡ none)
    × (15 < row.expires_at)
    × (row.context ≡ c)
    × (find_project plain name launched.projects ≡ some row.local_project_id)
    × ((consume plain launched use_it).0 ≡ record launched {
      launches = set id (record row { consumed_at = some 15 }) launched.launches;
    })
    × ((consume plain (consume plain launched use_it).0 use_it).0
        ≡ (consume plain launched use_it).0)
    × ((invalidate plain (consume plain launched use_it).0 "state" "late" 16).0
        ≡ (consume plain launched use_it).0)
consume_once_example = consume_once plain launched use_it use_it _ "late" 16 consume_returned refl

only_one : IsDistinct launched.launches
unfolding get
only_one = (refl, tt)

cleanup_exact_example : (get "state" (cleanup launched 15).0.launches ≡ some launch) ↔ (
    (get "state" launched.launches ≡ some launch)
    × (15 < 20)
    × (launch.consumed_at ≡ none)
    × (launch.invalidated_at ≡ none))
cleanup_exact_example = cleanup_exact launched 15 "state" launch refl only_one
