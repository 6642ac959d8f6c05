-- ===== src/Wire.antt =====
-- The protocol data that the package passes around, with the fields that its code reads or writes.
-- A JSON value is held as its text; `metadata` of `None` and of `{}` is the empty dictionary, and so
-- are the lists: the code reads each by `x or []`. The sets of states are those of
-- storage/base.py and hooks.py; the stream events are those of schema.py.
use a2akit.Prelude.{ℤ, String, Bool, true, false, Option, List}
use a2akit.Dict.{Dict}

pub data TaskState : Type 0 where
  submitted working completed canceled failed rejected input_required auth_required : TaskState

pub TaskState-discrete : Discrete TaskState
TaskState-discrete = hlevel

pub data Role : Type 0 where
  role_user role_agent : Role

pub record Part : Type 0 where
  pub text : Option String
  pub raw : Option String
  pub url : Option String
  pub value : Option String
  pub media_type : Option String
  pub filename : Option String

pub record Message : Type 0 where
  pub role : Role
  pub parts : List Part
  pub message_id : String
  pub task_id : Option String
  pub context_id : Option String

pub record Artifact : Type 0 where
  pub artifact_id : String
  pub name : String
  pub parts : List Part

pub record ArtifactWrite : Type 0 where
  pub artifact : Artifact
  pub append : Bool

pub record TaskStatus : Type 0 where
  pub state : TaskState
  pub timestamp : String
  pub message : Option Message

-- An entry of `metadata["stateTransitions"]`.
pub record TransitionRecord : Type 0 where
  pub state : TaskState
  pub timestamp : String
  pub message_text : Option String

-- A value of a task's metadata.
pub data MetaValue : Type 0 where
  text : String → MetaValue
  flag : Bool → MetaValue
  transitions : List TransitionRecord → MetaValue

pub record Task : Type 0 where
  pub id : String
  pub context_id : String
  pub status : TaskStatus
  pub history : List Message
  pub artifacts : List Artifact
  pub metadata : Dict MetaValue

pub data StreamEvent : Type 0 where
  snapshot : Task → StreamEvent
  message : Message → StreamEvent
  status_update : String → String → TaskStatus → StreamEvent
  artifact_update : String → String → Artifact → Bool → Bool → StreamEvent
  direct_reply : Message → StreamEvent
  terminal_marker : String → String → TaskStatus → StreamEvent

-- `state in TERMINAL_STATES`
abbrev pub is_terminal : TaskState → Bool
is_terminal completed = true
is_terminal canceled = true
is_terminal failed = true
is_terminal rejected = true
is_terminal _ = false

-- `state in TURN_END_STATES`: the interruptions that wait for the client
abbrev pub is_turn_end : TaskState → Bool
is_turn_end input_required = true
is_turn_end auth_required = true
is_turn_end _ = false

-- Reserved metadata keys.
abbrev pub meta_tenant_key : String
meta_tenant_key = "_a2akit_tenant"

abbrev pub meta_created_at_key : String
meta_created_at_key = "_a2akit_createdAt"

abbrev pub meta_last_modified_key : String
meta_last_modified_key = "_a2akit_lastModified"

abbrev pub just_created_key : String
just_created_key = "_a2akit_just_created"

abbrev pub idempotency_key : String
idempotency_key = "_idempotency_key"

abbrev pub state_transitions_key : String
state_transitions_key = "stateTransitions"

abbrev pub direct_reply_key : String
direct_reply_key = "_a2akit_direct_reply"

-- `TaskPushNotificationConfig` of v1.0, with a single authentication scheme.
pub record FlatPushConfig : Type 0 where
  pub id : Option String
  pub url : String
  pub token : Option String
  pub authentication : Option (Option String × Option String)

pub record NestedPushConfig : Type 0 where
  pub id : Option String
  pub url : String
  pub token : Option String
  pub authentication : Option (List String × Option String)

-- `SendMessageConfiguration`; `nested_push_config` is the legacy v0.3 shape, its authentication a
-- list of schemes.
pub record Configuration : Type 0 where
  pub return_immediately : Option Bool
  pub history_length : Option ℤ
  pub accepted_output_modes : List String
  pub flat_push_config : Option FlatPushConfig
  pub nested_push_config : Option NestedPushConfig

pub record SendMessageRequest : Type 0 where
  pub message : Message
  pub tenant : Option String
  pub configuration : Option Configuration
