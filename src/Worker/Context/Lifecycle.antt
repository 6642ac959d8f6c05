-- ===== src/Worker/Context/Lifecycle.antt =====
-- worker/base.py: the methods of `TaskContextImpl` that a handler calls.
use a2akit.Prelude.{
  ℕ, String, Bool, true, false, Option, none, some, List, [], ◌∷◌, ◌++◌, ◌==◌, if◌then◌else◌,
}
use a2akit.Dict.{Dict}
use a2akit.Wire.{
  TaskState, working, completed, failed, rejected, input_required, auth_required, Message, Part,
  role_agent, Artifact, StreamEvent, artifact_update, direct_reply, text, direct_reply_key,
}
use a2akit.Errors.{Result, ok, err, is_concurrency, value_error}
use a2akit.Push.Store.{text_or}
use a2akit.Storage.Update.{no_update}
use a2akit.Cancel.{text_part}
use a2akit.Emitter
use a2akit.Runtime.{World}
use a2akit.Worker.Context.{
  TaskContext, Method, versioned_update, skip_write, maybe_flush, context_of, emit_status,
  terminal_transition,
}

-- `_make_agent_message`
unfoldable pub make_agent_message : TaskContext → World → List Part → Message
make_agent_message ctx w parts = record {
  role = role_agent;
  parts = parts;
  message_id = w.uuid;
  task_id = some ctx.task_id;
  context_id = some (context_of ctx);
}

abbrev pub json_part : String → Option String → Part
json_part value media_type = record {
  text = none;
  raw = none;
  url = none;
  value = some value;
  media_type = media_type;
  filename = none;
}

-- An artifact of one part, its write, and the event that announces it.
abbrev pub single : String → Part → Artifact
single artifact_id part = record { artifact_id = artifact_id; name = ""; parts = part ∷ [] }

abbrev announced : TaskContext → Artifact → StreamEvent
announced ctx a = artifact_update ctx.task_id (context_of ctx) a false true

abbrev pub result_with : Artifact → Method (Unit {0})
result_with a ctx =
    terminal_transition completed none (record { artifact = a; append = false } ∷ []) []
      (announced ctx a ∷ []) ctx

unfoldable pub complete : Option String → String → Method (Unit {0})
complete none artifact_id = terminal_transition completed none [] [] []
complete (some s) artifact_id = result_with (single artifact_id (text_part s))

unfoldable pub complete_json : String → String → Method (Unit {0})
complete_json value artifact_id =
    result_with (single artifact_id (json_part value (some "application/json")))

abbrev pub end_turn : TaskState → List Part → Method (Unit {0})
end_turn s parts ctx w =
    terminal_transition s (some (make_agent_message ctx w parts)) [] [] [] ctx w

unfoldable pub fail : String → Method (Unit {0})
fail reason = end_turn failed (text_part reason ∷ [])

unfoldable pub reject : Option String → Method (Unit {0})
reject reason = end_turn rejected (text_part (text_or reason "Task rejected.") ∷ [])

unfoldable pub request_input : String → Method (Unit {0})
request_input question = end_turn input_required (text_part question ∷ [])

abbrev pub or_default : List Part → List Part
or_default [] = text_part "Authentication required." ∷ []
or_default (p ∷ ps) = p ∷ ps

abbrev details_part : Option String → List Part
details_part none = []
details_part (some s) = text_part s ∷ []

abbrev field_of : String → Option String → Dict (List String)
field_of k none = []
field_of k (some s) = if s == "" then [] else (k, s ∷ []) ∷ []

abbrev schemes_field : List String → Dict (List String)
schemes_field [] = []
schemes_field (x ∷ xs) = ("schemes", x ∷ xs) ∷ []

-- `auth_data`, the fields that are set.
abbrev pub auth_fields : List String → Option String → Option String → Dict (List String)
auth_fields schemes credentials_hint auth_url =
    schemes_field schemes
    ++ (field_of "credentialsHint" credentials_hint ++ field_of "authUrl" auth_url)

abbrev auth_part : (Dict (List String) → String) → Dict (List String) → List Part
auth_part encode [] = []
auth_part encode (f ∷ fs) = json_part (encode (f ∷ fs)) (some "application/json") ∷ []

-- `encode` is the JSON text of the fields.
unfoldable pub request_auth :
    (Dict (List String) → String)
    → Option String
    → List String
    → Option String
    → Option String
    → Method (Unit {0})
request_auth encode details schemes credentials_hint auth_url = end_turn auth_required (
    or_default
      (details_part details ++ auth_part encode (auth_fields schemes credentials_hint auth_url)))

unfoldable pub respond : Option String → Method (Unit {0})
respond message_text = end_turn completed (details_part message_text)

-- The reply's identifier goes into the task's metadata, and the reply into the stream.
unfoldable pub reply_directly : String → Method (Unit {0})
reply_directly reply ctx w =
    let m = make_agent_message ctx w (text_part reply ∷ []) in
    terminal_transition completed (some m) [] ((direct_reply_key, text m.message_id) ∷ [])
      (direct_reply m ∷ []) ctx w

status_written : TaskContext → Message → Result ℕ × World → Result (Unit {0}) × TaskContext × World
status_written ctx m (ok v, w) = (
  ok tt,
  record ctx { version = some v; pending = []; last_flush = w.clock },
  emit_status ctx working (some m) false w,
)
status_written ctx m (err e, w) = if is_concurrency e then skip_write ctx e w else (err e, ctx, w)

-- `send_status`: persist with the buffered artifacts, then broadcast.
unfoldable pub send_status : Option String → Method (Unit {0})
unfolding status_written
send_status none ctx w =
    if ctx.turn_ended then (ok tt, ctx, w) else (ok tt, ctx, emit_status ctx working none false w)
send_status (some s) ctx w =
    let m = make_agent_message ctx w (text_part s ∷ []) in
    if ctx.turn_ended
    then (ok tt, ctx, w)
    else status_written ctx m (
        versioned_update ctx.task_id ctx.version
          (record no_update { status_message = some m; artifacts = ctx.pending }) w)

-- The content arguments of `emit_artifact`, in the order in which `_build_parts` reads them.
pub record Content : Type 0 where
  pub text : Option String
  pub value : Option String
  pub file_bytes : Option String
  pub file_url : Option String
  pub media_type : Option String
  pub filename : Option String

abbrev file_part : Content → Option String → Option String → Part
file_part c raw url = record {
  text = none;
  raw = raw;
  url = url;
  value = none;
  media_type = c.media_type;
  filename = c.filename;
}

abbrev when_some : Option String → Part → List Part
when_some none p = []
when_some (some s) p = p ∷ []

unfoldable pub build_parts : Content → List Part
build_parts c =
    when_some c.text (record {
      text = c.text;
      raw = none;
      url = none;
      value = none;
      media_type = c.media_type;
      filename = none;
    })
    ++ (when_some c.value (record {
      text = none;
      raw = none;
      url = none;
      value = c.value;
      media_type = some (text_or c.media_type "application/json");
      filename = none;
    })
        ++ (when_some c.file_bytes (file_part c c.file_bytes none)
            ++ when_some c.file_url (file_part c none c.file_url)))

-- An artifact of some parts: the event first, then the buffer, which may be flushed.
unfoldable pub emit_parts : List Part → String → String → Bool → Bool → Method (Unit {0})
emit_parts [] artifact_id name append last_chunk ctx w = (err value_error, ctx, w)
emit_parts (p ∷ ps) artifact_id name append last_chunk ctx w =
    let a : Artifact = record { artifact_id = artifact_id; name = name; parts = p ∷ ps } in
    maybe_flush
      (record ctx { pending = ctx.pending ++ record { artifact = a; append = append } ∷ [] })
      (Emitter.send_event ctx.task_id
        (artifact_update ctx.task_id (context_of ctx) a append last_chunk) w).1

unfoldable pub emit_artifact : String → String → Content → Bool → Bool → Method (Unit {0})
emit_artifact artifact_id name c append last_chunk ctx w =
    if ctx.turn_ended
    then (ok tt, ctx, w)
    else emit_parts (build_parts c) artifact_id name append last_chunk ctx w
