-- ===== src/JsAdmin/Backup.antt =====
-- Backup and restore of a stream: `BackupStream` and `RestoreBackup` of
-- desktop/internal/jsadmin/backup.go. What the client library, the file system and the watch on the
-- connection answer during a call is an argument; `dropped` is whether the watch has seen the
-- connection closed by the end of the transfer.
pub mod Protocol
use Prim.Native.String.{◌++◌ as ◌++ˢ◌}
use nats_desktop.Base.{
  Bool, List, Option, String, [], false, if◌then◌else◌, inl, inr, map, none, some, suc, true, zero,
  ℕ, ◌++◌, ◌∷◌, ◌⊎◌,
}
use nats_desktop.JsAdmin.Errors.{
  CallResult, Failure, classify_error, done, fail, is_ok, not_connected, ok, validation,
}

pub data Direction : Type 0 where
  backup restore : Direction

pub data Phase : Type 0 where
  running complete incomplete : Phase

pub record BackupProgress : Type 0 where
  pub stream : String
  pub direction : Direction
  pub phase : Phase
  pub bytes_done : ℕ
  pub bytes_total : ℕ
  pub chunks_done : ℕ

-- An event without counts.
abbrev pub event : String → Direction → Phase → BackupProgress
event stream direction phase = record {
  stream = stream;
  direction = direction;
  phase = phase;
  bytes_done = 0;
  bytes_total = 0;
  chunks_done = 0;
}

-- The counts of one notification of the library: bytes received and expected, and chunks.
pub record Notice : Type 0 where
  pub bytes_done : ℕ
  pub bytes_total : ℕ
  pub chunks_done : ℕ

-- What a notification of a restore carries is the number of chunks alone.
progress : String → Direction → Notice → BackupProgress
progress stream backup n = record (event stream backup running) {
  bytes_done = n.bytes_done;
  bytes_total = n.bytes_total;
  chunks_done = n.chunks_done;
}
progress stream restore n = record (event stream restore running) { chunks_done = n.chunks_done }

-- The library may call the callback of a notification from goroutines of its own. A callback reads
-- the flag `finished` and returns if it is set, and else emits its event later: a turn is one or the
-- other, and names the callback that emits by its place among those that have read the flag.
pub data Turn : Type 0 where
  looks : Notice → Turn
  emits : ℕ → Turn

-- What the callback at that place emits, and those that are still to emit.
take_turn : ℕ → List Notice → List Notice × List Notice
take_turn i [] = ([], [])
take_turn zero (n ∷ l) = (n ∷ [], l)
take_turn (suc i) (n ∷ l) = let (es, rest) = take_turn i l in (es, n ∷ rest)

look : Bool → Notice → List Notice → List Notice
look finished n waiting = if finished then waiting else waiting ++ n ∷ []

-- The notifications that are emitted in a list of turns, given the flag and the callbacks that have
-- read it as not set before, and the callbacks that are still to emit.
pub notify_all : Bool → List Notice → List Turn → List Notice × List Notice
unfolding take_turn look
notify_all finished waiting [] = ([], waiting)
notify_all finished waiting (looks n ∷ l) = notify_all finished (look finished n waiting) l
notify_all finished waiting (emits i ∷ l) =
    let (es, rest) = take_turn i waiting in
    let (fs, left) = notify_all finished rest l in (es ++ fs, left)

pub record BackupFailure : Type 0 where
  pub connection_closed : Bool
  pub general : Failure

abbrev during : Direction → String
during backup = "connection closed during backup: "
during restore = "connection closed during restore: "

-- `backupFailed` and `droppedIncomplete`: the phase of the last event, and the answer.
backup_failed : Direction → BackupFailure → Phase × CallResult
backup_failed dir e = (
  incomplete,
  if e.connection_closed
      then fail not_connected (during dir ++ˢ e.general.text)
      else classify_error (some e.general),
)

dropped_incomplete : Direction → Phase × CallResult
dropped_incomplete dir =
    (incomplete, fail not_connected (during dir ++ˢ "partial artifacts retained"))

-- A backup looks at the error first, a restore at the connection.
transfer_end : Direction → Bool → Option BackupFailure → Phase × CallResult
unfolding backup_failed dropped_incomplete
transfer_end backup dropped (some e) = backup_failed backup e
transfer_end backup true none = dropped_incomplete backup
transfer_end backup false none = (complete, done)
transfer_end restore true error = dropped_incomplete restore
transfer_end restore false (some e) = backup_failed restore e
transfer_end restore false none = (complete, done)

-- How the transfer goes: the turns of its callbacks until the flag is set, its error, whether the
-- watch has seen the connection closed, the turns between the flag and the last event, and the turns
-- after it.
pub record Course : Type 0 where
  pub turns : List Turn
  pub error : Option BackupFailure
  pub dropped : Bool
  pub closing : List Turn
  pub late : List Turn

-- From the first event on.
transfer : String → Direction → Course → List BackupProgress × CallResult
unfolding notify_all transfer_end progress
transfer stream dir t =
    let (phase, res) = transfer_end dir t.dropped t.error in
    let (es, waiting) = notify_all false [] t.turns in
    let (fs, left) = notify_all true waiting t.closing in
    let (gs, rest) = notify_all true left t.late in
    (
      event stream dir running ∷ map (progress stream dir) (es ++ fs)
          ++ (event stream dir phase ∷ map (progress stream dir) gs),
      res,
    )

-- The gate, whether the call deletes the stream on the server, the events, and the answer.
pub record Outcome : Type 0 where
  pub busy : Bool
  pub deletes : Bool
  pub events : List BackupProgress
  pub result : CallResult

abbrev silent : CallResult → Outcome
silent res = record { busy = false; deletes = false; events = []; result = res }

abbrev went : Bool → List BackupProgress × CallResult → Outcome
went deletes (events, res) = record {
  busy = false;
  deletes = deletes;
  events = events;
  result = res;
}

abbrev busy_result : CallResult
busy_result = fail validation "another backup or restore is already running"

abbrev pub bad_directory : String → CallResult
bad_directory text = fail validation ("invalid backup directory: " ++ˢ text)

abbrev pub target_exists : CallResult
target_exists = fail validation "restore target stream already exists (confirm delete-and-recreate)"

pub record Backup : Type 0 where
  pub stream : String
  pub handles : CallResult
  pub load : Option Failure
  pub connected : Bool
  pub course : Course

backup_loaded : Backup → Option Failure → Outcome
unfolding transfer
backup_loaded b (some e) = silent (classify_error (some e))
backup_loaded b none =
    if b.connected
    then went false (transfer b.stream backup b.course)
    else silent (fail not_connected "not connected")

-- The first argument is whether another call holds the gate.
unfoldable pub backup_stream : Bool → Backup → Outcome
unfolding backup_loaded
backup_stream true b = record { busy = true; deletes = false; events = []; result = busy_result }
backup_stream false b = if is_ok b.handles then backup_loaded b b.load else silent b.handles

-- Whether the server knows the stream.
abbrev pub is_known : Failure ⊎ Bool → Bool
is_known (inl e) = false
is_known (inr b) = b

-- `name` is what `readBackupName` answers: the text of an error, or the name.
pub record Restore : Type 0 where
  pub name : String ⊎ String
  pub overwrite : Bool
  pub handles : CallResult
  pub known : Failure ⊎ Bool
  pub delete_error : Option Failure
  pub connected : Bool
  pub course : Course

-- `deletes` is whether the existing stream has been deleted by then.
restore_open : Restore → String → Bool → Outcome
unfolding transfer
restore_open r name deletes =
    if r.connected
    then went deletes (transfer name restore r.course)
    else record (silent (fail not_connected "not connected")) { deletes = deletes }

restore_delete : Restore → String → Option Failure → Outcome
unfolding restore_open
restore_delete r name (some e) = silent (classify_error (some e))
restore_delete r name none = restore_open r name true

restore_known : Restore → String → Failure ⊎ Bool → Outcome
unfolding restore_open restore_delete
restore_known r name (inl e) = silent (classify_error (some e))
restore_known r name (inr false) = restore_open r name false
restore_known r name (inr true) =
    if r.overwrite then restore_delete r name r.delete_error else silent target_exists

restore_named : Restore → String ⊎ String → Outcome
unfolding restore_known
restore_named r (inl text) = silent (bad_directory text)
restore_named r (inr name) =
    if is_ok r.handles then restore_known r name r.known else silent r.handles

unfoldable pub restore_backup : Bool → Restore → Outcome
unfolding restore_named
restore_backup true r = record { busy = true; deletes = false; events = []; result = busy_result }
restore_backup false r = restore_named r r.name
