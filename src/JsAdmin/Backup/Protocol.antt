-- ===== src/JsAdmin/Backup/Protocol.antt =====
-- What a listener sees of a backup or a restore.

use nats_desktop.Base.{
  Bool, Bool-cases, List, Option, String, [], arith, false, if◌then◌else◌, inl, inr, length,
  length-append, length-map, map, none, not, refl, some, suc, zero, ℕ, ◌+◌, ◌≤◌, subst, sym, true,
  ◌&&◌, ◌++◌, ◌∷◌, ◌≡◌, ◌⊎◌,
}
use nats_desktop.JsAdmin.Errors.{
  CallResult, Failure, classify_error, classify_error-fails, fail, is_ok, not_connected,
}
use nats_desktop.JsAdmin.Backup.{
  Turn, emits, looks, look, take_turn, Backup, BackupFailure, BackupProgress, Course, Direction,
  Notice, Outcome, Phase, Restore, backup, backup_failed, backup_loaded, backup_stream,
  bad_directory, complete, dropped_incomplete, incomplete, is_known, notify_all, progress, restore,
  restore_backup, restore_delete, restore_known, restore_named, restore_open, running, silent,
  target_exists, transfer, transfer_end, went,
}

-- Events of progress alone, of one stream and direction.
abbrev pub AllRunning : String → Direction → List BackupProgress → Type 0
AllRunning stream dir [] = Unit
AllRunning stream dir (e ∷ es) =
    (e.stream ≡ stream) × (e.direction ≡ dir) × (e.phase ≡ running) × AllRunning stream dir es

-- The events of a call: none, if it fails before the transfer; or a first one, progress, one last
-- event, which says whether the call succeeds, and at most `n` events of progress that were on their
-- way.
pub data Reported (dir : Direction) (n : ℕ) (success : Bool) : List BackupProgress → Type 0 where
  hushed : success ≡ false → Reported dir n success []
  reports :
      (e : BackupProgress) (es : List BackupProgress) (end : BackupProgress)
      (fs : List BackupProgress)
      → e.phase ≡ running
      → e.direction ≡ dir
      → AllRunning e.stream dir es
      → end.stream ≡ e.stream
      → end.direction ≡ dir
      → end.phase ≡ (if success then complete else incomplete)
      → AllRunning e.stream dir fs
      → length fs ≤ n
      → Reported dir n success (e ∷ es ++ end ∷ fs)

progress-AllRunning :
    (stream : String) (dir : Direction) (l : List Notice)
    → AllRunning stream dir (map (progress stream dir) l)
unfolding progress
progress-AllRunning stream dir [] = tt
progress-AllRunning stream backup (n ∷ l) = (refl, refl, refl, progress-AllRunning stream backup l)
progress-AllRunning stream restore (n ∷ l) =
    (refl, refl, refl, progress-AllRunning stream restore l)

length-take_turn :
    (i : ℕ) (l : List Notice) → length (take_turn i l).0 + length (take_turn i l).1 ≡ length l
unfolding take_turn
length-take_turn i [] = omega arith
length-take_turn zero (n ∷ l) = omega arith
length-take_turn (suc i) (n ∷ l) = let h = length-take_turn i l in omega arith

-- Once the flag is set, a callback that has read it before emits at most once, and no other.
length-notify_all :
    (waiting : List Notice) (l : List Turn)
    → length (notify_all true waiting l).0 + length (notify_all true waiting l).1 ≡ length waiting
unfolding notify_all look
length-notify_all waiting [] = omega arith
length-notify_all waiting (looks n ∷ l) = length-notify_all waiting l
length-notify_all waiting (emits i ∷ l) =
    let h = length-take_turn i waiting in
    let ih = length-notify_all (take_turn i waiting).1 l in
    let a = length-append (take_turn i waiting).0 (notify_all true (take_turn i waiting).1 l).0 in
    omega arith

-- The callbacks that have read the flag, and have not emitted yet, when it is set.
abbrev pub in_flight : Course → ℕ
in_flight t = length (notify_all false [] t.turns).1

-- The last event agrees with the answer, which is no success if the watch has seen the connection closed.
abbrev Agrees : Bool → Phase × CallResult → Type 0
Agrees dropped o =
    (o.0 ≡ (if is_ok o.1 then complete else incomplete)) × ((is_ok o.1 && dropped) ≡ false)

backup_failed-Agrees :
    (dir : Direction) (dropped : Bool) (e : BackupFailure) → Agrees dropped (backup_failed dir e)
unfolding backup_failed
backup_failed-Agrees dir dropped e = elim (Bool-cases e.connection_closed) [
  | inl b ↦ simp b (refl, refl)
  | inr b ↦ simp (b, classify_error-fails e.general) (refl, refl)
]

transfer_end-Agrees :
    (dir : Direction) (dropped : Bool) (error : Option BackupFailure)
    → Agrees dropped (transfer_end dir dropped error)
unfolding transfer_end dropped_incomplete
transfer_end-Agrees backup dropped (some e) = backup_failed-Agrees backup dropped e
transfer_end-Agrees backup true none = (refl, refl)
transfer_end-Agrees backup false none = (refl, refl)
transfer_end-Agrees restore true error = (refl, refl)
transfer_end-Agrees restore false (some e) = backup_failed-Agrees restore false e
transfer_end-Agrees restore false none = (refl, refl)

-- A call that holds the gate for a while.
abbrev pub Ended : Direction → Course → Outcome → Type 0
Ended dir t o =
    (o.busy ≡ false)
    × Reported dir (in_flight t) (is_ok o.result) o.events
    × ((is_ok o.result && t.dropped) ≡ false)

late-bounded :
    (t : Course)
    → let waiting = (notify_all false [] t.turns).1 in
      let left = (notify_all true waiting t.closing).1 in
      length (notify_all true left t.late).0 ≤ in_flight t
late-bounded t =
    let waiting = (notify_all false [] t.turns).1 in
    let left = (notify_all true waiting t.closing).1 in
    let a = length-notify_all waiting t.closing in
    let b = length-notify_all left t.late in omega arith

went-Ended :
    (stream : String) (dir : Direction) (deletes : Bool) (t : Course)
    → Ended dir t (went deletes (transfer stream dir t))
unfolding transfer
went-Ended stream dir deletes t =
    let (p, q) = transfer_end-Agrees dir t.dropped t.error in
    let (es, waiting) = notify_all false [] t.turns in
    let (fs, left) = notify_all true waiting t.closing in
    let gs = (notify_all true left t.late).0 in
    (
      refl,
      reports _ _ _ _ refl refl (progress-AllRunning stream dir (es ++ fs)) refl refl p
          (progress-AllRunning stream dir gs)
          (rw (length-map gs (progress stream dir)) (late-bounded t)),
      q,
    )

silent-Ended :
    (dir : Direction) (t : Course) (res : CallResult) → is_ok res ≡ false → Ended dir t (silent res)
silent-Ended dir t res h = (refl, hushed h, rw h refl)

not_ok-Ended :
    (dir : Direction) (t : Course) (o : Outcome) (res : CallResult)
    → Ended dir t o
    → Ended dir t (if is_ok res then o else silent res)
not_ok-Ended dir t o res h = elim (Bool-cases (is_ok res)) [
  | inl b ↦ subst (λ x. Ended dir t (if x then o else silent res)) (sym b) h
  | inr b ↦
      subst (λ x. Ended dir t (if x then o else silent res)) (sym b) (silent-Ended dir t res b)
]

backup_loaded-Ended :
    (b : Backup) (load : Option Failure) → Ended backup b.course (backup_loaded b load)
unfolding backup_loaded
backup_loaded-Ended b (some e) =
    silent-Ended backup b.course (classify_error (some e)) (classify_error-fails e)
backup_loaded-Ended b none = elim (Bool-cases b.connected) [
  | inl h ↦ simp h (went-Ended b.stream backup false b.course)
  | inr h ↦ simp h (silent-Ended backup b.course (fail not_connected "not connected") refl)
]

-- A backup while no other call holds the gate, in every order of the callbacks that the library
-- makes: the gate is free again afterwards, and a listener sees either nothing, if the answer is a
-- failure, or a first event, then progress, then exactly one event that is not progress, all of the
-- same stream; that event is `complete` exactly if the call succeeds, else `incomplete`. Events of
-- progress can follow it, at most as many as there are callbacks that had read the flag `finished`
-- but not emitted yet when it was set, so none if there are none. The call does not succeed if the
-- watch has seen the connection closed when the transfer returns.
pub backup_stream-Ended : (b : Backup) → Ended backup b.course (backup_stream false b)
unfolding backup_stream
backup_stream-Ended b =
    not_ok-Ended backup b.course (backup_loaded b b.load) b.handles (backup_loaded-Ended b b.load)

-- The end of a restore, and when it may have deleted a stream.
abbrev Deletes : Restore → Failure ⊎ Bool → Outcome → Type 0
Deletes r known o =
    Ended restore r.course o
    × ((o.deletes && not r.overwrite) ≡ false)
    × ((o.deletes && not (is_known known)) ≡ false)

silent-Deletes :
    (r : Restore) (known : Failure ⊎ Bool) (res : CallResult)
    → is_ok res ≡ false
    → Deletes r known (silent res)
silent-Deletes r known res h = (silent-Ended restore r.course res h, refl, refl)

restore_open-Ended :
    (r : Restore) (name : String) (deletes : Bool)
    → Ended restore r.course (restore_open r name deletes)
      × ((restore_open r name deletes).deletes ≡ deletes)
unfolding restore_open
restore_open-Ended r name deletes = elim (Bool-cases r.connected) [
  | inl h ↦ simp h (went-Ended name restore deletes r.course, refl)
  | inr h ↦ simp h (silent-Ended restore r.course (fail not_connected "not connected") refl, refl)
]

overwritten :
    (r : Restore) (name : String) (e : Option Failure)
    → r.overwrite ≡ true
    → Deletes r (inr true) (restore_delete r name e)
unfolding restore_delete
overwritten r name (some e) o =
    silent-Deletes r (inr true) (classify_error (some e)) (classify_error-fails e)
overwritten r name none o =
    let (h, d) = restore_open-Ended r name true in (h, rw (d, o) refl, rw d refl)

chosen :
    (r : Restore) (name : String) (b : Bool)
    → r.overwrite ≡ b
    → Deletes r
        (inr true)
        (if b then restore_delete r name r.delete_error else silent target_exists)
chosen r name true o = overwritten r name r.delete_error o
chosen r name false o = silent-Deletes r (inr true) target_exists refl

restore_known-Deletes :
    (r : Restore) (name : String) (known : Failure ⊎ Bool)
    → Deletes r known (restore_known r name known)
unfolding restore_known
restore_known-Deletes r name (inl e) =
    silent-Deletes r (inl e) (classify_error (some e)) (classify_error-fails e)
restore_known-Deletes r name (inr false) =
    let (h, d) = restore_open-Ended r name false in (h, rw d refl, rw d refl)
restore_known-Deletes r name (inr true) = chosen r name r.overwrite refl

handled :
    (r : Restore) (name : String) (b : Bool)
    → is_ok r.handles ≡ b
    → Deletes r r.known (if b then restore_known r name r.known else silent r.handles)
handled r name true h = restore_known-Deletes r name r.known
handled r name false h = silent-Deletes r r.known r.handles h

restore_named-Deletes :
    (r : Restore) (name : String ⊎ String) → Deletes r r.known (restore_named r name)
unfolding restore_named
restore_named-Deletes r (inl text) = silent-Deletes r r.known (bad_directory text) refl
restore_named-Deletes r (inr name) = handled r name (is_ok r.handles) refl

-- A restore while no other call holds the gate, in every order of the callbacks that the library
-- makes: the gate is free again afterwards; a listener sees nothing, if the answer is a failure, or
-- a first event, progress, exactly one event that is not progress, which agrees with the answer, and
-- then at most as many events of progress as there are callbacks that had read the flag `finished`
-- but not emitted yet when it was set; the call does not succeed if the watch has seen the
-- connection closed when the transfer returns; and the call has deleted a stream only if the name
-- was known and the caller asked to overwrite it.
pub restore_backup-Ended :
    (r : Restore)
    → Ended restore r.course (restore_backup false r)
      × (((restore_backup false r).deletes && not r.overwrite) ≡ false)
      × (((restore_backup false r).deletes && not (is_known r.known)) ≡ false)
unfolding restore_backup
restore_backup-Ended r = restore_named-Deletes r r.name
