-- ===== src/Outbox/Store.antt =====
-- internal/outbox/store.go: the outbox as a folder of files.
--
-- The store holds its folder, a map from the names of files to what they hold. `Os` says what the
-- operating system does with a call on the folder, and a failing step of it is a parameter. No folder in it has the name of a record's file. The order of the map
-- stands for that of os.ReadDir, and records of the same instant keep it. The mutex makes one
-- operation one step. A limit of 0 stands for one that is not positive, the time 0 for the zero
-- time.
pub mod Operations
pub mod Atomic
pub mod Queue
pub mod Limits
pub mod Named
pub mod Failure
pub mod Startup
use mgate_agent.Base.{
  ℕ, zero, suc, ◌+◌, ◌-◌, ◌*◌, Bool, true, false, not, Option, none, some, List, [], ◌∷◌, ◌++◌,
  ◌||◌, ◌&&◌, ◌==◌, leb, ltb, if◌then◌else◌, map, Result, ok, err, length, filter, take, is_some,
  ◌≡◌, refl, sym, ◌∙◌, inl, inr, Bool-cases, arith,
}
use mgate_agent.Base.Int.{ℤ, pos}
use mgate_agent.Base.Maps.{Map, lookup, insert, remove}
use mgate_agent.Base.Text.{Text, codes, text_eq, is_blank, has_suffix}
use mgate_agent.Protocol.{Envelope, outbox_limit, corrupted_record}
use mgate_agent.Audit.{
  Event, Writer, blank, write_audit, record_saved, record_deleted, record_dropped, record_corrupted,
}
use mgate_agent.Outbox.{Record, Codec, RecordError, is_result, new_record}
use mgate_agent.Outbox.Retry.{retry_delay, jittered, short_error}

pub data Entry : Type 0 where
  folder : Entry
  file : Text → Entry

-- the step of a write at which the operating system refuses; `writing` says how many bytes
-- reached the file before
pub data Fault : Type 0 where
  opening syncing closing renaming : Fault
  writing : ℕ → Fault

pub record Os : Type 0 where
  pub makeable : Bool
  pub listable : Bool
  pub readable : Text → Bool
  pub fault : Option Fault
  pub removable : Text → Bool
  pub folder_size : ℕ

pub record Store : Type 0 where
  pub max_records : ℕ
  pub max_bytes : ℕ
  pub audit : Option Writer
  pub files : Map Entry

pub data StoreError : Type 0 where
  dir_required unreadable_dir not_encodable write_refused unreadable_file not_a_record : StoreError
  remove_refused unmakeable_dir : StoreError
  refused : RecordError → StoreError

abbrev pub json_suffix : Text
json_suffix = codes ".json"

abbrev pub tmp_suffix : Text
tmp_suffix = codes ".tmp"

-- (*Store).path, below the folder
unfoldable pub path : Text → Text
path record_id = record_id ++ json_suffix

-- (*Store).writeAudit
unfoldable pub log : ℕ → Event → Store → Store
log now e s = record s { audit = write_audit now e s.audit }

unfoldable pub put : Text → Entry → Store → Store
put name entry s = record s { files = insert name entry s.files }

-- os.Remove: an error but for a file that is not there
unfoldable pub remove_file : Os → Text → Store → Result StoreError Store
remove_file os name s = elim (lookup name s.files) [
  | none ↦ ok s
  | some _ ↦
      if os.removable name
      then ok (record s { files = remove name s.files })
      else err remove_refused
]

-- os.Rename; a missing source is left alone
unfoldable pub rename : Text → Text → Map Entry → Map Entry
rename old new files = elim (lookup old files) [
  | none ↦ files
  | some entry ↦ insert new entry (remove old files)
]

-- the tests of readRecordFile
unfoldable pub is_valid : Record → Bool
unfolding is_result
is_valid r =
    not (text_eq r.record_id []) && not (text_eq r.command_id []) && is_result r.envelope.type

-- a record into a list in the order of the creation
unfoldable pub insert_by_creation : Record → List Record → List Record
insert_by_creation r [] = r ∷ []
insert_by_creation r (q ∷ rs) =
    let rest = insert_by_creation r rs in
    if ltb q.created_at r.created_at then q ∷ rest else r ∷ q ∷ rs

unfoldable pub sort_by_creation : List Record → List Record
unfolding insert_by_creation
sort_by_creation [] = []
sort_by_creation (r ∷ rs) = insert_by_creation r (sort_by_creation rs)

unfoldable pub names_of : Map Entry → List Text
names_of [] = []
names_of ((name, entry) ∷ files) = name ∷ names_of files

-- what snapshotLocked adds for a record: the size of the file of its id
unfoldable pub size_of : Os → Store → Record → ℕ
unfolding path
size_of os s r = elim (lookup (path r.record_id) s.files) [
  | none ↦ 0
  | some folder ↦ os.folder_size
  | some (file data') ↦ length data'
]

unfoldable pub total_bytes : Os → Store → List Record → ℕ
unfolding size_of
total_bytes os s [] = 0
total_bytes os s (r ∷ rs) = size_of os s r + total_bytes os s rs

-- the steps of writeRecordAtomic on the bytes of a record: an opened file is empty, and a failing
-- write leaves the bytes before the failure
unfoldable pub write_steps :
    Option Fault → Text → Text → Store → Store × Result StoreError (Unit {0})
unfolding put rename
write_steps (some opening) final_path data' s = (s, err write_refused)
write_steps (some (writing n)) final_path data' s =
    (put (final_path ++ tmp_suffix) (file (take n data')) s, err write_refused)
write_steps (some syncing) final_path data' s =
    (put (final_path ++ tmp_suffix) (file data') s, err write_refused)
write_steps (some closing) final_path data' s =
    (put (final_path ++ tmp_suffix) (file data') s, err write_refused)
write_steps (some renaming) final_path data' s =
    (put (final_path ++ tmp_suffix) (file data') s, err write_refused)
write_steps none final_path data' s =
    let whole = put (final_path ++ tmp_suffix) (file data') s in
    (record whole { files = rename (final_path ++ tmp_suffix) final_path whole.files }, ok tt)

module _ (codec : Codec) where
  -- what readRecordFile makes of the bytes that a file holds
  unfoldable pub held_record : Text → Store → Result StoreError Record
  unfolding is_valid
  held_record name s = elim (lookup name s.files) [
    | none ↦ err unreadable_file
    | some folder ↦ err unreadable_file
    | some (file data') ↦ elim (codec.decode data') [
      | none ↦ err not_a_record
      | some r ↦ if is_valid r then ok r else err not_a_record
    ]
  ]

  -- (*Store).readRecordFile
  unfoldable pub read_record_file : Os → Text → Store → Result StoreError Record
  unfolding held_record
  read_record_file os name s = if os.readable name then held_record name s else err unreadable_file

  -- (*Store).writeRecordAtomic: the folder after it, with the error of the step that failed
  unfoldable pub write_record_atomic : Os → Record → Store → Store × Result StoreError (Unit {0})
  unfolding path write_steps
  write_record_atomic os r s = elim (codec.encode r) [
    | none ↦ (s, err not_encodable)
    | some data' ↦ write_steps os.fault (path r.record_id) data' s
  ]

  -- the loop of listLocked over the names of the folder
  unfoldable pub read_all : Os → List Text → Store → List Record
  unfolding read_record_file
  read_all os [] s = []
  read_all os (name ∷ names) s =
      let rest = read_all os names s in
      if has_suffix name json_suffix
      then elim (read_record_file os name s) [ err _ ↦ rest | ok r ↦ r ∷ rest ]
      else rest

  -- (*Store).listLocked and (*Store).All
  unfoldable pub list_locked : Os → Store → Result StoreError (List Record)
  unfolding read_all sort_by_creation names_of
  list_locked os s =
      if os.listable
      then ok (sort_by_creation (read_all os (names_of s.files) s))
      else err unreadable_dir

  -- (*Store).PendingCount
  unfoldable pub pending_count : Os → Store → ℕ
  unfolding list_locked
  pending_count os s = elim (list_locked os s) [ err _ ↦ 0 | ok rs ↦ length rs ]

-- a record that was read is what the file holds
pub read-held :
    (codec : Codec) (os : Os) (name : Text) (s : Store) (r : Record)
    → read_record_file codec os name s ≡ ok r
    → held_record codec name s ≡ ok r
unfolding read_record_file
read-held codec os name s r h = elim (Bool-cases (os.readable name)) [
  | inl e ↦
      let same : read_record_file codec os name s ≡ held_record codec name s =
        rw (read_record_file, e) refl in
      sym same ∙ h
  | inr e ↦ absurd (ground (arith, e, h))
]
