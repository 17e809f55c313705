-- ===== src/Outbox/Store/Operations.antt =====
-- internal/outbox/store.go: the operations of the outbox. `now` stands for the readings of the clock
-- within one operation.
use mgate_agent.Base.{
  ℕ, zero, suc, ◌+◌, ◌-◌, ◌*◌, Bool, true, false, not, Option, none, some, List, [], ◌∷◌, ◌++◌,
  ◌||◌, ◌&&◌, ◌==◌, leb, ltb, if◌then◌else◌, Result, ok, err, length, take,
}
use mgate_agent.Base.Maps.{Map, lookup}
use mgate_agent.Base.Text.{Text, codes, is_blank, has_suffix}
use mgate_agent.Protocol.{Envelope, outbox_limit, corrupted_record}
use mgate_agent.Audit.{
  Event, Writer, blank, record_saved, record_deleted, record_dropped, record_corrupted,
}
use mgate_agent.Outbox.{Record, Codec, RecordError, new_record}
use mgate_agent.Outbox.Retry.{retry_delay, jittered, short_error}
use mgate_agent.Outbox.Store.{
  Entry, folder, file, Os, Store, StoreError, dir_required, unreadable_dir, refused, unmakeable_dir,
  json_suffix, tmp_suffix, path, log, remove_file, rename, read_record_file, write_record_atomic,
  list_locked, names_of, total_bytes,
}

-- whether the loop of enforceLimitsLocked returns before it drops a record
unfoldable pub within_limits : Os → Store → List Record → Bool
unfolding total_bytes
within_limits os s rs = leb (length rs) s.max_records && leb (total_bytes os s rs) s.max_bytes

-- the event of a record that enforceLimitsLocked drops
abbrev pub dropped : Record → Event
dropped r = record (blank record_dropped) {
  record_id = r.record_id;
  command_id = r.command_id;
  attempts = r.attempts;
  error_code = outbox_limit;
}

-- the fields that Save keeps of the record that was there
unfoldable pub carry_over : Record → Record → Record
carry_over old r = record r {
  created_at = old.created_at;
  attempts = old.attempts;
  last_error = old.last_error;
  next_retry_at = old.next_retry_at;
}

abbrev pub saved : Record → Event
saved r = record (blank record_saved) {
  record_id = r.record_id;
  command_id = r.command_id;
  attempts = r.attempts;
}

unfoldable pub answer_save :
    Record → Store × Result StoreError (Unit {0}) → Store × Result StoreError Record
answer_save r (u, err e) = (u, err e)
answer_save r (u, ok _) = (u, ok r)

unfoldable pub is_due : ℕ → Record → Bool
is_due now r = r.next_retry_at == 0 || leb r.next_retry_at now

-- the loop of Due over the records; `found` counts those that are in the answer
unfoldable pub collect_due : ℕ → ℕ → ℕ → List Record → List Record
unfolding is_due
collect_due now limit found [] = []
collect_due now limit found (r ∷ rs) =
    let more = collect_due now limit (suc found) rs in
    let rest = collect_due now limit found rs in
    if is_due now r then if ltb 0 limit && leb limit (suc found) then r ∷ [] else r ∷ more else rest

-- what MarkFailure makes of a record; `draw` is the number that retryJitter draws
unfoldable pub failed : ℕ → Option Text → Option ℕ → Record → Record
unfolding retry_delay jittered short_error
failed now send_error draw r = record r {
  attempts = suc r.attempts;
  updated_at = now;
  last_error = short_error send_error;
  next_retry_at = now + jittered (retry_delay (suc r.attempts)) draw;
}

-- the event of Delete, with the command id of the record when that could be read
unfoldable pub deleted : Text → Result StoreError Record → Event
deleted record_id (err _) = record (blank record_deleted) { record_id = record_id }
deleted record_id (ok r) = record (blank record_deleted) {
  record_id = record_id;
  command_id = r.command_id;
}

-- the event of a file that Load sets aside
abbrev pub corrupted : Text → Event
corrupted name = record (blank record_corrupted) {
  record_id = take (length name - 5) name;
  error_code = corrupted_record;
}

-- rounds for the loop of enforceLimitsLocked within Save: a write adds at most two files
unfoldable pub enough_rounds : Store → ℕ
enough_rounds s = length s.files + 3

module _ (codec : Codec) where
  -- (*Store).enforceLimitsLocked over the rounds left; `none` is a loop that has not ended
  unfoldable pub enforce_limits : ℕ → ℕ → Os → Store → Option (Store × Result StoreError (Unit {0}))
  unfolding list_locked within_limits remove_file path log
  enforce_limits zero now os s = none
  enforce_limits (suc rounds) now os s = elim (list_locked codec os s) [
    | err e ↦ some (s, err e)
    | ok [] ↦ some (s, ok tt)
    | ok (drop ∷ rs) ↦ elim (within_limits os s (drop ∷ rs)) [
      | true ↦ some (s, ok tt)
      | false ↦ elim (remove_file os (path drop.record_id) s) [
        | err e ↦ some (s, err e)
        | ok t ↦ enforce_limits rounds now os (log now (dropped drop) t)
      ]
    ]
  ]

  -- the record that Save writes
  unfoldable pub record_to_save : Envelope → ℕ → Os → Store → Result RecordError Record
  unfolding read_record_file path carry_over
  record_to_save env now os s = elim (new_record codec env now) [
    | err e ↦ err e
    | ok r ↦ elim (read_record_file codec os (path r.record_id) s) [
      | err _ ↦ ok r
      | ok old ↦ ok (carry_over old r)
    ]
  ]

  -- (*Store).Save, with the rounds for enforceLimitsLocked
  unfoldable pub save : ℕ → ℕ → Os → Envelope → Store → Option (Store × Result StoreError Record)
  unfolding record_to_save write_record_atomic log enforce_limits answer_save
  save rounds now os env s = elim (record_to_save env now os s) [
    | err e ↦ some (s, err (refused e))
    | ok r ↦
        let (t, written) = write_record_atomic codec os r s in
        elim written [
          | err e ↦ some (t, err e)
          | ok _ ↦ elim (enforce_limits rounds now os (log now (saved r) t)) [
            | none ↦ none
            | some after ↦ some (answer_save r after)
          ]
        ]
  ]

  -- (*Store).Due
  unfoldable pub due : ℕ → ℕ → Os → Store → Result StoreError (List Record)
  unfolding list_locked collect_due
  due now limit os s = elim (list_locked codec os s) [
    | err e ↦ err e
    | ok rs ↦ ok (collect_due now limit 0 rs)
  ]

  -- (*Store).MarkFailure
  unfoldable pub mark_failure :
      ℕ → Os → Text → Option Text → Option ℕ → Store → Store × Result StoreError Record
  unfolding read_record_file path failed write_record_atomic answer_save
  mark_failure now os record_id send_error draw s =
      elim (read_record_file codec os (path record_id) s) [
        | err e ↦ (s, err e)
        | ok r ↦
            answer_save (failed now send_error draw r)
              (write_record_atomic codec os (failed now send_error draw r) s)
      ]

  -- (*Store).Delete
  unfoldable pub delete : ℕ → Os → Text → Store → Store × Result StoreError (Unit {0})
  unfolding read_record_file path remove_file log deleted
  delete now os record_id s = elim (remove_file os (path record_id) s) [
    | err e ↦ (s, err e)
    | ok t ↦ (log now (deleted record_id (read_record_file codec os (path record_id) s)) t, ok tt)
  ]

  -- the loop body of Load for the entry of a name
  unfoldable pub load_entry : ℕ → Os → Text → Store → Store
  unfolding read_record_file remove_file rename log
  load_entry now os name s = elim (lookup name s.files) [
    | none ↦ s
    | some folder ↦ s
    | some (file _) ↦
        if has_suffix name tmp_suffix
        then elim (remove_file os name s) [ err _ ↦ s | ok t ↦ t ]
        else if not (has_suffix name json_suffix)
        then s
        else elim (read_record_file codec os name s) [
          | ok _ ↦ s
          | err _ ↦
              log now (corrupted name)
                (record s { files = rename name (name ++ codes ".bad") s.files })
        ]
  ]

  unfoldable pub load_entries : ℕ → Os → List Text → Store → Store
  unfolding load_entry
  load_entries now os [] s = s
  load_entries now os (name ∷ names) s = load_entries now os names (load_entry now os name s)

  -- (*Store).Load
  unfoldable pub load : ℕ → Os → Store → Store × Result StoreError (Unit {0})
  unfolding load_entries names_of
  load now os s =
      if not os.makeable
      then (s, err unmakeable_dir)
      else if not os.listable
      then (s, err unreadable_dir)
      else (load_entries now os (names_of s.files) s, ok tt)

  -- NewStore on a folder of some files
  unfoldable pub new_store :
      ℕ → Os → Text → ℕ → ℕ → Option Writer → Map Entry → Result StoreError Store
  unfolding load
  new_store now os dir max_records max_bytes audit files =
      if is_blank dir
      then err dir_required
      else let s : Store = record {
        max_records = if max_records == 0 then 100 else max_records;
        max_bytes = if max_bytes == 0 then 5 * 1024 * 1024 else max_bytes;
        audit = audit;
        files = files;
      } in
        let (t, loaded) = load now os s in elim loaded [ err e ↦ err e | ok _ ↦ ok t ]
