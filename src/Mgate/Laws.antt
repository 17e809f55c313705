-- ===== src/Mgate/Laws.antt =====
-- internal/mgate/client.go: what a summary can hold.
use mgate_agent.Base.{
  ℕ, ◌&&◌, if◌then◌else◌, ◌≡◌, ◌≢◌, ◌⊎◌, inl, inr, refl, sym, subst, Bool, true, false, not, Option,
  none, some, List, [], ◌∷◌, All, Result, ok, err, Option-cases, Bool-cases, arith,
}
use mgate_agent.Base.Int.{ℤ, pos, negsuc}
use mgate_agent.Base.Text.{Text, codes}
use mgate_agent.Protocol.Json.{
  Value, Fields, null, boolean, number, string, array, object, get_field,
}
use mgate_agent.Audit.Redact.{redact_fields}
use mgate_agent.Audit.Redact.Values.{clean_fields, redact_fields-clean}
use mgate_agent.Mgate.{
  Code, no_code, MgateStatusSummary, Client, Outside, object_field, schema_version, is_supported,
  summary_from_snapshot, read_json, run_json, snapshot, summary, unavailable_summary,
  ensure_executable, Run, printed, expired, broken, Stat, missing, unavailable, info,
  mgate_not_executable, mgate_exec_failed, no_execute_bit, snapshot_timeout, snapshot_invalid_json,
  snapshot_unsupported_schema,
}

-- the objects of a summary
abbrev pub objects : MgateStatusSummary → List (Option Fields)
objects s = s.wifi ∷ s.ap ∷ s.gateway ∷ s.tproxy ∷ s.mihomo ∷ s.subscription ∷ s.web ∷ []

-- no key in the object is sensitive but that its value is hidden
abbrev pub IsClean : Option Fields → Type 0
IsClean none = Unit
IsClean (some fs) = clean_fields fs ≡ true

object_field-IsClean : (s : Fields) (key : Text) → IsClean (object_field s key)
unfolding object_field
object_field-IsClean s key = hidden (get_field key s)
  where
    hidden :
        (v : Option Value)
        → IsClean (elim v as (λ _. Option Fields) [
          | some (object fs) ↦ some (redact_fields fs)
          | _ ↦ none
        ])
    hidden none = tt
    hidden (some (object fs)) = redact_fields-clean fs
    hidden (some null) = tt
    hidden (some (boolean b)) = tt
    hidden (some (number n)) = tt
    hidden (some (string s)) = tt
    hidden (some (array xs)) = tt

-- a summary with a code of an error and nothing else
abbrev pub IsFailure : MgateStatusSummary → Type 0
IsFailure s = (e : Code) × (e ≢ no_code) × (s ≡ unavailable_summary e)

-- the text is one object of the supported schema, and nothing after it
abbrev pub IsPrinted : Outside → Text → Fields → Type 0
IsPrinted o data' payload =
    (rest : Text) × (o.decode_first data' ≡ some (payload, rest))
    × (o.at_end rest ≡ true)
    × (schema_version o.int64 payload ≡ pos 1)

-- the program of the path may run, and it prints one object of the supported schema for a command
abbrev pub Prints : Outside → Client → Text → ℕ → Fields → Type 0
Prints o c command limit payload =
    (ensure_executable o.on_windows (o.stat c.path) ≡ ok tt)
    × (data' : Text) × (o.exec c.path (command ∷ []) limit ≡ printed data')
    × IsPrinted o data' payload

-- the summary of a snapshot that the program printed
abbrev pub IsReport : Outside → Client → MgateStatusSummary → Type 0
IsReport o c s =
    (payload : Fields) × Prints o c (codes "agent-snapshot") c.snapshot_timeout payload
    × (s ≡ summary_from_snapshot o.int64 payload)

supported_is_one : (v : ℤ) → is_supported v ≡ true → v ≡ pos 1
unfolding is_supported
supported_is_one (pos n) h = ground arith
supported_is_one (negsuc n) h = cc

-- what runJSON gives: a code that is not empty, or an object
abbrev Answered : (Fields → Type 0) → Result Code Fields → Type 0
Answered P (err e) = e ≢ no_code
Answered P (ok s) = P s

read_json-IsPrinted :
    (o : Outside) (data' : Text) (invalid_code schema_code : Code)
    → invalid_code ≢ no_code
    → schema_code ≢ no_code
    → Answered (IsPrinted o data') (read_json o data' invalid_code schema_code)
unfolding read_json
read_json-IsPrinted o data' i c hi hc = elim (Option-cases (o.decode_first data')) [
  | inl e ↦ answered (err i) (rw (read_json, e) refl) hi
  | inr ((payload, rest), e) ↦ elim (Bool-cases (o.at_end rest)) [
    | inr f ↦ answered (err i) (rw (read_json, e, f) refl) hi
    | inl f ↦ elim (Bool-cases (is_supported (schema_version o.int64 payload))) [
      | inr g ↦ answered (err c) (rw (read_json, e, f, g) refl) hc
      | inl g ↦
          answered (ok payload) (rw (read_json, e, f, g) refl)
            (rest, e, f, supported_is_one (schema_version o.int64 payload) g)
    ]
  ]
]
  where
    answered :
        (r : Result Code Fields)
        → read_json o data' i c ≡ r
        → Answered (IsPrinted o data') r
        → Answered (IsPrinted o data') (read_json o data' i c)
    answered r e h = subst (Answered (IsPrinted o data')) (sym e) h

-- a path that is refused has a code
Refused : Result Code (Unit {0}) → Type 0
Refused (err e) = e ≢ no_code
Refused (ok _) = Unit

ensure_executable-Refused : (w : Bool) (s : Stat) → Refused (ensure_executable w s)
unfolding ensure_executable Refused
ensure_executable-Refused w missing = λ e. cc
ensure_executable-Refused w unavailable = λ e. cc
ensure_executable-Refused w (info true mode) = λ e. cc
ensure_executable-Refused w (info false mode) = checked (not w && no_execute_bit mode)
  where
    checked : (b : Bool) → Refused (if b then err mgate_not_executable else ok tt)
    checked true = λ e. cc
    checked false = tt

-- each end of a run has a code, or an object that the program printed
run_json-Prints :
    (o : Outside) (c : Client) (command : Text) (limit : ℕ) (t i s : Code)
    → t ≢ no_code
    → i ≢ no_code
    → s ≢ no_code
    → Answered (Prints o c command limit) (run_json o c command limit t i s)
unfolding run_json Refused
run_json-Prints o c command limit t i s ht hi hs =
    started (ensure_executable o.on_windows (o.stat c.path)) refl
      (ensure_executable-Refused o.on_windows (o.stat c.path)) (o.exec c.path (command ∷ []) limit)
      refl
  where
    started :
        (r : Result Code (Unit {0}))
        → ensure_executable o.on_windows (o.stat c.path) ≡ r
        → Refused r
        → (run : Run) → o.exec c.path (command ∷ []) limit ≡ run
        → Answered (Prints o c command limit) (elim r [
          | err e ↦ err e
          | ok _ ↦ elim run [
            | expired ↦ err t
            | broken ↦ err mgate_exec_failed
            | printed data' ↦ read_json o data' i s
          ]
        ])
    started (err e) q h run p = h
    started (ok _) q h expired p = ht
    started (ok _) q h broken p = λ e. cc
    started (ok _) q h (printed data') p =
        whole (read_json o data' i s) (read_json-IsPrinted o data' i s hi hs)
      where
        whole :
            (r : Result Code Fields)
            → Answered (IsPrinted o data') r
            → Answered (Prints o c command limit) r
        whole (err e) h = h
        whole (ok payload) h = (q, data', p, h)

-- Every object in a summary is redacted, and the summary is either the one that names an error
-- and says nothing else, or that of the one object of the supported schema that the executable
-- program of the path has printed, with nothing after it, for agent-snapshot within its time limit.
pub summary-IsReport :
    (o : Outside) (c : Client)
    → All IsClean (objects (summary o c)) × (IsFailure (summary o c) ⊎ IsReport o c (summary o c))
unfolding summary snapshot
summary-IsReport o c = reported (snapshot o c) (
    run_json-Prints o c (codes "agent-snapshot") c.snapshot_timeout snapshot_timeout
      snapshot_invalid_json snapshot_unsupported_schema (λ e. cc) (λ e. cc) (λ e. cc))
  where
    reported :
        (r : Result Code Fields)
        → Answered (Prints o c (codes "agent-snapshot") c.snapshot_timeout) r
        → let s = elim r as (λ _. MgateStatusSummary) [
          | err e ↦ unavailable_summary e
          | ok s ↦ summary_from_snapshot o.int64 s
        ] in
          All IsClean (objects s) × (IsFailure s ⊎ IsReport o c s)
    reported (err e) h = ((tt, (tt, (tt, (tt, (tt, (tt, (tt, tt))))))), inl (e, h, refl))
    reported (ok s) h = (
      (
        seen (codes "wifi"),
        (
          seen (codes "ap"),
          (
            seen (codes "gateway"),
            (
              seen (codes "tproxy"),
              (seen (codes "mihomo"), (seen (codes "subscription"), (seen (codes "web"), tt))),
            ),
          ),
        ),
      ),
      inr (s, h, refl),
    )
      where
        seen : (key : Text) → IsClean (object_field s key)
        seen key = object_field-IsClean s key
