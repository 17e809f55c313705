-- ===== src/Commands/Dedupe/Window.antt =====
-- How long a reserved command id is refused.
use mgate_agent.Base.{
  ℕ, zero, suc, ◌+◌, ◌≤◌, ◌<◌, ◌≡◌, inl, inr, refl, ◌∙◌, Bool, true, false, not, some, List, [],
  ◌∷◌, arith, ltb, leb, ltb→lt, if◌then◌else◌, length, All, Bool-cases,
}
use mgate_agent.Base.Text.{Text, text_eq, text_eq→eq, text_eq_refl}
use mgate_agent.Base.Maps.{
  Map, lookup, insert, remove, keep, has_key, IsDistinct, remove-IsDistinct, insert-IsDistinct,
  lookup-insert, lookup-remove, lookup-keep,
}
use mgate_agent.Commands.Dedupe.{
  DedupeStore, expired, prune_locked, oldest, trim, trim_locked, reserve_in,
}
use mgate_agent.Commands.Dedupe.Invariant.{
  insert_trimmed-IsValid, prune_locked-IsValid, IsValid, oldest-IsOldest,
}

-- how many entries are as young as `t0`
unfoldable pub count_from : ℕ → Map ℕ → ℕ
count_from t0 [] = 0
count_from t0 ((k, t) ∷ m) = let n = count_from t0 m in if leb t0 t then n + 1 else n

count_from-le-length : (t0 : ℕ) (m : Map ℕ) → count_from t0 m ≤ length m
unfolding count_from
count_from-le-length t0 [] = omega arith
count_from-le-length t0 ((k, t) ∷ m) = ground (arith, count_from-le-length t0 m)

count_from-All : (t0 t : ℕ) (m : Map ℕ) → t0 ≤ t → All (λ e. t ≤ e.1) m → count_from t0 m ≡ length m
unfolding count_from
count_from-All t0 t [] h all = refl
count_from-All t0 t ((k, u) ∷ m) h all = ground (arith, all.0, count_from-All t0 t m h all.1)

count_from-remove : (t0 : ℕ) (k : Text) (m : Map ℕ) → count_from t0 (remove k m) ≤ count_from t0 m
unfolding count_from remove
count_from-remove t0 k [] = omega arith
count_from-remove t0 k ((j, t) ∷ m) = ground (arith, count_from-remove t0 k m)

count_from-keep : (t0 : ℕ) (p : ℕ → Bool) (m : Map ℕ) → count_from t0 (keep p m) ≤ count_from t0 m
unfolding count_from keep
count_from-keep t0 p [] = omega arith
count_from-keep t0 p ((j, t) ∷ m) = ground (arith, count_from-keep t0 p m)

count_from-insert :
    (t0 : ℕ) (k : Text) (t : ℕ) (m : Map ℕ) → count_from t0 (insert k t m) ≤ count_from t0 m + 1
unfolding count_from insert
count_from-insert t0 k t [] = ground arith
count_from-insert t0 k t ((j, u) ∷ m) = ground (arith, count_from-insert t0 k t m)

-- while few entries are as young, a full store gives up an older entry
module _ (t0 : ℕ) (id : Text) (at n : ℕ) (young : t0 ≤ at) where
  oldest_other :
      (m : Map ℕ)
      → IsDistinct m
      → lookup id m ≡ some at
      → count_from t0 m ≤ n
      → n < length m
      → text_eq (oldest m) id ≡ false
  oldest_other [] d here few big = absurd (omega arith)
  oldest_other ((k, t) ∷ m) d here few big =
      let (low, found, all) = oldest-IsOldest k t m d in
      elim (Bool-cases (text_eq (oldest ((k, t) ∷ m)) id)) [
        | inr e ↦ e
        | inl e ↦
            let same : low ≡ at = ground (arith, text_eq→eq (oldest ((k, t) ∷ m)) id e) in
            absurd (omega (arith, count_from-All t0 low ((k, t) ∷ m) (omega arith) all))
      ]

  trim_spares :
      (fuel : ℕ) (m : Map ℕ)
      → IsDistinct m
      → lookup id m ≡ some at
      → count_from t0 m ≤ n
      → (lookup id (trim fuel n m) ≡ some at) × (count_from t0 (trim fuel n m) ≤ count_from t0 m)
  unfolding trim
  trim_spares zero m d here few = (here, omega arith)
  trim_spares (suc fuel) m d here few = elim (Bool-cases (ltb n (length m))) [
    | inl e ↦
        let other = oldest_other m d here few (ltb→lt n (length m) e) in
        let (kept, fewer) =
          trim_spares fuel (remove (oldest m) m) (remove-IsDistinct (oldest m) m d)
            (ground (arith, lookup-remove (oldest m) id m))
            (omega (arith, count_from-remove t0 (oldest m) m)) in
        rw e (kept, omega (arith, count_from-remove t0 (oldest m) m))
    | inr e ↦ rw e (here, omega arith)
  ]

-- the entries of a store after Reserve added one: what is kept of an entry that was there
insert_trim_spares :
    (t0 : ℕ) (id : Text) (at : ℕ) (s : DedupeStore) (now : ℕ) (j : Text)
    → t0 ≤ at
    → IsDistinct s.seen
    → lookup id (insert j now s.seen) ≡ some at
    → count_from t0 s.seen + 1 ≤ s.max_entries
    → let s' = trim_locked (record s { seen = insert j now s.seen }) in
      (lookup id s'.seen ≡ some at) × (count_from t0 s'.seen ≤ count_from t0 s.seen + 1)
unfolding trim_locked
insert_trim_spares t0 id at s now j young d here few =
    let m : Map ℕ = insert j now s.seen in
    let (kept, fewer) =
      trim_spares t0 id at s.max_entries young (length m) m (insert-IsDistinct j now s.seen d) here
        (omega (arith, count_from-insert t0 j now s.seen)) in
    (kept, omega (arith, count_from-insert t0 j now s.seen))

-- an entry that is still within its lifetime survives pruning
prune_spares :
    (s : DedupeStore) (now : ℕ) (id : Text) (at : ℕ)
    → lookup id s.seen ≡ some at
    → now ≤ at + s.ttl
    → lookup id (prune_locked now s).seen ≡ some at
unfolding prune_locked
prune_spares s now id at here h =
    lookup-keep (λ t. not (expired s.ttl now t)) id s.seen at here (ground arith)

record Holds (t0 : ℕ) (id : Text) (s : DedupeStore) (ttl max_entries calls : ℕ) : Type 0 where
  valid : IsValid s
  lifetime : s.ttl ≡ ttl
  limit : s.max_entries ≡ max_entries
  here : lookup id s.seen ≡ some t0
  room : count_from t0 s.seen + calls ≤ max_entries

prune_locked-count :
    (t0 now : ℕ) (s : DedupeStore) → count_from t0 (prune_locked now s).seen ≤ count_from t0 s.seen
unfolding prune_locked
prune_locked-count t0 now s = count_from-keep t0 (λ t. not (expired s.ttl now t)) s.seen

prune_locked-limits :
    (now : ℕ) (s : DedupeStore)
    → ((prune_locked now s).ttl ≡ s.ttl) × ((prune_locked now s).max_entries ≡ s.max_entries)
unfolding prune_locked
prune_locked-limits now s = (refl, refl)

trim_locked-limits :
    (s : DedupeStore)
    → ((trim_locked s).ttl ≡ s.ttl) × ((trim_locked s).max_entries ≡ s.max_entries)
unfolding trim_locked
trim_locked-limits s = (refl, refl)

abbrev with_id : Text → ℕ → DedupeStore → DedupeStore
with_id j now p = trim_locked (record p { seen = insert j now p.seen })

-- the two outcomes of Reserve
reserve_in_refused :
    (now : ℕ) (j : Text) (s : DedupeStore)
    → has_key j (prune_locked now s).seen ≡ true
    → reserve_in now j s ≡ (prune_locked now s, false)
unfolding reserve_in
reserve_in_refused now j s e = rw e

reserve_in_granted :
    (now : ℕ) (j : Text) (s : DedupeStore)
    → has_key j (prune_locked now s).seen ≡ false
    → reserve_in now j s ≡ (with_id j now (prune_locked now s), true)
unfolding reserve_in
reserve_in_granted now j s e = rw e

-- an insertion of another id leaves the entry
absent_other :
    (j id : Text) (now : ℕ) (m : Map ℕ) (at : ℕ)
    → lookup id m ≡ some at
    → has_key j m ≡ false
    → lookup id (insert j now m) ≡ some at
absent_other j id now m at here absent = ground (arith, lookup-insert j id now m, text_eq→eq j id)

granted_absent :
    (now : ℕ) (id : Text) (s : DedupeStore)
    → (reserve_in now id s).1 ≡ true
    → has_key id (prune_locked now s).seen ≡ false
granted_absent now id s fresh = elim (Bool-cases (has_key id (prune_locked now s).seen)) [
  | inl e ↦ absurd (cc (reserve_in_refused now id s e))
  | inr e ↦ e
]

-- one more call, for whatever id
reserve_in-Holds :
    (t0 : ℕ) (id : Text) (s : DedupeStore) (ttl n calls now : ℕ) (j : Text)
    → now ≤ t0 + ttl
    → Holds t0 id s ttl n (suc calls)
    → Holds t0 id (reserve_in now j s).0 ttl n calls
reserve_in-Holds t0 id s ttl n calls now j h held =
    let p : DedupeStore = prune_locked now s in
    let kept : lookup id p.seen ≡ some t0 =
      prune_spares s now id t0 held.here (rw held.lifetime h) in
    let pv : IsValid p = prune_locked-IsValid now s held.valid in
    let (life, limit) = prune_locked-limits now s in
    let fewer : count_from t0 p.seen ≤ count_from t0 s.seen = prune_locked-count t0 now s in
    elim (Bool-cases (has_key j p.seen)) [
      | inl e ↦ rw (reserve_in_refused now j s e) (record {
        valid = pv;
        lifetime = life ∙ held.lifetime;
        limit = limit ∙ held.limit;
        here = kept;
        room = omega (arith, held.room);
      })
      | inr e ↦
          let (here, more) =
            insert_trim_spares t0 id t0 p now j (omega arith) pv.distinct
              (absent_other j id now p.seen t0 kept e) (omega (arith, held.room, held.limit)) in
          let (life', limit') = trim_locked-limits (record p { seen = insert j now p.seen }) in
          rw (reserve_in_granted now j s e) (record {
            valid = insert_trimmed-IsValid p j now pv;
            lifetime = life' ∙ life ∙ held.lifetime;
            limit = limit' ∙ limit ∙ held.limit;
            here = here;
            room = omega (arith, held.room);
          })
    ]

held_refused :
    (t0 : ℕ) (id : Text) (s : DedupeStore) (ttl n now : ℕ)
    → now ≤ t0 + ttl
    → Holds t0 id s ttl n 0
    → (reserve_in now id s).1 ≡ false
held_refused t0 id s ttl n now h held =
    let kept = prune_spares s now id t0 held.here (rw held.lifetime h) in
    rw (reserve_in_refused now id s (rw kept))

-- Reserve for each call in turn
unfoldable pub reserves : List (ℕ × Text) → DedupeStore → DedupeStore
reserves [] s = s
reserves ((now, id) ∷ calls) s = reserves calls (reserve_in now id s).0

reserves-Holds :
    (t0 : ℕ) (id : Text) (calls : List (ℕ × Text)) (s : DedupeStore) (ttl n : ℕ)
    → All (λ c. c.0 ≤ t0 + ttl) calls
    → Holds t0 id s ttl n (length calls)
    → Holds t0 id (reserves calls s) ttl n 0
unfolding reserves
reserves-Holds t0 id [] s ttl n early held = held
reserves-Holds t0 id ((now, j) ∷ calls) s ttl n early held =
    reserves-Holds t0 id calls (reserve_in now j s).0 ttl n early.1
      (reserve_in-Holds t0 id s ttl n (length calls) now j early.0 held)

-- After Reserve let a command id through at t0, Reserve refuses the same id whenever it is asked
-- up to the lifetime later, whatever ids other calls reserved in between; provided that those calls
-- and the entries that were already as young as t0 are fewer than the store holds.
pub reserves_refuse :
    (s : DedupeStore) (t0 now : ℕ) (id : Text) (calls : List (ℕ × Text))
    → IsValid s
    → (reserve_in t0 id s).1 ≡ true
    → All (λ c. c.0 ≤ t0 + s.ttl) calls
    → now ≤ t0 + s.ttl
    → count_from t0 s.seen + length calls < s.max_entries
    → (reserve_in now id (reserves calls (reserve_in t0 id s).0)).1 ≡ false
reserves_refuse s t0 now id calls v fresh early soon room =
    let p : DedupeStore = prune_locked t0 s in
    let pv : IsValid p = prune_locked-IsValid t0 s v in
    let (life, limit) = prune_locked-limits t0 s in
    let fewer : count_from t0 p.seen ≤ count_from t0 s.seen = prune_locked-count t0 t0 s in
    let absent : has_key id p.seen ≡ false = granted_absent t0 id s fresh in
    let (here, more) =
      insert_trim_spares t0 id t0 p t0 id (omega arith) pv.distinct
        (rw (lookup-insert, text_eq_refl id)) (omega (arith, limit)) in
    let (life', limit') = trim_locked-limits (record p { seen = insert id t0 p.seen }) in
    let held : Holds t0 id (reserve_in t0 id s).0 s.ttl s.max_entries (length calls) =
      rw (reserve_in_granted t0 id s absent) (record {
        valid = insert_trimmed-IsValid p id t0 pv;
        lifetime = life' ∙ life;
        limit = limit' ∙ limit;
        here = here;
        room = omega arith;
      }) in
    let last = reserves-Holds t0 id calls (reserve_in t0 id s).0 s.ttl s.max_entries early held in
    held_refused t0 id (reserves calls (reserve_in t0 id s).0) s.ttl s.max_entries now soon last
