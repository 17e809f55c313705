-- ===== src/Commands/Dedupe/Invariant.antt =====
-- The size of the dedupe store, and which entry a full store gives up.
use mgate_agent.Base.{
  ℕ, zero, suc, ◌≤◌, ◌<◌, ◌≡◌, inl, inr, refl, sym, subst, true, false, not, none, some, [], ◌∷◌,
  arith, ltb→lt, ltb, length, All, Bool-cases,
}
use mgate_agent.Base.Text.{Text, text_eq_iff, text_eq_refl}
use mgate_agent.Base.Maps.{
  Map, lookup, insert, remove, has_key, IsDistinct, remove-IsDistinct, insert-IsDistinct,
  keep-IsDistinct, length-keep-le, length-remove-lt,
}
use mgate_agent.Commands.Dedupe.{
  DedupeStore, expired, prune_locked, oldest_from, oldest, trim, trim_locked, reserve_in,
  new_dedupe_store,
}

pub record IsValid (s : DedupeStore) : Type 0 where
  pub roomy : 0 < s.max_entries
  pub lasting : 0 < s.ttl
  pub distinct : IsDistinct s.seen
  pub bounded : length s.seen ≤ s.max_entries

-- the entry that the scan ends with: where it stands, and that no entry is older
abbrev pub IsOldest : Text → Map ℕ → Type 0
IsOldest id m = (at : ℕ) × (lookup id m ≡ some at) × All (λ e. at ≤ e.1) m

-- an older bound serves as well
All-le : (a b : ℕ) (m : Map ℕ) → a ≤ b → All (λ e. b ≤ e.1) m → All (λ e. a ≤ e.1) m
All-le a b [] h all = tt
All-le a b ((k, t) ∷ m) h all = (omega arith, All-le a b m h all.1)

oldest_from_younger :
    (id : Text) (at : ℕ) (k : Text) (t : ℕ) (m : Map ℕ)
    → ltb t at ≡ true
    → oldest_from id at ((k, t) ∷ m) ≡ oldest_from k t m
unfolding oldest_from
oldest_from_younger id at k t m e = rw e

oldest_from_older :
    (id : Text) (at : ℕ) (k : Text) (t : ℕ) (m : Map ℕ)
    → ltb t at ≡ false
    → oldest_from id at ((k, t) ∷ m) ≡ oldest_from id at m
unfolding oldest_from
oldest_from_older id at k t m e = rw e

oldest_from-nil : (id : Text) (at : ℕ) → oldest_from id at [] ≡ id
unfolding oldest_from
oldest_from-nil id at = refl

oldest_from-IsOldest :
    (id : Text) (at : ℕ) (m : Map ℕ)
    → IsDistinct m
    → lookup id m ≡ none
    → IsOldest (oldest_from id at m) ((id, at) ∷ m)
unfolding lookup
oldest_from-IsOldest id at [] d fresh =
    (at, rw (oldest_from-nil id at, text_eq_refl id), (omega arith, tt))
oldest_from-IsOldest id at ((k, t) ∷ m) d fresh = elim (Bool-cases (ltb t at)) [
  | inl e ↦
      let (x, found, (low, all)) = oldest_from-IsOldest k t m d.1 d.0 in
      subst (λ r. IsOldest r ((id, at) ∷ (k, t) ∷ m)) (sym (oldest_from_younger id at k t m e))
        (x, ground (arith, text_eq_iff id (oldest_from k t m)), (ground arith, (low, all)))
  | inr e ↦
      let (x, found, (low, all)) = oldest_from-IsOldest id at m d.1 (ground arith) in
      subst (λ r. IsOldest r ((id, at) ∷ (k, t) ∷ m)) (sym (oldest_from_older id at k t m e))
        (
          x,
          ground (arith, text_eq_iff id (oldest_from id at m), text_eq_iff k (oldest_from id at m)),
          (low, (ground arith, all)),
        )
]

-- The scan of trimLocked ends at an entry that is there, and no entry is older.
pub oldest-IsOldest :
    (k : Text) (t : ℕ) (m : Map ℕ)
    → IsDistinct ((k, t) ∷ m)
    → IsOldest (oldest ((k, t) ∷ m)) ((k, t) ∷ m)
unfolding oldest
oldest-IsOldest k t m d = oldest_from-IsOldest k t m d.1 d.0

-- a round of the loop removes an entry
pub remove-oldest-lt :
    (m : Map ℕ) (n : ℕ) → IsDistinct m → n < length m → length (remove (oldest m) m) < length m
remove-oldest-lt [] n d h = absurd (omega arith)
remove-oldest-lt ((k, t) ∷ m) n d h =
    let (at, found, all) = oldest-IsOldest k t m d in
    length-remove-lt (oldest ((k, t) ∷ m)) ((k, t) ∷ m) at found

-- The loop of trimLocked ends with at most the allowed number of entries: as many rounds as there
-- are entries are enough.
trim_bounded :
    (fuel n : ℕ) (m : Map ℕ) → IsDistinct m → length m ≤ fuel → length (trim fuel n m) ≤ n
unfolding trim
trim_bounded zero n m d h = omega arith
trim_bounded (suc fuel) n m d h = elim (Bool-cases (ltb n (length m))) [
  | inl e ↦ rw e (
      trim_bounded fuel n (remove (oldest m) m) (remove-IsDistinct (oldest m) m d)
        (omega (arith, remove-oldest-lt m n d (ltb→lt n (length m) e))))
  | inr e ↦ rw e (ground arith)
]

pub trim-IsDistinct : (fuel n : ℕ) (m : Map ℕ) → IsDistinct m → IsDistinct (trim fuel n m)
unfolding trim
trim-IsDistinct zero n m d = d
trim-IsDistinct (suc fuel) n m d = elim (Bool-cases (ltb n (length m))) [
  | inl e ↦ rw e (trim-IsDistinct fuel n (remove (oldest m) m) (remove-IsDistinct (oldest m) m d))
  | inr e ↦ rw e d
]

-- pruning keeps the invariant
pub prune_locked-IsValid : (now : ℕ) (s : DedupeStore) → IsValid s → IsValid (prune_locked now s)
unfolding prune_locked
prune_locked-IsValid now s v = record {
  roomy = v.roomy;
  lasting = v.lasting;
  distinct = keep-IsDistinct _ s.seen v.distinct;
  bounded = omega (arith, length-keep-le {0} (λ at. not (expired s.ttl now at)) s.seen, v.bounded);
}

pub insert_trimmed-IsValid :
    (s : DedupeStore) (id : Text) (now : ℕ)
    → IsValid s
    → IsValid (trim_locked (record s { seen = insert id now s.seen }))
unfolding trim_locked
insert_trimmed-IsValid s id now v =
    let m : Map ℕ = insert id now s.seen in
    let d : IsDistinct m = insert-IsDistinct id now s.seen v.distinct in
    record {
      roomy = v.roomy;
      lasting = v.lasting;
      distinct = trim-IsDistinct (length m) s.max_entries m d;
      bounded = trim_bounded (length m) s.max_entries m d (omega arith);
    }

-- Reserve on a store with a positive lifetime and limit keeps these, the keys distinct and the number
-- of entries within the limit, whatever the clock shows.
pub reserve_in-IsValid :
    (now : ℕ) (id : Text) (s : DedupeStore) → IsValid s → IsValid (reserve_in now id s).0
unfolding reserve_in
reserve_in-IsValid now id s v = elim (Bool-cases (has_key id (prune_locked now s).seen)) [
  | inl e ↦ rw e (prune_locked-IsValid now s v)
  | inr e ↦ rw e (insert_trimmed-IsValid (prune_locked now s) id now (prune_locked-IsValid now s v))
]

pub new_dedupe_store-IsValid : (ttl n : ℕ) → IsValid (new_dedupe_store ttl n)
unfolding new_dedupe_store
new_dedupe_store-IsValid ttl n = record {
  roomy = ground arith;
  lasting = ground arith;
  distinct = tt;
  bounded = omega arith;
}
