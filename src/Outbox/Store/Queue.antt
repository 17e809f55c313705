-- ===== src/Outbox/Store/Queue.antt =====
-- internal/outbox/store.go: the records that are due, and their order.
use mgate_agent.Base.{
  ℕ, zero, suc, ◌+◌, ◌≤◌, ◌≡◌, refl, inl, inr, List, [], ◌∷◌, ◌==◌, ltb, if◌then◌else◌, arith,
  Bool-cases, take, filter, All,
}
use mathlib.Core.List.{Perm}
use mathlib.Core.List.Perm
use mgate_agent.Outbox.{Record}
use mgate_agent.Outbox.Store.{insert_by_creation, sort_by_creation}
use mgate_agent.Outbox.Store.Operations.{is_due, collect_due}

unlimited : (now found : ℕ) (rs : List Record) → collect_due now 0 found rs ≡ filter (is_due now) rs
unfolding collect_due filter
unlimited now found [] = refl
unlimited now found (r ∷ rs) = ground (arith, unlimited now (suc found) rs, unlimited now found rs)

limited :
    (now limit left found : ℕ) (rs : List Record)
    → limit ≡ suc left + found
    → collect_due now limit found rs ≡ take (suc left) (filter (is_due now) rs)
unfolding collect_due filter take
limited now limit left found [] h = refl
limited now limit zero found (r ∷ rs) h = ground (arith, limited now limit zero found rs h)
limited now limit (suc left) found (r ∷ rs) h = ground (
  arith,
  limited now limit left (suc found) rs (omega arith),
  limited now limit (suc left) found rs h,
)

-- Due answers the first records of the list whose next attempt is not in the future, as many as the
-- limit allows, and all of them without a limit.
pub collect_due-eq-take :
    (now limit : ℕ) (rs : List Record)
    → collect_due now limit 0 rs
      ≡ (if limit == 0 then filter (is_due now) rs else take limit (filter (is_due now) rs))
collect_due-eq-take now zero rs = ground (arith, unlimited now 0 rs)
collect_due-eq-take now (suc n) rs = ground (arith, limited now (suc n) n 0 rs (omega arith))

-- each record was created at the latest when the ones after it were
abbrev pub IsByCreation : List Record → Type 0
IsByCreation [] = Unit
IsByCreation (r ∷ rs) = All (λ q. r.created_at ≤ q.created_at) rs × IsByCreation rs

insert_by_creation-Perm : (r : Record) (rs : List Record) → Perm (insert_by_creation r rs) (r ∷ rs)
unfolding insert_by_creation
insert_by_creation-Perm r [] = Perm.refl (r ∷ [])
insert_by_creation-Perm r (q ∷ rs) = elim (Bool-cases (ltb q.created_at r.created_at)) [
  | inl e ↦ rw e (Perm.trans (Perm.cons q (insert_by_creation-Perm r rs)) (Perm.swap r q rs))
  | inr e ↦ rw e (Perm.refl (r ∷ q ∷ rs))
]

insert_by_creation-All :
    (n : ℕ) (r : Record) (rs : List Record)
    → n ≤ r.created_at
    → All (λ q. n ≤ q.created_at) rs
    → All (λ q. n ≤ q.created_at) (insert_by_creation r rs)
unfolding insert_by_creation
insert_by_creation-All n r [] h a = (h, tt)
insert_by_creation-All n r (q ∷ rs) h (b, a) = elim (Bool-cases (ltb q.created_at r.created_at)) [
  | inl e ↦ rw e (b, insert_by_creation-All n r rs h a)
  | inr e ↦ rw e (h, (b, a))
]

All-le :
    (m n : ℕ) (rs : List Record)
    → m ≤ n
    → All (λ q. n ≤ q.created_at) rs
    → All (λ q. m ≤ q.created_at) rs
All-le m n [] h a = tt
All-le m n (r ∷ rs) h (b, a) = (omega arith, All-le m n rs h a)

insert_by_creation-IsByCreation :
    (r : Record) (rs : List Record) → IsByCreation rs → IsByCreation (insert_by_creation r rs)
unfolding insert_by_creation
insert_by_creation-IsByCreation r [] s = (tt, tt)
insert_by_creation-IsByCreation r (q ∷ rs) (a, s) =
    elim (Bool-cases (ltb q.created_at r.created_at)) [
      | inl e ↦ rw e (
        insert_by_creation-All q.created_at r rs (ground arith) a,
        insert_by_creation-IsByCreation r rs s,
      )
      | inr e ↦
          let first : r.created_at ≤ q.created_at = ground arith in
          rw e ((first, All-le r.created_at q.created_at rs first a), (a, s))
    ]

-- The list of the outbox is in the order of creation and has the records it was made of, each as
-- many times.
pub sort_by_creation-IsByCreation :
    (rs : List Record) → IsByCreation (sort_by_creation rs) × Perm (sort_by_creation rs) rs
unfolding sort_by_creation
sort_by_creation-IsByCreation [] = (tt, Perm.refl [])
sort_by_creation-IsByCreation (r ∷ rs) =
    let (sorted, perm) = sort_by_creation-IsByCreation rs in
    (
      insert_by_creation-IsByCreation r (sort_by_creation rs) sorted,
      Perm.trans (insert_by_creation-Perm r (sort_by_creation rs)) (Perm.cons r perm),
    )
