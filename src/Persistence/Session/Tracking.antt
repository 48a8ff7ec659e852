-- ===== src/Persistence/Session/Tracking.antt =====
-- What internal/persistence/session_snapshot.go tracks between its passes.
use grex.Base.{
  ℕ, ◌+◌, Bool, true, List, [], ◌∷◌, map, Option, none, some, Str, Assoc, lookup, keep, ◌≡◌, In,
  inl, inr, arith, lookup-insert, str_eq_iff, ◌⊎◌, Distinct, sym, Absent, lookup-Absent, Bool-cases,
  insert-Distinct, ◌≤◌,
}
use grex.Fleet.Types.{Agent}
use grex.Persistence.Session.{
  SessionWrite, SessionSnapshotter, due, due_loop, see, seen_in, record_written,
}

abbrev pub ids : List Agent → List Str
ids = map (λ a. a.instance_uid)

see-lookup :
    (gen : ℕ) (k id : Str) (o : Option SessionWrite) (written : Assoc SessionWrite)
    (w : SessionWrite)
    → lookup id (see gen k o written) ≡ some w
    → (lookup id written ≡ some w) ⊎ (k ≡ id)
see-lookup gen k id none written w h = inl h
see-lookup gen k id (some v) written w h =
    ground (arith, lookup-insert k id (record v { gen = gen }) written, str_eq_iff k id)

due_loop-tracked :
    (keepalive now gen : ℕ) (agents : List Agent) (written : Assoc SessionWrite)
    → (id : Str) (w : SessionWrite)
    → lookup id (due_loop keepalive now gen agents written).0 ≡ some w
    → (lookup id written ≡ some w) ⊎ In id (ids agents)
unfolding due_loop
due_loop-tracked keepalive now gen [] written id w h = inl h
due_loop-tracked keepalive now gen (a ∷ rest) written id w h =
    elim (due_loop-tracked keepalive now gen rest
      (see gen a.instance_uid (lookup a.instance_uid written) written) id w h) [
        | inr r ↦ inr (inr r)
        | inl l ↦
            elim (see-lookup gen a.instance_uid id (lookup a.instance_uid written) written w l) [
              | inl o ↦ inl o
              | inr e ↦ inr (inl (sym e))
            ]
      ]

-- What a filter keeps of a map in which each key is once.
pub lookup-keep :
    (p : Str × SessionWrite → Bool) (m : Assoc SessionWrite) (id : Str) (w : SessionWrite)
    → Distinct m
    → lookup id (keep p m) ≡ some w
    → (lookup id m ≡ some w) × (p (id, w) ≡ true)
unfolding lookup
lookup-keep p [] id w d h = absurd (cc)
lookup-keep p ((k, v) ∷ m) id w d h = elim (Bool-cases (p (k, v))) [
  | inl p_true ↦ ground (arith, str_eq_iff k id, lookup-keep p m id w d.1)
  | inr p_false ↦
      let rest = lookup-keep p m id w d.1 in
      ground (arith, str_eq_iff k id, rest, lookup-Absent k m d.0)
]

see-Distinct :
    (gen : ℕ) (k : Str) (o : Option SessionWrite) (written : Assoc SessionWrite)
    → Distinct written
    → Distinct (see gen k o written)
see-Distinct gen k none written d = d
see-Distinct gen k (some w) written d = insert-Distinct k (record w { gen = gen }) written d

pub due_loop-Distinct :
    (keepalive now gen : ℕ) (agents : List Agent) (written : Assoc SessionWrite)
    → Distinct written
    → Distinct (due_loop keepalive now gen agents written).0
unfolding due_loop
due_loop-Distinct keepalive now gen [] written d = d
due_loop-Distinct keepalive now gen (a ∷ rest) written d =
    due_loop-Distinct keepalive now gen rest
      (see gen a.instance_uid (lookup a.instance_uid written) written)
      (see-Distinct gen a.instance_uid (lookup a.instance_uid written) written d)

Absent-keep :
    (p : Str × SessionWrite → Bool) (k : Str) (m : Assoc SessionWrite)
    → Absent k m
    → Absent k (keep p m)
Absent-keep p k [] h = tt
Absent-keep p k ((j, w) ∷ m) h = elim (Bool-cases (p (j, w))) [
  | inl kept ↦ rw kept (h.0, Absent-keep p k m h.1)
  | inr dropped ↦ rw dropped (Absent-keep p k m h.1)
]

Distinct-keep :
    (p : Str × SessionWrite → Bool) (m : Assoc SessionWrite) → Distinct m → Distinct (keep p m)
Distinct-keep p [] d = tt
Distinct-keep p ((k, w) ∷ m) d = elim (Bool-cases (p (k, w))) [
  | inl kept ↦ rw kept (Absent-keep p k m d.0, Distinct-keep p m d.1)
  | inr dropped ↦ rw dropped (Distinct-keep p m d.1)
]

-- Each id is tracked once, and no entry is of a pass to come.
pub record IsTracking (s : SessionSnapshotter) : Type 0 where
  pub once : Distinct s.written
  pub past : (id : Str) (w : SessionWrite) → lookup id s.written ≡ some w → w.gen ≤ s.gen

module _ (s : SessionSnapshotter) (agents : List Agent) (now : ℕ) (ok : IsTracking s) where
  abbrev passed : Assoc SessionWrite
  passed = (due_loop s.keepalive now (s.gen + 1) agents s.written).0

  passed-Distinct : Distinct passed
  passed-Distinct = due_loop-Distinct s.keepalive now (s.gen + 1) agents s.written ok.once

  -- The selection of the due agents keeps the tracking map well-formed.
  pub due-IsTracking : IsTracking (due s agents now).0
  unfolding due
  due-IsTracking = record {
    once = Distinct-keep (seen_in (s.gen + 1)) passed passed-Distinct;
    past =
        λ id w h. ground (arith, lookup-keep (seen_in (s.gen + 1)) passed id w passed-Distinct h);
  }

  -- After the selection of the due agents, every agent that a well-formed tracking map still has
  -- an entry for is listed by the registry.
  pub due-listed :
      (id : Str) (w : SessionWrite)
      → lookup id (due s agents now).0.written ≡ some w
      → In id (ids agents)
  unfolding due
  due-listed id w h =
      let (there, now_seen) = lookup-keep (seen_in (s.gen + 1)) passed id w passed-Distinct h in
      elim (due_loop-tracked s.keepalive now (s.gen + 1) agents s.written id w there) [
        | inl before ↦ ground (arith, ok.past id w before, now_seen)
        | inr here ↦ here
      ]

-- A recorded write keeps the tracking map well-formed.
pub record_written-IsTracking :
    (s : SessionSnapshotter) (a : Agent) → IsTracking s → IsTracking (record_written s a)
unfolding record_written
record_written-IsTracking s a ok = record {
  once =
      insert-Distinct a.instance_uid (record { last_seen = a.last_seen; gen = s.gen }) s.written
        ok.once;
  past = λ id w h. ground (
    arith,
    lookup-insert a.instance_uid id (record { last_seen = a.last_seen; gen = s.gen }) s.written,
    ok.past id w,
  );
}
