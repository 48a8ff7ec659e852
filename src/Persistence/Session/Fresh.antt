-- ===== src/Persistence/Session/Fresh.antt =====
-- The session rows behind the writes that internal/persistence/session_snapshot.go tracks.
use grex.Base.{
  ℕ, ◌≤◌, ◌≡◌, refl, Bool-cases, false, List, [], ◌∷◌, Option, none, some, Str, str_eq, Assoc,
  lookup, insert, lookup-insert, str_eq_iff, In, inl, inr, ◌⊎◌, arith, str_eq→eq, str_eq_refl,
  if◌then◌else◌, sym,
}
use grex.Fleet.Types.{Agent}
use grex.Persistence.Store.{Tables, SessionRow, upsert_session, micros}
use grex.Persistence.Session.{
  SessionWrite, SessionSnapshotter, is_due, see, due_loop, record_written,
}

-- The agent has a session row of the microsecond of this time or later.
abbrev pub HasRow : Tables → Str → ℕ → Type 0
HasRow t id time =
    (row : SessionRow) × (lookup id t.sessions ≡ some row) × (micros time ≤ row.updated_at)

-- Every tracked write has its row.
abbrev pub IsBacked : Assoc SessionWrite → Tables → Type 0
IsBacked written t =
    (id : Str) (w : SessionWrite) → lookup id written ≡ some w → HasRow t id w.last_seen

-- The entry of the agent at the time of some write.
abbrev Tracks : Assoc SessionWrite → Str → ℕ → Type 0
Tracks written id time = (w : SessionWrite) × (lookup id written ≡ some w) × (w.last_seen ≡ time)

see-Tracks :
    (gen : ℕ) (k id : Str) (written : Assoc SessionWrite) (w : SessionWrite)
    → lookup id (see gen k (lookup k written) written) ≡ some w
    → Tracks written id w.last_seen
see-Tracks gen k id written w h = go (lookup k written) refl h
  where
    go :
        (o : Option SessionWrite)
        → lookup k written ≡ o
        → lookup id (see gen k o written) ≡ some w
        → Tracks written id w.last_seen
    go none e h = (w, h, refl)
    go (some v) e h = elim (Bool-cases (str_eq k id)) [
      | inl same ↦ (
        v,
        ground (arith, e, same, str_eq_iff k id),
        ground (arith, h, same, lookup-insert k id (record v { gen = gen }) written),
      )
      | inr other ↦
          (w, ground (arith, h, other, lookup-insert k id (record v { gen = gen }) written), refl)
    ]

pub due_loop-Tracks :
    (keepalive now gen : ℕ) (agents : List Agent) (written : Assoc SessionWrite) (id : Str)
    (w : SessionWrite)
    → lookup id (due_loop keepalive now gen agents written).0 ≡ some w
    → Tracks written id w.last_seen
unfolding due_loop
due_loop-Tracks keepalive now gen [] written id w h = (w, h, refl)
due_loop-Tracks keepalive now gen (a ∷ rest) written id w h =
    let (v, there, at) =
      due_loop-Tracks keepalive now gen rest
        (see gen a.instance_uid (lookup a.instance_uid written) written) id w h in
    rw at at (see-Tracks gen a.instance_uid id written v there)

-- An agent that the pass sees is due, or has a write that is not.
pub due_loop-In :
    (keepalive now gen : ℕ) (agents : List Agent) (written : Assoc SessionWrite) (a : Agent)
    → In a agents
    → In a (due_loop keepalive now gen agents written).1
      ⊎ ((w : SessionWrite) × (lookup a.instance_uid written ≡ some w)
          × (is_due keepalive now (some w) ≡ false))
unfolding due_loop
due_loop-In keepalive now gen [] written a h = absurd h
due_loop-In keepalive now gen (b ∷ rest) written a (inl is) =
    elim (Bool-cases (is_due keepalive now (lookup b.instance_uid written))) [
      | inl ready ↦ inl (rw ready (inl is))
      | inr not_due ↦ inr (tracked (lookup b.instance_uid written) (rw is refl) not_due)
    ]
  where
    tracked :
        (o : Option SessionWrite)
        → lookup a.instance_uid written ≡ o
        → is_due keepalive now o ≡ false
        → (w : SessionWrite) × (lookup a.instance_uid written ≡ some w)
          × (is_due keepalive now (some w) ≡ false)
    tracked none e fresh = absurd cc
    tracked (some w) e fresh = (w, e, fresh)
due_loop-In keepalive now gen (b ∷ rest) written a (inr there) =
    elim (due_loop-In keepalive now gen rest
      (see gen b.instance_uid (lookup b.instance_uid written) written) a there) [
        | inl later ↦
            inl (elim (Bool-cases (is_due keepalive now (lookup b.instance_uid written))) [
              | inl ready ↦ rw ready (inr later)
              | inr idle ↦ rw idle later
            ])
        | inr (w, held, fresh) ↦
            let (v, entry, at) = see-Tracks gen b.instance_uid a.instance_uid written w held in
            inr (v, entry, rw at fresh)
      ]

-- Rows of sessions are replaced by rows as late, and the rows of agents stay.
abbrev pub IsLater : Tables → Tables → Type 0
IsLater t u = (u.agents ≡ t.agents) × ((id : Str) (time : ℕ) → HasRow t id time → HasRow u id time)

upsert_session-later :
    (o : Option SessionRow) (a : Agent) (row : SessionRow) (time : ℕ)
    → o ≡ some row
    → time ≤ row.updated_at
    → time ≤ (upsert_session o a).updated_at
unfolding upsert_session
upsert_session-later none a row time e h = absurd cc
upsert_session-later (some old) a row time e h = ground (arith, e, h)

upsert_session-own :
    (o : Option SessionRow) (a : Agent) → micros a.last_seen ≤ (upsert_session o a).updated_at
unfolding upsert_session
upsert_session-own none a = omega arith
upsert_session-own (some old) a = ground arith

-- The tables with the row of the agent upserted.
abbrev pub saved : Tables → Agent → Tables
saved t a = record t {
  sessions = insert a.instance_uid (upsert_session (lookup a.instance_uid t.sessions) a) t.sessions;
}

saved-row :
    (t : Tables) (a : Agent) (id : Str)
    → lookup id (saved t a).sessions ≡ (
        if str_eq a.instance_uid id
        then some (upsert_session (lookup a.instance_uid t.sessions) a)
        else lookup id t.sessions)
saved-row t a id =
    lookup-insert a.instance_uid id (upsert_session (lookup a.instance_uid t.sessions) a) t.sessions

pub saved-HasRow : (t : Tables) (a : Agent) → HasRow (saved t a) a.instance_uid a.last_seen
saved-HasRow t a = (
  upsert_session (lookup a.instance_uid t.sessions) a,
  ground (arith, saved-row t a a.instance_uid, str_eq_refl a.instance_uid),
  upsert_session-own (lookup a.instance_uid t.sessions) a,
)

pub saved-IsLater : (t : Tables) (a : Agent) → IsLater t (saved t a)
saved-IsLater t a = (refl, kept)
  where
    kept : (id : Str) (time : ℕ) → HasRow t id time → HasRow (saved t a) id time
    kept id time (row, e, le) = elim (Bool-cases (str_eq a.instance_uid id)) [
      | inl same ↦ (
        upsert_session (lookup a.instance_uid t.sessions) a,
        ground (arith, saved-row t a id, same),
        upsert_session-later (lookup a.instance_uid t.sessions) a row (micros time)
            (rw (str_eq→eq a.instance_uid id same) e) le,
      )
      | inr other ↦ (row, ground (arith, saved-row t a id, other, e), le)
    ]

pub HasRow-at : (t : Tables) {i j : Str} {x y : ℕ} → i ≡ j → x ≡ y → HasRow t i x → HasRow t j y
HasRow-at t ids times h = rw (sym ids, sym times) h

pub saved-IsBacked :
    (s : SessionSnapshotter) (t : Tables) (a : Agent)
    → IsBacked s.written t
    → IsBacked (record_written s a).written (saved t a)
unfolding record_written
saved-IsBacked s t a backed id w h = elim (Bool-cases (str_eq a.instance_uid id)) [
  | inl same ↦
      let at : a.last_seen ≡ w.last_seen = ground (
        arith,
        h,
        same,
        lookup-insert a.instance_uid id (record { last_seen = a.last_seen; gen = s.gen }) s.written,
      ) in
      HasRow-at (saved t a) (str_eq→eq a.instance_uid id same) at (saved-HasRow t a)
  | inr other ↦ (saved-IsLater t a).1 id w.last_seen (
      backed id w (
        ground (
          arith,
          h,
          other,
          lookup-insert a.instance_uid id (record { last_seen = a.last_seen; gen = s.gen })
              s.written,
        )))
]
