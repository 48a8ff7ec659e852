-- ===== src/Persistence/Flush/Interleaved/Covered.antt =====
-- How a step of a flush, or of the registry while it runs, leaves the agents that
-- internal/persistence/flush.go has still to write.
use mathlib.Core.Option
use grex.Base.{
  ℕ, ◌≡◌, refl, ◌∙◌, ap, sym, true, false, List, [], ◌∷◌, ◌++◌, Option, none, some, Str, str_eq,
  str_eq→eq, str_eq_refl, str_eq_iff, lookup, In, In-append, In-append_left, In-append_right, arith,
  if◌then◌else◌, inl, inr, ◌⊎◌, Bool-cases, Assoc, insert, lookup-insert,
}
use grex.Fleet.Types.{Agent, Event}
use grex.Fleet.Registry.{Registry, get}
use grex.Persistence.Store.{AgentRow, Tables}
use grex.Persistence.Flush.{listen_all}
use grex.Persistence.Flush.Marked.{listen_all-In}
use grex.Persistence.Flush.Told.{Same, durable}
use grex.Persistence.Flush.Steps.{saves_one, deletes_one, delete_step}
use grex.Persistence.Flush.Rows.{flushed_row}
use grex.Persistence.Flush.Interleaved.{World, write_agent, without, Written, write_of}

-- The agent that a write carries is of its id.
abbrev pub Names : Str → Option Agent → Type 0
Names id none = Unit
Names id (some a) = a.instance_uid ≡ id

-- A write touches the row of its own id only.
pub write_agent-row :
    (now : ℕ) (id j : Str) (o : Option Agent) (t : Tables)
    → Names id o
    → lookup j (write_agent now id o t).agents
      ≡ (if str_eq id j then flushed_row o true now (lookup j t.agents) else lookup j t.agents)
unfolding write_agent
write_agent-row now id j none t n = elim (Bool-cases (str_eq id j)) [
  | inl same ↦ deletes_one (λ k. true) now t id j ∙ rw same (deleted (lookup j t.agents))
  | inr other ↦ deletes_one (λ k. true) now t id j ∙ rw other refl
]
  where
    deleted :
        (row : Option AgentRow) → delete_step now none true row ≡ flushed_row none true now row
    deleted none = refl
    deleted (some row) = refl
write_agent-row now id j (some a) t n = elim (Bool-cases (str_eq id j)) [
  | inl same ↦ saves_one (λ k. true) t a id j n ∙ rw same refl
  | inr other ↦ saves_one (λ k. true) t a id j n ∙ rw other refl
]

-- The last write of the id carried what the registry holds now, the touched fields apart, and the row
-- is what that write makes of the row that stood before it: a save of an agent, or a soft delete if
-- the registry holds nothing.
abbrev pub Reflects : World → Str → Type 0
Reflects w j =
    (e : Written) × (lookup j w.last ≡ some e)
    × Same e.agent (get w.registry j)
    × (lookup j w.tables.agents ≡ flushed_row e.agent true e.now e.old)

abbrev pub Current : World → Str → Type 0
Current w j = (o : Option Agent) → In (j, o) w.writes → Same o (get w.registry j)

abbrev pub Pending : World → Str → Type 0
Pending w j = In j w.todo ⊎ ((o : Option Agent) × In (j, o) w.writes) ⊎ In j w.failed ⊎ Reflects w j

-- Marked for the next flush, or with every write of it in flight up to date and on its way, failed
-- or done.
abbrev pub Covered : World → Str → Type 0
Covered w j = In j w.dirty ⊎ (Current w j × Pending w j)

In-without : (id j : Str) (l : List Str) → In j l → (j ≡ id) ⊎ In j (without id l)
In-without id j [] h = absurd h
In-without id j (k ∷ ks) h = ground (arith, str_eq_iff k id, In-without id j ks)

module _ (before after : List (Str × Option Agent)) (e : Str × Option Agent) where
  In-removed :
      (d : Str × Option Agent) → In d (before ++ (e ∷ after)) → (d ≡ e) ⊎ In d (before ++ after)
  In-removed d h = elim (In-append d before (e ∷ after) h) [
    | inl b ↦ inr (In-append_left d before after b)
    | inr (inl is) ↦ inl is
    | inr (inr a) ↦ inr (In-append_right d before after a)
  ]

  pub In-kept : (d : Str × Option Agent) → In d (before ++ after) → In d (before ++ (e ∷ after))
  In-kept d h = elim (In-append d before after h) [
    | inl b ↦ In-append_left d before (e ∷ after) b
    | inr a ↦ In-append_right d before (e ∷ after) (inr a)
  ]

-- What a write that ends leaves, with these tables and failures.
abbrev pub ending : World → List (Str × Option Agent) → Tables → List Str → Assoc Written → World
ending w writes tables failed last = record w {
  writes = writes;
  tables = tables;
  failed = failed;
  last = last;
}

module _ (j : Str) (w : World) (before after : List (Str × Option Agent)) (id : Str)
    (o : Option Agent) (was : w.writes ≡ before ++ ((id, o) ∷ after)) (tables : Tables)
    (failed : List Str) (last : Assoc Written) where
  abbrev pub x : World
  x = ending w (before ++ after) tables failed last

  other_id : {A : Type 0} → str_eq id j ≡ false → j ≡ id → A
  other_id away e = absurd (ground (arith, away, str_eq_iff id j))

  ended_elsewhere :
      str_eq id j ≡ false
      → (In j w.failed → In j failed)
      → (Reflects w j → Reflects x j)
      → Pending w j
      → Pending x j
  ended_elsewhere away lost kept (inl todo) = inl todo
  ended_elsewhere away lost kept (inr (inl (p, h))) =
      elim (In-removed before after (id, o) (j, p) (rw was at h)) [
        | inl is ↦ other_id away (ap (λ (d : Str × Option Agent). d.0) is)
        | inr there ↦ inr (inl (p, there))
      ]
  ended_elsewhere away lost kept (inr (inr (inl h))) = inr (inr (inl (lost h)))
  ended_elsewhere away lost kept (inr (inr (inr r))) = inr (inr (inr (kept r)))

  -- A write that ends, for another id or for this one.
  ended :
      (str_eq id j ≡ false → In j w.failed → In j failed)
      → (str_eq id j ≡ false → Reflects w j → Reflects x j)
      → (j ≡ id → Same o (get w.registry j) → In j failed ⊎ Reflects x j)
      → Current w j × Pending w j
      → Current x j × Pending x j
  ended lost kept own c = (
    λ p h. c.0 p (rw was (In-kept before after (id, o) (j, p) h)),
    elim (Bool-cases (str_eq id j)) [
      | inr away ↦ ended_elsewhere away (lost away) (kept away) c.1
      | inl same ↦
          let e = sym (str_eq→eq id j same) in
          let written : In (j, o) w.writes =
            rw (was, e) (In-append_right (id, o) before ((id, o) ∷ after) (inl refl)) in
          inr (inr (own e (c.0 o written)))
    ],
  )

-- The rows and failures after a write that reached the database, and after one that did not.
module _ (j : Str) (w : World) (before after : List (Str × Option Agent)) (id : Str)
    (o : Option Agent) (was : w.writes ≡ before ++ ((id, o) ∷ after)) where
  last_write :
      (now : ℕ)
      → lookup j (insert id (write_of id o now w.tables) w.last)
        ≡ (if str_eq id j then some (write_of id o now w.tables) else lookup j w.last)
  last_write now = lookup-insert id j (write_of id o now w.tables) w.last

  pub Covered-wrote :
      (now : ℕ)
      → Names id o
      → Covered w j
      → Covered
          (ending w
            (before ++ after)
            (write_agent now id o w.tables)
            (without id w.failed)
            (insert id (write_of id o now w.tables) w.last))
          j
  Covered-wrote now n (inl dirty) = inl dirty
  Covered-wrote now n (inr c) = inr (
      ended j w before after id o was (write_agent now id o w.tables) (without id w.failed)
        (insert id (write_of id o now w.tables) w.last)
        (λ away lost. elim (In-without id j w.failed lost) [
          | inl e ↦ absurd (ground (arith, away, str_eq_iff id j))
          | inr kept ↦ kept
        ])
        (λ away r. (
          r.0,
          last_write now ∙ rw away r.1,
          r.2,
          write_agent-row now id j o w.tables n ∙ rw away r.3,
        ))
        (λ e same. inr (
          write_of id o now w.tables,
          last_write now ∙ rw (e, str_eq_refl id) refl,
          same,
          write_agent-row now id j o w.tables n ∙ rw (e, str_eq_refl id) refl,
        ))
        c)

  pub Covered-missed :
      Covered w j → Covered (ending w (before ++ after) w.tables (id ∷ w.failed) w.last) j
  Covered-missed (inl dirty) = inl dirty
  Covered-missed (inr c) = inr (
      ended j w before after id o was w.tables (id ∷ w.failed) w.last (λ away lost. inr lost)
        (λ away r. r) (λ e same. inl (inl e)) c)

Same-trans : (o p q : Option Agent) → Same o p → Same q p → Same o q
Same-trans o p q h k = h ∙ sym k

-- The registry moves on, and holds the agent as before.
pub Covered-unchanged :
    (w : World) (r : Registry) (es : List Event) (j : Str)
    → Same (get r j) (get w.registry j)
    → Covered w j
    → Covered (record w { registry = r; dirty = listen_all w.dirty es }) j
Covered-unchanged w r es j same (inl dirty) = inl ((listen_all-In j w.dirty es).1 (inl dirty))
Covered-unchanged w r es j same (inr (current, pending)) =
    inr (λ o h. current o h ∙ sym same, onward pending)
  where
    onward : Pending w j → Pending (record w { registry = r; dirty = listen_all w.dirty es }) j
    onward (inl todo) = inl todo
    onward (inr (inl written)) = inr (inl written)
    onward (inr (inr (inl lost))) = inr (inr (inl lost))
    onward (inr (inr (inr (e, last, is, row)))) = inr (inr (inr (e, last, is ∙ sym same, row)))

pub Covered-drained :
    (w : World) (j : Str)
    → w.todo ≡ []
    → w.writes ≡ []
    → Covered w j
    → Covered (record w { todo = w.dirty; dirty = [] }) j
Covered-drained w j over quiet (inl dirty) = inr (λ o h. absurd (rw quiet at h), inl dirty)
Covered-drained w j over quiet (inr (current, inl todo)) = absurd (rw over at todo)
Covered-drained w j over quiet (inr (current, inr p)) = inr (current, inr p)

module _ (w : World) (j id : Str) (ids : List Str) (is : w.todo ≡ id ∷ ids) where
  abbrev pub reading : World
  reading = record w { todo = ids; writes = (id, get w.registry id) ∷ w.writes }

  Current-read : Current w j → Current reading j
  Current-read current o (inl e) =
      ap (λ (d : Str × Option Agent). Option.map durable d.1) e
      ∙ sym (ap (λ (d : Str × Option Agent). Option.map durable (get w.registry d.0)) e)
  Current-read current o (inr h) = current o h

  Pending-read : Pending w j → Pending reading j
  Pending-read (inl todo) = elim (let l : In j (id ∷ ids) = rw is at todo in l) [
    | inl e ↦ inr (inl (get w.registry id, inl (ap (λ (k : Str). (k, get w.registry id)) e)))
    | inr later ↦ inl later
  ]
  Pending-read (inr (inl (o, written))) = inr (inl (o, inr written))
  Pending-read (inr (inr p)) = inr (inr p)

  pub Covered-read : Covered w j → Covered reading j
  Covered-read (inl dirty) = inl dirty
  Covered-read (inr (current, pending)) = inr (Current-read current, Pending-read pending)
