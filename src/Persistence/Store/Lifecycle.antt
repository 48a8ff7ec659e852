-- ===== src/Persistence/Store/Lifecycle.antt =====
-- Soft deletion and purge in internal/persistence/postgres.go and purge.go.
use mathlib.Core.Option
use grex.Base.{
  ℕ, ◌<◌, ◌≡◌, refl, Bool, false, ◌||◌, ◌&&◌, [], ◌∷◌, Option, none, some, Str, str_eq, str_eq_refl,
  str_eq→eq, Assoc, lookup, lookup-insert, lookup-delete, arith, if◌then◌else◌, inl, inr,
  Bool-cases, ap, ◌∙◌, Absent, Distinct, insert-Distinct,
}
use grex.Fleet.Types.{Agent}
use grex.Persistence.Store.{
  AgentRow, Tables, upsert_row, save_agent, soft_delete_agent, mark_found, mark_evicted,
  delete_agent, is_purged, purge_row, purge_rows, purge, micros,
}

soft_found :
    (t : Tables) (id : Str) (at : ℕ) (o : Option AgentRow)
    → lookup id t.agents ≡ o
    → lookup id (mark_found id at o t).agents ≡ Option.map (mark_evicted at) o
soft_found t id at none e = e
soft_found t id at (some row) e =
    rw (lookup-insert id id (mark_evicted at row) t.agents, str_eq_refl id)

-- The mark of the first soft deletion stays.
mark_twice :
    (at later : ℕ) (row : AgentRow) → mark_evicted later (mark_evicted at row) ≡ mark_evicted at row
mark_twice at later row = ground arith

-- Soft deletion is idempotent: a second one, with whatever time, leaves the row as the first did.
pub soft_delete_twice :
    (t : Tables) (id : Str) (at later : ℕ)
    → lookup id (soft_delete_agent (soft_delete_agent t id at) id later).agents
      ≡ lookup id (soft_delete_agent t id at).agents
unfolding soft_delete_agent
soft_delete_twice t id at later =
    soft_found (soft_delete_agent t id at) id later _ refl ∙ again (lookup id t.agents) refl
  where
    again :
        (o : Option AgentRow)
        → lookup id t.agents ≡ o
        → Option.map
            (mark_evicted later)
            (lookup id (mark_found id at (lookup id t.agents) t).agents)
          ≡ lookup id (mark_found id at (lookup id t.agents) t).agents
    again o e = rw (soft_found t id at (lookup id t.agents) refl, e) (twice o)
      where
        twice :
            (p : Option AgentRow)
            → Option.map (mark_evicted later) (Option.map (mark_evicted at) p)
              ≡ Option.map (mark_evicted at) p
        twice none = refl
        twice (some row) = ap some (mark_twice at later row)

-- Does the purge take a row of this key?
doomed : ℕ → Str → Assoc AgentRow → Bool
doomed before id [] = false
doomed before id ((j, row) ∷ rows) = (str_eq j id && is_purged before row) || doomed before id rows

lookup-purge_rows :
    (before : ℕ) (id : Str) (rows : Assoc AgentRow) (t : Tables)
    → lookup id (purge_rows before rows t).agents
      ≡ (if doomed before id rows then none else lookup id t.agents)
unfolding purge_rows purge_row doomed delete_agent
lookup-purge_rows before id [] t = refl
lookup-purge_rows before id ((j, row) ∷ rows) t =
    lookup-purge_rows before id rows (purge_row before j row t)
    ∙ ground (arith, lookup-delete j id t.agents)

doomed-Absent :
    (before : ℕ) (id : Str) (rows : Assoc AgentRow) → Absent id rows → doomed before id rows ≡ false
unfolding doomed
doomed-Absent before id [] h = refl
doomed-Absent before id ((j, row) ∷ rows) h = rw h.0 (doomed-Absent before id rows h.1)

abbrev purged_row : ℕ → Option AgentRow → Option AgentRow
purged_row before none = none
purged_row before (some row) = if is_purged before row then none else some row

doomed-lookup :
    (before : ℕ) (id : Str) (rows : Assoc AgentRow)
    → Distinct rows
    → (if doomed before id rows then none else lookup id rows) ≡ purged_row before (lookup id rows)
unfolding doomed lookup
doomed-lookup before id [] d = refl
doomed-lookup before id ((j, row) ∷ rows) d = elim (Bool-cases (str_eq j id)) [
  | inl same ↦
      rw (same, doomed-Absent before id rows (rw (str_eq→eq j id same) at d.0)) (ground arith)
  | inr other ↦ rw other (doomed-lookup before id rows d.1)
]

-- The purge removes exactly the agents that were marked before its cutoff.
pub lookup-purge :
    (before : ℕ) (t : Tables) (id : Str)
    → Distinct t.agents
    → lookup id (purge before t).agents ≡ purged_row before (lookup id t.agents)
unfolding purge
lookup-purge before t id d =
    lookup-purge_rows before id t.agents t ∙ doomed-lookup before id t.agents d

saved_evicted :
    (row : AgentRow) (a : Agent) → (upsert_row (some row) a).0.evicted_at ≡ row.evicted_at
unfolding upsert_row
saved_evicted row a = ground arith

purged_marked :
    (before e : ℕ) (row : AgentRow)
    → row.evicted_at ≡ some e
    → e < micros before
    → purged_row before (some row) ≡ none
purged_marked before e row h lt = ground arith

-- In tables with one row for each id, a save never clears the mark of a soft deletion: an agent
-- that is saved again after its eviction is still removed by the purge once the mark is older than
-- the cutoff in whole microseconds.
pub returned_is_purged :
    (t : Tables) (a : Agent) (row : AgentRow) (e before : ℕ)
    → Distinct t.agents
    → lookup a.instance_uid t.agents ≡ some row
    → row.evicted_at ≡ some e
    → e < micros before
    → lookup a.instance_uid (purge before (save_agent t a)).agents ≡ none
returned_is_purged t a row e before d known marked old =
    lookup-purge before (save_agent t a) a.instance_uid
      (unfold save_agent in insert-Distinct a.instance_uid _ t.agents d)
    ∙ rw (stands)
        (purged_marked before e (upsert_row (some row) a).0 (saved_evicted row a ∙ marked) old)
  where
    stands : lookup a.instance_uid (save_agent t a).agents ≡ some (upsert_row (some row) a).0
    stands =
        unfold save_agent in
        rw (
          lookup-insert a.instance_uid a.instance_uid
              (upsert_row (lookup a.instance_uid t.agents) a).0 t.agents,
          str_eq_refl a.instance_uid,
          known,
        )
