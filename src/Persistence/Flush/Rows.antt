-- ===== src/Persistence/Flush/Rows.antt =====
-- The rows that a flush of internal/persistence/flush.go leaves.
use grex.Base.{
  ℕ, ◌≡◌, refl, Bool, true, false, List, [], ◌∷◌, Option, none, some, Str, str_eq, lookup, inl, inr,
  if◌then◌else◌, ◌||◌, ◌&&◌, ap, Bool-cases, str_eq→eq, sym, ◌∙◌, elem,
}
use mathlib.Core.Option
use grex.Fleet.Types.{Agent}
use grex.Fleet.Registry.{Registry, get}
use grex.Fleet.Registry.Shards.{IsValid, get-uid}
use grex.Persistence.Store.{
  AgentRow, Tables, save_agent, upsert_row, soft_delete_agent, mark_evicted,
}
use grex.Persistence.Flush.{
  gather, gather_agent, save_all, soft_delete_all, flush_once, Flusher, drain,
}
use grex.Persistence.Flush.Steps.{
  save_step, delete_step, save_step_twice, delete_step_twice, saves_one, deletes_one, or_and,
  save_step_missed, delete_step_missed,
}

module _ (r : Registry) (v : IsValid r) (reached : Str → Bool) (now : ℕ) (j : Str) where
  got : (id : Str) (o : Option Agent) → get r id ≡ o → str_eq id j ≡ true → get r j ≡ o
  got id o e h = ap (get r) (sym (str_eq→eq id j h)) ∙ e

  -- One id ahead of others.
  save_more :
      (id : Str) (o : Option Agent) (more : Bool) (row : Option AgentRow)
      → get r id ≡ o
      → save_step (get r j) (more && reached j) (save_step o (str_eq id j && reached j) row)
        ≡ save_step (get r j) ((str_eq id j || more) && reached j) row
  save_more id o more row e = elim (Bool-cases (str_eq id j)) [
    | inl same ↦
        rw (got id o e same, save_step_twice o (more && reached j) (str_eq id j && reached j) row)
          (ap (λ h. save_step o h row) (or_and (str_eq id j) more (reached j)))
    | inr other ↦ rw (other, save_step_missed o row) refl
  ]

  saves-row :
      (ids : List Str) (t : Tables)
      → lookup j (save_all reached (gather r ids).saves t).agents
        ≡ save_step (get r j) (elem j ids && reached j) (lookup j t.agents)
  unfolding gather save_all gather_agent
  saves-row [] t = sym (save_step_missed (get r j) (lookup j t.agents))
  saves-row (id ∷ ids) t = found (get r id) refl (λ u. saves-row ids u)
    where
      found :
          (o : Option Agent)
          → get r id ≡ o
          → ((u : Tables)
              → lookup j (save_all reached (gather r ids).saves u).agents
                ≡ save_step (get r j) (elem j ids && reached j) (lookup j u.agents))
          → lookup j (save_all reached (gather_agent id o (gather r ids)).saves t).agents
            ≡ save_step (get r j) ((str_eq id j || elem j ids) && reached j) (lookup j t.agents)
      found none e rest = rest t ∙ save_more id none (elem j ids) (lookup j t.agents) e
      found (some a) e rest =
          rest (if reached a.instance_uid then save_agent t a else t)
          ∙ ap (save_step (get r j) (elem j ids && reached j))
              (saves_one reached t a id j (get-uid r v id a e).0)
          ∙ save_more id (some a) (elem j ids) (lookup j t.agents) e

  delete_more :
      (id : Str) (o : Option Agent) (more : Bool) (row : Option AgentRow)
      → get r id ≡ o
      → delete_step now
          (get r j)
          (more && reached j)
          (delete_step now o (str_eq id j && reached j) row)
        ≡ delete_step now (get r j) ((str_eq id j || more) && reached j) row
  delete_more id o more row e = elim (Bool-cases (str_eq id j)) [
    | inl same ↦
        rw
          (
            got id o e same,
            delete_step_twice now o (more && reached j) (str_eq id j && reached j) row,
          )
          (ap (λ h. delete_step now o h row) (or_and (str_eq id j) more (reached j)))
    | inr other ↦ rw (other, delete_step_missed now o row) refl
  ]

  deletes-row :
      (ids : List Str) (t : Tables)
      → lookup j (soft_delete_all reached now (gather r ids).evicted t).agents
        ≡ delete_step now (get r j) (elem j ids && reached j) (lookup j t.agents)
  unfolding gather soft_delete_all gather_agent
  deletes-row [] t = sym (delete_step_missed now (get r j) (lookup j t.agents))
  deletes-row (id ∷ ids) t = found (get r id) refl (λ u. deletes-row ids u)
    where
      found :
          (o : Option Agent)
          → get r id ≡ o
          → ((u : Tables)
              → lookup j (soft_delete_all reached now (gather r ids).evicted u).agents
                ≡ delete_step now (get r j) (elem j ids && reached j) (lookup j u.agents))
          → lookup j
              (soft_delete_all reached now (gather_agent id o (gather r ids)).evicted t).agents
            ≡ delete_step now
                (get r j)
                ((str_eq id j || elem j ids) && reached j)
                (lookup j t.agents)
      found none e rest =
          rest (if reached id then soft_delete_agent t id now else t)
          ∙ ap (delete_step now (get r j) (elem j ids && reached j))
              (deletes_one reached now t id j)
          ∙ delete_more id none (elem j ids) (lookup j t.agents) e
      found (some a) e rest = rest t ∙ delete_more id (some a) (elem j ids) (lookup j t.agents) e

-- The agents row that a flush should leave for an id: a dirty agent is saved if the registry holds
-- it and soft-deleted if it does not, and every other row is as before.
abbrev pub flushed_row : Option Agent → Bool → ℕ → Option AgentRow → Option AgentRow
flushed_row o false now row = row
flushed_row none true now row = Option.map (mark_evicted now) row
flushed_row (some a) true now row = some (upsert_row row a).0

-- In a well-formed registry, a flush leaves for each id the row that `flushed_row` describes,
-- where an id counts as dirty if it is marked and the writes for it succeed; the set of marked ids
-- is empty afterwards.
pub flush_once-rows :
    (r : Registry) (v : IsValid r) (reached : Str → Bool) (replica label : Str) (now : ℕ)
    → (f : Flusher) (j : Str)
    → (lookup j (flush_once reached replica label r now f).tables.agents
        ≡ flushed_row (get r j) (elem j f.dirty && reached j) now (lookup j f.tables.agents))
      × ((flush_once reached replica label r now f).dirty ≡ [])
unfolding flush_once drain
flush_once-rows r v reached replica label now f j = (
  deletes-row r v reached now j f.dirty (save_all reached (gather r f.dirty).saves f.tables)
      ∙ ap (delete_step now (get r j) (elem j f.dirty && reached j))
          (saves-row r v reached now j f.dirty f.tables)
      ∙ both (get r j) (elem j f.dirty && reached j) (lookup j f.tables.agents),
  refl,
)
  where
    both :
        (o : Option Agent) (h : Bool) (row : Option AgentRow)
        → delete_step now o h (save_step o h row) ≡ flushed_row o h now row
    both none false row = refl
    both none true none = refl
    both none true (some row) = refl
    both (some a) false row = refl
    both (some a) true row = refl
