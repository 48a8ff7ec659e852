-- ===== src/Persistence/Flush/Steps.antt =====
-- What one write of internal/persistence/flush.go does to a row.
use grex.Base.{
  ℕ, ◌≡◌, refl, Bool, true, false, Option, none, some, Str, str_eq, str_eq_iff, lookup,
  lookup-insert, arith, if◌then◌else◌, ◌||◌, ◌&&◌, ap, str_eq→eq,
}
use grex.Fleet.Types.{Agent}
use grex.Persistence.Store.{
  AgentRow, Tables, save_agent, upsert_row, soft_delete_agent, mark_found, mark_evicted,
}

-- The agents row of an id after a successful soft delete, and after a successful save.
abbrev deleted_row : ℕ → Option AgentRow → Option AgentRow
deleted_row now none = none
deleted_row now (some row) = some (mark_evicted now row)

abbrev saved_row : Agent → Option AgentRow → Option AgentRow
saved_row a row = some (upsert_row row a).0

deleted_row_twice :
    (now : ℕ) (o : Option AgentRow) → deleted_row now (deleted_row now o) ≡ deleted_row now o
deleted_row_twice now none = refl
deleted_row_twice now (some row) = ground arith

saved_row_twice : (a : Agent) (o : Option AgentRow) → saved_row a (saved_row a o) ≡ saved_row a o
unfolding upsert_row
saved_row_twice a none = ground arith
saved_row_twice a (some row) = ground arith

soft_delete-row :
    (t : Tables) (id j : Str) (now : ℕ)
    → lookup j (soft_delete_agent t id now).agents
      ≡ (if str_eq id j then deleted_row now (lookup j t.agents) else lookup j t.agents)
unfolding soft_delete_agent
soft_delete-row t id j now = found (lookup id t.agents) refl
  where
    found :
        (o : Option AgentRow)
        → lookup id t.agents ≡ o
        → lookup j (mark_found id now o t).agents
          ≡ (if str_eq id j then deleted_row now (lookup j t.agents) else lookup j t.agents)
    found none e = ground (arith, str_eq_iff id j)
    found (some row) e =
        ground (arith, str_eq_iff id j, lookup-insert id j (mark_evicted now row) t.agents)

save-row :
    (t : Tables) (a : Agent) (j : Str)
    → lookup j (save_agent t a).agents
      ≡ (if str_eq a.instance_uid j then saved_row a (lookup j t.agents) else lookup j t.agents)
unfolding save_agent
save-row t a j = ground (
  arith,
  lookup-insert a.instance_uid j (upsert_row (lookup a.instance_uid t.agents) a).0 t.agents,
  str_eq_iff a.instance_uid j,
)

-- What the saves of a flush do to the row of an id, and what its soft deletions do.
abbrev pub save_step : Option Agent → Bool → Option AgentRow → Option AgentRow
save_step none hit row = row
save_step (some a) hit row = if hit then saved_row a row else row

abbrev pub delete_step : ℕ → Option Agent → Bool → Option AgentRow → Option AgentRow
delete_step now none hit row = if hit then deleted_row now row else row
delete_step now (some a) hit row = row

pub save_step_twice :
    (o : Option Agent) (h k : Bool) (row : Option AgentRow)
    → save_step o h (save_step o k row) ≡ save_step o (k || h) row
save_step_twice none h k row = refl
save_step_twice (some a) true true row = saved_row_twice a row
save_step_twice (some a) true false row = refl
save_step_twice (some a) false true row = refl
save_step_twice (some a) false false row = refl

pub delete_step_twice :
    (now : ℕ) (o : Option Agent) (h k : Bool) (row : Option AgentRow)
    → delete_step now o h (delete_step now o k row) ≡ delete_step now o (k || h) row
delete_step_twice now (some a) h k row = refl
delete_step_twice now none true true row = deleted_row_twice now row
delete_step_twice now none true false row = refl
delete_step_twice now none false true row = refl
delete_step_twice now none false false row = refl

reached_same : (reached : Str → Bool) (id j : Str) → str_eq id j ≡ true → reached id ≡ reached j
reached_same reached id j e = ap reached (str_eq→eq id j e)

pub saves_one :
    (reached : Str → Bool) (t : Tables) (a : Agent) (id j : Str)
    → a.instance_uid ≡ id
    → lookup j (if reached a.instance_uid then save_agent t a else t).agents
      ≡ save_step (some a) (str_eq id j && reached j) (lookup j t.agents)
saves_one reached t a id j is =
    ground (arith, save-row t a j, reached_same reached a.instance_uid j, ap (λ u. str_eq u j) is)

pub deletes_one :
    (reached : Str → Bool) (now : ℕ) (t : Tables) (id j : Str)
    → lookup j (if reached id then soft_delete_agent t id now else t).agents
      ≡ delete_step now none (str_eq id j && reached j) (lookup j t.agents)
deletes_one reached now t id j =
    ground (arith, soft_delete-row t id j now, reached_same reached id j)

pub or_and : (b c h : Bool) → (b && h || c && h) ≡ ((b || c) && h)
or_and b c h = ground arith

pub save_step_missed : (o : Option Agent) (row : Option AgentRow) → save_step o false row ≡ row
save_step_missed none row = refl
save_step_missed (some a) row = refl

pub delete_step_missed :
    (now : ℕ) (o : Option Agent) (row : Option AgentRow) → delete_step now o false row ≡ row
delete_step_missed now none row = refl
delete_step_missed now (some a) row = refl
