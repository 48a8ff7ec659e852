-- ===== src/Persistence/Store/Guard.antt =====
-- The guards of the upserts of internal/persistence/postgres.go, for one agent and two replicas.
use grex.Base.{
  ◌≤◌, ◌<◌, ◌≡◌, refl, false, Option, some, Str, str_eq, str_eq_iff, str_eq_refl, Assoc, lookup,
  lookup-insert, arith, if◌then◌else◌, inl, inr, Bool-cases, sym, ◌∙◌, ap, str_eq→eq,
}
use grex.Fleet.Types.{Agent}
use grex.Persistence.Store.{
  AgentRow, SessionRow, Tables, session_row, upsert_row, upsert_session, save_agent, micros,
}

-- What the tables hold for one agent.
pub record Entry : Type 0 where
  pub row : Option AgentRow
  pub session : Option SessionRow
  pub config : Option (Assoc Str)

unfoldable pub entry : Tables → Str → Entry
entry t id = record {
  row = lookup id t.agents;
  session = lookup id t.sessions;
  config = lookup id t.configs;
}

-- A save, on the entry of its agent.
pub save_entry : Entry → Agent → Entry
save_entry e a = record {
  row = some (upsert_row e.row a).0;
  session = some (upsert_session e.session a);
  config = if (upsert_row e.row a).1 then some a.effective_config else e.config;
}

-- A save touches the rows of its own agent only.
pub entry-save_agent :
    (t : Tables) (a : Agent) (id : Str)
    → entry (save_agent t a) id
      ≡ (if str_eq a.instance_uid id then save_entry (entry t a.instance_uid) a else entry t id)
unfolding save_agent save_entry entry
entry-save_agent t a id = ground (
  arith,
  str_eq_iff a.instance_uid id,
  lookup-insert a.instance_uid id (upsert_row (lookup a.instance_uid t.agents) a).0 t.agents,
  lookup-insert a.instance_uid id (upsert_session (lookup a.instance_uid t.sessions) a) t.sessions,
  lookup-insert a.instance_uid id a.effective_config t.configs,
)

module _ (u : Str) (t : Tables) (a : Agent) (is : a.instance_uid ≡ u) where
  entry-save_self : entry (save_agent t a) u ≡ save_entry (entry t u) a
  entry-save_self = entry-save_agent t a u ∙ rw (is, str_eq_refl u)

  entry-save_ne : (id : Str) → str_eq u id ≡ false → entry (save_agent t a) id ≡ entry t id
  entry-save_ne id away = entry-save_agent t a id ∙ rw (is, away)

save_entry_converge :
    (e : Entry) (row : AgentRow) (a b : Agent)
    → e.row ≡ some row
    → micros a.last_seen < micros b.last_seen
    → save_entry (save_entry e a) b ≡ save_entry (save_entry e b) a
unfolding save_entry upsert_row upsert_session
save_entry_converge e row a b known later = ground arith

-- Two saves of one agent that was last seen in a later microsecond in the second than in the first
-- leave, in either order, the same row, session and configuration under every id, if the agent has a row.
pub saves_converge :
    (t : Tables) (a b : Agent) (row : AgentRow) (id : Str)
    → a.instance_uid ≡ b.instance_uid
    → micros a.last_seen < micros b.last_seen
    → (entry t a.instance_uid).row ≡ some row
    → entry (save_agent (save_agent t a) b) id ≡ entry (save_agent (save_agent t b) a) id
saves_converge t a b row id same later known = elim (Bool-cases (str_eq a.instance_uid id)) [
  | inl here ↦ rw (← str_eq→eq a.instance_uid id here) (
      entry-save_self u (save_agent t a) b (sym same)
      ∙ ap (λ (e : Entry). save_entry e b) (entry-save_self u t a refl)
      ∙ save_entry_converge (entry t u) row a b known later
      ∙ ap (λ (e : Entry). save_entry e a) (sym (entry-save_self u t b (sym same)))
      ∙ sym (entry-save_self u (save_agent t b) a refl))
  | inr away ↦
      entry-save_ne u (save_agent t a) b (sym same) id away
      ∙ entry-save_ne u t a refl id away
      ∙ sym (entry-save_ne u t b (sym same) id away)
      ∙ sym (entry-save_ne u (save_agent t b) a refl id away)
]
  where
    u : Str
    u = a.instance_uid

stale_entry :
    (e : Entry) (a : Agent) (row : AgentRow)
    → e.row ≡ some row
    → micros a.last_seen ≤ row.updated_at
    → ((save_entry e a).row ≡ some row) × ((save_entry e a).config ≡ e.config)
unfolding save_entry upsert_row
stale_entry e a row known old = ground arith

-- A save that is no newer than the row changes neither the row nor the stored configuration.
pub stale_save :
    (t : Tables) (a : Agent) (row : AgentRow)
    → (entry t a.instance_uid).row ≡ some row
    → micros a.last_seen ≤ row.updated_at
    → ((entry (save_agent t a) a.instance_uid).row ≡ some row)
      × ((entry (save_agent t a) a.instance_uid).config ≡ (entry t a.instance_uid).config)
stale_save t a row known old =
    rw (entry-save_self a.instance_uid t a refl)
      (stale_entry (entry t a.instance_uid) a row known old)

-- A save as new as the session, such as that of a sweep's disconnect, does write the session.
pub save_writes_session :
    (t : Tables) (a : Agent) (s : SessionRow)
    → (entry t a.instance_uid).session ≡ some s
    → s.updated_at ≤ micros a.last_seen
    → (entry (save_agent t a) a.instance_uid).session ≡ some (session_row a)
save_writes_session t a s known new =
    rw (entry-save_self a.instance_uid t a refl) (written (entry t a.instance_uid) known)
  where
    written : (e : Entry) → e.session ≡ some s → (save_entry e a).session ≡ some (session_row a)
    written e k = unfold save_entry upsert_session in ground arith
