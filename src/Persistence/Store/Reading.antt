-- ===== src/Persistence/Store/Reading.antt =====
-- The reads of internal/persistence/postgres.go over tables that its writes have left.
use grex.Base.{
  ℕ, ◌≡◌, ◌≢◌, refl, true, false, ◌||◌, List, [], ◌∷◌, Option, none, some, Str, str_eq, str_eq_iff,
  str_eq_refl, Assoc, lookup, insert, delete, has, lookup-insert, lookup-delete, arith,
  if◌then◌else◌, inl, inr, Bool-cases, All, ◌++◌, sym, ◌∙◌, ap,
}
use grex.Fleet.Types.{Agent}
use grex.Persistence.Store.{
  AgentRow, SessionRow, Tables, upsert_row, upsert_session, save_agent, save_session, mark_found,
  mark_evicted, soft_delete_agent, delete_agent, is_purged, purge_row, purge_rows, purge, ok,
  failed, get_agent, get_row, list_rows, list_agents, read_agent, scan_agent, found_agent,
  or_no_config,
}
use mathlib.Core.Bool.{false≢true}
use mathlib.Core.List.{append_assoc}

module _ {ℓ} {V : Type ℓ} where
  has-insert : (k j : Str) (v : V) (m : Assoc V) → has j (insert k v m) ≡ (str_eq k j || has j m)
  unfolding has
  has-insert k j v m = rw (lookup-insert k j v m, has) (ground arith)

  has-delete :
      (k j : Str) (m : Assoc V) → has j (delete k m) ≡ (if str_eq k j then false else has j m)
  unfolding has
  has-delete k j m = rw (lookup-delete k j m, has) (ground arith)

  has-some : (k : Str) (v : V) (m : Assoc V) → lookup k m ≡ some v → has k m ≡ true
  unfolding has
  has-some k v m h = rw (h, has)

  has-none : (k : Str) (m : Assoc V) → lookup k m ≡ none → has k m ≡ false
  unfolding has
  has-none k m h = rw (h, has)

has-middle {ℓ} :
    {V : Type ℓ} (id : Str) (v : V) (pre m : Assoc V) → has id (pre ++ (id, v) ∷ m) ≡ true
unfolding has lookup
has-middle id v [] m = rw (str_eq_refl id, has)
has-middle id v ((j, w) ∷ pre) m = ground (arith, has-middle id v pre m)

-- Every agent has a session row.
pub record IsComplete (t : Tables) : Type 0 where
  pub joined : (id : Str) → has id t.agents ≡ true → has id t.sessions ≡ true

pub save_agent-IsComplete : (t : Tables) (a : Agent) → IsComplete t → IsComplete (save_agent t a)
unfolding save_agent
save_agent-IsComplete t a c = record {
  joined = λ id h. ground (
    arith,
    c.joined id,
    has-insert a.instance_uid id (upsert_row (lookup a.instance_uid t.agents) a).0 t.agents,
    has-insert a.instance_uid id (upsert_session (lookup a.instance_uid t.sessions) a) t.sessions,
  );
}

save_session-IsComplete :
    (t u : Tables) (a : Agent) → IsComplete t → save_session t a ≡ some u → IsComplete u
unfolding save_session
save_session-IsComplete t u a c h = record {
  joined = λ id p. ground (
    arith,
    c.joined id,
    has-insert a.instance_uid id (upsert_session (lookup a.instance_uid t.sessions) a) t.sessions,
  );
}

delete_agent-IsComplete : (t : Tables) (id : Str) → IsComplete t → IsComplete (delete_agent t id)
unfolding delete_agent
delete_agent-IsComplete t id c = record {
  joined = λ j h. ground (arith, c.joined j, has-delete id j t.agents, has-delete id j t.sessions);
}

soft_delete_agent-IsComplete :
    (t : Tables) (id : Str) (at : ℕ) → IsComplete t → IsComplete (soft_delete_agent t id at)
unfolding soft_delete_agent
soft_delete_agent-IsComplete t id at c = marked (lookup id t.agents) refl
  where
    marked : (o : Option AgentRow) → lookup id t.agents ≡ o → IsComplete (mark_found id at o t)
    marked none e = c
    marked (some row) e = record {
      joined = λ j h. ground (
        arith,
        c.joined j,
        str_eq_iff id j,
        has-some id row t.agents e,
        has-insert id j (mark_evicted at row) t.agents,
      );
    }

purge_row-IsComplete :
    (before : ℕ) (id : Str) (row : AgentRow) (t : Tables)
    → IsComplete t
    → IsComplete (purge_row before id row t)
unfolding purge_row
purge_row-IsComplete before id row t c = elim (Bool-cases (is_purged before row)) [
  | inl gone ↦ rw (gone, purge_row) (delete_agent-IsComplete t id c)
  | inr kept ↦ rw (kept, purge_row) c
]

purge_rows-IsComplete :
    (before : ℕ) (rows : Assoc AgentRow) (t : Tables)
    → IsComplete t
    → IsComplete (purge_rows before rows t)
unfolding purge_rows
purge_rows-IsComplete before [] t c = c
purge_rows-IsComplete before ((id, row) ∷ rows) t c =
    purge_rows-IsComplete before rows (purge_row before id row t)
      (purge_row-IsComplete before id row t c)

-- A write of the store; a session write that the database refuses changes nothing.
pub data Write (t : Tables) : Tables → Type 0 where
  saved : (a : Agent) → Write t (save_agent t a)
  kept_alive : (a : Agent) (u : Tables) → save_session t a ≡ some u → Write t u
  soft_deleted : (id : Str) (at : ℕ) → Write t (soft_delete_agent t id at)
  deleted : (id : Str) → Write t (delete_agent t id)
  purged : (before : ℕ) → Write t (purge before t)

pub data Writes (t : Tables) : Tables → Type 0 where
  start : Writes t t
  next : {u w : Tables} → Writes t u → Write u w → Writes t w

pub Writes-IsComplete : {t u : Tables} → Writes t u → IsComplete t → IsComplete u
unfolding purge
Writes-IsComplete start c = c
Writes-IsComplete (next {u = u} ws (saved a)) c = save_agent-IsComplete u a (Writes-IsComplete ws c)
Writes-IsComplete (next {u = u} {w = w} ws (kept_alive a _ e)) c =
    save_session-IsComplete u w a (Writes-IsComplete ws c) e
Writes-IsComplete (next {u = u} ws (soft_deleted id at)) c =
    soft_delete_agent-IsComplete u id at (Writes-IsComplete ws c)
Writes-IsComplete (next {u = u} ws (deleted id)) c =
    delete_agent-IsComplete u id (Writes-IsComplete ws c)
Writes-IsComplete (next {u = u} ws (purged before)) c =
    purge_rows-IsComplete before u.agents u (Writes-IsComplete ws c)

abbrev pub no_tables : Tables
no_tables = record { agents = []; sessions = []; configs = [] }

read_agent-reads :
    (t : Tables) (id : Str) (row : AgentRow)
    → has id t.sessions ≡ true
    → (a : Agent) × (read_agent t id row ≡ ok a)
read_agent-reads t id row h = scanned (lookup id t.sessions) refl
  where
    scanned :
        (o : Option SessionRow)
        → lookup id t.sessions ≡ o
        → (a : Agent) × (scan_agent id row o (or_no_config (lookup id t.configs)) ≡ ok a)
    scanned none e = absurd (false≢true (sym (has-none id t.sessions e) ∙ h))
    scanned (some s) e = (_, refl)

get_row-reads :
    (t : Tables) (id : Str) (o : Option AgentRow)
    → IsComplete t
    → lookup id t.agents ≡ o
    → get_row t id o ≢ failed
get_row-reads t id none c e h = cc
get_row-reads t id (some row) c e h =
    let (a, got) = read_agent-reads t id row (c.joined id (has-some id row t.agents e)) in
    cc (h, ap found_agent got)

list_rows-reads :
    (t : Tables) (rows : Assoc AgentRow)
    → All (λ r. has r.0 t.sessions ≡ true) rows
    → (as' : List Agent) × (list_rows t rows ≡ ok as')
unfolding list_rows
list_rows-reads t [] h = ([], refl)
list_rows-reads t ((id, row) ∷ rows) h =
    let (a, got) = read_agent-reads t id row h.0 in
    let (rest, others) = list_rows-reads t rows h.1 in (a ∷ rest, rw (got, others))

has-entries :
    (pre rows : Assoc AgentRow) (p : Str → Type 0)
    → ((id : Str) → has id (pre ++ rows) ≡ true → p id)
    → All (λ r. p r.0) rows
has-entries pre [] p h = tt
has-entries pre ((id, row) ∷ rows) p h = (
  h id (has-middle id row pre rows),
  has-entries (pre ++ (id, row) ∷ []) rows p (λ j k. h j (rw append_assoc at k)),
)

-- Whatever was written to empty tables, by any replica and in any order, reading one agent and
-- listing all of them succeeds.
pub reads_succeed :
    {t : Tables}
    → Writes no_tables t
    → ((id : Str) → get_agent t id ≢ failed) × ((as' : List Agent) × (list_agents t ≡ ok as'))
unfolding get_agent list_agents has
reads_succeed {t} ws =
    let c = Writes-IsComplete ws (record { joined = λ id h. h }) in
    (
      (λ id. get_row-reads t id (lookup id t.agents) c refl),
      list_rows-reads t t.agents
          (has-entries [] t.agents (λ id. has id t.sessions ≡ true) c.joined),
    )
