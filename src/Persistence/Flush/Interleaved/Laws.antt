-- ===== src/Persistence/Flush/Interleaved/Laws.antt =====
-- What flushes of internal/persistence/flush.go leave when the registry is called while they run.
use grex.Base.{
  ◌≡◌, refl, ◌∙◌, ap, sym, List, ◌∷◌, ◌++◌, Option, none, some, Str, In, In-append_right, inl, inr,
  ◌⊎◌, lookup,
}
use grex.Fleet.Types.{Agent, Event, Config}
use grex.Fleet.Registry.{Registry, InstanceUid, get, new_registry}
use grex.Fleet.Registry.Shards.{IsValid, get-uid}
use grex.Fleet.Registry.Runs.{Step-IsValid, new_registry-IsValid}
use grex.Persistence.Flush.{drain}
use grex.Persistence.Flush.Marked.{IsToldOf, listen_all-In, IsToldOf-append}
use grex.Persistence.Flush.Told.{Step-told}
use grex.Persistence.Flush.Interleaved.{
  World, FlushStep, called, drained, read, wrote, missed, FlushRun, start, next, starting,
}
use grex.Persistence.Flush.Interleaved.Covered.{
  Names, Covered, In-kept, Covered-wrote, Covered-missed, Covered-unchanged, Covered-drained,
  Covered-read,
}
use grex.Persistence.Store.{AgentRow, Tables}

pub record IsSound (w : World) : Type 0 where
  pub valid : IsValid w.registry
  pub named : (id : Str) (o : Option Agent) → In (id, o) w.writes → Names id o

get-Names : (r : Registry) (v : IsValid r) (id : Str) (o : Option Agent) → get r id ≡ o → Names id o
get-Names r v id none e = tt
get-Names r v id (some a) e = (get-uid r v id a e).0

module _ (from_bytes : InstanceUid) where
  FlushStep-IsSound :
      {w : World} {es : List Event} {x : World}
      → FlushStep from_bytes w es x
      → IsSound w
      → IsSound x
  FlushStep-IsSound {w} (called step) s = record {
    valid = Step-IsValid from_bytes step s.valid;
    named = s.named;
  }
  FlushStep-IsSound {w} (drained over quiet) s = record { valid = s.valid; named = s.named }
  FlushStep-IsSound {w} (read id ids is) s = record {
    valid = s.valid;
    named = λ k o h. elim (let l : In (k, o) ((id, get w.registry id) ∷ w.writes) = h in l) [
      | inl e ↦ get-Names w.registry s.valid k o (
          ap (λ (d : Str × Option Agent). get w.registry d.0) e
          ∙ sym (ap (λ (d : Str × Option Agent). d.1) e))
      | inr there ↦ s.named k o there
    ];
  }
  FlushStep-IsSound {w} (wrote before after id o now was) s = record {
    valid = s.valid;
    named = λ k p h. s.named k p (rw was (In-kept before after (id, o) (k, p) h));
  }
  FlushStep-IsSound {w} (missed before after id o was) s = record {
    valid = s.valid;
    named = λ k p h. s.named k p (rw was (In-kept before after (id, o) (k, p) h));
  }

  written_In :
      (w : World) (before after : List (Str × Option Agent)) (id : Str) (o : Option Agent)
      → w.writes ≡ before ++ ((id, o) ∷ after)
      → In (id, o) w.writes
  written_In w before after id o was =
      rw was (In-append_right (id, o) before ((id, o) ∷ after) (inl refl))

  pub FlushStep-Covered :
      {w : World} {es : List Event} {x : World} (j : Str)
      → FlushStep from_bytes w es x
      → IsSound w
      → Covered w j ⊎ IsToldOf j es
      → Covered x j
  unfolding drain
  FlushStep-Covered {w} j (called {r = r} {es = es} step) s c =
      elim (Step-told from_bytes step s.valid j) [
        | inl told ↦ inl ((listen_all-In j w.dirty es).1 (inr told))
        | inr same ↦ elim c [
          | inl covered ↦ Covered-unchanged w r es j same covered
          | inr told ↦ inl ((listen_all-In j w.dirty es).1 (inr told))
        ]
      ]
  FlushStep-Covered {w} j (drained over quiet) s (inl c) = Covered-drained w j over quiet c
  FlushStep-Covered {w} j (read id ids is) s (inl c) = Covered-read w j id ids is c
  FlushStep-Covered {w} j (wrote before after id o now was) s (inl c) =
      Covered-wrote j w before after id o was now
        (s.named id o (written_In w before after id o was)) c
  FlushStep-Covered {w} j (missed before after id o was) s (inl c) =
      Covered-missed j w before after id o was c
  FlushStep-Covered {w} j _ s (inr told) = absurd told

  pub FlushRun-IsSound :
      {w : World} {es : List Event} {x : World} → FlushRun from_bytes w es x → IsSound w → IsSound x
  FlushRun-IsSound start s = s
  FlushRun-IsSound (next run step) s = FlushStep-IsSound step (FlushRun-IsSound run s)

  pub FlushRun-Covered :
      {w : World} {es : List Event} {x : World} (j : Str)
      → FlushRun from_bytes w es x
      → IsSound w
      → IsToldOf j es
      → Covered x j
  FlushRun-Covered j start s told = absurd told
  FlushRun-Covered j (next {es = es} {fs = fs} run step) s told =
      FlushStep-Covered j step (FlushRun-IsSound run s) (elim (IsToldOf-append j es fs told) [
        | inl earlier ↦ inl (FlushRun-Covered j run s earlier)
        | inr now ↦ inr now
      ])

-- Neither marked nor in a flush, and with this row.
record IsApart (j : Str) (row : Option AgentRow) (w : World) : Type 0 where
  unmarked : ¬ In j w.dirty
  undrained : ¬ In j w.todo
  unread : (o : Option Agent) → ¬ In (j, o) w.writes
  kept : lookup j w.tables.agents ≡ row

pub starting-IsSound : (cfg : Config) (t : Tables) → IsSound (starting (new_registry cfg) t)
starting-IsSound cfg t = record { valid = new_registry-IsValid cfg; named = λ id o h. absurd h }
