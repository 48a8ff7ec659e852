-- ===== src/Api/Merge/Laws.antt =====
-- Whom a merged list of internal/api/filter.go shows.
use grex.Base.{
  ℕ, ◌≡◌, refl, false, List, [], ◌∷◌, In, In-append, In-append_left, In-append_right, inl, inr, ◌⊎◌,
  ◌↔◌, arith, Bool-cases,
}
use grex.Fleet.Types.{Agent}
use grex.Api.Merge.{stale_connected, is_seen, is_evicted, corrected, merge_loop, merge_agents}

-- An agent of the database that the merge shows, with its flag corrected.
abbrev pub IsShown : List Agent → ℕ → ℕ → Agent → List Agent → Type 0
IsShown local now d b [] = ⊥
IsShown local now d b (a ∷ db) =
    ((b ≡ corrected now d a) × (is_seen a.instance_uid local ≡ false) × (is_evicted a ≡ false))
    ⊎ IsShown local now d b db

merge_loop-In :
    (local db : List Agent) (now d : ℕ) (b : Agent)
    → In b (merge_loop local db now d) ↔ IsShown local now d b db
unfolding merge_loop
merge_loop-In local [] now d b = (λ h. h, λ h. h)
merge_loop-In local (a ∷ db) now d b = ground (arith, merge_loop-In local db now d b)

-- A merged list holds the local agents, and of the database those that are neither evicted nor
-- held locally, each with its connected flag corrected; it holds no others.
pub merge_agents-In :
    (local db : List Agent) (now d : ℕ) (b : Agent)
    → In b (merge_agents local db now d) ↔ (In b local ⊎ IsShown local now d b db)
unfolding merge_agents
merge_agents-In local db now d b = (
  λ h. elim (In-append b local (merge_loop local db now d) h) [
    | inl l ↦ inl l
    | inr r ↦ inr ((merge_loop-In local db now d b).0 r)
  ],
  λ h. elim h [
    | inl l ↦ In-append_left b local (merge_loop local db now d) l
    | inr r ↦
        In-append_right b local (merge_loop local db now d) ((merge_loop-In local db now d b).1 r)
  ],
)

corrected_fresh : (now d : ℕ) (a : Agent) → stale_connected (corrected now d a) now d ≡ false
unfolding corrected stale_connected
corrected_fresh now d a = elim (Bool-cases (stale_connected a now d)) [
  | inl stale ↦ rw stale refl
  | inr fresh ↦ rw (fresh, fresh) refl
]

shown_fresh :
    (local db : List Agent) (now d : ℕ) (b : Agent)
    → IsShown local now d b db
    → stale_connected b now d ≡ false
shown_fresh local [] now d b h = absurd h
shown_fresh local (a ∷ db) now d b (inl h) = rw h.0 (corrected_fresh now d a)
shown_fresh local (a ∷ db) now d b (inr h) = shown_fresh local db now d b h

-- An agent of a merged list that the replica does not hold itself is never shown as connected
-- when its session row is older than the disconnect threshold.
pub merge_agents-fresh :
    (local db : List Agent) (now d : ℕ) (b : Agent)
    → In b (merge_agents local db now d)
    → In b local ⊎ (stale_connected b now d ≡ false)
merge_agents-fresh local db now d b h = elim ((merge_agents-In local db now d b).0 h) [
  | inl l ↦ inl l
  | inr r ↦ inr (shown_fresh local db now d b r)
]
