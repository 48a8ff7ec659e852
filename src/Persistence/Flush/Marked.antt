-- ===== src/Persistence/Flush/Marked.antt =====
-- What the set of changed agents of internal/persistence/flush.go holds.
use grex.Base.{
  ◌≡◌, refl, List, [], ◌∷◌, Str, str_eq_iff, In, inl, inr, ◌⊎◌, ◌↔◌, arith, str_eq, str_eq→eq,
  Bool-cases, ◌++◌,
}
use grex.Fleet.Types.{
  Event, agent_connected, agent_disconnected, agent_evicted, report_received, missing_attribute,
  reserved_attribute_conflict,
}
use grex.Persistence.Flush.{mark, listen, listen_all}

-- The agent that a call is about.
abbrev pub subject : Event → Str
subject (agent_connected id) = id
subject (agent_disconnected id) = id
subject (agent_evicted id) = id
subject (report_received id kind) = id
subject (missing_attribute id key) = id
subject (reserved_attribute_conflict id key) = id

-- Is one of the calls about the agent?
abbrev pub IsToldOf : Str → List Event → Type 0
IsToldOf id [] = ⊥
IsToldOf id (e ∷ es) = (id ≡ subject e) ⊎ IsToldOf id es

mark-In : (id j : Str) (dirty : List Str) → In id (mark j dirty) ↔ ((id ≡ j) ⊎ In id dirty)
unfolding mark
mark-In id j [] = ground arith
mark-In id j (k ∷ ks) = ground (arith, str_eq_iff k j, mark-In id j ks)

listen-mark : (dirty : List Str) (e : Event) → listen dirty e ≡ mark (subject e) dirty
unfolding listen
listen-mark dirty (agent_connected id) = refl
listen-mark dirty (agent_disconnected id) = refl
listen-mark dirty (agent_evicted id) = refl
listen-mark dirty (report_received id kind) = refl
listen-mark dirty (missing_attribute id key) = refl
listen-mark dirty (reserved_attribute_conflict id key) = refl

-- After some listener calls the set holds the ids that it held before and the ids of the agents
-- that the calls are about, and no other.
pub listen_all-In :
    (id : Str) (dirty : List Str) (es : List Event)
    → In id (listen_all dirty es) ↔ (In id dirty ⊎ IsToldOf id es)
unfolding listen_all
listen_all-In id dirty [] = (λ h. inl h, λ h. elim h [ inl a ↦ a | inr b ↦ absurd b ])
listen_all-In id dirty (e ∷ es) =
    ground (
      arith,
      listen-mark dirty e,
      mark-In id (subject e) dirty,
      listen_all-In id (listen dirty e) es,
    )

pub IsToldOf-left : (j : Str) (es fs : List Event) → IsToldOf j es → IsToldOf j (es ++ fs)
IsToldOf-left j [] fs h = absurd h
IsToldOf-left j (e ∷ es) fs (inl is) = inl is
IsToldOf-left j (e ∷ es) fs (inr h) = inr (IsToldOf-left j es fs h)

pub IsToldOf-right : (j : Str) (es fs : List Event) → IsToldOf j fs → IsToldOf j (es ++ fs)
IsToldOf-right j [] fs h = h
IsToldOf-right j (e ∷ es) fs h = inr (IsToldOf-right j es fs h)

pub IsToldOf-dec : (j : Str) (es : List Event) → Dec (IsToldOf j es)
IsToldOf-dec j [] = no (λ h. h)
IsToldOf-dec j (e ∷ es) = elim (IsToldOf-dec j es) [
  | yes told ↦ yes (inr told)
  | no quiet ↦ elim (Bool-cases (str_eq j (subject e))) [
    | inl same ↦ yes (inl (str_eq→eq j (subject e) same))
    | inr away ↦ no (λ h. elim h [
      | inl is ↦ ground (arith, away, str_eq_iff j (subject e))
      | inr told ↦ quiet told
    ])
  ]
]

pub IsToldOf-append :
    (j : Str) (es fs : List Event) → IsToldOf j (es ++ fs) → IsToldOf j es ⊎ IsToldOf j fs
IsToldOf-append j [] fs h = inr h
IsToldOf-append j (e ∷ es) fs (inl is) = inl (inl is)
IsToldOf-append j (e ∷ es) fs (inr h) = elim (IsToldOf-append j es fs h) [
  | inl l ↦ inl (inr l)
  | inr r ↦ inr r
]
