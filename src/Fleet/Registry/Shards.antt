-- ===== src/Fleet/Registry/Shards.antt =====
-- The placement of agents in the shards of internal/fleet/registry.go, and the registry seen as one map.
use grex.Base.{
  ℕ, zero, suc, ◌+◌, ◌%◌, ◌<◌, ◌≡◌, ◌≢◌, refl, sym, ap, ◌∙◌, inl, inr, false, List, [], ◌∷◌, none,
  some, Str, str_eq, str_eq_iff, str_eq-false, Assoc, lookup, insert, lookup-insert, Absent, length,
  length-set, get_or, set, get_or-set_self, get_or-set_ne, arith, if◌then◌else◌, Bool-cases,
}
use native.Mathlib.Decide.{ℕ_discrete}
use native.Mathlib.Nat.{mod-lt}
use grex.Fleet.Types.{Agent}
use grex.Fleet.Registry.{Registry, fnv32a, shard_for, shard_at, put_agent, get}

-- Every agent of shard `i` of `n` stands under its own id, which hashes to `i`, once.
abbrev pub ShardOk : ℕ → ℕ → Assoc Agent → Type 0
ShardOk n i [] = Unit
ShardOk n i ((id, a) ∷ m) =
    (fnv32a id % n ≡ i)
    × (a.instance_uid ≡ id)
    × (a.evicted_at ≡ none)
    × Absent id m
    × ShardOk n i m

abbrev pub ShardsOk : ℕ → ℕ → List (Assoc Agent) → Type 0
ShardsOk n i [] = Unit
ShardsOk n i (s ∷ ss) = ShardOk n i s × ShardsOk n (suc i) ss

pub record IsValid (r : Registry) : Type 0 where
  pub nonempty : 0 < length r.shards
  pub placed : ShardsOk (length r.shards) 0 r.shards

pub ShardOk-get_or :
    (n k i j : ℕ) (ss : List (Assoc Agent))
    → ShardsOk n k ss
    → j ≡ k + i
    → ShardOk n j (get_or ss i [])
ShardOk-get_or n k i j [] h e = tt
ShardOk-get_or n k zero j (s ∷ ss) h e = let at : j ≡ k = omega arith in rw at h.0
ShardOk-get_or n k (suc i) j (s ∷ ss) h e = ShardOk-get_or n (suc k) i j ss h.1 (omega arith)

ShardsOk-set :
    (n k i j : ℕ) (ss : List (Assoc Agent)) (m : Assoc Agent)
    → ShardsOk n k ss
    → j ≡ k + i
    → ShardOk n j m
    → ShardsOk n k (set ss i m)
ShardsOk-set n k i j [] m h e o = tt
ShardsOk-set n k zero j (s ∷ ss) m h e o = let at : k ≡ j = omega arith in (rw at o, h.1)
ShardsOk-set n k (suc i) j (s ∷ ss) m h e o =
    (h.0, ShardsOk-set n (suc k) i j ss m h.1 (omega arith) o)

insert-Absent :
    (k j : Str) (v : Agent) (m : Assoc Agent)
    → str_eq k j ≡ false
    → Absent j m
    → Absent j (insert k v m)
unfolding insert
insert-Absent k j v [] n h = (n, tt)
insert-Absent k j v ((i, w) ∷ m) n h = ground (arith, insert-Absent k j v m n h.1)

insert-ShardOk :
    (n i : ℕ) (id : Str) (a : Agent) (m : Assoc Agent)
    → fnv32a id % n ≡ i
    → a.instance_uid ≡ id
    → a.evicted_at ≡ none
    → ShardOk n i m
    → ShardOk n i (insert id a m)
unfolding insert
insert-ShardOk n i id a [] hash uid live h = (hash, uid, live, tt, tt)
insert-ShardOk n i id a ((j, b) ∷ m) hash uid live h = ground (
  arith,
  str_eq_iff j id,
  str_eq_iff id j,
  insert-Absent id j a m,
  insert-ShardOk n i id a m hash uid live h.4,
)

-- An id is absent from a shard that its hash does not choose.
pub elsewhere-Absent :
    (n i : ℕ) (id : Str) (m : Assoc Agent) → ShardOk n i m → fnv32a id % n ≢ i → Absent id m
elsewhere-Absent n i id [] h ne = tt
elsewhere-Absent n i id ((j, b) ∷ m) h ne = (
  elim (Bool-cases (str_eq j id)) [
    | inl same ↦ absurd (ne (ap (λ (s : Str). fnv32a s % n) (sym ((str_eq_iff j id).0 same)) ∙ h.0))
    | inr other ↦ other
  ],
  elsewhere-Absent n i id m h.4 ne,
)

module _ (r : Registry) (v : IsValid r) where
  pub shard_for-lt : (id : Str) → shard_for r id < length r.shards
  unfolding shard_for
  shard_for-lt id = mod-lt _ v.nonempty

  pub shard_at-ShardOk : (id : Str) → ShardOk (length r.shards) (shard_for r id) (shard_at r id)
  shard_at-ShardOk id =
      ShardOk-get_or (length r.shards) 0 (shard_for r id) (shard_for r id) r.shards v.placed
        (omega arith)

  shard_at-put_ne :
      (id : Str) (a : Agent) (k : ℕ)
      → shard_for r id ≢ k
      → get_or (put_agent r id a).shards k [] ≡ get_or r.shards k []
  unfolding put_agent
  shard_at-put_ne id a k ne =
      get_or-set_ne r.shards (shard_for r id) k (insert id a (shard_at r id)) [] ne

  other_id : (id j : Str) → shard_for r id ≢ shard_for r j → str_eq id j ≡ false
  other_id id j ne = str_eq-false id j (λ e. ne (ap (shard_for r) e))

  shard_for-put : (id j : Str) (a : Agent) → shard_for (put_agent r id a) j ≡ shard_for r j
  unfolding shard_for put_agent
  shard_for-put id j a = rw (length-set r.shards (shard_for r id) (insert id a (shard_at r id)))

  shard_at-put_self :
      (id : Str) (a : Agent)
      → get_or (put_agent r id a).shards (shard_for r id) [] ≡ insert id a (shard_at r id)
  unfolding put_agent
  shard_at-put_self id a =
      get_or-set_self r.shards (shard_for r id) (insert id a (shard_at r id)) [] (shard_for-lt id)

  -- A write to one shard, seen as a write to one map.
  pub get-put_agent :
      (id j : Str) (a : Agent)
      → get (put_agent r id a) j ≡ (if str_eq id j then some a else get r j)
  unfolding get
  get-put_agent id j a = elim (ℕ_discrete (shard_for r id) (shard_for r j)) [
    | yes here ↦
        rw (shard_for-put id j a, ← here, shard_at-put_self id a)
          (lookup-insert id j a (shard_at r id))
    | no away ↦
        rw (shard_for-put id j a, shard_at-put_ne id a (shard_for r j) away, other_id id j away)
  ]

  pub put_agent-IsValid :
      (id : Str) (a : Agent)
      → a.instance_uid ≡ id
      → a.evicted_at ≡ none
      → IsValid (put_agent r id a)
  unfolding put_agent
  put_agent-IsValid id a uid live =
      let same = length-set r.shards (shard_for r id) (insert id a (shard_at r id)) in
      record {
        nonempty = rw same v.nonempty;
        placed = rw same (
            ShardsOk-set (length r.shards) 0 (shard_for r id) (shard_for r id) r.shards
              (insert id a (shard_at r id)) v.placed (omega arith)
              (insert-ShardOk (length r.shards) (shard_for r id) id a (shard_at r id)
                (unfold shard_for in refl) uid live (shard_at-ShardOk id)));
      }

  -- What the registry holds under an id carries that id.
  pub get-uid :
      (id : Str) (a : Agent) → get r id ≡ some a → (a.instance_uid ≡ id) × (a.evicted_at ≡ none)
  unfolding get lookup
  get-uid id a e = held (shard_for r id) (shard_at r id) (shard_at-ShardOk id) e
    where
      held :
          (i : ℕ) (m : Assoc Agent)
          → ShardOk (length r.shards) i m
          → lookup id m ≡ some a
          → (a.instance_uid ≡ id) × (a.evicted_at ≡ none)
      held i [] h e = cc
      held i ((j, b) ∷ m) h e = ground (arith, str_eq_iff j id, held i m h.4)
