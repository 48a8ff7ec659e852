-- ===== src/Fleet/Report.antt =====
-- `Report` of internal/fleet/registry.go for one agent: each block of the function is a step that
-- returns the changed agent and the listener calls that it makes.
pub mod Kept
pub mod Attributes
pub mod Silent
use grex.Base.{
  ℕ, ◌+◌, ◌-◌, ◌*◌, ◌^◌, Bool, true, false, not, ◌&&◌, ◌||◌, List, [], ◌∷◌, ◌++◌, map, Option, none,
  some, Str, text, str_eq, Assoc, insert, has, keep, ltb, ◌==◌, if◌then◌else◌,
}
use grex.Fleet.Types.{
  Agent, ConnMeta, Package, Event, agent_connected, report_received, missing_attribute,
  reserved_attribute_conflict, reserved_attribute_keys, AnyValue, string_value, other_value,
  AgentDescription, ComponentHealth, AgentToServer,
}

-- A value with the listener calls made on the way to it.
abbrev pub Emits {ℓ} : Type ℓ → Type ℓ
Emits A = A × List Event

infixl 5 ◌>>=◌
abbrev pub ◌>>=◌ {ℓ κ} : {A : Type ℓ} {B : Type κ} → Emits A → (A → Emits B) → Emits B
m >>= f = let (a, es) = m in let (b, fs) = f a in (b, es ++ fs)

unfoldable pub any_value_string : AnyValue → Str
any_value_string (string_value s) = s
any_value_string (other_value s) = s

-- The loop writes the attributes in order, so the last of two with one key stays.
pub attrs_loop : List (Str × AnyValue) → Assoc Str → Assoc Str
unfolding any_value_string
attrs_loop [] m = m
attrs_loop ((k, v) ∷ kvs) m = attrs_loop kvs (insert k (any_value_string v) m)

unfoldable pub attrs_to_map : List (Str × AnyValue) → Assoc Str
unfolding attrs_loop
attrs_to_map kvs = attrs_loop kvs []

-- Is the key in either attribute map?
unfoldable pub reports : Agent → Str → Bool
unfolding has
reports a key = has key a.identifying || has key a.non_identifying

-- slices.Equal
unfoldable pub strs_eq : List Str → List Str → Bool
strs_eq [] [] = true
strs_eq [] (y ∷ ys) = false
strs_eq (x ∷ xs) [] = false
strs_eq (x ∷ xs) (y ∷ ys) = str_eq x y && strs_eq xs ys

-- Listener calls for each key of a set that is not empty and has changed.
abbrev pub on_change : (Str → Event) → List Str → List Str → List Event
on_change event old [] = []
on_change event old (k ∷ ks) = if strs_eq old (k ∷ ks) then [] else map event (k ∷ ks)

unfoldable pub check_required_attributes : List Str → Agent → Emits Agent
check_required_attributes required a =
    let missing = keep (λ key. not (reports a key)) required in
    (
      record a { missing_attributes = missing },
      on_change (missing_attribute a.instance_uid) a.missing_attributes missing,
    )

unfoldable pub check_reserved_attribute_conflicts : Agent → Emits Agent
check_reserved_attribute_conflicts a =
    let conflicts = keep (reports a) reserved_attribute_keys in
    (
      record a { reserved_attribute_conflicts = conflicts },
      on_change (reserved_attribute_conflict a.instance_uid) a.reserved_attribute_conflicts
          conflicts,
    )

-- The first writes of `Report`: connection state, time and sequence number.
unfoldable pub touch : AgentToServer → ConnMeta → ℕ → Agent → Emits Agent
touch msg meta now a = (
  record a {
    last_seen = now;
    connected = true;
    conn = meta;
    sequence_num = msg.sequence_num;
    capabilities = if msg.capabilities == 0 then a.capabilities else msg.capabilities;
  },
  if a.connected then [] else agent_connected a.instance_uid ∷ [],
)

-- The block for an agent description.
unfoldable pub fold_description : List Str → Option AgentDescription → Agent → Emits Agent
fold_description required none a = (a, [])
fold_description required (some desc) a = do
  b ← (
    record a {
      description_reported = true;
      identifying = attrs_to_map desc.identifying_attributes;
      non_identifying = attrs_to_map desc.non_identifying_attributes;
    },
    report_received a.instance_uid (text "status") ∷ [],
  )
  c ← check_required_attributes required b
  check_reserved_attribute_conflicts c

-- 1970-01-01 in nanoseconds since Go's zero time.
abbrev pub unix_epoch : ℕ
unix_epoch = 62135596800 * 1000000000

-- time.Unix(0, int64(ns)): the conversion of a uint64 wraps to negative numbers.
unfoldable pub unix_time : ℕ → ℕ
unix_time ns = if ltb ns (2 ^ 63) then unix_epoch + ns else unix_epoch + ns - 2 ^ 64

-- A timestamp of 0 is unset and keeps the earlier one.
abbrev time_or : ℕ → ℕ → ℕ
time_or old ns = if ns == 0 then old else unix_time ns

unfoldable pub fold_health : Option ComponentHealth → Agent → Emits Agent
fold_health none a = (a, [])
fold_health (some h) a = (
  record a {
    health_reported = true;
    healthy = h.healthy;
    health_error = h.last_error;
    health_status = h.status;
    health_start_time = time_or a.health_start_time h.start_time_unix_nano;
    health_status_time = time_or a.health_status_time h.status_time_unix_nano;
  },
  report_received a.instance_uid (text "health") ∷ [],
)

unfoldable pub fold_packages : Assoc Package → Agent → Emits Agent
fold_packages [] a = (a, [])
fold_packages (p ∷ ps) a =
    (record a { packages = p ∷ ps }, report_received a.instance_uid (text "package_statuses") ∷ [])

unfoldable pub fold_effective_config : Assoc Str → Agent → Emits Agent
fold_effective_config [] a = (a, [])
fold_effective_config (c ∷ cs) a = (
  record a { effective_config = c ∷ cs },
  report_received a.instance_uid (text "effective_config") ∷ [],
)

-- The body of `Report` on the agent that the message names.
unfoldable pub fold_report : List Str → AgentToServer → ConnMeta → ℕ → Agent → Emits Agent
fold_report required msg meta now agent = do
  a ← touch msg meta now agent
  b ← fold_description required msg.agent_description a
  c ← fold_health msg.health b
  d ← fold_packages msg.package_statuses c
  fold_effective_config msg.effective_config d
