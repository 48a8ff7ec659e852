-- ===== src/Api/Paginate/Tests.antt =====
-- A heap that is kept in order, and a page that is cut with it (internal/api/paginate.go).
use mathlib.Core.List.{Permᴰ}
use grex.Base.{ℕ, ◌≡◌, refl, List, [], ◌∷◌, text, false, map, arith}
use grex.Base.Order.{reversed, reversed-IsOrder, str_compare}
use grex.Base.Order.Sorting.{
  place, place-Perm, place-Ascending, Ascending, NoTies, All-map_out, is_gt,
}
use grex.Fleet.Types.{Agent, new_agent}
use grex.Fleet.View.{Capabilities, summary_view}
use grex.Api.Paginate.{HeapOps, RootIsMax, compare_uid, page_by_uid, slice, sort_by_uid}
use grex.Api.Paginate.Kept.{compare_uid-IsOrder}
use grex.Api.Paginate.Laws.{page_by_uid-slice}
use grex.Api.Listing.{follow_pages, follow_pages-all}

abbrev pub down : Agent → List Agent → List Agent
down a h = place (reversed compare_uid) a h

abbrev pub IsDown : List Agent → Type 0
IsDown h = Ascending (reversed compare_uid) h

pub down-IsDown : (a : Agent) (h : List Agent) → IsDown h → IsDown (down a h)
down-IsDown a h d =
    place-Ascending (reversed compare_uid) (reversed-IsOrder compare_uid compare_uid-IsOrder) a h d

abbrev pub mend : List Agent → List Agent
mend [] = []
mend (a ∷ h) = down a h

pub mend-Perm : (h : List Agent) → Permᴰ h (mend h)
mend-Perm [] = Permᴰ.nil
mend-Perm (a ∷ h) = place-Perm (reversed compare_uid) a h

pub root_max : (h : List Agent) → IsDown h → RootIsMax h
root_max [] d = _
root_max (root ∷ rest) d =
    All-map_out _ (λ a. is_gt (compare_uid a root) ≡ false)
      (λ a e. ground (arith, e, compare_uid-IsOrder.flips root a)) rest d.0

abbrev pub sorted_heap : HeapOps
sorted_heap = record {
  push = down;
  fix = mend;
  IsHeap = IsDown;
  empty-IsHeap = _;
  push-IsHeap = down-IsDown;
  push-Perm = place-Perm (reversed compare_uid);
  fix-IsHeap = λ a root rest d. down-IsDown a rest d.1;
  fix-Perm = mend-Perm;
  root-IsMax = root_max;
}

abbrev pub agent_a : Agent
agent_a = new_agent (text "a") 10

abbrev pub agent_b : Agent
agent_b = new_agent (text "b") 10

abbrev pub agent_c : Agent
agent_c = new_agent (text "c") 10

abbrev pub three : List Agent
three = agent_c ∷ agent_a ∷ agent_b ∷ []

pub three-NoTies : NoTies compare_uid three
unfolding str_compare
three-NoTies = (((λ e. absurd cc), ((λ e. absurd cc), _)), (((λ e. absurd cc), _), (_, _)))

-- The second of the two smallest.
page_by_uid_test : page_by_uid sorted_heap three 1 2 ≡ agent_b ∷ []
unfolding page_by_uid str_compare
page_by_uid_test = refl

page_by_uid-slice_example : page_by_uid sorted_heap three 1 2 ≡ slice (sort_by_uid three) 1 2
page_by_uid-slice_example = page_by_uid-slice sorted_heap three 1 2 three-NoTies (omega arith)

abbrev pub bits : Capabilities ℕ
bits = record {
  reports_status = 1;
  accepts_remote_config = 2;
  reports_effective_config = 4;
  accepts_packages = 8;
  reports_package_statuses = 16;
  reports_own_traces = 32;
  reports_own_metrics = 64;
  reports_own_logs = 128;
  accepts_opamp_connection_settings = 256;
  accepts_other_connection_settings = 512;
  accepts_restart_command = 1024;
  reports_health = 2048;
  reports_remote_config = 4096;
  reports_heartbeat = 8192;
  reports_available_components = 16384;
  reports_connection_settings_status = 32768;
}

-- Two pages of two agents.
follow_pages-all_example :
    follow_pages sorted_heap bits three false 2 2 0 ≡ map (summary_view bits) (sort_by_uid three)
follow_pages-all_example =
    follow_pages-all sorted_heap bits three false 2 2 three-NoTies (omega arith)
