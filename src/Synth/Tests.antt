-- ===== src/Synth/Tests.antt =====
-- A run of three synthetic agents (internal/synth).
use Prim.Native.Nat.{compare}
use grex.Base.{
  ℕ, ◌*◌, ◌≤◌, ◌<◌, ◌≡◌, refl, true, List, [], ◌∷◌, some, text, length, arith, none, Bool, false,
}
use grex.Base.Order.Sorting.{Ascending}
use grex.Synth.Report.{Result, percentile, summarize}
use grex.Synth.Report.Laws.{at_most, below, percentile-rank}
use grex.Synth.Run.{new_result}
use grex.Base.Int.{pos}
use grex.Synth.{Config}
use grex.Server.Tls.{Material}
use grex.Synth.Tls.{ClientTls, tls_config, ok}
use grex.Synth.Launch.{State, Steps, starts, ends, none_yet, then_one, fresh, report_of, selected}
use grex.Synth.Launch.Laws.{run-report, tabulate}

abbrev sorted : List ℕ
sorted = 3 ∷ 5 ∷ 9 ∷ []

sorted-Ascending : Ascending compare sorted
sorted-Ascending = ((refl, (refl, _)), ((refl, _), (_, _)))

percentile-rank_example :
    (50 * length sorted ≤ 100 * at_most (percentile sorted 50) sorted)
    × (100 * below (percentile sorted 50) sorted < 50 * length sorted)
percentile-rank_example =
    percentile-rank sorted 50 sorted-Ascending (omega arith) (omega arith) (omega arith)

-- One that failed, and one whose restart failed.
abbrev results : List Result
results =
    record (new_result (text "a")) { err = some (text "refused") }
    ∷ record (new_result (text "b")) {
      connected = true;
      connect_latency = 4;
      err = some (text "refused");
    }
    ∷ []

-- Two agents; the second ends first.
abbrev outcome : ℕ → Result
outcome i = record (new_result (i ∷ [])) { connected = true }

abbrev over : State
over = record { next = 2; ready = false; running = []; results = outcome 0 ∷ outcome 1 ∷ [] }

abbrev all_return : ℕ → Bool
all_return i = true

schedule : Steps 2 4 all_return outcome (fresh 2) 5 over
unfolding fresh
schedule =
    then_one
      (then_one
        (then_one
          (then_one (then_one none_yet (starts (omega arith) refl))
            (selected (omega arith) refl refl))
          (starts (omega arith) refl))
        (ends 1 [] (0 ∷ []) refl refl))
      (ends 0 [] [] refl refl)

run-report_example : report_of over ≡ summarize (tabulate 2 outcome)
run-report_example = run-report 2 4 all_return outcome 5 over schedule (refl, refl)

abbrev files : Material
files = record {
  load_key_pair = λ cert key. some cert;
  read_file = λ path. some path;
  append_certs = λ pem. some pem;
}

abbrev synth : Config
synth = record {
  server_url = text "wss://grex";
  agents = pos 2;
  ramp_per_sec = pos 4;
  heartbeat = pos 30;
  duration = pos 60;
  restart_after = pos 0;
  service_name = [];
  cert_file = [];
  key_file = [];
  ca_file = text "ca.pem";
}

abbrev client_tls : ClientTls
client_tls = record { root_cas = some (text "ca.pem"); certificate = none }

tls_config_test : tls_config files synth ≡ ok (some client_tls)
unfolding tls_config
tls_config_test = refl
