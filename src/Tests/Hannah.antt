-- ===== src/Tests/Hannah.antt =====
-- The client of Hannah Core on a few attempts and answers.
use hannah_logcollector.Prelude.{
  ◌*◌, ◌≤◌, ◌≡◌, refl, List, [], ◌∷◌, map, All, pos, true, false, arith,
}
use hannah_logcollector.Text.{codes, equal}
use hannah_logcollector.Store.Sql.{ok, failed}
use hannah_logcollector.Names.{Registry, name}
use hannah_logcollector.Hannah.Client.{
  Registration, register, second, max_backoff, at_start, receive_all, run,
}
use hannah_logcollector.Hannah.Client as Client
use hannah_logcollector.Hannah.Client.Backoff.{delay, failures, announcements, run_backs_off}
use hannah_logcollector.Hannah.Satellites.{
  Satellite, collect, satellite_names, last_or, names_given, satellite_name,
}
use hannah_logcollector.Hannah.Satellites as Satellites

abbrev collector : Registration
collector = record {
  instance_name = codes "default";
  host = [];
  port = pos 50060;
  version = codes "1.2.0";
  syslog_port = pos 514;
}

abbrev unreachable : Client.Core
unreachable = record {
  client_fails = false;
  is_v1 = false;
  stream_fails = true;
  send_fails = false;
  commands = [];
}

-- Core of hannah.v1 acknowledges, after a command that is unknown.
abbrev old_core : Client.Core
old_core = record {
  client_fails = false;
  is_v1 = true;
  stream_fails = false;
  send_fails = false;
  commands = false ∷ true ∷ [];
}

abbrev attempts : List Client.Core
attempts = unreachable ∷ unreachable ∷ unreachable ∷ old_core ∷ unreachable ∷ unreachable ∷ []

waits_of_attempts :
    map (λ n. n * second) (1 ∷ 2 ∷ 4 ∷ 1 ∷ 1 ∷ 2 ∷ []) ≡ (run collector attempts at_start).waits
unfolding run receive_all
waits_of_attempts = refl

one_announcement : (run collector attempts at_start).sent ≡ register true collector ∷ []
unfolding run receive_all
one_announcement = refl

run_backs_off_example :
    let s = run collector attempts at_start in
    (s.waits ≡ map delay (failures 0 attempts))
    × All (λ d. (second ≤ d) × (d ≤ max_backoff)) s.waits
    × (s.sent ≡ announcements collector attempts)
run_backs_off_example = run_backs_off collector attempts

abbrev known : List Satellite
known =
    record { device_id = codes "a1"; display_name = codes "Hall" }
    ∷ record { device_id = codes "b2"; display_name = [] }
    ∷ record { device_id = codes "a1"; display_name = codes "Kitchen" }
    ∷ []

abbrev core : Satellites.Core
core = record { client_fails = false; is_v1 = true; v1_satellites = ok known; satellites = failed }

last_one_counts : last_or (codes "a1") (names_given (codes "a1") known) ≡ codes "Kitchen"
unfolding equal
last_one_counts = refl

satellite_name_example :
    (names : Registry) × (satellite_names core ≡ ok names)
    × (name names (codes "a1") ≡ last_or (codes "a1") (names_given (codes "a1") known))
satellite_name_example = satellite_name core known (codes "a1") refl (λ e. grind arith)
