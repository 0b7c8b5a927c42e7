-- ===== src/Programs/Tests.antt =====
-- The programs of examples/src on a concrete computer.
use quiet_lwip.Prelude.{
  Bool, arith, false, ◌||◌, ◌==◌, if◌then◌else◌, ℕ, ◌≡◌, refl, List, [], ◌∷◌, none, some, true,
  replicate, done,
}
use quiet_lwip.Programs.{Text, Settings, parse}
use quiet_lwip.Programs.Main.{Host, start}
use quiet_lwip.Programs.Examples.{channel_0, profile_flag, proxy_client}
use quiet_lwip.Programs.Arguments.{Item, set_flag, argument, written}
use quiet_lwip.Programs.Resources.{Ends, start_lem}
use quiet_lwip.Programs.Exchange.{
  Datagram, Station, Delivers, broadcast_of, send_to_all, polo, all_answers, discover, discover_lem,
}
use quiet_lwip.Programs.Discovery.{send_str}

-- A computer with a microphone and no loudspeaker.
abbrev host : Host
host = record {
  initialize = true;
  encoder_profile = λ path key. true;
  decoder_profile = λ path key. true;
  output_device = none;
  input_device = some 1;
  device_info = λ d. some (record { default_sample_rate = 44_100; default_low_output_latency = 0 });
  creates = λ c. true;
}

abbrev address : Text
address = b'1' ∷ []

-- `1 --profile audible-7k-channel-0`
abbrev items : List (Item proxy_client)
items = argument address refl ∷ set_flag profile_flag channel_0 refl ∷ []

abbrev set : Settings
set = record {
  conf_path = none;
  encoder_key = channel_0;
  decoder_key = channel_0;
  positionals = address ∷ [];
}

start_lem_example : Ends proxy_client host set (start proxy_client host (written items))
unfolding parse
start_lem_example = start_lem proxy_client host (written items) set refl refl refl

-- A network that knows the addresses and the netmask.
abbrev cable : ℕ → ℕ → Datagram → Bool
cable addr port d =
    if d.to_port == port
    then d.to_addr == addr || d.to_addr == broadcast_of 0xffffff00 addr
    else false

cable-Delivers : Delivers 0xffffff00 cable
cable-Delivers = record {
  to_one = λ addr port d e f. ground (arith, e, f);
  to_all = λ addr port d e f. ground (arith, e, f);
}

-- 192.168.0.8, the address of the server
abbrev station : Station
station = record { addr = 0xc0a80008; buf = replicate 4_096 0; recv_from = 0 }

discover_lem_example :
    (all_answers cable (send_to_all 0xc0a80002) (station ∷ [])
      ≡ done (polo 0xc0a80002 station ∷ []))
    × (discover cable 0xc0a80002 (station ∷ []) ≡ done (0xc0a80008, send_str))
discover_lem_example = discover_lem cable cable-Delivers 0xc0a80002 station [] (refl, tt)
