-- ===== src/Programs/Examples.antt =====
-- The six programs of examples/src.
use quiet_lwip.Prelude.{List, [], ◌∷◌, none, some}
use quiet_lwip.Programs.{Text, Settings, Flag, Program}
use quiet_lwip.Programs.Main.{Host, Started, start}

abbrev pub cable_64k : Text
cable_64k = b'c' ∷ b'a' ∷ b'b' ∷ b'l' ∷ b'e' ∷ b'-' ∷ b'6' ∷ b'4' ∷ b'k' ∷ []

abbrev pub channel_0 : Text
channel_0 =
    b'a' ∷ b'u' ∷ b'd' ∷ b'i' ∷ b'b' ∷ b'l' ∷ b'e' ∷ b'-' ∷ b'7' ∷ b'k' ∷ b'-' ∷ b'c' ∷ b'h' ∷ b'a'
    ∷ b'n' ∷ b'n' ∷ b'e' ∷ b'l' ∷ b'-' ∷ b'0' ∷ []

abbrev pub channel_1 : Text
channel_1 =
    b'a' ∷ b'u' ∷ b'd' ∷ b'i' ∷ b'b' ∷ b'l' ∷ b'e' ∷ b'-' ∷ b'7' ∷ b'k' ∷ b'-' ∷ b'c' ∷ b'h' ∷ b'a'
    ∷ b'n' ∷ b'n' ∷ b'e' ∷ b'l' ∷ b'-' ∷ b'1' ∷ []

-- `--conf <path>`
abbrev pub conf_flag : Flag
conf_flag = record {
  name = b'-' ∷ b'-' ∷ b'c' ∷ b'o' ∷ b'n' ∷ b'f' ∷ [];
  assign = λ v s. record s { conf_path = some v };
}

-- `--profile <name>`
abbrev pub profile_flag : Flag
profile_flag = record {
  name = b'-' ∷ b'-' ∷ b'p' ∷ b'r' ∷ b'o' ∷ b'f' ∷ b'i' ∷ b'l' ∷ b'e' ∷ [];
  assign = λ v s. record s { encoder_key = v; decoder_key = v };
}

-- `--enc-profile <name>`
abbrev pub enc_profile_flag : Flag
enc_profile_flag = record {
  name =
      b'-' ∷ b'-' ∷ b'e' ∷ b'n' ∷ b'c' ∷ b'-' ∷ b'p' ∷ b'r' ∷ b'o' ∷ b'f' ∷ b'i' ∷ b'l' ∷ b'e' ∷ [];
  assign = λ v s. record s { encoder_key = v };
}

-- `--dec-profile <name>`
abbrev pub dec_profile_flag : Flag
dec_profile_flag = record {
  name =
      b'-' ∷ b'-' ∷ b'd' ∷ b'e' ∷ b'c' ∷ b'-' ∷ b'p' ∷ b'r' ∷ b'o' ∷ b'f' ∷ b'i' ∷ b'l' ∷ b'e' ∷ [];
  assign = λ v s. record s { decoder_key = v };
}

abbrev pub defaults : Text → Text → Settings
defaults encoder decoder = record {
  conf_path = none;
  encoder_key = encoder;
  decoder_key = decoder;
  positionals = [];
}

abbrev pub proxy_server : Program
proxy_server = record {
  flags = conf_flag ∷ profile_flag ∷ [];
  wanted = 0;
  defaults = defaults cable_64k cable_64k;
  sample_size = 128;
  mac = 1 ∷ 2 ∷ 3 ∷ 4 ∷ 5 ∷ 7 ∷ [];
  ipaddr = 0xc0a80008;
}

abbrev pub start_proxy_server : Host → List Text → Started
unfolding start
start_proxy_server h args = start proxy_server h args

abbrev pub proxy_client : Program
proxy_client = record {
  flags = conf_flag ∷ profile_flag ∷ [];
  wanted = 1;
  defaults = defaults cable_64k cable_64k;
  sample_size = 128;
  mac = 1 ∷ 2 ∷ 3 ∷ 4 ∷ 5 ∷ 7 ∷ [];
  ipaddr = 0xc0a80002;
}

abbrev pub start_proxy_client : Host → List Text → Started
unfolding start
start_proxy_client h args = start proxy_client h args

abbrev pub kv_server : Program
kv_server = record {
  flags = conf_flag ∷ enc_profile_flag ∷ dec_profile_flag ∷ [];
  wanted = 0;
  defaults = defaults channel_1 channel_0;
  sample_size = 256;
  mac = 1 ∷ 2 ∷ 3 ∷ 4 ∷ 5 ∷ 7 ∷ [];
  ipaddr = 0xc0a80008;
}

abbrev pub start_kv_server : Host → List Text → Started
unfolding start
start_kv_server h args = start kv_server h args

abbrev pub kv_client : Program
kv_client = record {
  flags = conf_flag ∷ enc_profile_flag ∷ dec_profile_flag ∷ [];
  wanted = 2;
  defaults = defaults channel_0 channel_1;
  sample_size = 256;
  mac = 1 ∷ 2 ∷ 3 ∷ 4 ∷ 5 ∷ 6 ∷ [];
  ipaddr = 0xc0a80002;
}

abbrev pub start_kv_client : Host → List Text → Started
unfolding start
start_kv_client h args = start kv_client h args

abbrev pub discovery_server : Program
discovery_server = record {
  flags = conf_flag ∷ enc_profile_flag ∷ dec_profile_flag ∷ [];
  wanted = 0;
  defaults = defaults channel_1 channel_0;
  sample_size = 1_024;
  mac = 1 ∷ 2 ∷ 3 ∷ 4 ∷ 5 ∷ 7 ∷ [];
  ipaddr = 0xc0a80008;
}

abbrev pub start_discovery_server : Host → List Text → Started
unfolding start
start_discovery_server h args = start discovery_server h args

abbrev pub discovery_client : Program
discovery_client = record {
  flags = conf_flag ∷ enc_profile_flag ∷ dec_profile_flag ∷ [];
  wanted = 0;
  defaults = defaults channel_0 channel_1;
  sample_size = 1_024;
  mac = 1 ∷ 2 ∷ 3 ∷ 4 ∷ 5 ∷ 6 ∷ [];
  ipaddr = 0xc0a80002;
}

abbrev pub start_discovery_client : Host → List Text → Started
unfolding start
start_discovery_client h args = start discovery_client h args
