-- ===== src/Tests/Loading.antt =====
-- Runs of config_load.
use gpu_health_index.Prelude.{ℕ, ◌≡◌, refl, true, Option, none, some, List, arith, if◌then◌else◌}
use gpu_health_index.Double.{nought, ◌≼◌}
use gpu_health_index.Double.Lawful.{Fixed-IsLawful}
use gpu_health_index.Ring.{fresh_ring}
use gpu_health_index.Scorer.Score.{Inputs, score_gpu}
use gpu_health_index.Scorer.Score.Loaded.{score_gpu_loaded}
use gpu_health_index.Tests.Data.{idle_state}
use gpu_health_index.Double.Fixed.{Fixed, fixed_double}
use gpu_health_index.Util.{same_string, str_trim}
use gpu_health_index.Util.Numbers.{parse_int}
use gpu_health_index.Config.{Config}
use gpu_health_index.Config.Fields.{IntField, DblField, cfg_int}
use gpu_health_index.Config.Table.{bytes, cfg_defaults, int_min, int_max, entry_key}
use gpu_health_index.Config.Load.{config_load, find_entry, set_int, key_to_envvar}
use gpu_health_index.Config.Load.Checked.{IsChecked, config_load-IsChecked}
use gpu_health_index.Config.Load.Override.{config_load-override}

abbrev port_env : List ℕ → Option (List ℕ)
port_env name =
    if same_string name (bytes "GPU_HEALTH_LISTEN_PORT") then some (bytes "9200") else none

abbrev file : Option (Option (List ℕ))
file = some (some (bytes "# test\n listen_port = 9100\nunknown = 1\n"))

abbrev loaded : Config Fixed
loaded = set_int IntField.listen_port 9200 (set_int IntField.listen_port 9100 cfg_defaults)

file_loads : config_load file port_env ≡ some loaded
unfolding config_load str_trim find_entry parse_int
file_loads = refl

config_load-IsChecked_example : IsChecked loaded
config_load-IsChecked_example = config_load-IsChecked file port_env file_loads

port_given :
    port_env (key_to_envvar (entry_key (cfg_int IntField.listen_port)) 128) ≡ some (bytes "9200")
unfolding key_to_envvar same_string
port_given = refl

config_load-override_example :
    parse_int (bytes "9200") (int_min IntField.listen_port) (int_max IntField.listen_port)
    ≡ some (loaded.int IntField.listen_port)
config_load-override_example =
    config_load-override port_env IntField.listen_port (bytes "9200") port_given file file_loads

-- no samples yet, under the configuration of the file
abbrev started : Inputs Fixed
started = record {
  ring = fresh_ring 300;
  state = idle_state;
  baseline = none;
  probe = none;
  cfg = loaded;
  temp_heap = true;
  hbm_heap = true;
}

loaded_numbers : (f : DblField) → loaded.dbl f ≼ loaded.dbl f
unfolding set_int
loaded_numbers f = ground arith

score_gpu_loaded_example :
    (nought ≼ (score_gpu started).score) × ((score_gpu started).score ≼ fixed_double.lit 100 0)
score_gpu_loaded_example =
    score_gpu_loaded Fixed-IsLawful file port_env started file_loads loaded_numbers
