-- ===== src/Server/Settings.antt =====
-- `ExtendedConfig` and `load_extended_config` of src/server/main.cpp.
use jellybean.Base.{Option, none, some, List, [], ◌∷◌, ◌++◌, if◌then◌else◌}
use jellybean.Base.Text.{Text, codes, text_eq, split_on}
use jellybean.Base.Outcome.{Outcome, ok, ◌>>=◌, fold_outcome}
use jellybean.Base.Int.{ℤ, pos}
use jellybean.Base.Numerals.{stoi, stoll}
use jellybean.Ini.{read_line, file_entries, blanks}
use jellybean.Inference.Types.{DeviceKind, cpu, cuda}

pub record ExtendedConfig : Type 0 where
  pub model_id : Text
  pub model_path : Text
  pub model_repository : Text
  pub host : Text
  pub port : ℤ
  pub input_shape : List ℤ
  pub device : DeviceKind

abbrev pub default_config : ExtendedConfig
default_config = record {
  model_id = [];
  model_path = [];
  model_repository = codes "models";
  host = [];
  port = pos 9000;
  input_shape = [];
  device = cpu;
}

-- The loop over the items of `input_shape`, which appends.
unfoldable pub push_shape : ExtendedConfig → Text → Outcome ExtendedConfig
push_shape cfg item = do
  n ← stoll item
  ok (record cfg { input_shape = cfg.input_shape ++ (n ∷ []) })

unfoldable pub set_extended : ExtendedConfig → Text × Text → Outcome ExtendedConfig
unfolding push_shape split_on
set_extended cfg (key, val) =
    if text_eq key (codes "model_id")
    then ok (record cfg { model_id = val })
    else if text_eq key (codes "model_path")
    then ok (record cfg { model_path = val })
    else if text_eq key (codes "model_repository")
    then ok (record cfg { model_repository = val })
    else if text_eq key (codes "host")
    then ok (record cfg { host = val })
    else if text_eq key (codes "port")
    then (do n ← stoi val; ok (record cfg { port = n }))
    else if text_eq key (codes "device")
    then ok (record cfg { device = if text_eq val (codes "cuda") then cuda else cpu })
    else if text_eq key (codes "input_shape")
    then fold_outcome push_shape cfg (split_on b',' val)
    else ok cfg

unfoldable pub load_extended_config : Option Text → Outcome ExtendedConfig
unfolding set_extended file_entries read_line
load_extended_config none = ok default_config
load_extended_config (some contents) =
    fold_outcome set_extended default_config (file_entries (read_line blanks) contents)
