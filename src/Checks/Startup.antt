-- ===== src/Checks/Startup.antt =====
-- The start of src/server/main.cpp on the repository of Models, without a settings file.
use jellybean.Base.{ℕ, ◌≡◌, refl, Option, none, some, List, []}
use jellybean.Base.Text.{Text, codes}
use jellybean.Base.Dict.{lookup}
use jellybean.Checks.Models.{torch, before}
use jellybean.Inference.Types.{InferenceRequest, cpu}
use jellybean.Inference.Settings.{default_runtime}
use jellybean.Inference.Runtime.{Runtime, forwards, make_runtime, infer_async}
use jellybean.Model.Registry.{Models, no_models, lookup_ready, list_models}
use jellybean.Model.Repository.{RepoEntry, scan_and_load}
use jellybean.Server.Settings.{default_config}
use jellybean.Server.Startup.{register_ready, start_up}
use jellybean.Server.Startup.Serves.{route_of, start_up-infer_async}

abbrev directory : Text → Option (List RepoEntry)
directory path = some before

abbrev registry : Models ℕ
unfolding scan_and_load
registry = (scan_and_load torch (some before) no_models).1

abbrev runtime : Runtime ℕ
unfolding register_ready list_models registry
runtime = register_ready registry (list_models registry) (make_runtime default_runtime)

abbrev request : InferenceRequest ℕ
request = record {
  model_id = codes "bert";
  shape = [];
  input = [];
  output_buffer = [];
  device = cpu;
}

request_forwarded : infer_async runtime request ≡ forwards (codes "bert")
unfolding infer_async runtime registry list_models register_ready scan_and_load lookup
request_forwarded = refl

start_up-infer_async_example :
    infer_async runtime request ≡ route_of (codes "bert") (lookup_ready registry (codes "bert"))
unfolding start_up runtime registry list_models register_ready scan_and_load lookup
start_up-infer_async_example =
    start_up-infer_async torch directory none registry runtime default_config request refl
