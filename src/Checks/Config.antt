-- ===== src/Checks/Config.antt =====
-- The configuration readers on small files, as in configs/server.config and the directory `models`.
use jellybean.Base.{◌≡◌, refl, arith, true, some, none, List, [], ◌∷◌}
use jellybean.Base.Text.{Text, codes}
use jellybean.Base.Outcome.{ok, throws, fold_outcome, invalid_argument, out_of_range}
use jellybean.Base.Int.{pos, negsuc}
use jellybean.Base.Numerals.{stoi, stoll, stoul, to_text}
use jellybean.Ini.RoundTrip.{Line, assign, comment, blank, render, pairs}
use jellybean.Inference.Types.{cpu, cuda}
use jellybean.Inference.Settings.{set_runtime, default_runtime, from_file}
use jellybean.Server.Settings.{set_extended, default_config, load_extended_config}
use jellybean.Server.Readers.{readers-render}
use jellybean.Model.Config.{
  ModelConfig, ModelDir, DirEntry, onnx, default_model, filename, set_model, read_config, from_dir,
}

numbers :
    (stoi (codes " -12x") ≡ ok (negsuc 11))
    × (stoi (codes "2147483648") ≡ throws out_of_range)
    × (stoi (codes "x1") ≡ throws invalid_argument)
    × (stoll (codes "+7") ≡ ok (pos 7))
    × (stoul (codes "-1") ≡ ok 18446744073709551615)
    × (to_text (pos 120) ≡ codes "120")
unfolding stoi stoll stoul to_text
numbers = (refl, refl, refl, refl, refl, refl)

abbrev server_lines : List Line
server_lines =
    comment (codes " server")
    ∷ assign (codes "worker_threads") (codes "3")
    ∷ blank
    ∷ assign (codes "port") (codes "9100")
    ∷ assign (codes "input_shape") (codes "1,128")
    ∷ []

server_file :
    load_extended_config (some (codes "# x\n port =\t9100\ninput_shape=1,128\ndevice=cuda"))
    ≡ ok (record default_config {
      port = pos 9100;
      input_shape = pos 1 ∷ pos 128 ∷ [];
      device = cuda;
    })
unfolding load_extended_config stoi stoll
server_file = refl

worker_threads :
    (from_file (some (render server_lines)) ≡ ok (record { worker_threads = 3 }))
    × (from_file none ≡ ok (record { worker_threads = 1 }))
unfolding from_file stoul
worker_threads = (refl, refl)

readers-render_example :
    (from_file (some (render server_lines))
      ≡ fold_outcome set_runtime default_runtime (pairs server_lines))
    × (load_extended_config (some (render server_lines))
        ≡ fold_outcome set_extended default_config (pairs server_lines))
    × (read_config (record {
      path = codes "models/bert";
      config_ini = some (render server_lines);
      dir_entries = [];
    })
        ≡ fold_outcome set_model
            (default_model (filename (codes "models/bert")))
            (pairs server_lines))
readers-render_example =
    readers-render server_lines (codes "models/bert") [] (ground arith) (ground arith)

abbrev version_dir : Text → List Text → DirEntry
version_dir name files = record { entry_name = name; is_directory = true; files = files }

-- No configured version 1, an empty version 7, and a version 3 with two model files.
abbrev bert : ModelDir
bert = record {
  path = codes "models/bert";
  config_ini = some (codes " max_batch_size = 8 \r\nbackend=onnx\n");
  dir_entries =
      version_dir (codes "2") (codes "model.bin" ∷ [])
      ∷ version_dir (codes "3") (codes "model.bin" ∷ codes "model.onnx" ∷ [])
      ∷ version_dir (codes "7") []
      ∷ [];
}

abbrev bert_config : ModelConfig
bert_config = record (default_model (codes "bert")) { backend = onnx; max_batch_size = 8 }

bert_loads :
    from_dir bert
    ≡ ok (record {
      name = codes "bert";
      backend = onnx;
      version = pos 3;
      device = cpu;
      max_batch_size = 8;
      max_batch_delay_us = pos 1000;
      input_shape = [];
      model_file_path = codes "models/bert/3/model.onnx";
    })
unfolding from_dir stoi stoll stoul to_text
bert_loads = refl
