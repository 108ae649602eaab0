-- ===== src/Server/Readers.antt =====
-- The three readers of `key=value` files on the same file: RuntimeConfig::from_file,
-- load_extended_config and ModelConfig::from_dir.
use jellybean.Base.{◌≡◌, ap, some, List}
use jellybean.Base.Text.{Text}
use jellybean.Base.Outcome.{fold_outcome}
use jellybean.Ini.{blanks, wide_blanks}
use jellybean.Ini.RoundTrip.{
  Line, render, pairs, AllClean, file_entries-read_line, file_entries-read_trimmed,
}
use jellybean.Inference.Settings.{set_runtime, default_runtime, from_file}
use jellybean.Server.Settings.{set_extended, default_config, load_extended_config}
use jellybean.Model.Config.{DirEntry, default_model, filename, set_model, read_config}

-- On a file of assignments, comments and empty lines, where keys and values have no blanks around
-- them, each of the three readers applies the assignments of the file in their order to its
-- defaults, throws where one of them does, and goes by nothing else in the file.
pub readers-render :
    (ls : List Line) (path : Text) (entries : List DirEntry)
    → AllClean blanks ls
    → AllClean wide_blanks ls
    → (from_file (some (render ls)) ≡ fold_outcome set_runtime default_runtime (pairs ls))
      × (load_extended_config (some (render ls))
          ≡ fold_outcome set_extended default_config (pairs ls))
      × (read_config (record { path = path; config_ini = some (render ls); dir_entries = entries })
          ≡ fold_outcome set_model (default_model (filename path)) (pairs ls))
unfolding from_file load_extended_config read_config
readers-render ls path entries h w = (
  ap (fold_outcome set_runtime default_runtime) (file_entries-read_line blanks ls h),
  ap (fold_outcome set_extended default_config) (file_entries-read_line blanks ls h),
  ap (fold_outcome set_model (default_model (filename path))) (file_entries-read_trimmed ls w),
)
