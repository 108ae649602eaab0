-- ===== src/Inference/Settings.antt =====
-- `RuntimeConfig` of include/jellybean/inference/runtime.hpp and src/inference/runtime.cpp.
use jellybean.Base.{ℕ, Option, none, some, if◌then◌else◌}
use jellybean.Base.Text.{Text, codes, text_eq}
use jellybean.Base.Outcome.{Outcome, ok, ◌>>=◌, fold_outcome}
use jellybean.Base.Numerals.{stoul}
use jellybean.Ini.{read_line, file_entries, blanks}

pub record RuntimeConfig : Type 0 where
  pub worker_threads : ℕ

abbrev pub default_runtime : RuntimeConfig
default_runtime = record { worker_threads = 1 }

unfoldable pub set_runtime : RuntimeConfig → Text × Text → Outcome RuntimeConfig
set_runtime cfg (key, val) =
    if text_eq key (codes "worker_threads")
    then (do n ← stoul val; ok (record cfg { worker_threads = n }))
    else ok cfg

-- `none` is a file that does not open.
unfoldable pub from_file : Option Text → Outcome RuntimeConfig
unfolding set_runtime file_entries read_line
from_file none = ok default_runtime
from_file (some contents) =
    fold_outcome set_runtime default_runtime (file_entries (read_line blanks) contents)
