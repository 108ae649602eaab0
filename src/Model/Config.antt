-- ===== src/Model/Config.antt =====
-- `ModelConfig` of include/jellybean/model/model_config.hpp and src/model/model_config.cpp. What
-- std::filesystem answers about a model directory is a value, `ModelDir`.
pub mod Own
pub mod Version
use jellybean.Base.{
  ℕ, Bool, true, false, not, ◌&&◌, ◌||◌, Option, none, some, List, [], ◌∷◌, ◌++◌, if◌then◌else◌,
  ◌==◌,
}
use jellybean.Base.Text.{Text, codes, text_eq, is_empty, split_on}
use jellybean.Base.Outcome.{Outcome, ok, throws, ◌>>=◌, fold_outcome}
use jellybean.Base.Int.{ℤ, pos, negsuc, ltb_ℤ}
use jellybean.Base.Numerals.{stoi, stoll, stoul, to_text}
use jellybean.Ini.{trim, read_trimmed, file_entries, wide_blanks}
use jellybean.Inference.Types.{DeviceKind, cpu, cuda}

pub data BackendKind : Type 0 where
  torch_script onnx : BackendKind

pub record ModelConfig : Type 0 where
  pub name : Text
  pub backend : BackendKind
  pub version : ℤ
  pub device : DeviceKind
  pub max_batch_size : ℕ
  pub max_batch_delay_us : ℤ
  pub input_shape : List ℤ
  pub model_file_path : Text

-- An entry of a directory: its name, whether it is a directory, and the names of the files in it.
pub record DirEntry : Type 0 where
  pub entry_name : Text
  pub is_directory : Bool
  pub files : List Text

-- A model directory: its path, the contents of `config.ini` if that exists, and its entries in the
-- order in which they are iterated.
pub record ModelDir : Type 0 where
  pub path : Text
  pub config_ini : Option Text
  pub dir_entries : List DirEntry

abbrev pub last_of : Text → List Text → Text
last_of t [] = t
last_of t (u ∷ us) = last_of u us

-- `fs::path(path).filename()`: what stands behind the last `/`.
unfoldable pub filename : Text → Text
unfolding split_on
filename path = last_of [] (split_on b'/' (path ++ codes "/"))

abbrev ends_in_slash : Text → Bool
ends_in_slash [] = true
ends_in_slash (c ∷ []) = c == b'/'
ends_in_slash (c ∷ d ∷ ds) = ends_in_slash (d ∷ ds)

-- `dir / name`; a path without a directory's name takes no separator.
unfoldable pub join : Text → Text → Text
join dir name = if ends_in_slash dir then dir ++ name else dir ++ (b'/' ∷ name)

-- The loop of `parse_shape`.
unfoldable pub parse_items : List ℤ → List Text → Outcome (List ℤ)
unfolding trim
parse_items shape [] = ok shape
parse_items shape (item ∷ items) =
    let word = trim wide_blanks item in
    let rest = parse_items shape items in
    if is_empty word then rest else (do n ← stoll word; parse_items (shape ++ (n ∷ [])) items)

unfoldable pub parse_shape : Text → Outcome (List ℤ)
unfolding parse_items split_on
parse_shape val = parse_items [] (split_on b',' val)

unfoldable pub parse_backend : Text → BackendKind
parse_backend val =
    if text_eq val (codes "torchscript") || text_eq val (codes "torch")
    then torch_script
    else if text_eq val (codes "onnx")
    then onnx
    else torch_script

abbrev pub candidates : List Text
candidates =
    codes "model.pt"
    ∷ codes "model.pth"
    ∷ codes "model.onnx"
    ∷ codes "model.engine"
    ∷ codes "model.bin"
    ∷ []

abbrev pub exists_in : List Text → Text → Bool
exists_in [] name = false
exists_in (f ∷ fs) name = text_eq f name || exists_in fs name

-- The loop of `find_model_file` over the names to try.
unfoldable pub first_file : Text → List Text → List Text → Text
unfolding join
first_file version_dir files [] = []
first_file version_dir files (name ∷ names) =
    if exists_in files name then join version_dir name else first_file version_dir files names

unfoldable pub find_model_file : Text → List Text → Text
unfolding first_file
find_model_file version_dir files = first_file version_dir files candidates

-- The chain of tests on a key.
unfoldable pub set_model : ModelConfig → Text × Text → Outcome ModelConfig
unfolding parse_backend parse_shape
set_model cfg (key, val) =
    if text_eq key (codes "name")
    then ok (record cfg { name = val })
    else if text_eq key (codes "backend")
    then ok (record cfg { backend = parse_backend val })
    else if text_eq key (codes "version")
    then (do n ← stoi val; ok (record cfg { version = n }))
    else if text_eq key (codes "device")
    then ok (record cfg { device = if text_eq val (codes "cuda") then cuda else cpu })
    else if text_eq key (codes "max_batch_size")
    then (do n ← stoul val; ok (record cfg { max_batch_size = n }))
    else if text_eq key (codes "max_batch_delay_us")
    then (do n ← stoll val; ok (record cfg { max_batch_delay_us = n }))
    else if text_eq key (codes "input_shape")
    then (do shape ← parse_shape val; ok (record cfg { input_shape = shape }))
    else ok cfg

-- The members' initializers, with the name of the directory.
unfoldable pub default_model : Text → ModelConfig
default_model name = record {
  name = name;
  backend = torch_script;
  version = pos 1;
  device = cpu;
  max_batch_size = 4;
  max_batch_delay_us = pos 1000;
  input_shape = [];
  model_file_path = [];
}

-- The part of `from_dir` that reads `config.ini`.
unfoldable pub read_config : ModelDir → Outcome ModelConfig
unfolding set_model default_model filename file_entries read_trimmed
read_config d = elim d.config_ini [
  | none ↦ ok (default_model (filename d.path))
  | some contents ↦
      fold_outcome set_model (default_model (filename d.path)) (file_entries read_trimmed contents)
]

-- The model file in the directory of the configured version, or nothing.
unfoldable pub versioned_file : Text → Text → List DirEntry → Text
unfolding find_model_file join
versioned_file dir version [] = []
versioned_file dir version (e ∷ es) =
    let rest = versioned_file dir version es in
    if text_eq e.entry_name version
    then (if e.is_directory then find_model_file (join dir version) e.files else [])
    else rest

-- The `try` block of the fallback: the best version so far and the configuration.
unfoldable pub take_version : Outcome ℤ → Text → ℤ × ModelConfig → ℤ × ModelConfig
take_version (throws e) candidate s = s
take_version (ok v) candidate (best_ver, cfg) =
    if ltb_ℤ best_ver v && not (is_empty candidate)
    then (v, record cfg { version = v; model_file_path = candidate })
    else (best_ver, cfg)

unfoldable pub try_version : Text → ℤ × ModelConfig → DirEntry → ℤ × ModelConfig
unfolding take_version find_model_file join
try_version dir s entry =
    if not entry.is_directory
    then s
    else take_version (stoi entry.entry_name)
        (find_model_file (join dir entry.entry_name) entry.files) s

unfoldable pub try_versions : Text → ℤ × ModelConfig → List DirEntry → ℤ × ModelConfig
unfolding try_version
try_versions dir s [] = s
try_versions dir s (entry ∷ rest) = try_versions dir (try_version dir s entry) rest

-- What `from_dir` does once `config.ini` is read.
unfoldable pub resolve_version : ModelDir → ModelConfig → ModelConfig
unfolding versioned_file try_versions
resolve_version d cfg =
    let file = versioned_file d.path (to_text cfg.version) d.dir_entries in
    if is_empty file
    then (try_versions d.path (negsuc 0, cfg) d.dir_entries).1
    else record cfg { model_file_path = file }

unfoldable pub from_dir : ModelDir → Outcome ModelConfig
unfolding read_config resolve_version
from_dir d = do cfg ← read_config d; ok (resolve_version d cfg)
