-- ===== src/Config/File.antt =====
-- src/config.rs: the configuration and its file.
use x_videos_dowloads.Prelude.{◌≡◌, String, true, false, Option, none, some, Result, ok, is_ok, ◌⊎◌}
use x_videos_dowloads.Config.{
  AppConfig, Directories, Stored, Write, done, cut_off, default_config, keys, to_keys, load, parse,
  save,
}

-- A configuration that is saved, where there is a place for its file, is loaded again as it was,
-- whatever the file held before.
pub load-save :
    (dirs : Directories) (path : String) (c : AppConfig) (file : Option Stored)
    → dirs.config_path ≡ some path
    → load dirs (save dirs done c file).1 ≡ ok c
unfolding load save
load-save dirs path c file there = rw there

-- What the start of the file's life gives, for each end of the write.
abbrev pub Initialised :
    Directories → Write → (file : Option Stored) → Result (Option String) × Option Stored → Type 0
Initialised dirs w file (result, after) =
    ((after ≡ file) × (load dirs after ≡ load dirs file))
    ⊎ ((file ≡ none)
        × (is_ok result ≡ true)
        × (w ≡ done)
        × (after ≡ some (keys (to_keys (default_config dirs))))
        × (load dirs after ≡ load dirs file))
    ⊎ ((left : Stored) × (file ≡ none)
        × (is_ok result ≡ false)
        × (w ≡ cut_off left)
        × (load dirs after ≡ parse dirs (some left)))
