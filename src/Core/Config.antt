-- ===== src/Core/Config.antt =====
-- crates/dshare-core/src/config.rs, and the choice of the configuration in crates/dshare/src/main.rs
-- and crates/dshare-gui/src/lib.rs. The file system and the toml crate are arguments. A path is the
-- list of its components; what is joined to one is relative.
pub mod Saving
use dshare.Base.{
  ℕ, Bool, true, false, Option, none, some, List, [], ◌∷◌, ◌++◌, Result, ok, err, codes, decimal,
  ◌≡◌,
}
use dshare.Protocol.{Bytes, default_port}
use dshare.Core.Layout.{Layout, default_layout}

abbrev pub FilePath : Type 0
FilePath = List Bytes

pub data Role : Type 0 where
  server client : Role

pub record TlsConfig : Type 0 where
  pub cert : FilePath
  pub key : FilePath
  pub trust : FilePath

pub record Config : Type 0 where
  pub role : Role
  pub bind_addr : Bytes
  pub server_addr : Option Bytes
  pub layout : Layout
  pub clipboard_sync : Bool
  pub tls : Option TlsConfig

unfoldable pub default_config : Config
default_config = record {
  role = server;
  bind_addr = codes "0.0.0.0:" ++ decimal default_port;
  server_addr = none;
  layout = default_layout;
  clipboard_sync = true;
  tls = none;
}

-- The values of HOME and APPDATA, where they are set.
unfoldable pub dirs_path : (home appdata : Option FilePath) → FilePath
dirs_path (some home) appdata = home ++ (codes ".config" ∷ codes "dshare" ∷ [])
dirs_path none (some appdata) = appdata ++ (codes "dshare" ∷ [])
dirs_path none none = codes "." ∷ []

unfoldable pub default_path : (home appdata : Option FilePath) → FilePath
unfolding dirs_path
default_path home appdata = dirs_path home appdata ++ (codes "config.toml" ∷ [])

-- `path.parent()` of a path that is no root: none of the empty path.
unfoldable pub parent : FilePath → Option FilePath
parent [] = none
parent (c ∷ []) = some []
parent (c ∷ d ∷ path) = elim (parent (d ∷ path)) [ none ↦ none | some p ↦ some (c ∷ p) ]

-- std::fs on a file system `Fs`, and the toml crate. `IoError` is what they fail with.
pub record Storage (Fs IoError : Type 0) : Type 0 where
  pub read_to_string : FilePath → Fs → Result Bytes IoError
  pub create_dir_all : FilePath → Fs → Result (Unit {0}) IoError × Fs
  pub write : FilePath → Bytes → Fs → Result (Unit {0}) IoError × Fs
  pub from_str : Bytes → Result Config IoError
  pub to_string_pretty : Config → Result Bytes IoError

module _ {Fs IoError : Type 0} (storage : Storage Fs IoError) where
  open storage use {read_to_string, create_dir_all, write, from_str, to_string_pretty}

  unfoldable pub load : FilePath → Fs → Result Config IoError
  load path fs = elim (read_to_string path fs) [ ok raw ↦ from_str raw | err e ↦ err e ]

  -- The arguments of `write` are evaluated first, so a configuration that does not serialize
  -- writes nothing.
  unfoldable pub write_config : Config → FilePath → Fs → Result (Unit {0}) IoError × Fs
  write_config cfg path fs = elim (to_string_pretty cfg) [
    | ok raw ↦ write path raw fs
    | err e ↦ (err e, fs)
  ]

  unfoldable pub save : Config → FilePath → Fs → Result (Unit {0}) IoError × Fs
  unfolding write_config
  save cfg path fs = elim (parent path) [
    | none ↦ write_config cfg path fs
    | some dir ↦
        let (made, fs') = create_dir_all dir fs in
        elim made [ ok _ ↦ write_config cfg path fs' | err e ↦ (err e, fs') ]
  ]

  -- `Config::load(&path).unwrap_or_else(|_| Config::default())`, of `run_async` and the GUI.
  unfoldable pub load_or_default : FilePath → Fs → Config
  unfolding load
  load_or_default path fs = elim (load path fs) [ ok cfg ↦ cfg | err e ↦ default_config ]

-- `run_client`: the address to connect to.
unfoldable pub connect_address : Config → Option Bytes
connect_address cfg = cfg.server_addr
