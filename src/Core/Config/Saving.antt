-- ===== src/Core/Config/Saving.antt =====
-- What is saved is what is loaded, and what a failure leaves.
use dshare.Base.{
  ◌≡◌, refl, Option, some, [], ◌∷◌, ◌++◌, ok, arith, codes, Result-cases, Option-cases, inl, inr,
}
use dshare.Protocol.{Bytes}
use dshare.Core.Config.{
  Config, FilePath, Storage, dirs_path, default_path, parent, load, write_config, save,
  load_or_default,
}

-- What std::fs and toml document: a file that was written has those bytes, and a value that was
-- serialized reads as itself.
pub record IsFaithful {Fs IoError : Type 0} (storage : Storage Fs IoError) : Type 0 where
  pub reads_back :
      (path : FilePath) (raw : Bytes) (fs : Fs)
      → (storage.write path raw fs).0 ≡ ok tt
      → storage.read_to_string path (storage.write path raw fs).1 ≡ ok raw
  pub parses_back :
      (cfg : Config) (raw : Bytes)
      → storage.to_string_pretty cfg ≡ ok raw
      → storage.from_str raw ≡ ok cfg

module _ {Fs IoError : Type 0} (storage : Storage Fs IoError) where
  write_config-load :
      (cfg : Config) (path : FilePath) (fs : Fs)
      → IsFaithful storage
      → (write_config storage cfg path fs).0 ≡ ok tt
      → load storage path (write_config storage cfg path fs).1 ≡ ok cfg
  unfolding write_config load
  write_config-load cfg path fs faithful h = elim (Result-cases (storage.to_string_pretty cfg)) [
    | inr (e, s) ↦ absurd (ground arith)
    | inl (raw, s) ↦ ground (arith, faithful.reads_back path raw fs, faithful.parses_back cfg raw s)
  ]

  save-load_same :
      (cfg : Config) (path : FilePath) (fs : Fs)
      → IsFaithful storage
      → (save storage cfg path fs).0 ≡ ok tt
      → load storage path (save storage cfg path fs).1 ≡ ok cfg
  unfolding save
  save-load_same cfg path fs faithful h = elim (Option-cases (parent path)) [
    | inl e ↦ ground (arith, write_config-load cfg path fs faithful)
    | inr (dir, e) ↦
        ground (arith, write_config-load cfg path (storage.create_dir_all dir fs).1 faithful)
  ]

  -- After a save that reports success, loading from the same path gives the configuration back, to
  -- the daemon and to the GUI alike.
  pub save-load :
      (cfg : Config) (path : FilePath) (fs : Fs)
      → IsFaithful storage
      → (save storage cfg path fs).0 ≡ ok tt
      → (load storage path (save storage cfg path fs).1 ≡ ok cfg)
        × (load_or_default storage path (save storage cfg path fs).1 ≡ cfg)
  unfolding load_or_default
  save-load cfg path fs faithful h =
      let loaded = save-load_same cfg path fs faithful h in (loaded, rw (loaded, load_or_default))

parent-append : (path : FilePath) (c : Bytes) → parent (path ++ (c ∷ [])) ≡ some path
unfolding parent
parent-append [] c = refl
parent-append (a ∷ []) c = refl
parent-append (a ∷ b ∷ path) c = rw (parent-append (b ∷ path) c)

-- The default path names a file directly in the directory of `dirs_path`, so that saving to it
-- creates that directory and no other.
pub default_path-parent :
    (home appdata : Option FilePath)
    → parent (default_path home appdata) ≡ some (dirs_path home appdata)
unfolding default_path
default_path-parent home appdata = parent-append (dirs_path home appdata) (codes "config.toml")
