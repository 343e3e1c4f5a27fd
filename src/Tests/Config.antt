-- ===== src/Tests/Config.antt =====
-- A configuration on a file system that holds one file, in a format that writes one configuration.
use dshare.Base.{
  ℕ, zero, suc, Bool, true, false, ◌≡◌, refl, Option, none, some, List, [], ◌∷◌, Result, ok, err,
  codes, decimal, arith,
}
use dshare.Protocol.{Bytes}
use dshare.Core.Layout.{PeerScreen}
use dshare.Core.Config.{
  Config, Role, server, client, TlsConfig, FilePath, Storage, default_config, default_path, parent,
  load, save, load_or_default,
}
use dshare.Core.Config.Saving.{IsFaithful, save-load}

listens_on_default_port : default_config.bind_addr ≡ codes "0.0.0.0:24800"
unfolding default_config decimal
listens_on_default_port = refl

-- The variables of a Windows machine on which HOME is set as well.
home_wins :
    default_path (some (codes "h" ∷ [])) (some (codes "a" ∷ []))
    ≡ codes "h" ∷ codes ".config" ∷ codes "dshare" ∷ codes "config.toml" ∷ []
unfolding default_path
home_wins = refl

abbrev of_role : Role → ℕ
of_role server = 0
of_role client = 1

abbrev to_role : ℕ → Role
to_role zero = server
to_role (suc n) = client

abbrev of_bool : Bool → ℕ
of_bool false = 0
of_bool true = 1

abbrev to_bool : ℕ → Bool
to_bool zero = false
to_bool (suc n) = true

-- Only a configuration without peers, a server's address and TLS is written.
abbrev plain : Option Bytes → List PeerScreen → Option TlsConfig → Bytes → Result Bytes ℕ
plain none [] none raw = ok raw
plain _ _ _ raw = err 0

abbrev some_to_string : Config → Result Bytes ℕ
some_to_string cfg = plain cfg.server_addr cfg.layout.peers cfg.tls (
    of_role cfg.role
    ∷ of_bool cfg.clipboard_sync
    ∷ cfg.layout.server_screen.width
    ∷ cfg.layout.server_screen.height
    ∷ cfg.bind_addr)

abbrev some_from_str : Bytes → Result Config ℕ
some_from_str (role ∷ sync ∷ width ∷ height ∷ addr) = ok (record {
  role = to_role role;
  bind_addr = addr;
  server_addr = none;
  layout = record { server_screen = record { width = width; height = height }; peers = [] };
  clipboard_sync = to_bool sync;
  tls = none;
})
some_from_str _ = err 1

-- The file system is the content of its one file.
abbrev pub one_file : Storage (Option Bytes) ℕ
one_file = record {
  read_to_string = λ path fs. elim fs [ none ↦ err 2 | some raw ↦ ok raw ];
  create_dir_all = λ path fs. (ok tt, fs);
  write = λ path raw fs. (ok tt, some raw);
  from_str = some_from_str;
  to_string_pretty = some_to_string;
}

plain_parses :
    (cfg : Config) (addr : Option Bytes) (peers : List PeerScreen) (tls : Option TlsConfig)
    (raw : Bytes)
    → cfg.server_addr ≡ addr
    → cfg.layout.peers ≡ peers
    → cfg.tls ≡ tls
    → some_to_string cfg ≡ ok raw
    → some_from_str raw ≡ ok cfg
plain_parses cfg none [] none raw a b c e = ground arith
plain_parses cfg (some x) peers tls raw a b c e = absurd (ground arith)
plain_parses cfg none (p ∷ peers) tls raw a b c e = absurd (ground arith)
plain_parses cfg none [] (some t) raw a b c e = absurd (ground arith)

pub one_file-IsFaithful : IsFaithful one_file
one_file-IsFaithful = record {
  reads_back = λ path raw fs h. refl;
  parses_back =
      λ cfg raw e. plain_parses cfg cfg.server_addr cfg.layout.peers cfg.tls raw refl refl refl e;
}

abbrev pub at_home : FilePath
at_home = codes "h" ∷ codes "config.toml" ∷ []

save-load_example :
    (load one_file at_home (save one_file default_config at_home none).1 ≡ ok default_config)
    × (load_or_default one_file at_home (save one_file default_config at_home none).1
        ≡ default_config)
unfolding save parent default_config
save-load_example = save-load one_file default_config at_home none one_file-IsFaithful refl
