-- ===== src/App/Cli.antt =====
-- `main`, `run_async`, `run_server` and `run_client` of crates/dshare/src/main.rs. clap, the network
-- and the sessions that are started are arguments.
pub mod Configured
use dshare.Base.{Bool, true, false, ℕ, Option, none, some, List, [], ◌∷◌, Result, ok, err}
use dshare.Protocol.{Bytes}
use dshare.Core.Config.{Config, FilePath, Storage, default_path, load_or_default}
use dshare.Gui.{App, opened}

pub data Cmd : Type 0 where
  gui server client test_inject : Cmd
  test_capture : (seconds : ℕ) → (self_test : Bool) → Cmd

-- The command line, as clap parses it.
pub record Cli : Type 0 where
  pub config : Option FilePath
  pub command : Cmd

-- What `main` starts, and with which configuration.
pub data Started : Type 0 where
  window : App → Started
  run_server_with run_client_with : Config → Started
  inject_test : Started
  capture_test : (seconds : ℕ) → (self_test : Bool) → Started

module _ {Fs IoError : Type 0} (storage : Storage Fs IoError) (home appdata : Option FilePath) where
  -- `run_async`: the configuration that it hands on.
  unfoldable pub run_async : Option FilePath → Fs → Config
  run_async (some path) fs = load_or_default storage path fs
  run_async none fs = load_or_default storage (default_path home appdata) fs

  unfoldable pub main : Cli → Fs → Started
  unfolding run_async opened
  main cli fs = elim cli.command [
    | gui ↦ window (opened storage (default_path home appdata) fs)
    | server ↦ run_server_with (run_async cli.config fs)
    | client ↦ run_client_with (run_async cli.config fs)
    | test_inject ↦ inject_test
    | test_capture seconds self_test ↦ capture_test seconds self_test
  ]

-- `run_server`: the connections for which `handle_peer` is spawned, each on its own, and the error
-- that ends it, once one comes. `bound` is the outcome of `bind`, `accepted` those of `accept`.
unfoldable pub accept_loop :
    {Stream IoError : Type 0} → List (Result Stream IoError) → List Stream × Option IoError
accept_loop [] = ([], none)
accept_loop (ok stream ∷ accepted) =
    let (spawned, end) = accept_loop accepted in (stream ∷ spawned, end)
accept_loop (err e ∷ accepted) = ([], some e)

unfoldable pub run_server :
    {Stream IoError : Type 0}
    → (bound : Bytes → Result (Unit {0}) IoError) → Config
    → List (Result Stream IoError)
    → List Stream × Option IoError
unfolding accept_loop
run_server bound cfg accepted = elim (bound cfg.bind_addr) [
  | ok _ ↦ accept_loop accepted
  | err e ↦ ([], some e)
]

pub data ClientError (IoError E : Type 0) : Type 0 where
  no_server_addr : ClientError IoError E
  connect_failed : IoError → ClientError IoError E
  session_failed : E → ClientError IoError E

-- `session` is `handle_peer` as a client.
unfoldable pub run_client :
    {Stream IoError E A : Type 0}
    → (connect : Bytes → Result Stream IoError) → (session : Stream → Config → Result A E) → Config
    → Result A (ClientError IoError E)
run_client connect session cfg = elim cfg.server_addr [
  | none ↦ err no_server_addr
  | some addr ↦ elim (connect addr) [
    | err e ↦ err (connect_failed e)
    | ok stream ↦ elim (session stream cfg) [ ok a ↦ ok a | err e ↦ err (session_failed e) ]
  ]
]
