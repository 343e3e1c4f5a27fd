-- ===== src/Tests/Cli.antt =====
-- The window and then the daemon, at one home directory.
use dshare.Base.{ℕ, Option, none, some, [], ◌∷◌, ◌≡◌, refl, codes, ok, err}
use dshare.Core.Config.{default_config, FilePath, save, parent, default_path, load_or_default}
use dshare.Gui.{
  App, frames, update, top_panel, save_app, show_tab, general_tab, layout_tab, new_peer,
}
use dshare.App.Cli.{
  gui, server, client, window, run_server_with, run_client_with, main, run_client, no_server_addr,
}
use dshare.App.Cli.Configured.{saved-main}
use dshare.Tests.Config.{one_file, one_file-IsFaithful}
use dshare.Tests.Gui.{saving, adding, shown, left_open}

abbrev home : Option FilePath
home = some (codes "h" ∷ [])

abbrev just_opened : App
just_opened = record shown { config_path = default_path home none }

abbrev still_open : App
still_open = record left_open { config_path = default_path home none }

saved-main_example :
    let fs = (save one_file default_config (default_path home none) none).1 in
    (main one_file home none (record { config = none; command = server }) fs
      ≡ run_server_with default_config)
    × (main one_file home none (record { config = none; command = client }) fs
        ≡ run_client_with default_config)
    × ((next : App) × (main one_file home none (record { config = none; command = gui }) fs
          ≡ window next)
        × (next.config ≡ default_config))
unfolding main load_or_default save parent default_path frames update top_panel save_app show_tab
    general_tab layout_tab new_peer default_config
saved-main_example =
    saved-main one_file (λ path. []) (λ e. []) home none one_file-IsFaithful none [] saving
      (adding ∷ []) just_opened just_opened still_open none none
      (save one_file default_config (default_path home none) none).1 refl refl refl (refl, tt) refl
      refl

-- A default configuration names no server to connect to.
client_without_server :
    run_client {Stream = ℕ} {IoError = ℕ} {E = ℕ} {A = ℕ}
      (λ addr. ok 0)
      (λ stream cfg. ok 0)
      default_config
    ≡ err no_server_addr
unfolding run_client default_config
client_without_server = refl
