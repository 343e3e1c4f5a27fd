-- ===== src/App/Cli/Configured.antt =====
-- From the window to the daemon.
use dshare.Base.{true, false, Option, none, some, List, [], ◌∷◌, ◌≡◌, refl, ◌∙◌, ap, ok, All, arith}
use dshare.Protocol.{Bytes}
use dshare.Core.Config.{FilePath, Storage, save, default_path, load_or_default}
use dshare.Core.Config.Saving.{IsFaithful}
use dshare.Gui.{App, FrameInput, frames}
use dshare.Gui.Frames.{update_parts, frames-cons, frames-load}
use dshare.App.Cli.{gui, server, client, window, run_server_with, run_client_with, main}

module _ {Fs IoError : Type 0} (storage : Storage Fs IoError) (display : FilePath → Bytes)
    (show_error : IoError → Bytes) where
  frames-config_path :
      (uis : List FrameInput) (self self' : App) (fs fs' : Fs)
      → frames storage display show_error uis self fs ≡ some (self', fs')
      → self'.config_path ≡ self.config_path
  unfolding frames
  frames-config_path [] self self' fs fs' e = ground arith
  frames-config_path (ui ∷ uis) self self' fs fs' e =
      let (app, fs1, first, rest) =
        frames-cons storage display show_error ui uis self self' fs fs' e in
      let (tab, shown, path, wrote) =
        update_parts storage display show_error ui self app fs fs1 first in
      frames-config_path uis app self' fs1 fs' rest ∙ path

  -- The window that `dshare gui` opens, whatever was done in it before: once Save succeeds in a
  -- frame, and until it is clicked again, `dshare server` and `dshare client` without --config start
  -- with the configuration that was shown when it was clicked, and so does `dshare gui`.
  pub saved-main :
      (home appdata : Option FilePath) (faithful : IsFaithful storage) (given : Option FilePath)
      (before : List FrameInput) (ui : FrameInput) (uis : List FrameInput) (app self self' : App)
      (fs fs1 fs2 : Fs)
      → main storage home appdata (record { config = given; command = gui }) fs ≡ window app
      → frames storage display show_error before app fs ≡ some (self, fs1)
      → ui.save_clicked ≡ true
      → All (λ u. u.save_clicked ≡ false) uis
      → (save storage self.config self.config_path fs1).0 ≡ ok tt
      → frames storage display show_error (ui ∷ uis) self fs1 ≡ some (self', fs2)
      → (main storage home appdata (record { config = none; command = server }) fs2
          ≡ run_server_with self.config)
        × (main storage home appdata (record { config = none; command = client }) fs2
            ≡ run_client_with self.config)
        × ((next : App) × (main storage home appdata (record { config = given; command = gui }) fs2
              ≡ window next)
            × (next.config ≡ self.config))
  unfolding main
  saved-main home appdata faithful given before ui uis app self self' fs fs1 fs2 o b c n s e =
      let kept = frames-config_path before app self fs fs1 b in
      let default : app.config_path ≡ default_path home appdata = ground arith in
      let loaded =
        frames-load storage display show_error faithful ui uis self self' fs1 fs2 c n s e in
      let same : load_or_default storage (default_path home appdata) fs2 ≡ self.config =
        rw (← default, ← kept) loaded in
      (ap run_server_with same, ap run_client_with same, (_, refl, same))
