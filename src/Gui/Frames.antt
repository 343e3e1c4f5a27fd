-- ===== src/Gui/Frames.antt =====
-- Frames of the window one after another: what Save leaves in the file, and what the daemon reads.
use dshare.Base.{
  true, false, none, some, List, [], ◌∷◌, ◌≡◌, ◌≢◌, ok, arith, All, Option-cases, Bool-cases, inl,
  inr, if◌then◌else◌,
}
use dshare.Protocol.{Bytes}
use dshare.Core.Config.{Config, FilePath, Storage, save, load_or_default}
use dshare.Core.Config.Saving.{IsFaithful, save-load}
use dshare.Gui.{
  App, FrameInput, Tab, tab_general, tab_layout, tab_status, GeneralInput, LayoutInput, general_tab,
  non_empty, layout_tab, show_tab, save_app, top_panel, update, remove_clicked_row, edit_rows,
  frames,
}

-- The General tab clears the server's address rather than leaving an empty one.
general_tab-server_addr :
    (ui : GeneralInput) (cfg : Config)
    → cfg.server_addr ≢ some []
    → (general_tab ui cfg).server_addr ≢ some []
unfolding general_tab non_empty
general_tab-server_addr ui cfg h = ground arith

layout_tab-server_addr :
    (ui : LayoutInput) (cfg cfg' : Config)
    → layout_tab ui cfg ≡ some cfg'
    → cfg'.server_addr ≡ cfg.server_addr
unfolding layout_tab
layout_tab-server_addr ui cfg cfg' e =
    let (edited, remove) = edit_rows ui.row 0 cfg.layout.peers none in
    elim (Option-cases (remove_clicked_row remove edited)) [
      | inl n ↦ absurd (ground arith)
      | inr (kept, k) ↦ ground arith
    ]

show_tab-server_addr :
    (ui : FrameInput) (tab : Tab) (cfg cfg' : Config)
    → show_tab ui tab cfg ≡ some cfg'
    → cfg.server_addr ≢ some []
    → cfg'.server_addr ≢ some []
unfolding show_tab
show_tab-server_addr ui tab_general cfg cfg' e h =
    ground (arith, general_tab-server_addr ui.general cfg h)
show_tab-server_addr ui tab_layout cfg cfg' e h =
    ground (arith, layout_tab-server_addr ui.layout cfg cfg' e)
show_tab-server_addr ui tab_status cfg cfg' e h = ground arith

module _ {Fs IoError : Type 0} (storage : Storage Fs IoError) (display : FilePath → Bytes)
    (show_error : IoError → Bytes) where
  -- What the top panel leaves: the configuration and the path as they were, and the file system as
  -- Save leaves it.
  top_panel_parts :
      (ui : FrameInput) (self : App) (fs : Fs)
      → let (self', fs') = top_panel storage display show_error ui self fs in
        (self'.config ≡ self.config)
        × (self'.config_path ≡ self.config_path)
        × (fs' ≡ (if ui.save_clicked then (save storage self.config self.config_path fs).1 else fs))
  unfolding top_panel save_app
  top_panel_parts ui self fs = elim (Bool-cases ui.save_clicked) [
    | inl c ↦ ground arith
    | inr c ↦ ground arith
  ]

  pub update_parts :
      (ui : FrameInput) (self self' : App) (fs fs' : Fs)
      → update storage display show_error ui self fs ≡ some (self', fs')
      → (tab : Tab) × (show_tab ui tab self.config ≡ some self'.config)
        × (self'.config_path ≡ self.config_path)
        × (fs' ≡ (if ui.save_clicked then (save storage self.config self.config_path fs).1 else fs))
  unfolding update
  update_parts ui self self' fs fs' e =
      let (app, fs1) = top_panel storage display show_error ui self fs in
      let (same, path, wrote) = top_panel_parts ui self fs in
      elim (Option-cases (show_tab ui app.tab app.config)) [
        | inl n ↦ absurd (ground arith)
        | inr (cfg, s) ↦ (app.tab, ground arith, ground arith, ground arith)
      ]

  pub frames-cons :
      (ui : FrameInput) (uis : List FrameInput) (self self' : App) (fs fs' : Fs)
      → frames storage display show_error (ui ∷ uis) self fs ≡ some (self', fs')
      → (app : App) × (fs1 : Fs) × (update storage display show_error ui self fs ≡ some (app, fs1))
        × (frames storage display show_error uis app fs1 ≡ some (self', fs'))
  unfolding frames
  frames-cons ui uis self self' fs fs' e =
      elim (Option-cases (update storage display show_error ui self fs)) [
        | inl n ↦ absurd (ground arith)
        | inr ((app, fs1), u) ↦ (app, fs1, u, ground arith)
      ]

  -- Whatever the user does in the window, in as many frames as one likes, the address of the server
  -- does not become an empty one: it is absent instead.
  pub frames-server_addr :
      (uis : List FrameInput) (self self' : App) (fs fs' : Fs)
      → frames storage display show_error uis self fs ≡ some (self', fs')
      → self.config.server_addr ≢ some []
      → self'.config.server_addr ≢ some []
  unfolding frames
  frames-server_addr [] self self' fs fs' e h = ground arith
  frames-server_addr (ui ∷ uis) self self' fs fs' e h =
      let (app, fs1, first, rest) = frames-cons ui uis self self' fs fs' e in
      let (tab, shown, path, wrote) = update_parts ui self app fs fs1 first in
      frames-server_addr uis app self' fs1 fs' rest
        (show_tab-server_addr ui tab self.config app.config shown h)

  frames-unsaved :
      (uis : List FrameInput) (self self' : App) (fs fs' : Fs)
      → All (λ ui. ui.save_clicked ≡ false) uis
      → frames storage display show_error uis self fs ≡ some (self', fs')
      → fs' ≡ fs
  unfolding frames
  frames-unsaved [] self self' fs fs' n e = ground arith
  frames-unsaved (ui ∷ uis) self self' fs fs' n e =
      let (app, fs1, first, rest) = frames-cons ui uis self self' fs fs' e in
      let (tab, shown, path, wrote) = update_parts ui self app fs fs1 first in
      let ih = frames-unsaved uis app self' fs1 fs' n.1 rest in ground arith

  -- Once a save has succeeded, and until Save is clicked again, the daemon and a window opened anew
  -- get the configuration that was shown when Save was clicked, without the edits of that frame and
  -- of later ones.
  pub frames-load :
      (faithful : IsFaithful storage) (ui : FrameInput) (uis : List FrameInput) (self self' : App)
      (fs fs' : Fs)
      → ui.save_clicked ≡ true
      → All (λ u. u.save_clicked ≡ false) uis
      → (save storage self.config self.config_path fs).0 ≡ ok tt
      → frames storage display show_error (ui ∷ uis) self fs ≡ some (self', fs')
      → load_or_default storage self.config_path fs' ≡ self.config
  frames-load faithful ui uis self self' fs fs' clicked n saved e =
      let (app, fs1, first, rest) = frames-cons ui uis self self' fs fs' e in
      let (tab, shown, path, wrote) = update_parts ui self app fs fs1 first in
      let same = frames-unsaved uis app self' fs1 fs' n rest in
      let loaded = (save-load storage self.config self.config_path fs faithful saved).1 in
      ground arith
