-- ===== src/Gui.antt =====
-- crates/dshare-gui/src/lib.rs: the window's state and what one frame does to it. What the user
-- does to each widget is an argument. The labels have no counterpart, nor has the Status tab, which
-- shows nothing else.
pub mod Edits
pub mod Frames
pub mod Preview
use dshare.Base.{
  ℕ, zero, suc, Bool, true, false, not, Option, none, some, List, [], ◌∷◌, ◌++◌, ℤ, pos, Result, ok,
  err, codes, if◌then◌else◌, ◌>>=◌, take, drop, length, ltb,
}
use dshare.Protocol.{Bytes}
use dshare.Core.Layout.{Screen, default_screen, Edge, right, PeerScreen, Layout}
use dshare.Core.Config.{Role, server, client, Config, FilePath, Storage, save, load_or_default}

pub data Tab : Type 0 where
  tab_general tab_layout tab_status : Tab

pub record App : Type 0 where
  pub config : Config
  pub config_path : FilePath
  pub tab : Tab
  pub status : Bytes

-- The General tab: which widgets are clicked, and what a text field has after the frame, with
-- `changed()` where it is asked.
pub record GeneralInput : Type 0 where
  pub server_clicked : Bool
  pub client_clicked : Bool
  pub bind_edit : Bytes → Bytes
  pub server_edit : Bytes → Bytes × Bool
  pub sync_clicked : Bool

unfoldable pub unwrap_or_default : Option Bytes → Bytes
unwrap_or_default none = []
unwrap_or_default (some text) = text

-- `if server_str.is_empty() { None } else { Some(server_str) }`
unfoldable pub non_empty : Bytes → Option Bytes
non_empty [] = none
non_empty (c ∷ text) = some (c ∷ text)

unfoldable pub general_tab : GeneralInput → Config → Config
unfolding unwrap_or_default non_empty
general_tab ui cfg =
    let (server_str, changed) = ui.server_edit (unwrap_or_default cfg.server_addr) in
    let chosen = if ui.server_clicked then server else cfg.role in
    record cfg {
      role = if ui.client_clicked then client else chosen;
      bind_addr = ui.bind_edit cfg.bind_addr;
      server_addr = if changed then non_empty server_str else cfg.server_addr;
      clipboard_sync = if ui.sync_clicked then not cfg.clipboard_sync else cfg.clipboard_sync;
    }

-- A row of the Layout tab: its text field and its number fields, the edge picked, and its button.
pub record RowInput : Type 0 where
  pub name_edit : Bytes → Bytes
  pub edge_picked : Option Edge
  pub offset_drag : ℤ → ℤ
  pub width_drag : ℕ → ℕ
  pub height_drag : ℕ → ℕ
  pub remove_clicked : Bool

-- The rows by their index, and the identity of a new peer if "Add peer" is clicked.
pub record LayoutInput : Type 0 where
  pub server_width_drag : ℕ → ℕ
  pub server_height_drag : ℕ → ℕ
  pub row : ℕ → RowInput
  pub added : Option ℕ

unfoldable pub edit_row : RowInput → PeerScreen → PeerScreen
edit_row ui peer = record peer {
  name = ui.name_edit peer.name;
  edge = elim ui.edge_picked [ none ↦ peer.edge | some e ↦ e ];
  offset = ui.offset_drag peer.offset;
  screen = record {
    width = ui.width_drag peer.screen.width;
    height = ui.height_drag peer.screen.height;
  };
}

-- The loop over the rows, from index `i` on: the peers after it, and the row to remove.
unfoldable pub edit_rows :
    (ℕ → RowInput) → ℕ → List PeerScreen → Option ℕ → List PeerScreen × Option ℕ
unfolding edit_row
edit_rows row i [] remove = ([], remove)
edit_rows row i (peer ∷ peers) remove =
    let (edited, last) =
      edit_rows row (suc i) peers (if (row i).remove_clicked then some i else remove) in
    (edit_row (row i) peer ∷ edited, last)

-- `Vec::remove`, which panics out of range.
unfoldable pub remove_at {ℓ} : {A : Type ℓ} → ℕ → List A → Option (List A)
remove_at i [] = none
remove_at zero (x ∷ xs) = some xs
remove_at (suc i) (x ∷ xs) = do rest ← remove_at i xs; some (x ∷ rest)

unfoldable pub new_peer : ℕ → PeerScreen
new_peer peer_id = record {
  peer_id = peer_id;
  name = codes "peer";
  edge = right;
  offset = pos 0;
  screen = default_screen;
}

unfoldable pub push_added : Option ℕ → List PeerScreen → List PeerScreen
unfolding new_peer
push_added none peers = peers
push_added (some peer_id) peers = peers ++ (new_peer peer_id ∷ [])

unfoldable pub remove_clicked_row : Option ℕ → List PeerScreen → Option (List PeerScreen)
unfolding remove_at
remove_clicked_row none peers = some peers
remove_clicked_row (some i) peers = remove_at i peers

unfoldable pub layout_tab : LayoutInput → Config → Option Config
unfolding edit_rows push_added remove_clicked_row
layout_tab ui cfg =
    let screen = cfg.layout.server_screen in
    let (edited, remove) = edit_rows ui.row 0 cfg.layout.peers none in
    do
      kept ← remove_clicked_row remove edited
      some (record cfg {
        layout = record {
          server_screen = record {
            width = ui.server_width_drag screen.width;
            height = ui.server_height_drag screen.height;
          };
          peers = push_added ui.added kept;
        };
      })

-- A frame: the tab picked, whether Save is clicked, and the two tabs with widgets.
pub record FrameInput : Type 0 where
  pub tab_picked : Option Tab
  pub save_clicked : Bool
  pub general : GeneralInput
  pub layout : LayoutInput

-- The central panel.
unfoldable pub show_tab : FrameInput → Tab → Config → Option Config
unfolding general_tab layout_tab
show_tab ui tab_general cfg = some (general_tab ui.general cfg)
show_tab ui tab_layout cfg = layout_tab ui.layout cfg
show_tab ui tab_status cfg = some cfg

-- `App::load_or_default`
unfoldable pub opened : {Fs IoError : Type 0} → Storage Fs IoError → FilePath → Fs → App
opened storage path fs = record {
  config = load_or_default storage path fs;
  config_path = path;
  tab = tab_general;
  status = [];
}

-- `display` is Path::display, `show_error` an error's Display.
module _ {Fs IoError : Type 0} (storage : Storage Fs IoError) (display : FilePath → Bytes)
    (show_error : IoError → Bytes) where
  -- `App::save`
  unfoldable pub save_app : App → Fs → App × Fs
  save_app self fs =
      let (saved, fs') = save storage self.config self.config_path fs in
      let said : Bytes = elim saved [
        | ok _ ↦ codes "saved to " ++ display self.config_path
        | err e ↦ codes "save failed: " ++ show_error e
      ] in
      (record self { status = said }, fs')

  -- The tabs and the Save button.
  unfoldable pub top_panel : FrameInput → App → Fs → App × Fs
  unfolding save_app
  top_panel ui self fs =
      let picked : Tab = elim ui.tab_picked [ none ↦ self.tab | some t ↦ t ] in
      if ui.save_clicked
      then save_app (record self { tab = picked }) fs
      else (record self { tab = picked }, fs)

  -- The top panel comes first, so Save writes what the frame began with. `none` is a panic.
  unfoldable pub update : FrameInput → App → Fs → Option (App × Fs)
  unfolding top_panel show_tab
  update ui self fs =
      let (self', fs') = top_panel ui self fs in
      do cfg ← show_tab ui self'.tab self'.config; some (record self' { config = cfg }, fs')

  unfoldable pub frames : List FrameInput → App → Fs → Option (App × Fs)
  unfolding update
  frames [] self fs = some (self, fs)
  frames (ui ∷ uis) self fs = update ui self fs >>= λ (self', fs'). frames uis self' fs'
