-- ===== src/Tests/Gui.antt =====
-- A window on the file system of one file.
use dshare.Base.{
  ℕ, zero, suc, ◌+◌, true, false, ◌≡◌, refl, codes, Option, none, some, [], ◌∷◌, ◌++◌, length, map,
}
use dshare.Core.Layout.{left, default_screen}
use dshare.Core.Config.{Config, default_config, parent, save}
use dshare.Gui.{
  tab_general, tab_layout, App, GeneralInput, RowInput, LayoutInput, FrameInput, new_peer,
  layout_tab, frames, update, general_tab, show_tab, top_panel, save_app,
}
use dshare.Gui.Edits.{LastClicked, without_index, ids, added_ids, layout_tab-peer_ids}
use dshare.Tests.Config.{one_file, at_home}

abbrev untouched : GeneralInput
untouched = record {
  server_clicked = false;
  client_clicked = false;
  bind_edit = λ text. text;
  server_edit = λ text. (text, false);
  sync_clicked = false;
}

-- The text field of the server's address is emptied, and the clipboard's box is ticked off.
abbrev cleared : GeneralInput
cleared = record untouched { server_edit = λ text. ([], true); sync_clicked = true }

-- The second row's edge is picked and its button is clicked, and so is the third's.
abbrev some_row : ℕ → RowInput
some_row i = record {
  name_edit = λ text. text;
  edge_picked = elim i [ zero ↦ none | suc n ↦ some left ];
  offset_drag = λ offset. offset;
  width_drag = λ w. w + 1;
  height_drag = λ h. h;
  remove_clicked = elim i [ zero ↦ false | suc n ↦ true ];
}

abbrev some_layout : LayoutInput
some_layout = record {
  server_width_drag = λ w. w;
  server_height_drag = λ h. h;
  row = some_row;
  added = some 9;
}

abbrev three_peers : Config
three_peers = record default_config {
  layout = record {
    server_screen = default_screen;
    peers = new_peer 5 ∷ new_peer 6 ∷ new_peer 7 ∷ [];
  };
}

-- Two buttons clicked in a frame: the last counts.
removes_last :
    map
      (λ p. p.peer_id)
      (elim (layout_tab some_layout three_peers) [ none ↦ [] | some cfg ↦ cfg.layout.peers ])
    ≡ 5 ∷ 6 ∷ 9 ∷ []
unfolding layout_tab new_peer default_config
removes_last = refl

layout_tab-peer_ids_example :
    (cfg' : Config) × (r : Option ℕ) × (layout_tab some_layout three_peers ≡ some cfg')
    × LastClicked some_row (length three_peers.layout.peers) r
    × (ids cfg'.layout.peers ≡ without_index r (ids three_peers.layout.peers) ++ added_ids (some 9))
layout_tab-peer_ids_example = layout_tab-peer_ids some_layout three_peers

abbrev pub saving : FrameInput
saving = record { tab_picked = none; save_clicked = true; general = cleared; layout = some_layout }

abbrev pub adding : FrameInput
adding = record saving { tab_picked = some tab_layout; save_clicked = false }

abbrev pub shown : App
shown = record { config = default_config; config_path = at_home; tab = tab_general; status = [] }

abbrev pub left_open : App
left_open = record {
  config = record default_config {
    clipboard_sync = false;
    layout = record { server_screen = default_screen; peers = new_peer 9 ∷ [] };
  };
  config_path = at_home;
  tab = tab_layout;
  status = codes "saved to ";
}

pub runs :
    frames one_file (λ path. []) (λ e. []) (saving ∷ adding ∷ []) shown none
    ≡ some (left_open, (save one_file default_config at_home none).1)
unfolding frames update top_panel save_app show_tab general_tab layout_tab default_config new_peer
    save parent
runs = refl
