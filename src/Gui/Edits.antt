-- ===== src/Gui/Edits.antt =====
-- The Layout tab: which peers a frame keeps, removes and adds.
use mathlib.Core.List.{map-append}
use dshare.Base.{
  ℕ, zero, suc, true, false, Option, none, some, List, [], ◌∷◌, ◌++◌, ◌+◌, ◌≤◌, ◌<◌, ◌≡◌, refl, sym,
  ap, ◌∙◌, ◌⊎◌, inl, inr, arith, length, take, drop, map, if◌then◌else◌, Bool-cases, append-nil,
}
use dshare.Core.Layout.{PeerScreen}
use dshare.Core.Config.{Config}
use dshare.Gui.{
  RowInput, LayoutInput, edit_row, edit_rows, remove_at, new_peer, push_added, remove_clicked_row,
  layout_tab,
}

-- Of the rows from `i` up to `n`, none is clicked.
abbrev pub NoneClicked : (ℕ → RowInput) → (i n : ℕ) → Type 0
NoneClicked row i n = (k : ℕ) → i ≤ k → k < n → (row k).remove_clicked ≡ false

-- The last row below `n` that is clicked, if there is one.
abbrev pub LastClicked : (ℕ → RowInput) → (n : ℕ) → Option ℕ → Type 0
LastClicked row n none = NoneClicked row 0 n
LastClicked row n (some j) = (j < n) × ((row j).remove_clicked ≡ true) × NoneClicked row (suc j) n

-- A list without what stands at an index.
abbrev pub without_index {ℓ} : {A : Type ℓ} → Option ℕ → List A → List A
without_index none xs = xs
without_index (some i) xs = take i xs ++ drop (suc i) xs

abbrev pub ids : List PeerScreen → List ℕ
ids = map (λ p. p.peer_id)

abbrev pub added_ids : Option ℕ → List ℕ
added_ids none = []
added_ids (some peer_id) = peer_id ∷ []

le-cases : (i k : ℕ) → i ≤ k → (i ≡ k) ⊎ (suc i ≤ k)
le-cases i k h = ground arith

-- The rows from `i` on, once the next ones are known.
NoneClicked-suc :
    (row : ℕ → RowInput) (i n : ℕ)
    → (row i).remove_clicked ≡ false
    → NoneClicked row (suc i) n
    → NoneClicked row i n
NoneClicked-suc row i n h later k l u = elim (le-cases i k l) [
  | inl e ↦ rw (← e) h
  | inr l' ↦ later k l' u
]

edit_rows-ids :
    (row : ℕ → RowInput) (i : ℕ) (peers : List PeerScreen) (remove : Option ℕ)
    → ids (edit_rows row i peers remove).0 ≡ ids peers
unfolding edit_rows edit_row
edit_rows-ids row i [] remove = refl
edit_rows-ids row i (p ∷ peers) remove =
    ap (λ (t : List ℕ). p.peer_id ∷ t)
      (edit_rows-ids row (suc i) peers (if (row i).remove_clicked then some i else remove))

edit_rows-length :
    (row : ℕ → RowInput) (i : ℕ) (peers : List PeerScreen) (remove : Option ℕ)
    → length (edit_rows row i peers remove).0 ≡ length peers
unfolding edit_rows
edit_rows-length row i [] remove = refl
edit_rows-length row i (p ∷ peers) remove =
    ap suc (edit_rows-length row (suc i) peers (if (row i).remove_clicked then some i else remove))

-- The loop ends with the row to remove that it began with if no row is clicked, and else with the
-- last one that is.
edit_rows-last :
    (row : ℕ → RowInput) (i : ℕ) (peers : List PeerScreen) (remove : Option ℕ)
    → (((edit_rows row i peers remove).1 ≡ remove) × NoneClicked row i (i + length peers))
      ⊎ ((j : ℕ) × ((edit_rows row i peers remove).1 ≡ some j)
          × (j < i + length peers)
          × ((row j).remove_clicked ≡ true)
          × NoneClicked row (suc j) (i + length peers))
unfolding edit_rows
edit_rows-last row i [] remove = inl (refl, λ k l u. absurd (omega arith))
edit_rows-last row i (p ∷ peers) remove =
    let ih = edit_rows-last row (suc i) peers (if (row i).remove_clicked then some i else remove) in
    elim ih [
      | inr (j, e, l, c, later) ↦ inr (j, e, omega arith, c, λ k m u. later k m (omega arith))
      | inl (e, later) ↦ elim (Bool-cases (row i).remove_clicked) [
        | inl c ↦ inr (i, e ∙ ground arith, omega arith, c, λ k m u. later k m (omega arith))
        | inr c ↦ inl (
          e ∙ ground arith,
          NoneClicked-suc row i (i + suc (length peers)) c (λ k m u. later k m (omega arith)),
        )
      ]
    ]

remove_at-without_index {ℓ} :
    {A : Type ℓ} (i : ℕ) (xs : List A)
    → i < length xs
    → remove_at i xs ≡ some (without_index (some i) xs)
unfolding remove_at
remove_at-without_index i [] h = absurd (omega arith)
remove_at-without_index zero (x ∷ xs) h = refl
remove_at-without_index (suc i) (x ∷ xs) h = rw (remove_at-without_index i xs (omega arith))

map-without_index :
    {A B : Type 0} (f : A → B) (r : Option ℕ) (xs : List A)
    → map f (without_index r xs) ≡ without_index r (map f xs)
map-without_index f none xs = refl
map-without_index f (some zero) [] = refl
map-without_index f (some (suc i)) [] = refl
map-without_index f (some zero) (x ∷ xs) = refl
map-without_index f (some (suc i)) (x ∷ xs) = ap (λ t. f x ∷ t) (map-without_index f (some i) xs)

removed-ids :
    (row : ℕ → RowInput) (peers : List PeerScreen) (r : Option ℕ)
    → LastClicked row (length peers) r
    → remove_clicked_row r (edit_rows row 0 peers none).0
      ≡ some (without_index r (edit_rows row 0 peers none).0)
unfolding remove_clicked_row
removed-ids row peers none last = refl
removed-ids row peers (some i) last =
    remove_at-without_index i (edit_rows row 0 peers none).0
      (rw (edit_rows-length row 0 peers none) last.0)

last_clicked :
    (row : ℕ → RowInput) (peers : List PeerScreen)
    → (r : Option ℕ) × ((edit_rows row 0 peers none).1 ≡ r) × LastClicked row (length peers) r
last_clicked row peers = elim (edit_rows-last row 0 peers none) [
  | inl (e, all) ↦ (none, e, λ k m u. all k m (omega arith))
  | inr (j, e, l, c, later) ↦ (some j, e, (omega arith, c, λ k m u. later k m (omega arith)))
]

push_added-ids :
    (added : Option ℕ) (peers : List PeerScreen)
    → ids (push_added added peers) ≡ ids peers ++ added_ids added
unfolding push_added new_peer
push_added-ids none peers = sym (append-nil (ids peers))
push_added-ids (some peer_id) peers = map-append (λ p. p.peer_id) peers (new_peer peer_id ∷ [])

-- A frame of the Layout tab never panics. It keeps the peers and their order, however it edits
-- them, but for the one whose button was clicked last, if any was, and puts a new one at the end if
-- one is added.
pub layout_tab-peer_ids :
    (ui : LayoutInput) (cfg : Config)
    → (cfg' : Config) × (r : Option ℕ) × (layout_tab ui cfg ≡ some cfg')
      × LastClicked ui.row (length cfg.layout.peers) r
      × (ids cfg'.layout.peers ≡ without_index r (ids cfg.layout.peers) ++ added_ids ui.added)
unfolding layout_tab
layout_tab-peer_ids ui cfg =
    let peers = cfg.layout.peers in
    let (r, e, last) = last_clicked ui.row peers in
    let kept = without_index r (edit_rows ui.row 0 peers none).0 in
    let kept_ids = map-without_index (λ p. p.peer_id) r (edit_rows ui.row 0 peers none).0 in
    (
      record cfg {
        layout = record {
          server_screen = record {
            width = ui.server_width_drag cfg.layout.server_screen.width;
            height = ui.server_height_drag cfg.layout.server_screen.height;
          };
          peers = push_added ui.added kept;
        };
      },
      r,
      rw (e, removed-ids ui.row peers r last) refl,
      last,
      rw (push_added-ids ui.added kept, kept_ids, edit_rows-ids ui.row 0 peers none) refl,
    )
