-- ===== src/TickTick/Tests.antt =====
-- The theorems on ReconcileItem and on markers, at a service that shows two projects.
use index_01_hook.Base.{ℕ, ◌≡◌, refl, arith, true, some, false, List, [], ◌∷◌, ◌++◌}
use index_01_hook.Base.Rows.{any_row}
use index_01_hook.Base.Text.{
  Text, codes, text_eq, is_space, trim_space, byte_length, rune_length, to_lower, lower_rune,
}
use index_01_hook.Application.Item.{task}
use index_01_hook.Application.Identity.{
  decode_hex, new_item_identity, format_marker, tick_tick_marker, ItemIdentity, identity,
}
use index_01_hook.Base.Int.{pos}
use index_01_hook.Application.Identity.Markers.{tick_tick_marker-injective}
use index_01_hook.Application.Identity.Decimal.{print_ℕ}
use index_01_hook.Queue.Frozen.{all_identifier, safe_provider_identifier}
use index_01_hook.Worker.Provider.{ReconciliationInput, confirmed}
use index_01_hook.TickTick.Marker.{
  split_at, trim_return, has_exact_marker_line, strip_prefix, strip_bracket, digits, atoi,
  valid_tick_tick_marker,
}
use index_01_hook.TickTick.Marker.Valid.{tick_tick_marker-valid}
use index_01_hook.TickTick.Scan.{
  RemoteTask, listed, ProjectData, tasks_of, TickTickService, safe_ids, candidates, kind_matches,
  is_original, scan_tasks, scan_projects, scan_listing, reconciled_with, reconcile_item,
}
use index_01_hook.TickTick.Scan.Confirmed.{Confirms, reconcile_item-confirmed}

abbrev same_rune : ℕ → ℕ
same_rune c = c

abbrev input : ReconciliationInput
input = record {
  kind = task;
  project_alias = [];
  marker = codes "[index01:aaaaaaaaaaaaaaaaaaaaaaaaaaaaaaaaaaaaaaaaaaaaaaaaaaaaaaaaaaaaaaaa:0]";
  title = codes "Buy milk";
  content = codes "two";
}

abbrev original : RemoteTask
original = record {
  id = codes "t1";
  kind = codes "text";
  title = codes "Buy milk ";
  content = input.marker ++ (10 ∷ 10 ∷ codes "two");
}

abbrev stranger : RemoteTask
stranger = record original { content = codes "two" }

abbrev data_of : Text → ProjectData
data_of (p ∷ number ∷ []) = tasks_of (stranger ∷ original ∷ [])
data_of _ = tasks_of []

abbrev service : TickTickService
service = record { projects = listed (codes "p1" ∷ []); project_data = data_of; ended = false }

confirmed_is :
    reconcile_item same_rune service input ≡ reconciled_with confirmed (codes "t1") (codes "p1")
unfolding any_row text_eq is_space trim_space byte_length rune_length to_lower lower_rune decode_hex
    new_item_identity format_marker tick_tick_marker print_ℕ all_identifier safe_provider_identifier
    split_at trim_return has_exact_marker_line strip_prefix strip_bracket digits atoi
    valid_tick_tick_marker safe_ids candidates kind_matches is_original scan_tasks scan_projects
    scan_listing reconcile_item
confirmed_is = refl

reconcile_item-confirmed_example :
    (ids : List Text) × (listed (codes "p1" ∷ []) ≡ listed ids)
    × Confirms service input (codes "t1") ids
reconcile_item-confirmed_example =
    reconcile_item-confirmed same_rune service input (codes "t1") (codes "p1") confirmed_is

-- The same fingerprint, written with capitals and between spaces.
abbrev fingerprint : Text
fingerprint = codes "aaaaaaaaaaaaaaaaaaaaaaaaaaaaaaaaaaaaaaaaaaaaaaaaaaaaaaaaaaaaaaaa"

abbrev capitals : Text
capitals = codes " AAAAAAAAAAAAAAAAAAAAAAAAAAAAAAAAAAAAAAAAAAAAAAAAAAAAAAAAAAAAAAAA "

marked : tick_tick_marker same_rune fingerprint (pos 0) ≡ some input.marker
unfolding is_space trim_space byte_length rune_length to_lower lower_rune decode_hex
    new_item_identity format_marker tick_tick_marker print_ℕ
marked = refl

marked_capitals : tick_tick_marker same_rune capitals (pos 0) ≡ some input.marker
unfolding is_space trim_space byte_length rune_length to_lower lower_rune decode_hex
    new_item_identity format_marker tick_tick_marker print_ℕ
marked_capitals = refl

tick_tick_marker-injective_example :
    (x : ItemIdentity) × (new_item_identity same_rune fingerprint (pos 0) ≡ identity x)
    × (new_item_identity same_rune capitals (pos 0) ≡ identity x)
tick_tick_marker-injective_example =
    tick_tick_marker-injective same_rune fingerprint capitals (pos 0) (pos 0) input.marker marked
      marked_capitals

same_rune_stable : (c : ℕ) → lower_rune same_rune (lower_rune same_rune c) ≡ lower_rune same_rune c
unfolding lower_rune
same_rune_stable c = ground arith

tick_tick_marker-valid_example : valid_tick_tick_marker same_rune input.marker ≡ true
tick_tick_marker-valid_example =
    tick_tick_marker-valid same_rune capitals 0 input.marker same_rune_stable (omega arith)
      marked_capitals
