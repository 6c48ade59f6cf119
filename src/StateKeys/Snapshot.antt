-- ===== src/StateKeys/Snapshot.antt =====
-- The snapshot of the selected keys (state_mac_key_snapshot.rs), composed from what the store read
-- (`SelectedKeySnapshotRaw` of crates/msgriver-store/src/lib.rs).
pub mod Promises
use msgriver.Common.{ℕ, List}
use msgriver.Journal.Wire.{Result, ok, err, ◌>>=◌, ◌>>◌}
use msgriver.StateKeys.Rows.{
  RawStateMacKeyManifestRow, StateMacKeyManifestRow, StateMacKeyHighWater, RawStateMacKeyHighWater,
  StateMacKeyMetaFacts, decode_state_mac_key_manifest_row, decode_state_mac_key_meta_rows, collect,
}
use msgriver.StateKeys.Manifest.{validate_state_mac_key_manifest}
use msgriver.StateKeys.HighWater.{validate_state_mac_key_high_water}

pub record SelectedKeySnapshotRaw : Type 0 where
  pub selected_origin : List ℕ
  pub high_waters : List RawStateMacKeyHighWater
  pub manifest_rows : List RawStateMacKeyManifestRow

pub record StateMacKeySnapshotFacts : Type 0 where
  pub selected_origin : List ℕ
  pub high_waters : List StateMacKeyHighWater
  pub manifest_rows : List StateMacKeyManifestRow

pub data StateMacKeySnapshotError : Type 0 where
  missing_state_mac_key_snapshot_composer invalid_snapshot : StateMacKeySnapshotError

-- `map_err(|_| InvalidSnapshot)`.
abbrev pub or_invalid : {E A : Type 0} → Result E A → Result StateMacKeySnapshotError A
or_invalid (ok a) = ok a
or_invalid (err e) = err invalid_snapshot

unfoldable pub compose_state_mac_key_snapshot :
    SelectedKeySnapshotRaw → List ℕ → Result StateMacKeySnapshotError StateMacKeySnapshotFacts
compose_state_mac_key_snapshot raw prebootstrap_origin = do
  meta ← or_invalid (decode_state_mac_key_meta_rows raw.selected_origin raw.high_waters)
  manifest_rows ← or_invalid (collect decode_state_mac_key_manifest_row raw.manifest_rows)
  or_invalid
      (validate_state_mac_key_manifest meta.selected_origin prebootstrap_origin manifest_rows)
  or_invalid (validate_state_mac_key_high_water manifest_rows meta.selected_origin meta.high_waters)
  ok (record {
    selected_origin = meta.selected_origin;
    high_waters = meta.high_waters;
    manifest_rows = manifest_rows;
  })
