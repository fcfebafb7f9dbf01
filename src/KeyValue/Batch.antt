-- ===== src/KeyValue/Batch.antt =====
-- What `updateValues` records beside its changes of the rows: the invariant of its loop, between the
-- rows of the start and those of now.
mod Recorded
mod Steps
mod Rule
pub use Recorded.{
  listed-in_list, same_but_pre_state, record_drops_lists, listed, Snapshots, undo-is_recorded,
  undo_unrecorded, set_elements_unlisted, remove_elements_lem,
}
pub use Steps.{update_values-Batch}
pub use Steps.Drops.{Batch}
pub use Rule.{
  with_value, ids_of, with_drops, given_by, Ends, snapped, Held, Sweeps, Wins, Keeps,
  after_apply_watermark, update_values_rule, All-admitted,
}
unfoldable pub use Recorded.{in_list}
