-- ===== src/KeyValue/Writes/Applied.antt =====
-- The values that `Set` reports as applied are among those it was given.
use any_sync.Common.{
  ℕ, ◌≡◌, refl, sym, subst, List, [], ◌∷◌, ◌++◌, Option, none, some, Bool-cases, inl, inr, ok, err,
  Result, All,
}
use any_sync.KeyValue.{KeyValue}
use any_sync.KeyValue.Update.{
  Container, Collection, no_result, Outcome, updated, failed, update_values, UpdateResult,
}
use any_sync.KeyValue.Store.{
  Storage, SetResult, Calls, set_values, apply_set, finish_set, is_unrecorded,
}
use any_sync.KeyValue.Rows.{Documents, head_of}
use any_sync.KeyValue.Batch.{Ends, update_values_rule, same_but_pre_state, record_drops_lists}
use any_sync.KeyValue.Writes.{set_some}

-- What is applied was given.
module _ {C : Type 0} (db : Collection C) (laws : Documents db) (P : KeyValue → Type 0) where
  abbrev pub Applied : Storage C × Result ℕ SetResult → Type 0
  Applied (s, ok r) = All P r.applied
  Applied (s, err e) = Unit

  All-snoc : (kvs : List KeyValue) (kv : KeyValue) → All P kvs → P kv → All P (kvs ++ kv ∷ [])
  All-snoc [] kv a h = (h, tt)
  All-snoc (x ∷ xs) kv a h = (a.0, All-snoc xs kv a.1 h)

  update_values-applied :
      (s : Storage C) (c : C) (res : UpdateResult) (kvs : List KeyValue)
      → All P kvs
      → update_values db s.watermarks s.collection no_result kvs ≡ updated c res
      → All P res.applied
  update_values-applied s c res kvs a q =
      subst (Ends (λ c res. All P res.applied) (λ res. Unit {0})) q (
        update_values_rule db laws s.watermarks _ _ P
          record {
            upserts = λ c c' res kv k p w e.
                let n =
                  same_but_pre_state kv.key_peer_id (head_of (laws.rows c kv.key_peer_id)) res in
                rw (n.3) (All-snoc res.applied kv k p);
            drops =
                λ c c' res wm docs k held e. subst (All P) (sym (record_drops_lists res docs).3) k;
            stops = λ c res k. tt;
            marks = λ c res kv k. tt;
            scans = λ c res docs k held. tt;
          }
          s.collection no_result kvs tt a)

  finish_set-Applied :
      (commit : Option ℕ) (c : C) (res : UpdateResult) (diff : Container) (head : ℕ) (r : SetResult)
      (s : Storage C)
      → All P r.applied
      → Applied (finish_set commit c res diff head r s)
  unfolding finish_set
  finish_set-Applied (some e) c res diff head r s a = tt
  finish_set-Applied none c res diff head r s a = a

  apply_set-Applied :
      (entry commit : Option ℕ) (hash : ℕ) (kvs : List KeyValue) (s : Storage C) (o : Outcome C)
      → All P kvs
      → update_values db s.watermarks s.collection no_result kvs ≡ o
      → Applied (apply_set entry commit hash o s)
  unfolding apply_set
  apply_set-Applied entry commit hash kvs s (failed e res) a q = tt
  apply_set-Applied none commit hash kvs s (updated c res) a q =
      elim (Bool-cases (is_unrecorded res.pre_state)) [
        | inl u ↦ rw u (finish_set-Applied commit c res _ s.head _ s tt)
        | inr u ↦
            rw u
              (finish_set-Applied commit c res _ hash _ s (update_values-applied s c res kvs a q))
      ]
  apply_set-Applied (some e) commit hash kvs s (updated c res) a q =
      elim (Bool-cases (is_unrecorded res.pre_state)) [
        | inl u ↦ rw u (finish_set-Applied commit c res _ s.head _ s tt)
        | inr u ↦ rw u tt
      ]

  pub set_some-Applied :
      (f : Calls) (kvs : List KeyValue) (s : Storage C) → All P kvs → Applied (set_some db f kvs s)
  unfolding set_some set_values
  set_some-Applied f [] s a = tt
  set_some-Applied f (kv ∷ kvs) s a =
      elim f.write_tx
        as (λ w. Applied (elim w [
          | some e ↦ (s, err e)
          | none ↦
              apply_set f.update_entry f.commit f.hash
                (update_values db s.watermarks s.collection no_result (kv ∷ kvs)) s
        ])) [
          | some e ↦ tt
          | none ↦ apply_set-Applied f.update_entry f.commit f.hash (kv ∷ kvs) s _ a refl
        ]
