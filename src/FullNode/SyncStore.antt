-- ===== src/FullNode/SyncStore.antt =====
-- sector/full_node/sync_store.py: which peer has which block, and the peak of each peer.
pub mod Peers
pub mod Heaviest
use sector_blockchain.Prelude.{
  ℕ, Bool, true, false, ltb, ◌==◌, not, Option, none, some, List, [], ◌∷◌, if◌then◌else◌,
}
use sector_blockchain.Prelude.Dict
use sector_blockchain.Prelude.Dict.{Dict, lookup, has_key, insert, delete, member, discard}
use sector_blockchain.Python.{Result, ok, raise, assertion_error, assert, ◌>>=◌, ◌>>◌}

-- `Tuple[bytes32, uint32, uint128]`
pub record Peak : Type 0 where
  pub header_hash : ℕ
  pub height : ℕ
  pub weight : ℕ

-- `peers_changed` is whether the event is set.
pub record SyncStore : Type 0 where
  pub sync_mode : Bool
  pub long_sync : Bool
  pub peak_to_peer : Dict (List ℕ)
  pub peer_to_peak : Dict Peak
  pub sync_target_header_hash : Option ℕ
  pub sync_target_height : Option ℕ
  pub peers_changed : Bool
  pub batch_syncing : List ℕ
  pub backtrack_syncing : Dict ℕ

abbrev pub create : SyncStore
create = record {
  sync_mode = false;
  long_sync = false;
  peak_to_peer = [];
  peer_to_peak = [];
  sync_target_header_hash = none;
  sync_target_height = none;
  peers_changed = false;
  batch_syncing = [];
  backtrack_syncing = [];
}

unfoldable pub set_peak_target : ℕ → ℕ → SyncStore → SyncStore
set_peak_target peak_hash target_height s = record s {
  sync_target_header_hash = some peak_hash;
  sync_target_height = some target_height;
}

unfoldable pub set_sync_mode : Bool → SyncStore → SyncStore
set_sync_mode mode s = record s { sync_mode = mode }

unfoldable pub set_long_sync : Bool → SyncStore → SyncStore
set_long_sync long s = record s { long_sync = long }

unfoldable pub seen_header_hash : ℕ → SyncStore → Bool
seen_header_hash header_hash s = has_key header_hash s.peak_to_peer

is_target : ℕ → Option ℕ → Bool
is_target header_hash none = false
is_target header_hash (some h) = header_hash == h

-- The peers of `header_hash` with `peer_id` among them.
with_peer : ℕ → ℕ → Dict (List ℕ) → Dict (List ℕ)
with_peer header_hash peer_id d = elim (lookup header_hash d) [
  | some peers ↦ insert header_hash (Dict.add peer_id peers) d
  | none ↦ insert header_hash (peer_id ∷ []) d
]

unfoldable pub peer_has_block : ℕ → ℕ → ℕ → ℕ → Bool → SyncStore → SyncStore
unfolding is_target with_peer
peer_has_block header_hash peer_id weight height new_peak s = record s {
  peers_changed = if is_target header_hash s.sync_target_header_hash then true else s.peers_changed;
  peak_to_peer = with_peer header_hash peer_id s.peak_to_peer;
  peer_to_peak =
      if new_peak
      then insert peer_id (record { header_hash = header_hash; height = height; weight = weight })
          s.peer_to_peak
      else s.peer_to_peak;
}

-- The loop over the peers of one header hash.
add_all : List ℕ → List ℕ → List ℕ
add_all [] node_ids = node_ids
add_all (p ∷ peers) node_ids = add_all peers (Dict.add p node_ids)

collect : Dict (List ℕ) → List ℕ → List ℕ → List ℕ
collect d [] node_ids = node_ids
collect d (h ∷ hashes) node_ids =
    collect d hashes (elim (lookup h d) [ none ↦ node_ids | some peers ↦ add_all peers node_ids ])

unfoldable pub get_peers_that_have_peak : List ℕ → SyncStore → List ℕ
unfolding collect add_all
get_peers_that_have_peak header_hashes s = collect s.peak_to_peer header_hashes []

-- `ret[peer_id] = v` for entries of a dict, whose keys differ: each goes to the end.
known : Dict (List ℕ) → Dict Peak → Dict Peak
known d [] = []
known d ((peer_id, v) ∷ rest) =
    let others = known d rest in if has_key v.header_hash d then (peer_id, v) ∷ others else others

unfoldable pub get_peak_of_each_peer : SyncStore → Dict Peak
unfolding known
get_peak_of_each_peer s = known s.peak_to_peer s.peer_to_peak

-- The best peak so far; `none` is `heaviest_peak_hash is None`.
better : Peak → Option Peak → Bool
better v none = true
better v (some best) = ltb best.weight v.weight

heaviest : Dict (List ℕ) → Dict Peak → Option Peak → Option Peak
heaviest d [] best = best
heaviest d ((peer_id, v) ∷ rest) best =
    heaviest d rest
      (if has_key v.header_hash d then (if better v best then some v else best) else best)

unfoldable pub get_heaviest_peak : SyncStore → Result (Option Peak)
unfolding heaviest better
get_heaviest_peak s = elim (s.peer_to_peak) [
  | [] ↦ ok none
  | _ ∷ _ ↦ elim (heaviest s.peak_to_peer s.peer_to_peak none) [
    | none ↦ raise assertion_error
    | some best ↦ ok (some best)
  ]
]

unfoldable pub clear_sync_info : SyncStore → SyncStore
clear_sync_info s = record s { peak_to_peer = [] }

drop_peer : ℕ → Dict (List ℕ) → Result (Dict (List ℕ))
drop_peer node_id [] = ok []
drop_peer node_id ((peak, peers) ∷ rest) = do
  let left = if member node_id peers then discard node_id peers else peers
  assert (not (member node_id left))
  others ← drop_peer node_id rest
  ok ((peak, left) ∷ others)

pub peer_disconnected : ℕ → SyncStore → Result SyncStore
peer_disconnected node_id s = do
  let peaks =
      if has_key node_id s.peer_to_peak then delete node_id s.peer_to_peak else s.peer_to_peak
  d ← drop_peer node_id s.peak_to_peer
  ok (record s { peer_to_peak = peaks; peak_to_peer = d; peers_changed = true })
