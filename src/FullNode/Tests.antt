-- ===== src/FullNode/Tests.antt =====
-- A store with two peers, and a spend with two conditions.
use sector_blockchain.Prelude.{
  ℕ, ◌≤◌, ◌≡◌, refl, true, false, ◌==◌, ◌&&◌, ◌||◌, not, none, some, if◌then◌else◌,
}
use sector_blockchain.Prelude.Dict.{lookup, insert}
use sector_blockchain.Python.{Result, ok, raise, assertion_error}
use sector_blockchain.Prelude.{List, [], ◌∷◌, ◌↔◌}
use sector_blockchain.Prelude.Int.{ℤ, pos}
use sector_blockchain.Prelude.Dict.{Dict}
use sector_blockchain.FullNode.Conditions.{
  CoinRecord, ConditionWithArgs, assert_height_absolute, assert_seconds_relative,
  mempool_check_conditions_dict,
}
use sector_blockchain.FullNode.Conditions.Holds.{AllHold}
use sector_blockchain.FullNode.Conditions.Accept.{mempool_check_conditions_dict_iff}
use sector_blockchain.FullNode.SyncStore.{
  Peak, SyncStore, create, peer_has_block, peer_disconnected, get_heaviest_peak, clear_sync_info,
}
use sector_blockchain.FullNode.SyncStore.Peers.{
  has_block, IsConsistent, has_block-peer_has_block, peer_disconnected_lem, create-IsConsistent,
  peer_has_block-IsConsistent, peer_disconnected-IsConsistent,
}
use sector_blockchain.FullNode.SyncStore.Heaviest.{
  IsPeak, get_heaviest_peak_lem, get_heaviest_peak-clear_sync_info,
}

abbrev heavy : Peak
heavy = record { header_hash = 71; height = 9; weight = 900 }

-- Peer 1 announced the peak 70, and peer 2 the heavier 71.
abbrev one_peer : SyncStore
one_peer = peer_has_block 70 1 800 8 true create

abbrev two_peers : SyncStore
two_peers = peer_has_block 71 2 900 9 true one_peer

two_peers-IsConsistent : IsConsistent two_peers
two_peers-IsConsistent =
    peer_has_block-IsConsistent 71 2 900 9 true one_peer
      (peer_has_block-IsConsistent 70 1 800 8 true create create-IsConsistent)

has_block-peer_has_block_example :
    has_block 1 70 two_peers ≡ ((71 == 70) && (2 == 1) || has_block 1 70 one_peer)
has_block-peer_has_block_example = has_block-peer_has_block 71 2 900 9 true one_peer 1 70

peer_has_block-IsConsistent_example : IsConsistent (peer_has_block 72 1 950 10 true two_peers)
peer_has_block-IsConsistent_example =
    peer_has_block-IsConsistent 72 1 950 10 true two_peers two_peers-IsConsistent

peer_disconnected_lem_example :
    (s' : SyncStore) × (peer_disconnected 2 two_peers ≡ ok s')
    × (s'.peers_changed ≡ true)
    × ((p : ℕ)
        → lookup p s'.peer_to_peak ≡ (if 2 == p then none else lookup p two_peers.peer_to_peak))
    × ((q k : ℕ) → has_block q k s' ≡ (not (2 == q) && has_block q k two_peers))
peer_disconnected_lem_example = peer_disconnected_lem 2 two_peers

abbrev without_two : SyncStore
without_two = (peer_disconnected_lem 2 two_peers).0

peer_disconnected-IsConsistent_example : IsConsistent without_two
peer_disconnected-IsConsistent_example =
    peer_disconnected-IsConsistent 2 two_peers without_two two_peers-IsConsistent
      (peer_disconnected_lem 2 two_peers).1

heavy_of_two : lookup 2 two_peers.peer_to_peak ≡ some heavy
unfolding peer_has_block lookup insert
heavy_of_two = refl

get_heaviest_peak_lem_example :
    (b : Peak) × (get_heaviest_peak two_peers ≡ ok (some b))
    × IsPeak two_peers.peak_to_peer b two_peers.peer_to_peak
    × ((q : ℕ) (w : Peak) → lookup q two_peers.peer_to_peak ≡ some w → w.weight ≤ b.weight)
get_heaviest_peak_lem_example =
    get_heaviest_peak_lem two_peers 2 heavy two_peers-IsConsistent heavy_of_two

get_heaviest_peak-clear_sync_info_example :
    get_heaviest_peak (clear_sync_info two_peers) ≡ raise assertion_error
get_heaviest_peak-clear_sync_info_example =
    get_heaviest_peak-clear_sync_info two_peers 2 heavy heavy_of_two

-- Casts of one byte.
abbrev int_to_bytes : ℕ → List ℕ
int_to_bytes n = n ∷ []

abbrev int_from_bytes : List ℕ → Result ℤ
int_from_bytes [] = ok (pos 0)
int_from_bytes (b ∷ bs) = ok (pos b)

abbrev unspent : CoinRecord
unspent = record {
  coin = record { parent_coin_info = []; puzzle_hash = []; amount = 5 };
  confirmed_block_index = 3;
  spent_block_index = 0;
  spent = false;
  coinbase = false;
  timestamp = 100;
}

abbrev conditions : Dict (List ConditionWithArgs)
conditions =
    (83, record { opcode = assert_height_absolute; vars = (7 ∷ []) ∷ [] } ∷ [])
    ∷ (80, record { opcode = assert_seconds_relative; vars = (20 ∷ []) ∷ [] } ∷ [])
    ∷ []

mempool_check_conditions_dict_iff_example :
    (mempool_check_conditions_dict
        (λ b. b)
        int_to_bytes
        int_from_bytes
        500
        unspent
        []
        []
        8
        (some 130)
        conditions
      ≡ ok none)
    ↔ AllHold (λ b. b) int_to_bytes int_from_bytes 500 unspent [] [] 8 (some 130) conditions
mempool_check_conditions_dict_iff_example =
    mempool_check_conditions_dict_iff (λ b. b) int_to_bytes int_from_bytes 500 unspent [] [] 8
      (some 130) conditions
