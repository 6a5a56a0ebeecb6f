-- ===== src/Server/RateLimits/Tables.antt =====
-- sector/server/rate_limits.py: the settings and the two tables of limits, and the values of
-- sector/protocols/protocol_message_types.py that are their keys.
use sector_blockchain.Prelude.{ℕ, ◌*◌, Option, none, some, List, [], ◌∷◌}
use sector_blockchain.Prelude.Dict.{Dict}

pub record RlSettings : Type 0 where
  pub frequency : ℕ
  pub max_size : ℕ
  pub max_total_size : Option ℕ

abbrev pub settings : ℕ → ℕ → Option ℕ → RlSettings
settings f m t = record { frequency = f; max_size = m; max_total_size = t }

abbrev pub default_settings : RlSettings
default_settings = settings 100 (1024 * 1024) (some (100 * 1024 * 1024))

abbrev pub non_tx_freq : ℕ
non_tx_freq = 1000

abbrev pub non_tx_max_total_size : ℕ
non_tx_max_total_size = 100 * 1024 * 1024

-- The values of the enumeration `ProtocolMessageTypes`.
abbrev pub message_types : List ℕ
message_types =
    1 ∷ 3 ∷ 5 ∷ 6 ∷ 7 ∷ 8 ∷ 9 ∷ 10 ∷ 11 ∷ 12 ∷ 13 ∷ 14 ∷ 15 ∷ 16 ∷ 17 ∷ 18 ∷ 19 ∷ 20 ∷ 21 ∷ 22 ∷ 23
    ∷ 24 ∷ 25 ∷ 26 ∷ 27 ∷ 28 ∷ 29 ∷ 30 ∷ 31 ∷ 32 ∷ 33 ∷ 34 ∷ 35 ∷ 36 ∷ 37 ∷ 38 ∷ 39 ∷ 40 ∷ 41 ∷ 42
    ∷ 43 ∷ 44 ∷ 45 ∷ 46 ∷ 47 ∷ 48 ∷ 49 ∷ 50 ∷ 51 ∷ 52 ∷ 53 ∷ 54 ∷ 55 ∷ 56 ∷ 57 ∷ 58 ∷ 59 ∷ 60 ∷ 61
    ∷ 62 ∷ 63 ∷ 64 ∷ 65 ∷ 66 ∷ 67 ∷ 68 ∷ []

abbrev pub rate_limits_tx : Dict RlSettings
rate_limits_tx =
    -- new_transaction
    (21, settings 5000 100 (some (5000 * 100)))
    ∷
        -- request_transaction
        (22, settings 5000 100 (some (5000 * 100)))
    ∷
        -- respond_transaction
        (23, settings 5000 (1 * 1024 * 1024) (some (20 * 1024 * 1024)))
    ∷
        -- send_transaction
        (48, settings 5000 (1024 * 1024) none)
    ∷
        -- transaction_ack
        (49, settings 5000 2048 none)
    ∷ []

abbrev pub rate_limits_other : Dict RlSettings
rate_limits_other =
    -- handshake
    (1, settings 5 (10 * 1024) (some (5 * 10 * 1024)))
    ∷
        -- harvester_handshake
        (3, settings 5 (1024 * 1024) none)
    ∷
        -- new_signage_point_harvester
        (66, settings 100 1024 none)
    ∷
        -- new_proof_of_space
        (5, settings 100 2048 none)
    ∷
        -- request_signatures
        (6, settings 100 2048 none)
    ∷
        -- respond_signatures
        (7, settings 100 2048 none)
    ∷
        -- new_signage_point
        (8, settings 200 2048 none)
    ∷
        -- declare_proof_of_space
        (9, settings 100 (10 * 1024) none)
    ∷
        -- request_signed_values
        (10, settings 100 512 none)
    ∷
        -- farming_info
        (12, settings 100 1024 none)
    ∷
        -- signed_values
        (11, settings 100 1024 none)
    ∷
        -- new_peak_timelord
        (13, settings 100 (20 * 1024) none)
    ∷
        -- new_unfinished_block_timelord
        (14, settings 100 (10 * 1024) none)
    ∷
        -- new_signage_point_vdf
        (16, settings 100 (100 * 1024) none)
    ∷
        -- new_infusion_point_vdf
        (15, settings 100 (100 * 1024) none)
    ∷
        -- new_end_of_sub_slot_vdf
        (17, settings 100 (100 * 1024) none)
    ∷
        -- request_compact_proof_of_time
        (18, settings 100 (10 * 1024) none)
    ∷
        -- respond_compact_proof_of_time
        (19, settings 100 (100 * 1024) none)
    ∷
        -- new_peak
        (20, settings 200 512 none)
    ∷
        -- request_proof_of_weight
        (24, settings 5 100 none)
    ∷
        -- respond_proof_of_weight
        (25, settings 5 (50 * 1024 * 1024) (some (100 * 1024 * 1024)))
    ∷
        -- request_block
        (26, settings 200 100 none)
    ∷
        -- reject_block
        (28, settings 200 100 none)
    ∷
        -- request_blocks
        (29, settings 100 100 none)
    ∷
        -- respond_blocks
        (30, settings 100 (50 * 1024 * 1024) (some (5 * 50 * 1024 * 1024)))
    ∷
        -- reject_blocks
        (31, settings 100 100 none)
    ∷
        -- respond_block
        (27, settings 200 (2 * 1024 * 1024) (some (10 * 2 * 1024 * 1024)))
    ∷
        -- new_unfinished_block
        (32, settings 200 100 none)
    ∷
        -- request_unfinished_block
        (33, settings 200 100 none)
    ∷
        -- respond_unfinished_block
        (34, settings 200 (2 * 1024 * 1024) (some (10 * 2 * 1024 * 1024)))
    ∷
        -- new_signage_point_or_end_of_sub_slot
        (35, settings 200 200 none)
    ∷
        -- request_signage_point_or_end_of_sub_slot
        (36, settings 200 200 none)
    ∷
        -- respond_signage_point
        (37, settings 200 (50 * 1024) none)
    ∷
        -- respond_end_of_sub_slot
        (38, settings 100 (50 * 1024) none)
    ∷
        -- request_mempool_transactions
        (39, settings 5 (1024 * 1024) none)
    ∷
        -- request_compact_vdf
        (40, settings 200 1024 none)
    ∷
        -- respond_compact_vdf
        (41, settings 200 (100 * 1024) none)
    ∷
        -- new_compact_vdf
        (42, settings 100 1024 none)
    ∷
        -- request_peers
        (43, settings 10 100 none)
    ∷
        -- respond_peers
        (44, settings 10 (1 * 1024 * 1024) none)
    ∷
        -- request_puzzle_solution
        (45, settings 100 100 none)
    ∷
        -- respond_puzzle_solution
        (46, settings 100 (1024 * 1024) none)
    ∷
        -- reject_puzzle_solution
        (47, settings 100 100 none)
    ∷
        -- new_peak_wallet
        (50, settings 200 300 none)
    ∷
        -- request_block_header
        (51, settings 500 100 none)
    ∷
        -- respond_block_header
        (52, settings 500 (500 * 1024) none)
    ∷
        -- reject_header_request
        (53, settings 500 100 none)
    ∷
        -- request_removals
        (54, settings 500 (50 * 1024) (some (10 * 1024 * 1024)))
    ∷
        -- respond_removals
        (55, settings 500 (1024 * 1024) (some (10 * 1024 * 1024)))
    ∷
        -- reject_removals_request
        (56, settings 500 100 none)
    ∷
        -- request_additions
        (57, settings 500 (1024 * 1024) (some (10 * 1024 * 1024)))
    ∷
        -- respond_additions
        (58, settings 500 (1024 * 1024) (some (10 * 1024 * 1024)))
    ∷
        -- reject_additions_request
        (59, settings 500 100 none)
    ∷
        -- request_header_blocks
        (60, settings 500 100 none)
    ∷
        -- reject_header_blocks
        (61, settings 100 100 none)
    ∷
        -- respond_header_blocks
        (62, settings 500 (2 * 1024 * 1024) (some (100 * 1024 * 1024)))
    ∷
        -- request_peers_introducer
        (63, settings 100 100 none)
    ∷
        -- respond_peers_introducer
        (64, settings 100 (1024 * 1024) none)
    ∷
        -- farm_new_block
        (65, settings 200 200 none)
    ∷
        -- request_plots
        (67, settings 10 (10 * 1024 * 1024) none)
    ∷
        -- respond_plots
        (68, settings 10 (10 * 1024 * 1024) none)
    ∷ []
