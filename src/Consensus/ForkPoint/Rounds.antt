-- ===== src/Consensus/ForkPoint/Rounds.antt =====
-- sector/consensus/find_fork_point.py: the tests of the loop on two heights.
use sector_blockchain.Prelude.{ℕ, ◌<◌, ◌≡◌, ◌⊎◌, arith, true, false, ltb, ◌||◌}

pub order : (m n : ℕ) → (m < n) ⊎ ((n < m) ⊎ (((m ≡ n) × (0 < m)) ⊎ ((m ≡ 0) × (n ≡ 0))))
order m n = omega arith

pub second_higher : (m n : ℕ) → m < n → ((ltb 0 n || ltb 0 m) ≡ true) × (ltb m n ≡ true)
second_higher m n h = (ground arith, ground arith)

pub first_higher :
    (m n : ℕ) → n < m → ((ltb 0 n || ltb 0 m) ≡ true) × (ltb m n ≡ false) × (ltb n m ≡ true)
first_higher m n h = (ground arith, ground arith, ground arith)

pub level_tests :
    (m n : ℕ)
    → m ≡ n
    → 0 < m
    → ((ltb 0 n || ltb 0 m) ≡ true) × (ltb m n ≡ false) × (ltb n m ≡ false)
level_tests m n e h = (ground arith, ground arith, ground arith)

pub lowest_test : (m n : ℕ) → m ≡ 0 → n ≡ 0 → (ltb 0 n || ltb 0 m) ≡ false
lowest_test m n e h = ground arith
