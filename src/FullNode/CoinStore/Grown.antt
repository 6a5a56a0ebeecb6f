-- ===== src/FullNode/CoinStore/Grown.antt =====
-- sector/full_node/coin_store.py: a block above a height changes nothing that a rollback to it leaves.
use mathlib.Core.Path.{subst}
use sector_blockchain.Prelude.{
  ℕ, ◌≡◌, refl, sym, ap, ◌∙◌, arith, Bool, true, false, not, leb, Bool-cases, Option-cases, inl,
  inr, ◌==◌, Option, none, some, List, [], ◌∷◌, length, if◌then◌else◌,
}
use sector_blockchain.Prelude.Int.{ℤ}
use sector_blockchain.Prelude.Dict.{Dict, lookup, has_key, insert, lookup-insert, has_key-lookup}
use sector_blockchain.Python.{ok, assert, >>=-eq-ok}
use sector_blockchain.Consensus.Blockchain.{above}
use sector_blockchain.FullNode.Conditions.{Coin, CoinRecord}
use sector_blockchain.FullNode.CoinStore.{
  CoinStore, CoinBlock, unspend, get_coin_record, add_coin_record, set_spent, add_coins,
  spend_coins, new_block, get_included_reward_coins, sum_amounts,
}
use sector_blockchain.FullNode.CoinStore.Table.{undo}
use sector_blockchain.FullNode.CoinStore.Coherent.{
  IsCoherent, get_coin_record_lem, add_coin_record_lem,
}

missing_key : (k : ℕ) (d : Dict CoinRecord) → has_key k d ≡ false → lookup k d ≡ none
missing_key k d e = absent (lookup k d) (sym (has_key-lookup k d) ∙ e)
  where
    absent : (o : Option CoinRecord) → (elim o [ none ↦ false | some v ↦ true ]) ≡ false → o ≡ none
    absent none h = refl
    absent (some v) h = absurd (cc (h))

-- A record of an unspent coin is what it is after its spend is undone.
unspend-spend :
    (r : CoinRecord) (h : ℕ)
    → r.spent ≡ false
    → r.spent_block_index ≡ 0
    → unspend (record r { spent_block_index = h; spent = true }) ≡ r
unspend-spend r h e i = rebuild r.spent_block_index r.spent i e
  where
    rebuild :
        (index : ℕ) (spent : Bool)
        → index ≡ 0
        → spent ≡ false
        → unspend (record r { spent_block_index = h; spent = true })
          ≡ record r { spent_block_index = index; spent = spent }
    rebuild index spent p q = rw (p, q) refl

module _ (coin_name : Coin → ℕ) (z : ℤ) where
  -- The store `t` is in order, and a rollback to `z` leaves in it what it leaves in `s`.
  pub record IsGrown (s t : CoinStore) : Type 0 where
    pub coherent : IsCoherent coin_name t
    pub undone : (k : ℕ) → undo z (lookup k t.coin_record_db) ≡ undo z (lookup k s.coin_record_db)

  IsGrown-trans : (s t u : CoinStore) → IsGrown s t → IsGrown t u → IsGrown s u
  IsGrown-trans s t u a b = record { coherent = b.coherent; undone = λ k. b.undone k ∙ a.undone k }

  add_coins-IsGrown :
      (height timestamp : ℕ) (coinbase : Bool) (coins : List Coin) (s t : CoinStore)
      → above height z ≡ true
      → IsCoherent coin_name s
      → add_coins coin_name height timestamp coinbase coins s ≡ ok t
      → IsGrown s t
  unfolding add_coins undo
  add_coins-IsGrown height timestamp coinbase [] s t up is e =
      subst (IsGrown s) (cc (e)) (record { coherent = is; undone = λ k. refl })
  add_coins-IsGrown height timestamp coinbase (c ∷ coins) s t up is e =
      let r : CoinRecord = record {
        coin = c;
        confirmed_block_index = height;
        spent_block_index = 0;
        spent = false;
        coinbase = coinbase;
        timestamp = timestamp;
      } in
      let (u, q, rest) = >>=-eq-ok (add_coin_record coin_name r false s) _ e in
      let (now, table, free) = add_coin_record_lem coin_name r false s u is (λ x. refl) q in
      let first : IsGrown s u = record {
        coherent = now;
        undone = λ k.
            ap (λ (d : Dict CoinRecord). undo z (lookup k d)) table
            ∙ ap (undo z) (lookup-insert (coin_name c) k r s.coin_record_db)
            ∙ new_row k (missing_key (coin_name c) s.coin_record_db free);
      } in
      IsGrown-trans s u t first (add_coins-IsGrown height timestamp coinbase coins u t up now rest)
    where
      new_row :
          (k : ℕ)
          → lookup (coin_name c) s.coin_record_db ≡ none
          → undo z (
              if coin_name c == k
              then some (record {
                coin = c;
                confirmed_block_index = height;
                spent_block_index = 0;
                spent = false;
                coinbase = coinbase;
                timestamp = timestamp;
              })
              else lookup k s.coin_record_db)
            ≡ undo z (lookup k s.coin_record_db)
      new_row k free = elim (Bool-cases (coin_name c == k)) [
        | inl here ↦
            let same : coin_name c ≡ k = ground (arith, here) in
            let none_there = subst (λ j. lookup j s.coin_record_db ≡ none) same free in
            rw (here, up) (ap (undo z) (sym none_there))
        | inr there ↦ rw there refl
      ]

  undone_spend :
      (index : ℕ) (r : CoinRecord)
      → above index z ≡ true
      → r.spent ≡ false
      → r.spent_block_index ≡ 0
      → undo z (some (record r { spent_block_index = index; spent = true })) ≡ undo z (some r)
  unfolding undo
  undone_spend index r up unspent zero_index = elim (Bool-cases (above r.confirmed_block_index z)) [
    | inl new ↦ rw new refl
    | inr old ↦ elim (Bool-cases (above r.spent_block_index z)) [
      | inl late ↦ rw (old, up, late) refl
      | inr early ↦
          rw (old, up, early)
            (ap (λ (x : CoinRecord). some x) (unspend-spend r index unspent zero_index))
    ]
  ]

  set_spent-IsGrown :
      (name index amount : ℕ) (s t : CoinStore)
      → above index z ≡ true
      → IsCoherent coin_name s
      → set_spent coin_name name index s ≡ ok (amount, t)
      → IsGrown s t
  unfolding set_spent undo
  set_spent-IsGrown name index amount s t up is e =
      let (answer, now, table) = get_coin_record_lem coin_name name s is in
      let read = (get_coin_record coin_name name s).1 in
      elim (Option-cases (lookup name s.coin_record_db)) [
        | inl no_row ↦ let nothing = answer ∙ no_row in absurd (cc (rw (set_spent, nothing) at e))
        | inr (r, row) ↦
            let found = answer ∙ row in
            let (unit, q, rest) = >>=-eq-ok (assert (not r.spent)) _ (rw (set_spent, found) at e) in
            let unspent : r.spent ≡ false = asserted r.spent q in
            let zero_index = is.unspent name r row unspent in
            let spent_record = record r { spent_block_index = index; spent = true } in
            let (u, q2, rest2) =
              >>=-eq-ok (add_coin_record coin_name spent_record true read) _ rest in
            let same : u ≡ t = cc (rest2) in
            let (now2, table2, _) =
              add_coin_record_lem coin_name spent_record true read u now (λ x. absurd (cc (x)))
                q2 in
            subst (IsGrown s) same (record {
              coherent = now2;
              undone = λ k.
                  ap (λ (d : Dict CoinRecord). undo z (lookup k d)) table2
                  ∙ ap
                      (λ (d : Dict CoinRecord).
                        undo z (lookup k (insert (coin_name r.coin) spent_record d)))
                      table
                  ∙ ap (undo z) (lookup-insert (coin_name r.coin) k spent_record s.coin_record_db)
                  ∙ spent_row k r row (is.named name r row) unspent zero_index;
            })
      ]
    where
      asserted : {u : Unit {0}} (b : Bool) → assert (not b) ≡ ok u → b ≡ false
      asserted true q = absurd (cc (q))
      asserted false q = refl

      spent_row :
          (k : ℕ) (r : CoinRecord)
          → lookup name s.coin_record_db ≡ some r
          → coin_name r.coin ≡ name
          → r.spent ≡ false
          → r.spent_block_index ≡ 0
          → undo z (
              if coin_name r.coin == k
              then some (record r { spent_block_index = index; spent = true })
              else lookup k s.coin_record_db)
            ≡ undo z (lookup k s.coin_record_db)
      spent_row k r row named unspent zero_index = elim (Bool-cases (coin_name r.coin == k)) [
        | inr there ↦ rw there refl
        | inl here ↦
            let same : name ≡ k = sym named ∙ ground (arith, here) in
            let row_k = subst (λ j. lookup j s.coin_record_db ≡ some r) same row in
            rw here (undone_spend index r up unspent zero_index ∙ ap (undo z) (sym row_k))
      ]

  spend_coins-IsGrown :
      (index : ℕ) (names : List ℕ) (total : ℕ) (s t : CoinStore)
      → above index z ≡ true
      → IsCoherent coin_name s
      → spend_coins coin_name index names s ≡ ok (total, t)
      → IsGrown s t
  unfolding spend_coins
  spend_coins-IsGrown index [] total s t up is e =
      subst (IsGrown s) (cc (e)) (record { coherent = is; undone = λ k. refl })
  spend_coins-IsGrown index (n ∷ names) total s t up is e =
      let ((amount, u), q, rest) = >>=-eq-ok (set_spent coin_name n index s) _ e in
      let first = set_spent-IsGrown n index amount s u up is q in
      let ((others, v), q2, rest2) = >>=-eq-ok (spend_coins coin_name index names u) _ rest in
      let same : v ≡ t = cc (rest2) in
      subst (IsGrown s) same (
        IsGrown-trans s u v first (spend_coins-IsGrown index names others u v up first.coherent q2))

  pub new_block-IsGrown :
      (block : CoinBlock) (tx_additions : List Coin) (tx_removals : List ℕ) (s t : CoinStore)
      → above block.height z ≡ true
      → IsCoherent coin_name s
      → new_block coin_name block tx_additions tx_removals s ≡ ok t
      → IsGrown s t
  unfolding new_block
  new_block-IsGrown block tx_additions tx_removals s t up is e =
      elim (Option-cases block.foliage_transaction_block) [
        | inl plain ↦
            subst (IsGrown s) (cc (rw plain at e)) (record { coherent = is; undone = λ k. refl })
        | inr (tx, transactions) ↦
            let included =
              get_included_reward_coins
                (record { height = block.height; foliage_transaction_block = some tx }) in
            let (a, q1, r1) =
              >>=-eq-ok (add_coins coin_name block.height tx.timestamp false tx_additions s) _
                (rw transactions at e) in
            let (unit, q2, r2) =
              >>=-eq-ok
                (assert
                  (if block.height == 0 then length included == 0 else leb 2 (length included)))
                _ r1 in
            let (b, q3, r3) =
              >>=-eq-ok (add_coins coin_name block.height tx.timestamp true included a) _ r2 in
            let ((total, c), q4, r4) =
              >>=-eq-ok (spend_coins coin_name block.height tx_removals b) _ r3 in
            let (unit', q5, r5) = >>=-eq-ok (assert (leb (sum_amounts tx_additions) total)) _ r4 in
            let same : c ≡ t = cc (r5) in
            let one = add_coins-IsGrown block.height tx.timestamp false tx_additions s a up is q1 in
            let two =
              add_coins-IsGrown block.height tx.timestamp true included a b up one.coherent q3 in
            let three = spend_coins-IsGrown block.height tx_removals total b c up two.coherent q4 in
            subst (IsGrown s) same (IsGrown-trans s b c (IsGrown-trans s a b one two) three)
      ]
