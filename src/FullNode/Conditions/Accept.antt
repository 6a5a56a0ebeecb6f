-- ===== src/FullNode/Conditions/Accept.antt =====
-- sector/full_node/mempool_check_conditions.py: the checks accept just the spends whose conditions
-- hold.
use sector_blockchain.Prelude.{
  ℕ, ◌≡◌, ◌≢◌, refl, sym, ap, ◌∙◌, ◌↔◌, arith, Bool, true, false, leb, ◌==◌, not, Bool-cases, inl,
  inr, Option, none, some, List, [], ◌∷◌, length, All,
}
use sector_blockchain.Prelude.Int.{ℤ, pos, negsuc}
use sector_blockchain.Prelude.Dict.{Dict}
use sector_blockchain.Python.{
  Result, ok, raise, Exc, value_error, assertion_error, key_error, index_error, zero_division,
  integrity_error, struct_error, set_error, out_of_fuel, ◌>>=◌, >>=-eq-ok,
}
use sector_blockchain.FullNode.Conditions.{
  Err, assert_my_amount_failed, ConditionOpcode, unknown, agg_sig_unsafe, agg_sig_me, create_coin,
  reserve_fee, create_coin_announcement, assert_coin_announcement, create_puzzle_announcement,
  assert_puzzle_announcement, assert_my_coin_id, assert_my_parent_id, assert_my_puzzlehash,
  assert_my_amount, assert_seconds_relative, assert_seconds_absolute, assert_height_relative,
  assert_height_absolute, CoinRecord, ConditionWithArgs, same_bytes, contains, var0, bytes32, below,
  plus, equals, or_invalid, fail_if, or_now, name, check_condition, check_list,
  mempool_check_conditions_dict, mempool_assert_announcement, mempool_assert_my_coin_id,
  mempool_assert_absolute_block_height_exceeds, mempool_assert_relative_block_height_exceeds,
  mempool_assert_absolute_time_exceeds, mempool_assert_relative_time_exceeds,
  mempool_assert_my_parent_id, mempool_assert_my_puzzlehash, mempool_assert_my_amount,
}
use sector_blockchain.FullNode.Conditions.Holds.{Reached, ReachedFrom, Holds, AllHold}

below-Reached : (a : ℤ) (n : ℕ) → (below n a ≡ false) ↔ Reached a n
below-Reached (pos m) n = ground arith
below-Reached (negsuc m) n = ((λ e. tt), (λ u. refl))

below-plus : (a : ℤ) (k n : ℕ) → (below n (plus a k) ≡ false) ↔ ReachedFrom a k n
below-plus (pos m) k n = ground arith
below-plus (negsuc m) k n = elim (Bool-cases (leb k m)) [
  | inl e ↦ rw e ((λ h. ground arith), (λ h. refl))
  | inr e ↦ rw e ((λ h. ground arith), (λ h. ground arith))
]

equals_iff : (n : ℕ) (a : ℤ) → (equals n a ≡ true) ↔ (a ≡ pos n)
equals_iff n (pos m) = ground arith
equals_iff n (negsuc m) = ground arith

same_bytes_iff : (x y : List ℕ) → (same_bytes x y ≡ true) ↔ (x ≡ y)
unfolding same_bytes
same_bytes_iff [] [] = ((λ h. refl), (λ h. refl))
same_bytes_iff [] (y ∷ ys) = ((λ h. absurd (cc)), (λ h. absurd (cc)))
same_bytes_iff (x ∷ xs) [] = ((λ h. absurd (cc)), (λ h. absurd (cc)))
same_bytes_iff (x ∷ xs) (y ∷ ys) = ground (arith, same_bytes_iff xs ys)

-- A check behind a call passes where the call returns and what is checked then passes.
bind_check :
    {A : Type 0} {P : A → Type 0} (m : Result A) (k : A → Result (Option Err))
    → ((a : A) → (k a ≡ ok none) ↔ P a)
    → ((m >>= k) ≡ ok none) ↔ ((a : A) × (m ≡ ok a) × P a)
bind_check m k iff = (
  (λ h. let (a, e, q) = >>=-eq-ok m k h in (a, e, (iff a).0 q)),
  (λ w. rw (w.1) ((iff w.0).1 w.2)),
)

fail_if_iff : (b : Bool) (e : Err) → (ok (fail_if b e) ≡ ok none) ↔ (b ≡ false)
fail_if_iff true e = ((λ h. absurd (cc)), (λ h. absurd (cc)))
fail_if_iff false e = ((λ h. refl), (λ h. refl))

unless_iff : (b : Bool) (e : Err) → (ok (fail_if (not b) e) ≡ ok none) ↔ (b ≡ true)
unless_iff true e = ((λ h. refl), (λ h. refl))
unless_iff false e = ((λ h. absurd (cc)), (λ h. absurd (cc)))

trans : {A B C : Type 0} → (A ↔ B) → (B ↔ C) → (A ↔ C)
trans f g = ((λ a. g.0 (f.0 a)), (λ c. f.1 (g.1 c)))

-- A check against given bytes passes where the argument is these.
given_check :
    (c : ConditionWithArgs) (x : List ℕ) (e : Err)
    → ((var0 c >>= λ v. ok (fail_if (not (same_bytes x v)) e)) ≡ ok none) ↔ (var0 c ≡ ok x)
given_check c x e =
    trans
      (bind_check {P = λ v. x ≡ v} (var0 c) (λ v. ok (fail_if (not (same_bytes x v)) e))
        (λ v. trans (unless_iff (same_bytes x v) e) (same_bytes_iff x v)))
      ((λ w. w.1 ∙ ap ok (sym w.2)), (λ q. (x, q, refl)))

or_invalid-raise : (x : Exc) (k : ℤ → Option Err) → or_invalid (raise x) k ≢ ok none
or_invalid-raise value_error k h = absurd (cc)
or_invalid-raise assertion_error k h = absurd (cc)
or_invalid-raise key_error k h = absurd (cc)
or_invalid-raise index_error k h = absurd (cc)
or_invalid-raise zero_division k h = absurd (cc)
or_invalid-raise set_error k h = absurd (cc)
or_invalid-raise integrity_error k h = absurd (cc)
or_invalid-raise struct_error k h = absurd (cc)
or_invalid-raise out_of_fuel k h = absurd (cc)

or_invalid_check :
    (r : Result ℤ) (g : ℤ → Bool) (P : ℤ → Type 0) (e : Err)
    → ((a : ℤ) → (g a ≡ false) ↔ P a)
    → (or_invalid r (λ a. fail_if (g a) e) ≡ ok none) ↔ ((a : ℤ) × (r ≡ ok a) × P a)
or_invalid_check (ok b) g P e iff = (
  (λ h. (b, refl, (iff b).0 ((fail_if_iff (g b) e).0 h))),
  (λ w.
      let same : b ≡ w.0 = cc (w.1) in rw same ((fail_if_iff (g (w.0)) e).1 ((iff (w.0)).1 (w.2)))),
)
or_invalid_check (raise x) g P e iff =
    ((λ h. absurd (or_invalid-raise x (λ a. fail_if (g a) e) h)), (λ w. absurd (cc (w.1))))

int_check :
    (c : ConditionWithArgs) (cast : List ℕ → Result ℤ) (g : ℤ → Bool) (P : ℤ → Type 0) (e : Err)
    → ((a : ℤ) → (g a ≡ false) ↔ P a)
    → ((var0 c >>= λ v. or_invalid (cast v) λ a. fail_if (g a) e) ≡ ok none)
      ↔ ((v : List ℕ) × (var0 c ≡ ok v) × ((a : ℤ) × (cast v ≡ ok a) × P a))
int_check c cast g P e iff =
    bind_check (var0 c) (λ v. or_invalid (cast v) λ a. fail_if (g a) e)
      (λ v. or_invalid_check (cast v) g P e iff)

-- One check behind another: both pass.
then_check :
    (m rest : Result (Option Err))
    → ((m >>= λ error. elim error [ none ↦ rest | some e ↦ ok (some e) ]) ≡ ok none)
      ↔ ((m ≡ ok none) × (rest ≡ ok none))
then_check (ok none) rest = ((λ h. (refl, h)), (λ w. w.1))
then_check (ok (some e)) rest = ((λ h. absurd (cc)), (λ w. absurd (cc (w.0))))
then_check (raise x) rest = ((λ h. absurd (cc)), (λ w. absurd (cc (w.0))))

both : {A B C D : Type 0} → (A ↔ C) → (B ↔ D) → (A × B) ↔ (C × D)
both f g = ((λ w. (f.0 (w.0), g.0 (w.1))), (λ w. (f.1 (w.0), g.1 (w.1))))

announced_check :
    (c : ConditionWithArgs) (names : List (List ℕ)) (e : Err)
    → ((var0 c >>= λ v. bytes32 v >>= λ h. ok (fail_if (not (contains h names)) e)) ≡ ok none)
      ↔ ((v : List ℕ) × (var0 c ≡ ok v) × ((length v ≡ 32) × (contains v names ≡ true)))
announced_check c names e =
    bind_check (var0 c) (λ v. bytes32 v >>= λ h. ok (fail_if (not (contains h names)) e)) sized
  where
    sized :
        (v : List ℕ)
        → ((bytes32 v >>= λ h. ok (fail_if (not (contains h names)) e)) ≡ ok none)
          ↔ ((length v ≡ 32) × (contains v names ≡ true))
    sized v = elim (Bool-cases (length v == 32)) [
      | inl q ↦ rw q (
        (λ h. (ground arith, (unless_iff (contains v names) e).0 h)),
        (λ w. (unless_iff (contains v names) e).1 w.1),
      )
      | inr q ↦ rw q ((λ h. absurd (cc)), (λ w. absurd (ground arith)))
    ]

module _ (std_hash : List ℕ → List ℕ) (int_to_bytes : ℕ → List ℕ)
    (int_from_bytes : List ℕ → Result ℤ) (now : ℕ) (unspent : CoinRecord)
    (coin_names puzzle_names : List (List ℕ)) (height : ℕ) (timestamp : Option ℕ) where
  abbrev check : ConditionWithArgs → Result (Option Err)
  check c =
      check_condition std_hash int_to_bytes int_from_bytes now unspent coin_names puzzle_names
        height timestamp c

  abbrev Meant : ConditionWithArgs → Type 0
  Meant c =
      Holds std_hash int_to_bytes int_from_bytes now unspent coin_names puzzle_names height
        timestamp c

  amount_check :
      (c : ConditionWithArgs)
      → ((var0 c >>= λ v. int_from_bytes v >>= λ a.
            ok (fail_if (not (equals (unspent.coin.amount) a)) assert_my_amount_failed))
          ≡ ok none)
        ↔ ((v : List ℕ) × (var0 c ≡ ok v)
            × ((a : ℤ) × (int_from_bytes v ≡ ok a) × (a ≡ pos unspent.coin.amount)))
  amount_check c =
      bind_check (var0 c)
        (λ v. int_from_bytes v >>= λ a.
          ok (fail_if (not (equals (unspent.coin.amount) a)) assert_my_amount_failed))
        (λ v.
          bind_check (int_from_bytes v)
            (λ a. ok (fail_if (not (equals (unspent.coin.amount) a)) assert_my_amount_failed))
            (λ a.
              trans (unless_iff (equals (unspent.coin.amount) a) assert_my_amount_failed)
                (equals_iff (unspent.coin.amount) a)))

  check_condition_iff :
      (o : ConditionOpcode) (vars : List (List ℕ))
      → (check (record { opcode = o; vars = vars }) ≡ ok none)
        ↔ Meant (record { opcode = o; vars = vars })
  unfolding check_condition Holds
  check_condition_iff unknown vars = ((λ h. tt), (λ u. refl))
  check_condition_iff agg_sig_unsafe vars = ((λ h. tt), (λ u. refl))
  check_condition_iff agg_sig_me vars = ((λ h. tt), (λ u. refl))
  check_condition_iff create_coin vars = ((λ h. tt), (λ u. refl))
  check_condition_iff reserve_fee vars = ((λ h. tt), (λ u. refl))
  check_condition_iff create_coin_announcement vars = ((λ h. tt), (λ u. refl))
  check_condition_iff create_puzzle_announcement vars = ((λ h. tt), (λ u. refl))
  check_condition_iff assert_coin_announcement vars =
      unfold mempool_assert_announcement in
      announced_check (record { opcode = assert_coin_announcement; vars = vars }) coin_names _
  check_condition_iff assert_puzzle_announcement vars =
      unfold mempool_assert_announcement in
      announced_check (record { opcode = assert_puzzle_announcement; vars = vars }) puzzle_names _
  check_condition_iff assert_my_coin_id vars =
      unfold mempool_assert_my_coin_id in
      given_check (record { opcode = assert_my_coin_id; vars = vars })
        (name std_hash int_to_bytes int_from_bytes now unspent.coin) _
  check_condition_iff assert_my_parent_id vars =
      unfold mempool_assert_my_parent_id in
      given_check (record { opcode = assert_my_parent_id; vars = vars })
        (unspent.coin.parent_coin_info) _
  check_condition_iff assert_my_puzzlehash vars =
      unfold mempool_assert_my_puzzlehash in
      given_check (record { opcode = assert_my_puzzlehash; vars = vars }) (unspent.coin.puzzle_hash)
        _
  check_condition_iff assert_my_amount vars =
      unfold mempool_assert_my_amount in
      amount_check (record { opcode = assert_my_amount; vars = vars })
  check_condition_iff assert_seconds_relative vars =
      unfold mempool_assert_relative_time_exceeds in
      int_check (record { opcode = assert_seconds_relative; vars = vars }) int_from_bytes
        (λ a.
          below (or_now std_hash int_to_bytes int_from_bytes now timestamp)
            (plus a unspent.timestamp))
        (λ a.
          ReachedFrom a unspent.timestamp
            (or_now std_hash int_to_bytes int_from_bytes now timestamp))
        _
        (λ a.
          below-plus a unspent.timestamp
            (or_now std_hash int_to_bytes int_from_bytes now timestamp))
  check_condition_iff assert_seconds_absolute vars =
      unfold mempool_assert_absolute_time_exceeds in
      int_check (record { opcode = assert_seconds_absolute; vars = vars }) int_from_bytes
        (λ a. below (or_now std_hash int_to_bytes int_from_bytes now timestamp) a)
        (λ a. Reached a (or_now std_hash int_to_bytes int_from_bytes now timestamp)) _
        (λ a. below-Reached a (or_now std_hash int_to_bytes int_from_bytes now timestamp))
  check_condition_iff assert_height_relative vars =
      unfold mempool_assert_relative_block_height_exceeds in
      int_check (record { opcode = assert_height_relative; vars = vars }) int_from_bytes
        (λ a. below height (plus a unspent.confirmed_block_index))
        (λ a. ReachedFrom a unspent.confirmed_block_index height) _
        (λ a. below-plus a unspent.confirmed_block_index height)
  check_condition_iff assert_height_absolute vars =
      unfold mempool_assert_absolute_block_height_exceeds in
      int_check (record { opcode = assert_height_absolute; vars = vars }) int_from_bytes
        (λ a. below height a) (λ a. Reached a height) _ (λ a. below-Reached a height)

  check_list_iff :
      (l : List ConditionWithArgs)
      → (check_list std_hash int_to_bytes int_from_bytes now unspent coin_names puzzle_names height
            timestamp l
          ≡ ok none)
        ↔ All Meant l
  unfolding check_list
  check_list_iff [] = ((λ h. tt), (λ u. refl))
  check_list_iff (c ∷ cs) =
      trans (then_check (check c) _)
        (both (check_condition_iff c.opcode c.vars) (check_list_iff cs))

  -- The checks of a spend end without an error exactly if every condition of every entry holds of the
  -- coin, the announcements, the height and the time.
  pub mempool_check_conditions_dict_iff :
      (d : Dict (List ConditionWithArgs))
      → (mempool_check_conditions_dict std_hash int_to_bytes int_from_bytes now unspent coin_names
            puzzle_names height timestamp d
          ≡ ok none)
        ↔ AllHold std_hash int_to_bytes int_from_bytes now unspent coin_names puzzle_names height
            timestamp d
  unfolding mempool_check_conditions_dict AllHold
  mempool_check_conditions_dict_iff [] = ((λ h. tt), (λ u. refl))
  mempool_check_conditions_dict_iff ((o, l) ∷ d) =
      trans (then_check _ _) (both (check_list_iff l) (mempool_check_conditions_dict_iff d))
