-- ===== src/Fundflow/Cache.antt =====
-- The identifiers of coins that fundflow.go keeps, and which transactions it stores.
use dashcash_wallet.Prelude.{
  ℕ, ◌≡◌, refl, sym, ap, ◌∙◌, Bool, true, false, ◌&&◌, Option, none, some, Option-cases, Bool-cases,
  inl, inr, [], ◌∷◌, arith,
}
use dashcash_wallet.Prelude.Int.{ℤ}
use dashcash_wallet.Text.{Bytes, bytes_eq, bytes_eq_iff}
use dashcash_wallet.Notify.{NotifyMessage, TxType}
use dashcash_wallet.Fundflow.{
  Civil, CoinIds, FlowDb, Saved, ask, coin_id, find_coin, get_coin_id_by_name, save_fun_flow,
  save_with_coin, stop,
}
use dashcash_wallet.Fundflow.Rows.{
  enter_fundflow_db, save_admin_withdraw_tx_flow, save_by_type, save_deposit_tx_flow,
  save_inner_tx_flow, save_inner_unknown, save_user_withdraw_tx_flow,
}

abbrev pub is_some : {A : Type 0} → Option A → Bool
is_some none = false
is_some (some a) = true

-- Whether the user of a transaction is known, where its type asks for one; a transaction of no kind
-- has none.
abbrev pub has_user : FlowDb → NotifyMessage → TxType → Bool
has_user db message TxType.fund_collection = (ask db.sys_user_id_by_sweep_hash message.tx_hash).1
has_user db message TxType.user_deposit = (ask db.user_id_by_recharge_address message.address).1
has_user db message TxType.admin_deposit = true
has_user db message TxType.user_withdraw = true
has_user db message TxType.admin_withdraw = true
has_user db message TxType.unset = false
has_user db message TxType.none = false

module _ (db : FlowDb) (civil : ℕ → Civil) (rand : ℕ → ℕ) where
  -- The identifiers that are kept are those of the database.
  abbrev pub IsCached : CoinIds → Type 0
  IsCached ids =
      (symbol : Bytes) (id : ℤ)
      → find_coin ids symbol ≡ some id
      → get_coin_id_by_name db civil rand symbol ≡ some id

  pub nil-IsCached : IsCached []
  unfolding find_coin
  nil-IsCached symbol id h = ground arith

  cons-IsCached :
      (ids : CoinIds) (symbol : Bytes) (id : ℤ)
      → IsCached ids
      → get_coin_id_by_name db civil rand symbol ≡ some id
      → IsCached ((symbol, id) ∷ ids)
  unfolding find_coin
  cons-IsCached ids symbol id h known other z e = elim (Bool-cases (bytes_eq symbol other)) [
    | inl same ↦
        ap (get_coin_id_by_name db civil rand) (sym ((bytes_eq_iff symbol other).0 same))
        ∙ known
        ∙ (sym (rw (find_coin, same)) ∙ e)
    | inr apart ↦ h other z (sym (rw (find_coin, apart)) ∙ e)
  ]

  coin_id-IsCached :
      (symbol : Bytes) (ids : CoinIds)
      → IsCached ids
      → ((coin_id db civil rand symbol ids).0 ≡ get_coin_id_by_name db civil rand symbol)
        × IsCached (coin_id db civil rand symbol ids).1
  unfolding coin_id
  coin_id-IsCached symbol ids h = elim (Option-cases (find_coin ids symbol)) [
    | inr (id, e) ↦ rw (coin_id, e) (sym (h symbol id e), h)
    | inl e ↦ elim (Option-cases (get_coin_id_by_name db civil rand symbol)) [
      | inl f ↦ rw (coin_id, e, f) (refl, h)
      | inr (id, f) ↦ rw (coin_id, e, f) (refl, cons-IsCached ids symbol id h f)
    ]
  ]

  -- The same store and result, with identifiers that are those of the database.
  pub record IsLike (s t : Saved) : Type 0 where
    pub cached : IsCached s.coin_ids
    pub inserted : s.inserted ≡ t.inserted
    pub succeeded : s.succeeded ≡ t.succeeded

  save_with_coin-IsLike :
      (symbol : Bytes) (ids : CoinIds) (rows : ℤ → Bytes)
      → IsCached ids
      → IsLike
          (save_with_coin db civil rand symbol ids rows)
          (save_with_coin db civil rand symbol [] rows)
  unfolding save_with_coin save_fun_flow stop
  save_with_coin-IsLike symbol ids rows h =
      let (e, c) = coin_id-IsCached symbol ids h in
      let (e', c') = coin_id-IsCached symbol [] nil-IsCached in
      elim (Option-cases (get_coin_id_by_name db civil rand symbol)) [
        | inl f ↦
            rw (save_with_coin, e ∙ f, e' ∙ f)
              (record { cached = c; inserted = refl; succeeded = refl })
        | inr (id, f) ↦
            rw (save_with_coin, e ∙ f, e' ∙ f)
              (record { cached = c; inserted = refl; succeeded = refl })
      ]

  stop-IsLike :
      (ids : CoinIds) → IsCached ids → IsLike (stop db civil rand ids) (stop db civil rand [])
  unfolding stop
  stop-IsLike ids h = record { cached = h; inserted = refl; succeeded = refl }

  -- What a save stores, if anything.
  is_some-save_with_coin :
      (symbol : Bytes) (rows : ℤ → Bytes)
      → is_some (save_with_coin db civil rand symbol [] rows).inserted
        ≡ is_some (get_coin_id_by_name db civil rand symbol)
  unfolding save_with_coin save_fun_flow stop
  is_some-save_with_coin symbol rows =
      let (e, c) = coin_id-IsCached symbol [] nil-IsCached in
      elim (Option-cases (get_coin_id_by_name db civil rand symbol)) [
        | inl f ↦ rw (save_with_coin, e ∙ f, f) refl
        | inr (id, f) ↦ rw (save_with_coin, e ∙ f, f) refl
      ]

module _ (db : FlowDb) (civil : ℕ → Civil) (rand : ℕ → ℕ) (message : NotifyMessage)
    (symbol fee : Bytes) where
  module _ (ids : CoinIds) (h : IsCached db civil rand ids) where
    unknown-IsLike :
        (t : TxType)
        → IsLike db civil rand
            (save_inner_unknown db civil rand message symbol fee ids t)
            (save_inner_unknown db civil rand message symbol fee [] t)
    unfolding save_inner_unknown
    unknown-IsLike TxType.admin_deposit = save_with_coin-IsLike db civil rand symbol ids _ h
    unknown-IsLike TxType.fund_collection = stop-IsLike db civil rand ids h
    unknown-IsLike TxType.user_deposit = stop-IsLike db civil rand ids h
    unknown-IsLike TxType.user_withdraw = stop-IsLike db civil rand ids h
    unknown-IsLike TxType.admin_withdraw = stop-IsLike db civil rand ids h
    unknown-IsLike TxType.unset = stop-IsLike db civil rand ids h
    unknown-IsLike TxType.none = stop-IsLike db civil rand ids h

    inner-IsLike :
        IsLike db civil rand
          (save_inner_tx_flow db civil rand message symbol fee ids)
          (save_inner_tx_flow db civil rand message symbol fee [])
    unfolding save_inner_tx_flow
    inner-IsLike = elim (Bool-cases (ask db.sys_user_id_by_sweep_hash message.tx_hash).1) [
      | inl e ↦ rw (save_inner_tx_flow, e) (save_with_coin-IsLike db civil rand symbol ids _ h)
      | inr e ↦ rw (save_inner_tx_flow, e) (unknown-IsLike message.tx_type)
    ]

    deposit-IsLike :
        IsLike db civil rand
          (save_deposit_tx_flow db civil rand message symbol fee ids)
          (save_deposit_tx_flow db civil rand message symbol fee [])
    unfolding save_deposit_tx_flow
    deposit-IsLike = elim (Bool-cases (ask db.user_id_by_recharge_address message.address).1) [
      | inl e ↦ rw (save_deposit_tx_flow, e) (save_with_coin-IsLike db civil rand symbol ids _ h)
      | inr e ↦ rw (save_deposit_tx_flow, e) (stop-IsLike db civil rand ids h)
    ]

    by_type-IsLike :
        (t : TxType)
        → IsLike db civil rand
            (save_by_type db civil rand message symbol fee ids t)
            (save_by_type db civil rand message symbol fee [] t)
    unfolding save_by_type save_user_withdraw_tx_flow save_admin_withdraw_tx_flow
    by_type-IsLike TxType.fund_collection = inner-IsLike
    by_type-IsLike TxType.admin_deposit = inner-IsLike
    by_type-IsLike TxType.user_deposit = deposit-IsLike
    by_type-IsLike TxType.user_withdraw = save_with_coin-IsLike db civil rand symbol ids _ h
    by_type-IsLike TxType.admin_withdraw = save_with_coin-IsLike db civil rand symbol ids _ h
    by_type-IsLike TxType.unset = record { cached = h; inserted = refl; succeeded = refl }
    by_type-IsLike TxType.none = record { cached = h; inserted = refl; succeeded = refl }

  -- Which types store a row, with the coin known or not.
  is_some-save_by_type :
      (t : TxType)
      → message.tx_type ≡ t
      → is_some (save_by_type db civil rand message symbol fee [] t).inserted
        ≡ (has_user db message t && is_some (get_coin_id_by_name db civil rand symbol))
  unfolding save_by_type save_inner_tx_flow save_deposit_tx_flow save_user_withdraw_tx_flow
      save_admin_withdraw_tx_flow stop
  is_some-save_by_type TxType.fund_collection e =
      elim (Bool-cases (ask db.sys_user_id_by_sweep_hash message.tx_hash).1) [
        | inl f ↦ rw (save_inner_tx_flow, f) (is_some-save_with_coin db civil rand symbol _)
        | inr f ↦ unfold save_inner_unknown in rw (save_inner_tx_flow, f, e) refl
      ]
  is_some-save_by_type TxType.admin_deposit e =
      elim (Bool-cases (ask db.sys_user_id_by_sweep_hash message.tx_hash).1) [
        | inl f ↦ rw (save_inner_tx_flow, f) (is_some-save_with_coin db civil rand symbol _)
        | inr f ↦
            unfold save_inner_unknown in
            rw (save_inner_tx_flow, f, e) (is_some-save_with_coin db civil rand symbol _)
      ]
  is_some-save_by_type TxType.user_deposit e =
      elim (Bool-cases (ask db.user_id_by_recharge_address message.address).1) [
        | inl f ↦ rw (save_deposit_tx_flow, f) (is_some-save_with_coin db civil rand symbol _)
        | inr f ↦ rw (save_deposit_tx_flow, f) refl
      ]
  is_some-save_by_type TxType.user_withdraw e = is_some-save_with_coin db civil rand symbol _
  is_some-save_by_type TxType.admin_withdraw e = is_some-save_with_coin db civil rand symbol _
  is_some-save_by_type TxType.unset e = refl
  is_some-save_by_type TxType.none e = refl

-- `EnterFundflowDB` with identifiers of coins from the database stores and returns what it does
-- with none kept, and leaves identifiers from the database.
pub enter_fundflow_db-IsLike :
    (db : FlowDb) (civil : ℕ → Civil) (rand : ℕ → ℕ) (message : NotifyMessage) (symbol fee : Bytes)
    (ids : CoinIds)
    → IsCached db civil rand ids
    → IsLike db civil rand
        (enter_fundflow_db db civil rand message symbol fee ids)
        (enter_fundflow_db db civil rand message symbol fee [])
unfolding enter_fundflow_db
enter_fundflow_db-IsLike db civil rand message symbol fee ids h =
    by_type-IsLike db civil rand message symbol fee ids h message.tx_type

-- With identifiers of coins from the database, `EnterFundflowDB` stores rows exactly for a coin
-- that the database knows, in a transaction whose user is known, where it is a collection or a
-- deposit of a user, and in all deposits of administrators and all withdrawals.
pub enter_fundflow_db-has_user :
    (db : FlowDb) (civil : ℕ → Civil) (rand : ℕ → ℕ) (message : NotifyMessage) (symbol fee : Bytes)
    (ids : CoinIds)
    → IsCached db civil rand ids
    → is_some (enter_fundflow_db db civil rand message symbol fee ids).inserted
      ≡ (has_user db message message.tx_type && is_some (get_coin_id_by_name db civil rand symbol))
unfolding enter_fundflow_db
enter_fundflow_db-has_user db civil rand message symbol fee ids h =
    let like = by_type-IsLike db civil rand message symbol fee ids h message.tx_type in
    ap is_some like.inserted
    ∙ is_some-save_by_type db civil rand message symbol fee message.tx_type refl
