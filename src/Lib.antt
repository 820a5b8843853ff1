-- ===== src/Lib.antt =====
-- The dashcash wallet, a service that watches a chain of the Bitcoin family, keeps the unspent
-- outputs of its addresses and builds payments from them.
--
-- The parts and their files (paths from the root of the repository):
--   Bech32.antt    util/bech32.go: Decode, Encode and the checksum of cash addresses. `decode`,
--                  `encode`, `bech32_checksum` and `verify_checksum` are Decode, Encode,
--                  bech32Checksum and bech32VerifyChecksum; `decode_lower` and `decode_parts` are
--                  the later parts of Decode, and an error is a value of `DecodeError`.
--   ConvertBits.antt  util/bech32.go: ConvertBits, with the inner loop on fuel. `total` and
--                  `size` in ConvertBits/Value.antt are all bits so far, as a number and counted.
--   Shift.antt     util/util.go: LeftShift and RightShift, which move the decimal point of an
--                  amount. A panic of RightShift is `none`.
--   Listener.antt  subscriber.go: Listener, with the pool of unconfirmed blocks. A `Listener` has
--                  the variables of the loop, what was sent on the channel and the height left in
--                  the configuration; `on_new_block` is one message on the channel of tips,
--                  `handle_block` one round, `listen` a sequence of messages. ReadBlock is a
--                  parameter over a state of its own.
--   Notifier.antt  subscriber.go: Notifier, as the list of calls that a message leads to.
--   Notify.antt    main.go: NotifyMessage, which the listener sends to the notifier.
--   Utxos.antt     db.go: the store of unspent outputs. `create_utxo`, `remove_utxo`,
--                  `get_utxo_by_key`, `get_all_utxo`, `get_all_utxo_by_branch`, `get_balance` and
--                  `get_inner_balance` are the functions of these names. `Badger` is the database as
--                  a parameter, `IsMap` what it documents; `Holds` says which list of outputs the
--                  store stands for.
--   Payment.antt   db.go: CreateTxForOutputs, and BuildRawMsgTx and getScriptFromAddress of
--                  payment.go. `choose` and `add_inputs` are the two loops, `finish` what follows
--                  them; addresses, scripts and the size of a transaction are parameters.
--   Chain.antt     chain.go: ParseTransaction, which notes the outputs of a transaction in the store
--                  and makes its messages. `take_inputs` and `take_outputs` are its loops,
--                  `omni_messages` and `coin_messages` its two parts behind them; what it calls of
--                  the node, txscript and the addresses is the record `Outside`, and `none` is a panic.
--                  ReadBlock and ParseMempoolTransaction are in Chain/Blocks.antt; a panic of
--                  ReadBlock ends the process, which its state `none` stands for.
--   Omni.antt      usdt/usdt.go: GetOmniUsdtScript, and the part of ParseTransaction that reads
--                  such a script.
--   Addresses.antt util/util.go and util/bech32.go: AddressInit, the new addresses, the map of
--                  addresses, VerifyAddress, IsNativeSegWitAddress, ConvertLegacyToCashAddr and
--                  ConvertCashAddrToLegacy. The map is a list of its entries, the newest first.
--   Signing.antt   payment.go: SignMsgTx. `sign_input` is a round of its loop, and a result is a
--                  value, an error or a panic; Signing/Signed.antt says which script each input
--                  gets.
--   Trezor.antt    payment.go: PrepareTrezorSign, and Hex.antt the texts of bytes.
--   Usdt.antt      usdt/usdt.go: GetUSDTBalance and GetOMNIPendingAmount.
--   Handlers.antt  handlers.go: each handler as a function of the wallet and a request to an
--                  `Outcome`: an answer with the wallet behind it and what was sent to the node, no
--                  answer, or a panic. SendOmniCoinHandler is in Handlers/Tokens.antt, the two
--                  handlers for hardware wallets are in Handlers/Prepare.antt; Handlers/Routes.antt
--                  has the routes of main.go, and `Reachable`, the wallets that a process can come
--                  to; Handlers/Restart.antt is about the addresses of GetAddrHandler after a
--                  restart.
--   Fundflow.antt  fundflow.go: the look-ups and `save_fun_flow`; Fundflow/Rows.antt has the rows of
--                  each kind of transaction and EnterFundflowDB.
--   Config.antt    config/config.go: LoadConfiguration and SaveConfiguration.
--   Sample.antt    a small wallet for the tests.
--   Fees.antt      db.go: txFee and minOutputAmount, with their uint32 products.
--   Params.antt    util/param.go: the parameters of the chains and GetParamByName.
--   Text.antt      strings as lists of bytes, with the functions of package strings in use.
--   Decimal.antt   numbers as fmt and strconv print and read them.
--   Bits.antt      the laws of the operations on bits that the checksum and ConvertBits need.
--   Prelude.antt   library names, integers with the wrap-around of int64, lists.
--
-- The parts meet in these places: the listener sends the messages of blocks that ReadBlock made,
-- and the notifier shows their amounts with LeftShift; the handlers read amounts with RightShift
-- and strconv.ParseInt, and the addresses of a cash chain go through Decode and Encode.
--
-- CreateTxForOutputs reads the store of unspent outputs and pays the fees of Fees.antt.
--
-- Bounds and fuel. Amounts wrap around at 64 bits, the sizes and rates of fees at 32. The checksum
-- works on 40 bits, inside the int of the program. The loop of the listener gets as much fuel as
-- there are heights up to the tip; the listener's results are for heights below 2^31, and its
-- heights wrap around at 2^64 as in the code. The inner loop of ConvertBits gets a round for each bit
-- of a group, of which each round takes one or more.
--
-- The handlers work on one wallet: the settings with the two indexes, the store and the map of
-- addresses. They share CreateTxForOutputs, SignMsgTx and ParseMempoolTransaction, which take their
-- addresses from that map.
--
-- Not modelled: the connections to the node, the SQL database, HTTP, ZeroMQ and Tars, which only
-- move data; the JSON texts of replies and the texts of library errors; what
-- exactly a panic leaves of a wallet, for which `Reachable` takes all that it may; goroutines and the mutex of the handlers, so that requests are served one after the
-- other; flags and signals.
pub mod Prelude
pub mod Bits
pub mod Text
pub mod Decimal
pub mod Shift
pub mod Bech32
pub mod Addresses
pub mod Chain
pub mod Config
pub mod ConvertBits
pub mod Fees
pub mod Fundflow
pub mod Handlers
pub mod Hex
pub mod Listener
pub mod Notifier
pub mod Notify
pub mod Omni
pub mod Params
pub mod Payment
pub mod Sample
pub mod Signing
pub mod Trezor
pub mod Usdt
pub mod Utxos
