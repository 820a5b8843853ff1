-- ===== src/Sample.antt =====
-- A small wallet for the tests: libraries that are simple functions, and one output of 1000000
-- satoshi at an inner address.
use dashcash_wallet.Prelude.{ℕ, ◌+◌, ◌*◌, true, false, none, some, [], ◌∷◌, length, if◌then◌else◌}
use dashcash_wallet.Prelude.Int.{pos}
use dashcash_wallet.Text.{Bytes, bytes_eq, codes}
use dashcash_wallet.Utxos.{Badger, found}
use dashcash_wallet.Payment.{MsgTx, OutPoint, pub_key_hash}
use dashcash_wallet.Addresses.{Addrs, Keys}
use dashcash_wallet.Signing.{Signer, failure, value}
use dashcash_wallet.Config.{Config}
use dashcash_wallet.Handlers.{Request, Services, Wallet}

abbrev pub keys : Keys
keys = record {
  public_key = λ xpub branch index. some ((b'a' + branch) ∷ (b'a' + index) ∷ []);
  private_key = λ xpriv index. some (index ∷ []);
  sha256 = λ b. b;
  ripemd160 = λ b. b;
  base58 = λ b. b;
  decode_address = pub_key_hash;
  is_for_net = λ a. true;
}

-- The library signs on btc chains only.
abbrev pub signer : Signer
signer = record {
  add_data = λ d. length d ∷ d;
  btc_sign = λ signed i script key. value (codes "s");
  bch_sign = λ signed i script key amount. failure;
  bsv_sign = λ signed i script key amount. failure;
  bsv_script = λ sig key. value sig;
}

-- A store that reads the same output under every key.
abbrev pub one_output : Badger ℕ
one_output = record {
  get = λ d k. found (codes "q:1000000");
  put = λ d k v. some d;
  delete = λ d k. some d;
  items = λ d. (codes "ab/0", codes "q:1000000") ∷ [];
}

abbrev pub addrs : Addrs
addrs = (codes "q", codes "1/0") ∷ []

abbrev pub point : OutPoint
point = record { hash = codes "ab"; index = 0 }

abbrev pub spending : MsgTx
spending = record { tx_in = point ∷ []; tx_out = [] }

-- The size of a transaction with plain inputs and outputs.
abbrev pub plain_size : MsgTx → ℕ
plain_size tx = 10 + 148 * length tx.tx_in + 34 * length tx.tx_out

abbrev pub services : Services ℕ
services = record {
  badger = one_output;
  keys = keys;
  signer = signer;
  trezor = record {
    connect_rpc = true;
    raw_transaction = λ hash. none;
    script_addrs = λ script. none;
  };
  omni = record {
    omni_get_balance = λ addr. some (codes "5");
    omni_list_pending = λ addr. some [];
  };
  outside = record {
    previous_output = λ hash index. none;
    extract_addresses = λ script. none;
    is_null_data = λ script. false;
    show_address = λ a. some a;
    load_addr_path = λ a. none;
    add_data = λ d. length d ∷ d;
  };
  serialize_size = plain_size;
  connect_rpc = true;
  connect_mempool = true;
  send_raw_transaction = λ tx. some (codes "cd");
  tx_chain = λ tx. record { hash = codes "cd"; ins = []; outs = [] };
  deserialize = λ buf. none;
}

abbrev pub config : Bytes → Config
config chain = record {
  test_net = pos 0;
  chain_name = chain;
  chain_id = pos 1;
  rpc_url = [];
  rpc_user = [];
  rpc_pass = [];
  port = pos 8081;
  xpub = codes "x";
  xpriv = codes "y";
  account_id = pos 0;
  index = 3;
  in_index = 1;
  last_block = 100;
  fee_rate = 10000;
  registry_addr = [];
  zmq_url = [];
  db_dir = [];
  db_host = [];
  db_name = [];
  db_user = [];
  db_pass = [];
}

abbrev pub wallet : Bytes → Wallet ℕ
wallet chain = record { config = config chain; db = 0; addrs = addrs }

-- A request for 0.001 coins, or 3 tokens, to the address "p".
abbrev pub fields : Bytes → Bytes → Bytes
fields amount name =
    if bytes_eq name (codes "to")
    then codes "p"
    else if bytes_eq name (codes "token")
    then codes "USDT"
    else if bytes_eq name (codes "from")
    then codes "q"
    else if bytes_eq name (codes "amount")
    then amount
    else []

abbrev pub request : Bytes → Request
request amount = record { form = some (fields amount); query = fields amount }
