-- ===== src/Config.antt =====
-- config/config.go: the settings of the process, how they are read from the ini file and what is
-- written back. Package ini is a parameter.
pub mod Saved
mod Tests
use dashcash_wallet.Prelude.{ℕ, ◌+◌, ◌-◌, ◌%◌, ◌^◌, String}
use dashcash_wallet.Prelude.Int.{ℤ, pos, signed32, word64}
use dashcash_wallet.Text.{Bytes, codes}
use dashcash_wallet.Decimal.{format_uint}

pub record Config : Type 0 where
  pub test_net : ℤ
  pub chain_name : Bytes
  pub chain_id : ℤ
  pub rpc_url : Bytes
  pub rpc_user : Bytes
  pub rpc_pass : Bytes
  pub port : ℤ
  pub xpub : Bytes
  pub xpriv : Bytes
  pub account_id : ℤ
  pub index : ℕ
  pub in_index : ℕ
  pub last_block : ℕ
  pub fee_rate : ℕ
  pub registry_addr : Bytes
  pub zmq_url : Bytes
  pub db_dir : Bytes
  pub db_host : Bytes
  pub db_name : Bytes
  pub db_user : Bytes
  pub db_pass : Bytes

-- What is used of package ini: the text and the number of a key in a section, the latter with the
-- default for a key without a number, and a file with another text for a key.
pub record Ini (F : Type 0) : Type 0 where
  pub string_of : F → Bytes → Bytes → Bytes
  pub must_int : F → Bytes → Bytes → ℤ → ℤ
  pub set_value : F → Bytes → Bytes → Bytes → F

module _ {F : Type 0} (ini : Ini F) where
  abbrev pub text_at : F → String → String → Bytes
  text_at file section key = ini.string_of file (codes section) (codes key)

  abbrev pub number_at : F → String → String → ℕ → ℤ
  number_at file section key default = ini.must_int file (codes section) (codes key) (pos default)

  -- `LoadConfiguration` on a file that ini.Load reads.
  unfoldable pub load_configuration : F → Config
  load_configuration file = record {
    test_net = number_at file "network" "testnet" 0;
    chain_name = text_at file "network" "chain";
    chain_id = signed32 (word64 (number_at file "network" "chain_id" 1));
    rpc_url = text_at file "network" "rpc_host";
    rpc_user = text_at file "network" "rpc_user";
    rpc_pass = text_at file "network" "rpc_pass";
    port = number_at file "network" "port" 8081;
    xpub = text_at file "account" "xpub";
    xpriv = text_at file "account" "xpriv";
    account_id = number_at file "account" "id" 0;
    index = word64 (number_at file "account" "index" 0) % 2 ^ 32;
    in_index = word64 (number_at file "account" "change_index" 0) % 2 ^ 32;
    last_block = word64 (number_at file "extapi" "lastBlock" 0);
    fee_rate = word64 (number_at file "extapi" "feerate" 0) % 2 ^ 32;
    registry_addr = text_at file "extapi" "registry";
    zmq_url = text_at file "extapi" "zmq";
    db_dir = text_at file "extapi" "dbDir";
    db_host = text_at file "db" "host";
    db_name = text_at file "db" "name";
    db_user = text_at file "db" "user";
    db_pass = text_at file "db" "pass";
  }

  -- What `SaveConfiguration` writes, if it can.
  unfoldable pub save_configuration : Config → F → F
  save_configuration config file =
      let index = ini.set_value file (codes "account") (codes "index") (format_uint config.index) in
      let change =
        ini.set_value index (codes "account") (codes "change_index")
          (format_uint config.in_index) in
      ini.set_value change (codes "extapi") (codes "lastBlock")
        (format_uint ((config.last_block + (2 ^ 64 - 3)) % 2 ^ 64))
